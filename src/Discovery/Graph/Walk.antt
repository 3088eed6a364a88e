-- ===== src/Discovery/Graph/Walk.antt =====
-- The queue loops of internal/discovery/graph.go: what they have visited when they end.
use mathlib.Core.Path.{subst}
use tf_mut.Prelude.{
  ℕ, zero, suc, ◌+◌, ◌≤◌, ◌≡◌, refl, sym, ap, ◌↔◌, inl, inr, Bool, true, false, ◌||◌, List, [], ◌∷◌,
  ◌++◌, arith, if◌then◌else◌, Bool-cases, length, length-append,
}
use tf_mut.Discovery.Graph.{node_eq, node_eq_iff, visited, Edge, targets, closure_loop, Node}

-- The nodes that a walk along the edges reaches.
pub data Reaches (edges : List Edge) (start : Node) : Node → Type 0 where
  here : Reaches edges start start
  along :
      {m n : Node}
      → Reaches edges start m
      → visited n (targets edges m) ≡ true
      → Reaches edges start n

node_eq_refl : (n : Node) → node_eq n n ≡ true
node_eq_refl n = (node_eq_iff n n).1 refl

pub visited-append :
    (n : Node) (xs ys : List Node) → visited n (xs ++ ys) ≡ (visited n xs || visited n ys)
unfolding visited
visited-append n [] ys = refl
visited-append n (x ∷ xs) ys = ground (arith, visited-append n xs ys)

pub visited-cons :
    (n x : Node) (xs : List Node) → visited n (x ∷ xs) ≡ (node_eq n x || visited n xs)
unfolding visited
visited-cons n x xs = refl

pub visited-nil : (n : Node) → visited n [] ≡ false
unfolding visited
visited-nil n = refl

-- The edges whose source is not visited yet.
pending : List Edge → List Node → ℕ
pending [] set = 0
pending ((from, to) ∷ rest) set = (if visited from set then 0 else 1) + pending rest set

pending-visit :
    (edges : List Edge) (n : Node) (set : List Node)
    → visited n set ≡ false
    → pending edges (n ∷ set) + length (targets edges n) ≡ pending edges set
unfolding pending targets
pending-visit [] n set e = refl
pending-visit ((from, to) ∷ rest) n set e = elim (Bool-cases (node_eq from n)) [
  | inl p ↦ ground (
    arith,
    pending-visit rest n set e,
    p,
    visited-cons from n set,
    e,
    ap (λ m. visited m set) ((node_eq_iff from n).0 p),
  )
  | inr p ↦ ground (arith, pending-visit rest n set e, p, visited-cons from n set, e)
]

pending-nil : (edges : List Edge) → pending edges [] ≡ length edges
unfolding pending
pending-nil [] = refl
pending-nil ((from, to) ∷ rest) = ground (arith, pending-nil rest, visited-nil from)

module _ (edges : List Edge) where
  -- With a round for each queued node and each edge not followed yet the queue runs empty.
  closure_loop-empty :
      (fuel : ℕ) (queue closure : List Node)
      → length queue + pending edges closure ≤ fuel
      → (closure_loop edges fuel queue closure).0 ≡ []
  unfolding closure_loop
  closure_loop-empty zero [] closure le = refl
  closure_loop-empty zero (current ∷ rest) closure le = ground (arith, le)
  closure_loop-empty (suc fuel) [] closure le = refl
  closure_loop-empty (suc fuel) (current ∷ rest) closure le =
      elim (Bool-cases (visited current closure)) [
        | inl v ↦ ground (arith, v, closure_loop-empty fuel rest closure (omega arith))
        | inr v ↦ ground (
          arith,
          v,
          closure_loop-empty fuel (rest ++ targets edges current) (current ∷ closure) (
              omega (
                arith,
                le,
                pending-visit edges current closure v,
                length-append rest (targets edges current),
              )),
        )
      ]

  pub closure_loop_ends :
      (start : Node) → (closure_loop edges (suc (length edges)) (start ∷ []) []).0 ≡ []
  closure_loop_ends start =
      closure_loop-empty (suc (length edges)) (start ∷ []) [] (omega (arith, pending-nil edges))

-- What the walk keeps: all it holds is reached, and an edge out of a visited node leads to a node it
-- holds.
record Held (edges : List Edge) (start : Node) (queue closure : List Node) : Type 0 where
  queued : (n : Node) → visited n queue ≡ true → Reaches edges start n
  closed : (n : Node) → visited n closure ≡ true → Reaches edges start n
  begun : (visited start queue || visited start closure) ≡ true
  followed :
      (m n : Node)
      → visited m closure ≡ true
      → visited n (targets edges m) ≡ true
      → (visited n queue || visited n closure) ≡ true

module _ (edges : List Edge) (start : Node) where
  Held-skip :
      (current : Node) (rest closure : List Node)
      → visited current closure ≡ true
      → Held edges start (current ∷ rest) closure
      → Held edges start rest closure
  Held-skip current rest closure v h = record {
    queued = λ n e. h.queued n (ground (arith, e, visited-cons n current rest));
    closed = h.closed;
    begun = ground (arith, h.begun, v, visited-cons start current rest, node_eq_iff start current);
    followed = λ m n e t.
        ground (arith, h.followed m n e t, v, visited-cons n current rest, node_eq_iff n current);
  }

  Held-take :
      (current : Node) (rest closure : List Node)
      → Held edges start (current ∷ rest) closure
      → Held edges start (rest ++ targets edges current) (current ∷ closure)
  Held-take current rest closure h =
      let reached : Reaches edges start current =
        h.queued current
          (ground (arith, visited-cons current current rest, node_eq_refl current)) in
      record {
        queued = λ n e. elim (Bool-cases (visited n rest)) [
          | inl r ↦ h.queued n (ground (arith, r, visited-cons n current rest))
          | inr r ↦
              along reached (ground (arith, e, r, visited-append n rest (targets edges current)))
        ];
        closed = λ n e. elim (Bool-cases (node_eq n current)) [
          | inl p ↦ subst (λ m. Reaches edges start m) (sym ((node_eq_iff n current).0 p)) reached
          | inr p ↦ h.closed n (ground (arith, e, p, visited-cons n current closure))
        ];
        begun = ground (
          arith,
          h.begun,
          visited-cons start current rest,
          visited-cons start current closure,
          visited-append start rest (targets edges current),
        );
        followed = λ m n e t. elim (Bool-cases (node_eq m current)) [
          | inl p ↦
              ground (
                arith,
                t,
                (node_eq_iff m current).0 p,
                visited-append n rest (targets edges current),
              )
          | inr p ↦ ground (
            arith,
            h.followed m n (ground (arith, e, p, visited-cons m current closure)) t,
            visited-cons n current rest,
            visited-cons n current closure,
            visited-append n rest (targets edges current),
          )
        ];
      }

  HeldBy : List Node × List Node → Type 0
  HeldBy (queue, closure) = Held edges start queue closure

  closure_loop-Held :
      (fuel : ℕ) (queue closure : List Node)
      → Held edges start queue closure
      → HeldBy (closure_loop edges fuel queue closure)
  unfolding closure_loop HeldBy
  closure_loop-Held zero queue closure h = h
  closure_loop-Held (suc fuel) [] closure h = h
  closure_loop-Held (suc fuel) (current ∷ rest) closure h =
      let after : Bool → List Node × List Node = λ b.
        if b
        then closure_loop edges fuel rest closure
        else closure_loop edges fuel (rest ++ targets edges current) (current ∷ closure) in
      elim (Bool-cases (visited current closure)) [
        | inl v ↦
            subst (λ b. HeldBy (after b)) (sym v)
              (closure_loop-Held fuel rest closure (Held-skip current rest closure v h))
        | inr v ↦
            subst (λ b. HeldBy (after b)) (sym v)
              (closure_loop-Held fuel (rest ++ targets edges current) (current ∷ closure)
                (Held-take current rest closure h))
      ]

  first : Held edges start (start ∷ []) []
  first = record {
    queued = λ n e.
        subst (λ m. Reaches edges start m)
          (sym
            ((node_eq_iff n start).0 (ground (arith, e, visited-cons n start [], visited-nil n))))
          here;
    closed = λ n e. ground (arith, e, visited-nil n);
    begun = ground (arith, visited-cons start start [], node_eq_refl start);
    followed = λ m n e t. ground (arith, e, visited-nil m);
  }

  abbrev closure : List Node
  closure = (closure_loop edges (suc (length edges)) (start ∷ []) []).1

  closure-Held : Held edges start [] closure
  unfolding HeldBy
  closure-Held =
      subst (λ q. Held edges start q closure) (closure_loop_ends edges start)
        (closure_loop-Held (suc (length edges)) (start ∷ []) [] first)

  -- Every reached node is visited when the loop ends.
  Reaches-visited : (n : Node) → Reaches edges start n → visited n closure ≡ true
  Reaches-visited _ here = ground (arith, closure-Held.begun, visited-nil start)
  Reaches-visited _ (along {m} {n} r t) =
      ground (arith, closure-Held.followed m n (Reaches-visited m r) t, visited-nil n)

  pub closure_loop-Reaches :
      (n : Node)
      → (visited n (closure_loop edges (suc (length edges)) (start ∷ []) []).1 ≡ true)
        ↔ Reaches edges start n
  closure_loop-Reaches n = (closure-Held.closed n, Reaches-visited n)
