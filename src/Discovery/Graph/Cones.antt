-- ===== src/Discovery/Graph/Cones.antt =====
-- `forwardCone` of internal/discovery/graph.go: what a cone holds.
use tf_mut.Discovery.Graph.Walk.{closure_loop_ends, closure_loop-Reaches, Reaches}
use mathlib.Core.Path.{subst}
use tf_mut.Prelude.{
  ℕ, zero, suc, ◌≡◌, refl, sym, ◌∙◌, ◌↔◌, inl, inr, Bool, true, ◌||◌, List, [], ◌∷◌, arith,
  if◌then◌else◌, Bool-cases, length, some_pass, first_of,
}
use tf_mut.Text.Cutting.{has_prefix}
use tf_mut.Text.{text}
use tf_mut.Discovery.Graph.{
  visited, owner_of, is_resource_block, owner_touched, visit, step, cone_loop, first_search,
  forward_cone, closure_loop, Node, Graph, Search,
}

-- What the loop adds to `touched` for its members, and the test it makes for `unbounded`.
unfoldable pub touched_by : Graph → List Node → List Node
unfolding is_resource_block
touched_by g [] = []
touched_by g (n ∷ members) =
    let owned = owner_touched (owner_of g.owners n) (touched_by g members) in
    if is_resource_block n then n ∷ owned else owned

pub unbounding : Graph → Node → Bool
unbounding g n = visited n g.unbounded || has_prefix (text "provider.") n.address

Kept : Graph → Search → Type 0
Kept g s = (s.touched ≡ touched_by g s.members) × (s.unbounded ≡ some_pass (unbounding g) s.members)

module _ (g : Graph) where
  visit-Kept : (n : Node) (rest : List Node) (s : Search) → Kept g s → Kept g (visit g n rest s)
  unfolding visit Kept touched_by unbounding is_resource_block
  visit-Kept n rest s (t, u) = (rw (t) refl, ground (arith, u))

  step-Kept : (n : Node) (rest : List Node) (s : Search) → Kept g s → Kept g (step g n rest s)
  unfolding step Kept
  step-Kept n rest s k =
      let after : Bool → Search = λ b. if b then record s { queue = rest } else visit g n rest s in
      elim (Bool-cases (visited n s.members)) [
        | inl v ↦ subst (λ b. Kept g (after b)) (sym v) k
        | inr v ↦ subst (λ b. Kept g (after b)) (sym v) (visit-Kept n rest s k)
      ]

  cone_loop-Kept : (fuel : ℕ) (s : Search) → Kept g s → Kept g (cone_loop g fuel s)
  unfolding cone_loop
  cone_loop-Kept zero s k = k
  cone_loop-Kept (suc fuel) s k =
      let after : List Node → Search =
        λ queue. elim queue [ [] ↦ s | n ∷ rest ↦ cone_loop g fuel (step g n rest s) ] in
      elim (first_of s.queue) [
        | inl e ↦ subst (λ queue. Kept g (after queue)) (sym e) k
        | inr (n, (rest, e)) ↦
            subst (λ queue. Kept g (after queue)) (sym e)
              (cone_loop-Kept fuel (step g n rest s) (step-Kept n rest s k))
      ]

  -- The loop of the cone walks as the loop of `MultiplicityGuard` does, along `dependents`.
  cone_loop-closure_loop :
      (fuel : ℕ) (s : Search)
      → (cone_loop g fuel s).members ≡ (closure_loop g.dependents fuel s.queue s.members).1
  unfolding cone_loop closure_loop step visit
  cone_loop-closure_loop zero s = refl
  cone_loop-closure_loop (suc fuel) s = elim (first_of s.queue) [
    | inl e ↦ ground (arith, e)
    | inr (n, (rest, e)) ↦ elim (Bool-cases (visited n s.members)) [
      | inl v ↦ ground (arith, e, v, cone_loop-closure_loop fuel (record s { queue = rest }))
      | inr v ↦ ground (arith, e, v, cone_loop-closure_loop fuel (visit g n rest s))
    ]
  ]

  cone_loop_queue :
      (fuel : ℕ) (s : Search)
      → (cone_loop g fuel s).queue ≡ (closure_loop g.dependents fuel s.queue s.members).0
  unfolding cone_loop closure_loop step visit
  cone_loop_queue zero s = refl
  cone_loop_queue (suc fuel) s = elim (first_of s.queue) [
    | inl e ↦ ground (arith, e)
    | inr (n, (rest, e)) ↦ elim (Bool-cases (visited n s.members)) [
      | inl v ↦ ground (arith, e, v, cone_loop_queue fuel (record s { queue = rest }))
      | inr v ↦ ground (arith, e, v, cone_loop_queue fuel (visit g n rest s))
    ]
  ]

  -- The loop of `forwardCone` ends: after one round more than the graph has dependent edges, its queue is empty, from any start.
  pub cone_loop_ends :
      (start : Node) → (cone_loop g (suc (length g.dependents)) (first_search start)).queue ≡ []
  cone_loop_ends start =
      cone_loop_queue (suc (length g.dependents)) (first_search start)
      ∙ closure_loop_ends g.dependents start

  pub forward_cone-Kept :
      (start : Node)
      → ((forward_cone g start).touched ≡ touched_by g (forward_cone g start).members)
        × ((forward_cone g start).unbounded
            ≡ some_pass (unbounding g) (forward_cone g start).members)
  unfolding forward_cone Kept touched_by
  forward_cone-Kept start =
      cone_loop-Kept (suc (length g.dependents)) (first_search start) (refl, refl)

  -- The members of a forward cone are exactly the nodes that a path along the dependents reaches from its start.
  pub forward_cone-Reaches :
      (start n : Node)
      → (visited n (forward_cone g start).members ≡ true) ↔ Reaches g.dependents start n
  unfolding forward_cone
  forward_cone-Reaches start n =
      subst (λ members. (visited n members ≡ true) ↔ Reaches g.dependents start n)
        (sym (cone_loop-closure_loop (suc (length g.dependents)) (first_search start)))
        (closure_loop-Reaches g.dependents start n)
