-- ===== src/Discovery/Closure/Seen.antt =====
-- internal/discovery/closure.go: what the walk has seen, and when two walks agree.
use tf_mut.Prelude.{
  ℕ, zero, suc, ◌≤◌, ◌<◌, ◌≡◌, refl, ap, ◌∙◌, inl, inr, true, false, not, List, [], ◌∷◌, map, arith,
  if◌then◌else◌, Bool-cases, count_if,
}
use tf_mut.Text.{Text, text_eq, contains, text_eq_iff, text_eq_refl}
use tf_mut.Dict.{Dict}
use tf_mut.Discovery.Reach.{Ref, Reach}
use tf_mut.Discovery.Closure.{overlaps, expansions_for, conclusion, weaken, reach_each, reach}

-- The addresses that are not seen yet.
unfoldable pub unseen : List Text → List Text → ℕ
unseen addresses seen = count_if (λ a. not (contains a seen)) addresses

unfoldable pub Sub : List Text → List Text → Type 0
Sub seen after = (a : Text) → contains a seen ≡ true → contains a after ≡ true

pub unseen-Sub :
    (addresses seen after : List Text)
    → Sub seen after
    → unseen addresses after ≤ unseen addresses seen
unfolding unseen Sub
unseen-Sub [] seen after sub = omega arith
unseen-Sub (a ∷ rest) seen after sub = ground (arith, sub a, unseen-Sub rest seen after sub)

Sub-cons : (a : Text) (seen : List Text) → Sub seen (a ∷ seen)
unfolding Sub contains
Sub-cons a seen b e = ground (arith, e)

pub unseen-cons :
    (addresses : List Text) (a : Text) (seen : List Text)
    → contains a addresses ≡ true
    → contains a seen ≡ false
    → unseen addresses (a ∷ seen) < unseen addresses seen
unfolding unseen contains
unseen-cons [] a seen e f = ground (arith, e)
unseen-cons (b ∷ rest) a seen e f = elim (Bool-cases (text_eq a b)) [
  | inl same ↦ ground (
    arith,
    f,
    same,
    (text_eq_iff a b).0 same,
    text_eq_refl a,
    unseen-Sub rest seen (a ∷ seen) (Sub-cons a seen),
  )
  | inr other ↦ ground (
    arith,
    f,
    other,
    text_eq_iff a b,
    text_eq_iff b a,
    unseen-cons rest a seen (ground (arith, e, other)) f,
  )
]

weaken-address : (from r : Ref) → (weaken from r).address ≡ r.address
weaken-address from r = ground arith

-- A walk that forgets nothing it has seen.
unfoldable pub Grows : (Ref → List Text → Reach × List Text) → Type 0
Grows walk = (r : Ref) (seen : List Text) → Sub seen (walk r seen).1

module _ (from : Ref) where
  reach_each-Grows :
      (walk : Ref → List Text → Reach × List Text)
      → Grows walk
      → (refs : List Ref) (result : Reach) (seen : List Text)
      → Sub seen (reach_each walk from refs result seen).1
  unfolding reach_each Grows Sub
  reach_each-Grows walk grows [] result seen = λ a e. e
  reach_each-Grows walk grows (r ∷ rest) result seen = λ a e.
      elim (Bool-cases (walk (weaken from r) seen).0.read) [
        | inl v ↦ ground (arith, v, grows (weaken from r) seen a e)
        | inr v ↦ ground (
          arith,
          v,
          reach_each-Grows walk grows rest
              (if (walk (weaken from r) seen).0.defeated
                then (walk (weaken from r) seen).0
                else result)
              (walk (weaken from r) seen).1 a (grows (weaken from r) seen a e),
        )
      ]

  after_equal :
      (walk other : Ref → List Text → Reach × List Text) (r : Ref) (rest : List Ref)
      (result : Reach) (w : Reach × List Text)
      → reach_each walk from rest (if w.0.defeated then w.0 else result) w.1
        ≡ reach_each other from rest (if w.0.defeated then w.0 else result) w.1
      → elim w.0.read as (λ b. Reach × List Text) [
        | true ↦ w
        | false ↦ reach_each walk from rest (if w.0.defeated then w.0 else result) w.1
      ]
        ≡ elim w.0.read as (λ b. Reach × List Text) [
          | true ↦ w
          | false ↦ reach_each other from rest (if w.0.defeated then w.0 else result) w.1
        ]
  after_equal walk other r rest result w later = elim (Bool-cases w.0.read) [
    | inl e ↦ ground (arith, e)
    | inr e ↦ ground (arith, e, later)
  ]

  pub reach_each-same :
      (walk other : Ref → List Text → Reach × List Text)
      → Grows walk
      → (refs : List Ref) (result : Reach) (seen : List Text)
      → ((r : Ref) (after : List Text)
          → contains r.address (map (λ s. s.address) refs) ≡ true
          → Sub seen after
          → walk r after ≡ other r after)
      → reach_each walk from refs result seen ≡ reach_each other from refs result seen
  unfolding reach_each Grows Sub contains
  reach_each-same walk other grows [] result seen same = refl
  reach_each-same walk other grows (r ∷ rest) result seen same =
      let verdict : Reach × List Text = walk (weaken from r) seen in
      let next : Reach = if verdict.0.defeated then verdict.0 else result in
      let equal : walk (weaken from r) seen ≡ other (weaken from r) seen =
        same (weaken from r) seen (ground (arith, weaken-address from r, text_eq_refl r.address))
          (λ a e. e) in
      let later : reach_each walk from rest next verdict.1
          ≡ reach_each other from rest next verdict.1 =
        reach_each-same walk other grows rest next verdict.1 (λ s after known sub.
          same s after (ground (arith, known)) (λ a e. sub a (grows (weaken from r) seen a e))) in
      after_equal walk other r rest result verdict later
      ∙ ap
          (λ (w : Reach × List Text). elim w.0.read [
            | true ↦ w
            | false ↦ reach_each other from rest (if w.0.defeated then w.0 else result) w.1
          ])
          equal

pub reach-Grows :
    (fuel : ℕ) (expansions : Dict (List Ref)) (target : Text) → Grows (reach fuel expansions target)
unfolding reach Grows Sub contains
reach-Grows zero expansions target r seen = λ a e. e
reach-Grows (suc fuel) expansions target r seen = λ a e.
    elim (Bool-cases (contains r.address seen)) [
      | inl c ↦ ground (arith, e, c)
      | inr c ↦ elim (Bool-cases (overlaps r.address target)) [
        | inl o ↦ ground (arith, e, c, o)
        | inr o ↦ ground (
          arith,
          c,
          o,
          reach_each-Grows r (reach fuel expansions target) (reach-Grows fuel expansions target)
              (expansions_for expansions r.address) (conclusion false false []) (r.address ∷ seen) a
              (ground (arith, e)),
        )
      ]
    ]
