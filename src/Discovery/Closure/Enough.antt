-- ===== src/Discovery/Closure/Enough.antt =====
-- internal/discovery/closure.go: the fuel of the walk is enough.
use tf_mut.Prelude.{
  ℕ, zero, suc, ◌+◌, ◌≤◌, ◌≡◌, refl, sym, ap, ◌∙◌, inl, inr, true, false, not, some, List, [], ◌∷◌,
  ◌++◌, map, arith, Bool-cases, length, length-append, length-map, count_if-le-length, cases,
}
use tf_mut.Text.{Text, text_eq, contains, contains-append}
use tf_mut.Dict.{Dict, get}
use tf_mut.Discovery.Reach.{Ref}
use tf_mut.Discovery.Closure.{overlaps, enclosing, expansions_for, conclusion, reach, count_refs}
use tf_mut.Discovery.Closure.Seen.{
  unseen, Sub, unseen-Sub, unseen-cons, reach_each-same, reach-Grows,
}

abbrev addresses_in : Dict (List Ref) → List Text
addresses_in [] = []
addresses_in ((a, refs) ∷ rest) = map (λ r. r.address) refs ++ addresses_in rest

enclosing-known :
    (address a : Text) (expansions : Dict (List Ref))
    → contains a (map (λ r. r.address) (enclosing address expansions)) ≡ true
    → contains a (addresses_in expansions) ≡ true
unfolding enclosing contains
enclosing-known address a [] e = e
enclosing-known address a ((candidate, refs) ∷ rest) e = ground (
  arith,
  e,
  enclosing-known address a rest,
  contains-append a (map (λ r. r.address) refs) (addresses_in rest),
)

get-known :
    (address a : Text) (expansions : Dict (List Ref)) (refs : List Ref)
    → get address expansions ≡ some refs
    → contains a (map (λ r. r.address) refs) ≡ true
    → contains a (addresses_in expansions) ≡ true
unfolding get
get-known address a [] refs g e = ground (arith, g)
get-known address a ((key, held) ∷ rest) refs g e = elim (Bool-cases (text_eq key address)) [
  | inl same ↦
      ground (arith, g, e, same, contains-append a (map (λ r. r.address) held) (addresses_in rest))
  | inr other ↦ ground (
    arith,
    get-known address a rest refs (ground (arith, g, other)) e,
    contains-append a (map (λ r. r.address) held) (addresses_in rest),
  )
]

expansions_for-known :
    (expansions : Dict (List Ref)) (address a : Text)
    → contains a (map (λ r. r.address) (expansions_for expansions address)) ≡ true
    → contains a (addresses_in expansions) ≡ true
unfolding expansions_for
expansions_for-known expansions address a e = elim (cases (get address expansions)) [
  | inl g ↦ ground (arith, e, g, enclosing-known address a expansions)
  | inr (refs, g) ↦ get-known address a expansions refs g (ground (arith, e, g))
]

module _ (expansions : Dict (List Ref)) (target : Text) where
  -- One more round of fuel changes nothing at a reference when it changes nothing further down.
  reach-step :
      (fuel : ℕ) (r : Ref) (seen : List Text)
      → ((next : Ref) (after : List Text)
          → contains next.address (addresses_in expansions) ≡ true
          → contains r.address seen ≡ false
          → Sub (r.address ∷ seen) after
          → reach fuel expansions target next after ≡ reach (suc fuel) expansions target next after)
      → reach (suc fuel) expansions target r seen ≡ reach (suc (suc fuel)) expansions target r seen
  unfolding reach
  reach-step fuel r seen below = elim (Bool-cases (contains r.address seen)) [
    | inl c ↦ ground (arith, c)
    | inr c ↦ elim (Bool-cases (overlaps r.address target)) [
      | inl o ↦ ground (arith, c, o)
      | inr o ↦
          let refs : List Ref = expansions_for expansions r.address in
          let same =
            reach_each-same r (reach fuel expansions target) (reach (suc fuel) expansions target)
              (reach-Grows fuel expansions target) refs (conclusion false false [])
              (r.address ∷ seen)
              (λ next after known sub.
                below next after (expansions_for-known expansions r.address next.address known) c
                  sub) in
          ground (arith, c, o, same)
    ]
  ]

  reach-more :
      (fuel : ℕ) (r : Ref) (seen : List Text)
      → contains r.address (addresses_in expansions) ≡ true
      → unseen (addresses_in expansions) seen ≤ fuel
      → reach (suc fuel) expansions target r seen ≡ reach (suc (suc fuel)) expansions target r seen
  reach-more zero r seen known enough = reach-step zero r seen (λ next after k c sub.
      ground (arith, enough, unseen-cons (addresses_in expansions) r.address seen known c))
  reach-more (suc fuel) r seen known enough = reach-step (suc fuel) r seen (λ next after k c sub.
      reach-more fuel next after k (
        omega (
          arith,
          enough,
          unseen-cons (addresses_in expansions) r.address seen known c,
          unseen-Sub (addresses_in expansions) (r.address ∷ seen) after sub,
        )))

  length-addresses_in : (ex : Dict (List Ref)) → length (addresses_in ex) ≡ count_refs ex
  length-addresses_in [] = refl
  length-addresses_in ((a, refs) ∷ rest) = omega (
    arith,
    length-append (map (λ r. r.address) refs) (addresses_in rest),
    length-map refs (λ r. r.address),
    length-addresses_in rest,
  )

  -- The walk of one reference from nothing seen finds the same, and has seen the same, with the fuel that `Reads` gives it, two more than the references of the expansions, as with any more.
  pub reach-enough :
      (more : ℕ) (r : Ref)
      → reach (more + suc (suc (count_refs expansions))) expansions target r []
        ≡ reach (suc (suc (count_refs expansions))) expansions target r []
  unfolding unseen
  reach-enough zero r = ap (λ (n : ℕ). reach n expansions target r []) (omega arith)
  reach-enough (suc more) r =
      let n : ℕ = more + count_refs expansions in
      let step : reach (suc (suc n)) expansions target r []
          ≡ reach (suc (suc (suc n))) expansions target r [] =
        reach-step (suc n) r [] (λ next after k c sub. reach-more n next after k (
          omega (
            arith,
            length-addresses_in expansions,
            count_if-le-length (λ a. not (contains a after)) (addresses_in expansions),
          ))) in
      ap (λ (k : ℕ). reach k expansions target r []) (omega arith)
      ∙ sym step
      ∙ ap (λ (k : ℕ). reach k expansions target r []) (omega arith)
      ∙ reach-enough more r
