-- ===== src/Engine/Curate/Scope.antt =====
-- What curate may say, and of which assertions.
use tf_mut.Prelude.{
  ◌<◌, ◌≡◌, refl, ◌∙◌, inl, inr, Bool, true, false, not, ◌&&◌, ◌||◌, none, some, List, [], ◌∷◌,
  ◌++◌, arith, leb, Bool-cases, length, some_pass, all_pass,
}
use tf_mut.Text.{Text, text_eq, contains, text_eq_refl}
use tf_mut.Dict.{Dict}
use tf_mut.Engine.Curate.{
  eligible, kill_set, covers, subsumes, subsumed_by, finding, assertion_findings, cross_with,
  cross_scenario_findings, curate_findings, Assertion, Provenance, cross_scenario_redundant,
  CurateFinding,
}

found_subsumes :
    (declared : Assertion) (assertions : List Assertion) (sets : Dict (List Text)) (o : Assertion)
    → subsumed_by declared assertions sets ≡ some o
    → (subsumes sets declared o ≡ true) × (some_pass (λ a. text_eq a.id o.id) assertions ≡ true)
unfolding subsumed_by
found_subsumes declared [] sets o h = cc h
found_subsumes declared (a ∷ rest) sets o h = elim (Bool-cases (subsumes sets declared a)) [
  | inl e ↦ ground (arith, e, h, text_eq_refl a.id)
  | inr e ↦ ground (arith, e, h, found_subsumes declared rest sets o)
]

none_subsumes :
    (declared : Assertion) (assertions : List Assertion) (sets : Dict (List Text))
    → subsumed_by declared assertions sets ≡ none
    → all_pass
        (λ a.
          text_eq a.id declared.id
          || (leb (length (kill_set a.id sets)) (length (kill_set declared.id sets))
              || not (covers (kill_set a.id sets) (kill_set declared.id sets))))
        assertions
      ≡ true
unfolding subsumed_by subsumes
none_subsumes declared [] sets h = refl
none_subsumes declared (a ∷ rest) sets h = elim (Bool-cases (subsumes sets declared a)) [
  | inl e ↦ absurd (ground (arith, e, h))
  | inr e ↦ ground (arith, e, h, none_subsumes declared rest sets)
]

-- A container that `subsumedBy` finds comes from the suite, has another ID, and its kill set is larger
-- and holds every mutant of the smaller one; where none is found, no assertion of the suite with
-- another ID has a kill set that is larger and covers the smaller one.
pub subsumed_by_lem :
    (declared : Assertion) (assertions : List Assertion) (sets : Dict (List Text))
    → ((other : Assertion)
        → subsumed_by declared assertions sets ≡ some other
        → (text_eq other.id declared.id ≡ false)
          × (some_pass (λ a. text_eq a.id other.id) assertions ≡ true)
          × (length (kill_set declared.id sets) < length (kill_set other.id sets))
          × (all_pass (λ m. contains m (kill_set other.id sets)) (kill_set declared.id sets)
              ≡ true))
      × (subsumed_by declared assertions sets ≡ none
          → all_pass
              (λ a.
                text_eq a.id declared.id
                || (leb (length (kill_set a.id sets)) (length (kill_set declared.id sets))
                    || not (covers (kill_set a.id sets) (kill_set declared.id sets))))
              assertions
            ≡ true)
unfolding subsumes covers
subsumed_by_lem declared assertions sets = (
  λ o h.
      let (test, from_suite) = found_subsumes declared assertions sets o h in
      ground (arith, test, from_suite),
  λ h. none_subsumes declared assertions sets h,
)

-- The first member of a finding is hand-written or edited, and the second too where the finding is
-- across scenarios.
abbrev pub in_scope : CurateFinding → Bool
in_scope f = elim f.provenance [
  | [] ↦ false
  | c ∷ rest ↦
      eligible c && elim f.kind [ cross_scenario_redundant ↦ all_pass eligible rest | _ ↦ true ]
]

assertion_findings-scope :
    (all : List Assertion) (classes : Dict Provenance) (sets : Dict (List Text))
    (left : List Assertion)
    → all_pass in_scope (assertion_findings all classes sets left) ≡ true
unfolding assertion_findings finding
assertion_findings-scope all classes sets [] = refl
assertion_findings-scope all classes sets (a ∷ rest) =
    ground (arith, assertion_findings-scope all classes sets rest)

cross_with-scope :
    (a : Assertion) (sets : Dict (List Text)) (classes : Dict Provenance) (rest : List Assertion)
    → all_pass in_scope (cross_with a sets classes rest) ≡ true
unfolding cross_with finding
cross_with-scope a sets classes [] = refl
cross_with-scope a sets classes (b ∷ rest) = ground (arith, cross_with-scope a sets classes rest)

all_pass-append {ℓ} :
    {A : Type ℓ} (p : A → Bool) (xs ys : List A)
    → all_pass p (xs ++ ys) ≡ (all_pass p xs && all_pass p ys)
all_pass-append p [] ys = refl
all_pass-append p (x ∷ xs) ys = ground (arith, all_pass-append p xs ys)

cross_scenario_findings-scope :
    (assertions : List Assertion) (sets : Dict (List Text)) (classes : Dict Provenance)
    → all_pass in_scope (cross_scenario_findings assertions sets classes) ≡ true
unfolding cross_scenario_findings
cross_scenario_findings-scope [] sets classes = refl
cross_scenario_findings-scope (a ∷ rest) sets classes = ground (
  arith,
  all_pass-append in_scope (cross_with a sets classes rest)
      (cross_scenario_findings rest sets classes),
  cross_with-scope a sets classes rest,
  cross_scenario_findings-scope rest sets classes,
)

-- Curate never speaks against an assertion that the tool wrote and nobody edited: the first member of
-- every finding is hand-written or edited, and both are where the finding is across scenarios.
pub curate_findings-scope :
    (assertions : List Assertion) (sets : Dict (List Text)) (classes : Dict Provenance)
    → all_pass in_scope (curate_findings assertions sets classes) ≡ true
unfolding curate_findings
curate_findings-scope assertions sets classes =
    all_pass-append in_scope (assertion_findings assertions classes sets assertions)
      (cross_scenario_findings assertions sets classes)
    ∙ ground (
      arith,
      assertion_findings-scope assertions classes sets assertions,
      cross_scenario_findings-scope assertions sets classes,
    )
