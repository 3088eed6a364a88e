-- ===== src/Oracle/Judge/Diagnosing.antt =====
-- `diagnoseDelta`: which diagnosis a proven difference gets.
use tf_mut.Prelude.{
  ◌≡◌, refl, inl, inr, Bool, true, some, List, [], ◌∷◌, arith, if◌then◌else◌, Bool-cases, some_pass,
}
use tf_mut.Text.{Text, contains, text_eq_refl}
use tf_mut.Dict.{is_some}
use tf_mut.Fingerprint.Delta.{addresses}
use tf_mut.Oracle.Outcome.{survived, Diagnosis, weak_assertion, no_assertion, unasserted}
use tf_mut.Oracle.Constructors.{survived_weak_assertion, survived_no_assertion, survived_unasserted}
use tf_mut.Oracle.Observation.{Measurement}
use tf_mut.Oracle.Judge.{first_passing, diagnose_delta}

pub first_passing-passes :
    (p : Text → Bool) (xs : List Text) {a : Text}
    → first_passing p xs ≡ some a
    → (p a ≡ true) × (contains a xs ≡ true)
unfolding first_passing contains
first_passing-passes p [] h = cc
first_passing-passes p (x ∷ xs) {a} h = elim (Bool-cases (p x)) [
  | inl e ↦ ground (arith, h, e, text_eq_refl x)
  | inr e ↦
      let (passes, member) = first_passing-passes p xs {a = a} (rw (← h) (rw e refl)) in
      (passes, ground (arith, member))
]

pub first_passing-none :
    (p : Text → Bool) (xs : List Text) → is_some (first_passing p xs) ≡ some_pass p xs
unfolding first_passing
first_passing-none p [] = refl
first_passing-none p (x ∷ xs) = ground (arith, first_passing-none p xs)

abbrev pub read_somewhere : Measurement → Bool
read_somewhere m = some_pass (λ a. (m.reads a).read) (addresses m.delta)

abbrev pub defeated_somewhere : Measurement → Bool
defeated_somewhere m = some_pass (λ a. (m.reads a).defeated) (addresses m.delta)

-- The diagnosis by precedence: a proven read, then a defeated closure, then no reader at all.
abbrev pub delta_diagnosis : Measurement → Diagnosis
delta_diagnosis m =
    if read_somewhere m
    then weak_assertion
    else if defeated_somewhere m
    then unasserted
    else no_assertion

pub diagnose_delta_lem :
    (m : Measurement)
    → ((diagnose_delta m).state ≡ survived) × ((diagnose_delta m).diagnosis ≡ delta_diagnosis m)
unfolding diagnose_delta survived_weak_assertion survived_unasserted survived_no_assertion
diagnose_delta_lem m = ground (
  arith,
  first_passing-none (λ a. (m.reads a).read) (addresses m.delta),
  first_passing-none (λ a. (m.reads a).defeated) (addresses m.delta),
)
