-- ===== src/Oracle/Judge/Evidence.antt =====
-- The assertion that a weak-assertion verdict points at.
use tf_mut.Discovery.Reach.{location}
use tf_mut.Fingerprint.Delta.{addresses}
use tf_mut.Fingerprint.Delta.Addresses.{addresses_lem}
use tf_mut.Oracle.Judge.Diagnosing.{first_passing-passes}
use tf_mut.Prelude.{
  ◌≡◌, refl, sym, ap, ◌∙◌, inl, inr, Bool, true, Option, none, some, List, [], ◌∷◌, arith,
  Bool-cases, all_pass,
}
use tf_mut.Prelude.Sorting
use tf_mut.Text.{Text, contains, text_eq_iff}
use tf_mut.Text.Order.{text_le, text_order}
use tf_mut.Oracle.Outcome.{weak_assertion, Outcome}
use tf_mut.Oracle.Constructors.{
  survived_indeterminate_unknowns, survived_indeterminate_volatility, survived_weak_assertion,
  survived_no_assertion, survived_unasserted, new_structurally_unassertable, new_unobservable,
  new_killed, new_killed_by_error, new_timed_out, new_invalid, new_survived_phase_one,
}
use tf_mut.Oracle.Observation.{Measurement}
use tf_mut.Oracle.Judge.{first_passing, diagnose_delta, judge_phase_two, judge_survivor, judge}

member-passes :
    (p : Text → Bool) (b : Text) (xs : List Text)
    → all_pass p xs ≡ true
    → contains b xs ≡ true
    → p b ≡ true
unfolding contains
member-passes p b [] h k = cc
member-passes p b (x ∷ xs) h k = ground (arith, h, k, member-passes p b xs, text_eq_iff b x)

text_le_refl : (a : Text) → text_le a a ≡ true
unfolding text_le
text_le_refl [] = refl
text_le_refl (c ∷ a) = ground (arith, text_le_refl a)

first_passing-least :
    (p : Text → Bool) (xs : List Text) (a b : Text)
    → Sorting.IsSorted text_order xs
    → first_passing p xs ≡ some a
    → contains b xs ≡ true
    → p b ≡ true
    → text_le a b ≡ true
unfolding first_passing contains
first_passing-least p [] a b s h k i = cc
first_passing-least p (x ∷ xs) a b s h k i = elim (Bool-cases (p x)) [
  | inl e ↦
      ground
        (arith, e, h, k, text_eq_iff b x, text_le_refl x, member-passes (λ y. text_le x y) b xs s.0)
  | inr e ↦ ground (arith, e, h, k, i, text_eq_iff b x, first_passing-least p xs a b s.1)
]

weak-diagnosed :
    (m : Measurement) → (judge m).diagnosis ≡ weak_assertion → judge m ≡ diagnose_delta m
unfolding judge judge_survivor judge_phase_two new_killed new_invalid new_killed_by_error
    new_timed_out new_survived_phase_one new_structurally_unassertable
    survived_indeterminate_unknowns survived_indeterminate_volatility new_unobservable
weak-diagnosed m h = ground (arith, h)

weak-delta :
    (m : Measurement)
    → (diagnose_delta m).diagnosis ≡ weak_assertion
    → (a : Text) × (first_passing (λ a. (m.reads a).read) (addresses m.delta) ≡ some a)
      × ((diagnose_delta m).evidence.assertion ≡ location (m.reads a).assertion)
unfolding diagnose_delta survived_weak_assertion survived_unasserted survived_no_assertion
weak-delta m h = go (first_passing (λ a. (m.reads a).read) (addresses m.delta)) refl
  where
    go :
        (o : Option Text)
        → first_passing (λ a. (m.reads a).read) (addresses m.delta) ≡ o
        → (a : Text) × (first_passing (λ a. (m.reads a).read) (addresses m.delta) ≡ some a)
          × ((diagnose_delta m).evidence.assertion ≡ location (m.reads a).assertion)
    go none e = absurd (ground (arith, e, h))
    go (some a) e = (a, e, ground (arith, e))

-- A weak-assertion verdict points at evidence: some address of the delta is read by an assertion, the
-- verdict names that assertion's location, and of all the addresses of the delta that are read it is
-- the first in order.
pub weak_assertion_lem :
    (m : Measurement)
    → (judge m).diagnosis ≡ weak_assertion
    → (a : Text) × (contains a (addresses m.delta) ≡ true)
      × ((m.reads a).read ≡ true)
      × ((judge m).evidence.assertion ≡ location (m.reads a).assertion)
      × ((b : Text)
          → contains b (addresses m.delta) ≡ true
          → (m.reads b).read ≡ true
          → text_le a b ≡ true)
weak_assertion_lem m h =
    let same = weak-diagnosed m h in
    let (a, found, names) = weak-delta m (ap (λ (o : Outcome). o.diagnosis) (sym same) ∙ h) in
    let (read, from_delta) =
      first_passing-passes (λ a. (m.reads a).read) (addresses m.delta) found in
    (
      a,
      from_delta,
      read,
      ap (λ (o : Outcome). o.evidence.assertion) same ∙ names,
      λ b.
          first_passing-least (λ a. (m.reads a).read) (addresses m.delta) a b
            (addresses_lem m.delta).0 found,
    )
