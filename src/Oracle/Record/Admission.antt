-- ===== src/Oracle/Record/Admission.antt =====
-- The chain of refusals that a parsed record has passed.
use tf_mut.Prelude.{
  ◌≡◌, inl, inr, Bool, true, false, not, ◌&&◌, ◌||◌, List, ◌++◌, arith, Bool-cases, is_nil,
  >>=-eq-ok, ok, present,
}
use tf_mut.Text.{Text, is_empty}
use tf_mut.Oracle.Outcome.{Outcome}
use tf_mut.Oracle.Record.{
  has_finding, recorded_subset, unrecorded, outside, refuse_unrecorded_evidence, is_absent,
  parse_state, is_survived, parse_record, Record, EvidenceSubset,
}

pub record Admitted (r : Record) (o : Outcome) : Type 0 where
  pub subset : EvidenceSubset
  pub verdictless : Bool
  pub undiagnosed : (not (is_survived r.state) && not (is_absent r.diagnosis)) ≡ false
  pub recorded : recorded_subset r ≡ ok (subset, verdictless)
  pub evidenced : refuse_unrecorded_evidence r subset verdictless ≡ ok tt
  pub parsed : parse_state r.state r ≡ ok o

pub parse_record-Admitted : (r : Record) (o : Outcome) → parse_record r ≡ ok o → Admitted r o
unfolding parse_record
parse_record-Admitted r o h =
    elim (Bool-cases (not (is_survived r.state) && not (is_absent r.diagnosis))) [
      | inl e ↦ absurd (ground (arith, rw e at h))
      | inr e ↦
          let (s, recorded, rest) = >>=-eq-ok (recorded_subset r) _ (rw e at h) in
          let (_, evidenced, parsed) = >>=-eq-ok (refuse_unrecorded_evidence r s.0 s.1) _ rest in
          record {
            subset = s.0;
            verdictless = s.1;
            undiagnosed = e;
            recorded = recorded;
            evidenced = evidenced;
            parsed = parsed;
          }
    ]

-- A field of the evidence that the record carries is one that the subset allows.
pub record IsWithin (r : Record) (s : EvidenceSubset) : Type 0 where
  pub delta : present r.delta ≡ true → s.delta ≡ true
  pub unknown_paths : present r.unknown_paths ≡ true → s.unknown_paths ≡ true
  pub volatile_components : present r.volatile_components ≡ true → s.volatile_components ≡ true
  pub unstable_attributes : present r.unstable_attributes ≡ true → s.unstable_attributes ≡ true
  pub assertion : is_empty r.assertion ≡ false → s.assertion ≡ true
  pub closure_verdict : is_empty r.closure_verdict ≡ false → s.closure_verdict ≡ true
  pub defeated_by : is_empty r.defeated_by ≡ false → s.defeated_by ≡ true

unrecorded-nil :
    (carried allowed : Bool) (name : Text) (rest : List Text)
    → is_nil (unrecorded carried allowed name ++ rest) ≡ ((not carried || allowed) && is_nil rest)
unfolding unrecorded
unrecorded-nil carried allowed name rest = ground arith

unrecorded_last :
    (carried allowed : Bool) (name : Text)
    → is_nil (unrecorded carried allowed name) ≡ (not carried || allowed)
unfolding unrecorded
unrecorded_last carried allowed name = ground arith

outside-nil : (r : Record) (s : EvidenceSubset) → is_nil (outside r s) ≡ true → IsWithin r s
unfolding outside
outside-nil r s h = let k = simp (unrecorded-nil, unrecorded_last) at h in ground (arith, k)

-- A record that was admitted with a finding carries only evidence that its subset allows; one that
-- was admitted without carries none at all.
pub Admitted-IsWithin :
    (r : Record) (o : Outcome) (a : Admitted r o)
    → (a.verdictless ≡ false → IsWithin r a.subset) × (a.verdictless ≡ true → has_finding r ≡ false)
unfolding refuse_unrecorded_evidence
Admitted-IsWithin r o a = (
  λ e. outside-nil r a.subset (ground (arith, a.evidenced, e)),
  λ e. ground (arith, a.evidenced, e),
)
