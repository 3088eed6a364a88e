-- ===== src/Oracle/Record/Legality/Diagnosed.antt =====
-- A parsed survivor with a diagnosis.
use mathlib.Core.Path.{subst}
use tf_mut.Prelude.{◌≡◌, refl, sym, ◌∙◌, Bool, true, false, arith, >>=-eq-ok, ok}
use tf_mut.Text.{is_empty}
use tf_mut.Oracle.Outcome.{survived, Diagnosis, absent, Outcome}
use tf_mut.Oracle.Record.Admission.{Admitted-IsWithin, Admitted}
use tf_mut.Oracle.Record.{
  survived_subset, subset_of, recorded_subset, refuse_empty_finding, diagnosed_survivor,
  parse_diagnosed, is_absent, parse_survived_record, parse_state, Record, EvidenceSubset,
}
use tf_mut.Oracle.Record.Legality.{emitted, carries_delta, of_unknown_values, IsLegal}

-- The subset of a diagnosed survivor allows a delta and unknown paths only where the diagnosis
-- carries them.
survived_subset_fits :
    (d : Diagnosis) {s : EvidenceSubset} {verdictless : Bool}
    → survived_subset d ≡ ok (s, verdictless)
    → is_absent d ≡ false
    → (verdictless ≡ false)
      × (emitted d ≡ true)
      × (s.delta ≡ true → carries_delta d ≡ true)
      × (s.unknown_paths ≡ true → of_unknown_values d ≡ true)
unfolding survived_subset
survived_subset_fits absent h n = ground (arith, h, n)
survived_subset_fits d h n = ground (arith, h)

parse_diagnosed-eq :
    (d : Diagnosis) (r : Record) {o : Outcome}
    → parse_diagnosed d r ≡ ok o
    → o ≡ diagnosed_survivor r
unfolding parse_diagnosed
parse_diagnosed-eq absent r h = cc
parse_diagnosed-eq d r h = cc

refuse_empty_finding-ok :
    (r : Record) {t : Unit {0}}
    → refuse_empty_finding r ≡ ok t
    → (is_empty r.message ≡ false) × (is_empty r.fix ≡ false)
unfolding refuse_empty_finding
refuse_empty_finding-ok r h = ground (arith, h)

parse_survived_record-eq :
    (r : Record) (o : Outcome)
    → is_absent r.diagnosis ≡ false
    → parse_survived_record r ≡ ok o
    → (o ≡ diagnosed_survivor r) × (is_empty r.message ≡ false) × (is_empty r.fix ≡ false)
unfolding parse_survived_record
parse_survived_record-eq r o n h =
    let (_, full, parsed) = >>=-eq-ok (refuse_empty_finding r) _ (rw n at h) in
    let (message, fix) = refuse_empty_finding-ok r full in
    (parse_diagnosed-eq r.diagnosis r parsed, message, fix)

recorded_survivor :
    (r : Record) → r.state ≡ survived → recorded_subset r ≡ survived_subset r.diagnosis
unfolding recorded_subset subset_of
recorded_survivor r e = rw (e, subset_of)

parse_survivor : (r : Record) → r.state ≡ survived → parse_state r.state r ≡ parse_survived_record r
unfolding parse_state
parse_survivor r e = rw (e, parse_state)

pub diagnosed-IsLegal :
    (r : Record) (o : Outcome)
    → r.state ≡ survived
    → is_absent r.diagnosis ≡ false
    → Admitted r o
    → IsLegal o
unfolding diagnosed_survivor
diagnosed-IsLegal r o e n a =
    let (verdict, known, delta, unknowns) =
      survived_subset_fits r.diagnosis (sym (recorded_survivor r e) ∙ a.recorded) n in
    let (same, message, fix) =
      parse_survived_record-eq r o n (sym (parse_survivor r e) ∙ a.parsed) in
    let within = (Admitted-IsWithin r o a).0 verdict in
    subst IsLegal (sym same) (record {
      state_owned = refl;
      diagnosis_emitted = known;
      only_survivors = λ _. refl;
      finding = λ _. (message, fix);
      delta_diagnosed = λ p. delta (within.delta p);
      unknowns_diagnosed = λ p. unknowns (within.unknown_paths p);
      diagnostics_decide = λ p. cc;
      suppression_decides = refl;
    })
