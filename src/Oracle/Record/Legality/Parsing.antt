-- ===== src/Oracle/Record/Legality/Parsing.antt =====
-- Every record that parses gives a legal outcome.
use tf_mut.Oracle.Constructors.{new_survived_phase_one}
use tf_mut.Prelude.{◌≡◌, refl, sym, ap, ◌∙◌, inl, inr, true, arith, Bool-cases, ok}
use tf_mut.Oracle.Outcome.{State, survived, Outcome}
use tf_mut.Oracle.Record.Admission.{parse_record-Admitted, Admitted}
use tf_mut.Oracle.Record.{
  refuse_recorded_finding, is_absent, parse_survived_record, parse_state, parse_record, Record,
}
use tf_mut.Oracle.Record.Legality.{IsLegal}
use tf_mut.Oracle.Record.Legality.Diagnosed.{diagnosed-IsLegal}
use tf_mut.Oracle.Record.Legality.Undiagnosed.{undiagnosed-IsLegal}

phase_one-IsLegal :
    (r : Record) (o : Outcome)
    → is_absent r.diagnosis ≡ true
    → parse_survived_record r ≡ ok o
    → IsLegal o
unfolding parse_survived_record refuse_recorded_finding new_survived_phase_one
phase_one-IsLegal r o n h = ground (arith, h, n)

survived-IsLegal : (r : Record) (o : Outcome) → r.state ≡ survived → Admitted r o → IsLegal o
unfolding parse_state
survived-IsLegal r o e a = elim (Bool-cases (is_absent r.diagnosis)) [
  | inl n ↦ phase_one-IsLegal r o n (ap (λ s. parse_state s r) (sym e) ∙ a.parsed)
  | inr n ↦ diagnosed-IsLegal r o e n a
]

by_state : (s : State) (r : Record) (o : Outcome) → r.state ≡ s → Admitted r o → IsLegal o
by_state survived r o e a = survived-IsLegal r o e a
by_state s r o e a =
    undiagnosed-IsLegal s r o refl e a (ap (λ x. parse_state x r) (sym e) ∙ a.parsed)

-- A record that parses gives an outcome with an owned state and an emitted diagnosis or none; only a
-- survivor is diagnosed, and then with a message and a fix; a delta and unknown paths stand only
-- beside the diagnoses that record them, diagnostics only where they decide the state, and a
-- suppression exactly on an ignored outcome.
pub parse_record-IsLegal : (r : Record) (o : Outcome) → parse_record r ≡ ok o → IsLegal o
parse_record-IsLegal r o h = by_state r.state r o refl (parse_record-Admitted r o h)
