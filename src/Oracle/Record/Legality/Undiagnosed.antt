-- ===== src/Oracle/Record/Legality/Undiagnosed.antt =====
-- A parsed outcome that is no survivor.
use mathlib.Core.Path.{subst}
use tf_mut.Oracle.Constructors.{
  new_killed, new_killed_by_error, new_timed_out, new_invalid, new_no_coverage, new_ignored,
  new_pending,
}
use tf_mut.Prelude.{◌≡◌, refl, sym, ap, ◌∙◌, Bool, true, false, arith, >>=-eq-ok, ok}
use tf_mut.Text.{Text}
use tf_mut.Oracle.Outcome.{
  bare, State, invalid, killed, killed_by_error, timeout, survived, structurally_unassertable,
  unobservable, no_coverage, ignored, pending, unowned, Outcome,
}
use tf_mut.Oracle.Record.Admission.{Admitted-IsWithin, Admitted}
use tf_mut.Oracle.Record.{
  evidence, subset_of, recorded_subset, refuse_empty_finding, parse_ignored_record,
  parse_terminal_record, parse_state, is_survived, Record, EvidenceSubset,
}
use tf_mut.Oracle.Record.Legality.{IsLegal}

abbrev is_terminal : State → Bool
is_terminal structurally_unassertable = true
is_terminal unobservable = true
is_terminal _ = false

terminal_subset_fits :
    (s : State) (r : Record) {x : EvidenceSubset} {v : Bool}
    → is_terminal s ≡ true
    → subset_of s r ≡ ok (x, v)
    → (v ≡ false) × (x.delta ≡ false) × (x.unknown_paths ≡ false)
unfolding subset_of
terminal_subset_fits structurally_unassertable r t h = ground (arith, h)
terminal_subset_fits unobservable r t h = ground (arith, h)
terminal_subset_fits survived r t h = cc
terminal_subset_fits _ r t h = cc

-- The outcome of a terminal record: its state, its finding and its evidence.
abbrev terminal : Record → Outcome
terminal r = record (bare r.state) { message = r.message; fix = r.fix; evidence = evidence r }

parse_terminal_record-eq :
    (r : Record) (o : Outcome) → parse_terminal_record r ≡ ok o → o ≡ terminal r
unfolding parse_terminal_record
parse_terminal_record-eq r o h =
    let (_, full, parsed) = >>=-eq-ok (refuse_empty_finding r) _ h in cc parsed

terminal-IsLegal :
    (s : State) (r : Record) (o : Outcome)
    → is_terminal s ≡ true
    → r.state ≡ s
    → Admitted r o
    → parse_terminal_record r ≡ ok o
    → IsLegal o
unfolding recorded_subset evidence
terminal-IsLegal s r o t e a h =
    let (verdict, delta, unknowns) =
      terminal_subset_fits s r t (ap (λ x. subset_of x r) (sym e) ∙ a.recorded) in
    let within = (Admitted-IsWithin r o a).0 verdict in
    let is_t : is_terminal r.state ≡ true = rw e t in
    subst IsLegal (sym (parse_terminal_record-eq r o h)) (record {
      state_owned = ground (arith, is_t);
      diagnosis_emitted = refl;
      only_survivors = λ p. cc;
      finding = λ p. cc;
      delta_diagnosed = λ p. absurd (ground (arith, within.delta p, delta));
      unknowns_diagnosed = λ p. absurd (ground (arith, within.unknown_paths p, unknowns));
      diagnostics_decide = λ p. cc;
      suppression_decides = ground (arith, is_t);
    })

no_coverage-IsLegal : (reason : Text) → IsLegal (new_no_coverage reason)
unfolding new_no_coverage
no_coverage-IsLegal reason = ground arith

ignored_record-IsLegal : (r : Record) (o : Outcome) → parse_ignored_record r ≡ ok o → IsLegal o
unfolding parse_ignored_record new_ignored
ignored_record-IsLegal r o h = ground (arith, h)

pub undiagnosed-IsLegal :
    (s : State) (r : Record) (o : Outcome)
    → is_survived s ≡ false
    → r.state ≡ s
    → Admitted r o
    → parse_state s r ≡ ok o
    → IsLegal o
unfolding parse_state new_killed new_pending new_killed_by_error new_invalid new_timed_out
undiagnosed-IsLegal survived r o n e a h = cc
undiagnosed-IsLegal killed r o n e a h = ground (arith, h)
undiagnosed-IsLegal pending r o n e a h = ground (arith, h)
undiagnosed-IsLegal killed_by_error r o n e a h = ground (arith, h)
undiagnosed-IsLegal invalid r o n e a h = ground (arith, h)
undiagnosed-IsLegal timeout r o n e a h = ground (arith, h)
undiagnosed-IsLegal no_coverage r o n e a h = subst IsLegal (cc h) (no_coverage-IsLegal r.message)
undiagnosed-IsLegal ignored r o n e a h = ignored_record-IsLegal r o h
undiagnosed-IsLegal structurally_unassertable r o n e a h =
    terminal-IsLegal structurally_unassertable r o refl e a h
undiagnosed-IsLegal unobservable r o n e a h = terminal-IsLegal unobservable r o refl e a h
undiagnosed-IsLegal (unowned t) r o n e a h = cc
