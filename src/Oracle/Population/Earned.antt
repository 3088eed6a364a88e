-- ===== src/Oracle/Population/Earned.antt =====
-- The proofs over a population exist exactly where the run earned them.
use tf_mut.Prelude.{◌≡◌, ◌↔◌, true, arith, is_nil, ◌>>=◌, ok, err}
use tf_mut.Text.{Text}
use tf_mut.Oracle.Population.{
  authoritative, reasons, fresh, Provenance, Population, Authoritative, Fresh, Refused,
}

-- No mutant was left unobserved.
abbrev pub Observed : Provenance → Type 0
Observed p = (p.timed_out ≡ 0) × (p.errored ≡ 0) × (p.unexecuted ≡ 0)

reasons_iff : (p : Provenance) → (is_nil (reasons p) ≡ true) ↔ Observed p
unfolding reasons
reasons_iff p = ground arith

-- A population is authoritative exactly where no mutant timed out, failed to be evaluated or was
-- left unexecuted, and then the proof is over that population itself; every refusal wraps the
-- sentinel of the caller.
pub authoritative_iff :
    {E : Type 0}
    → (spell : E → Text) (p : Population) (refused : E) (rationale : Text)
    → ((a : Authoritative)
        → (authoritative spell p refused rationale ≡ ok a)
          ↔ ((a.population ≡ p) × Observed p.provenance))
      × ((e : Refused E)
          → authoritative spell p refused rationale ≡ err e
          → (e.wrapped ≡ refused) × ¬ Observed p.provenance)
unfolding authoritative
authoritative_iff spell p refused rationale = (
  λ a. ground (arith, reasons_iff p.provenance),
  λ e h. ground (arith, reasons_iff p.provenance, h),
)

-- A fresh proof is reached, through an authoritative one, exactly where the run observed every
-- mutant and replayed no verdict from the cache, and it is over the rows of the population.
pub fresh_iff :
    {E : Type 0}
    → (spell : E → Text) (p : Population) (refused : E) (rationale : Text) (f : Fresh)
    → ((authoritative spell p refused rationale >>= λ a. fresh spell a refused) ≡ ok f)
      ↔ ((f.authoritative.population ≡ p) × Observed p.provenance × (p.provenance.cached ≡ 0))
unfolding authoritative fresh
fresh_iff spell p refused rationale f = ground (arith, reasons_iff p.provenance)
