-- ===== src/Oracle/Population.antt =====
-- internal/oracle/population.go: what a run has to earn before it draws a conclusion. The counts are
-- the run's tallies, so they are not negative. A refusal is the sentinel error it wraps and the text.
pub mod Earned
use tf_mut.Prelude.{
  ℕ, Bool, not, List, [], ◌∷◌, ◌++◌, ltb, if◌then◌else◌, is_nil, ◌>>=◌, Result, ok, err,
}
use tf_mut.Text.{Text, text, join}
use tf_mut.Text.Decimal.{itoa}
use tf_mut.Oracle.Outcome.{Outcome}

pub record Provenance : Type 0 where
  pub cached : ℕ
  pub timed_out : ℕ
  pub errored : ℕ
  pub unexecuted : ℕ
  pub tripped : Bool

-- An outcome and the operator that generated its mutant (metrics.go).
pub record Classified : Type 0 where
  pub operator : Text
  pub outcome : Outcome

pub record Population : Type 0 where
  pub classified : List Classified
  pub provenance : Provenance

-- `NewPopulation`.
unfoldable pub new_population : List Classified → Provenance → Population
new_population classified provenance = record { classified = classified; provenance = provenance }

pub record Authoritative : Type 0 where
  pub population : Population

pub record Fresh : Type 0 where
  pub authoritative : Authoritative

pub record Refused (E : Type 0) : Type 0 where
  pub wrapped : E
  pub message : Text

-- One clause of the check: its reason where the count is positive.
abbrev reason : ℕ → Text → List Text
reason n what = if ltb 0 n then (itoa n ++ what) ∷ [] else []

-- `reasons` at the end of the three clauses.
pub reasons : Provenance → List Text
unfolding itoa
reasons p =
    reason p.timed_out (text " mutant(s) timed out, so their kills were never observed")
    ++ (reason p.errored (text " mutant(s) could not be evaluated at all")
        ++ reason p.unexecuted
            (text " mutant(s) were left unexecuted, so they were never observed"))

-- `Population.Authoritative`; `spell` is the sentinel's own message.
unfoldable pub authoritative :
    {E : Type 0} → (E → Text) → Population → E → Text → Result (Refused E) Authoritative
unfolding reasons join
authoritative spell p refused rationale =
    if not (is_nil (reasons p.provenance))
    then err (record {
      wrapped = refused;
      message =
          spell refused
          ++ (text ": " ++ (join (text "; ") (reasons p.provenance) ++ (b'\n' ∷ rationale)));
    })
    else ok (record { population = p })

-- `Authoritative.Fresh`.
unfoldable pub fresh : {E : Type 0} → (E → Text) → Authoritative → E → Result (Refused E) Fresh
unfolding itoa
fresh spell a refused =
    let cached = a.population.provenance.cached in
    if ltb 0 cached
    then err (record {
      wrapped = refused;
      message =
          spell refused
          ++ (text ": this run replayed "
              ++ (itoa cached ++ text " cached verdict(s); use --no-cache"));
    })
    else ok (record { authoritative = a })

-- `Fresh.Classified`.
abbrev pub fresh_classified : Fresh → List Classified
fresh_classified f = f.authoritative.population.classified
