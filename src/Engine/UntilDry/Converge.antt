-- ===== src/Engine/UntilDry/Converge.antt =====
-- internal/engine/untildry.go: how the loop over rounds ends, and what it ends with.
use tf_mut.Prelude.{
  ℕ, zero, suc, ◌+◌, ◌≤◌, ◌<◌, ◌≡◌, refl, Bool, true, Option, none, some, List, [], ◌∷◌, ◌++◌,
  arith, ltb, length, all_pass, length-append, ok, err,
}
use tf_mut.Dict.{Dict}
use tf_mut.Engine.UntilDry.{Pin}
use tf_mut.Engine.UntilDry.Rounds.{
  one_round, turn_after, ended, rounds_from, until_dry, Scaffold, RoundError, StopReason, bounded,
  dry, refused, Ended, Setting, Loop, stop, go_on,
}

abbrev pub all_positive : List ℕ → Bool
all_positive added = all_pass (λ n. ltb 0 n) added

abbrev pub total : List ℕ → ℕ
total [] = 0
total (n ∷ rest) = n + total rest

-- What each way to stop says of the rounds: all of the limit were taken and each added pins; the last
-- one added none and each before it some; or a round failed before the limit.
pub Stopped : {E : Type 0} → ℕ → StopReason → Option (RoundError E) → List ℕ → Type 0
Stopped limit bounded error added =
    (error ≡ none) × (length added ≡ limit) × (all_positive added ≡ true)
Stopped limit dry error added =
    (error ≡ none)
    × ((earlier : List ℕ) × ((added ≡ earlier ++ 0 ∷ []) × (all_positive earlier ≡ true)))
Stopped {E} limit refused error added =
    ((e : RoundError E) × (error ≡ some e)) × (length added < limit) × (all_positive added ≡ true)

-- An end of the loop within a limit.
pub record Ends {E : Type 0} (limit : ℕ) (r : Ended E) : Type 0 where
  counted : r.convergence.rounds ≡ length r.convergence.new_pins_per_round
  within : r.convergence.rounds ≤ limit
  stopped : Stopped limit r.convergence.stop_reason r.error r.convergence.new_pins_per_round

all_positive-append :
    (added : List ℕ) (n : ℕ)
    → all_positive added ≡ true
    → 0 < n
    → all_positive (added ++ n ∷ []) ≡ true
all_positive-append [] n e h = ground (arith, h)
all_positive-append (x ∷ added) n e h =
    ground (arith, all_positive-append added n (ground (arith, e)) h)

module _ {E : Type 0} (c : Setting E) where
  rounds_from-Ends :
      (limit left round : ℕ) (s : Loop)
      → s.rounds ≡ length s.new_pins
      → length s.new_pins + left ≡ limit
      → all_positive s.new_pins ≡ true
      → Ends limit (rounds_from c left round s)
  unfolding rounds_from Stopped
  rounds_from-Ends limit zero round s k e p = record {
    counted = k;
    within = omega (arith, k, e);
    stopped = (refl, omega (arith, e), p);
  }
  rounds_from-Ends limit (suc left) round s k e p =
      let scaffolds : Dict Scaffold = (one_round c round s.pins s.scaffolds).0 in
      elim ((one_round c round s.pins s.scaffolds).1)
        as (λ o. Ends limit (elim (turn_after s scaffolds o) [
          | stop reason error last ↦ ended reason error last
          | go_on next ↦ rounds_from c left (suc round) next
        ])) [
          | err failure ↦ record {
            counted = k;
            within = omega (arith, k, e);
            stopped = ((failure, refl), omega (arith, e), p);
          }
          | ok (pins, zero) ↦ record {
            counted = omega (arith, k, length-append s.new_pins (0 ∷ []));
            within = omega (arith, k, e);
            stopped = (refl, (s.new_pins, (refl, p)));
          }
          | ok (pins, suc n) ↦
              rounds_from-Ends limit left (suc round)
                (record {
                  pins = pins;
                  scaffolds = scaffolds;
                  rounds = suc s.rounds;
                  new_pins = s.new_pins ++ suc n ∷ [];
                })
                (omega (arith, k, length-append s.new_pins (suc n ∷ [])))
                (omega (arith, e, length-append s.new_pins (suc n ∷ [])))
                (all_positive-append s.new_pins (suc n) p (omega arith))
        ]

  -- Whatever grading gives, the until-dry loop ends after at most the limit's rounds, and its convergence counts the completed ones. As bounded it took all rounds of the limit and each added pins; as dry its last round added none and each before it some; as refused a round failed before the limit, the ones before it each added some, and that failure is the error returned, while otherwise none is.
  pub until_dry-Ends :
      (limit : ℕ) (pins : List Pin) (scaffolds : Dict Scaffold)
      → Ends limit (until_dry c limit pins scaffolds)
  unfolding until_dry
  until_dry-Ends limit pins scaffolds =
      rounds_from-Ends limit limit 0
        (record { pins = pins; scaffolds = scaffolds; rounds = 0; new_pins = [] }) refl
        (omega arith) refl
