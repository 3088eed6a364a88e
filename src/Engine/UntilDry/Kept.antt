-- ===== src/Engine/UntilDry/Kept.antt =====
-- internal/engine/untildry.go: the pins that the loop over rounds ends with.
use tf_mut.Engine.UntilDry.Absorb.{absorb-Grown}
use tf_mut.Engine.UntilDry.Converge.{total}
use tf_mut.Prelude.{
  ℕ, zero, suc, ◌+◌, ◌≡◌, Bool, true, List, [], ◌∷◌, ◌++◌, arith, length, all_pass, Result, ok, err,
}
use tf_mut.Dict.{Dict}
use tf_mut.Oracle.Population.{authoritative}
use tf_mut.Engine.UntilDry.{rung_includes, absorb_suggestions_as_pins, Rung, Pin}
use tf_mut.Engine.UntilDry.Rounds.{
  population_refusal, population_rationale, settle, after_grading, one_round, turn_after, ended,
  rounds_from, until_dry, Scaffold, Graded, RoundError, unobserved, Ended, Setting, Loop, stop,
  go_on,
}

abbrev pub all_within : Rung → List Pin → Bool
all_within rung pins = all_pass (λ pin. rung_includes rung pin.rung) pins

-- What a round that did not fail gives.
RoundKept : {E : Type 0} → Rung → ℕ → Result (RoundError E) (List Pin × ℕ) → Type 0
RoundKept rung before (err e) = Unit
RoundKept rung before (ok (pins, added)) =
    (length pins ≡ before + added) × (all_within rung pins ≡ true)

module _ {E : Type 0} (c : Setting E) where
  settle-RoundKept :
      (graded : Graded) (pins : List Pin)
      → all_within c.block.rung pins ≡ true
      → RoundKept c.block.rung (length pins) (settle c graded pins)
  unfolding settle RoundKept
  settle-RoundKept graded pins kept =
      elim (authoritative (λ m. m) graded.population population_refusal population_rationale)
        as (λ o. RoundKept {E = E} c.block.rung (length pins) (elim o [
          | err refusal ↦ err (unobserved refusal)
          | ok observed ↦ ok (absorb_suggestions_as_pins c.spelled c.block pins graded.suggestions)
        ])) [
          | err refusal ↦ tt
          | ok observed ↦ absorb-Grown c.spelled c.block pins graded.suggestions kept
        ]

  one_round-RoundKept :
      (round : ℕ) (pins : List Pin) (scaffolds : Dict Scaffold)
      → all_within c.block.rung pins ≡ true
      → RoundKept c.block.rung (length pins) (one_round c round pins scaffolds).1
  unfolding one_round RoundKept
  one_round-RoundKept round pins scaffolds kept =
      elim (c.grade round pins)
        as (λ o. RoundKept c.block.rung (length pins) (after_grading c pins scaffolds o).1) [
          | err failure ↦ tt
          | ok graded ↦ settle-RoundKept graded pins kept
        ]

  -- The pins at the end of a loop that has added some so far.
  Held : ℕ → Ended E → Type 0
  Held before r =
      (length r.pins ≡ before + total r.convergence.new_pins_per_round)
      × (all_within c.block.rung r.pins ≡ true)

  total-append : (added : List ℕ) (n : ℕ) → total (added ++ n ∷ []) ≡ total added + n
  total-append [] n = omega arith
  total-append (x ∷ added) n = omega (arith, total-append added n)

  rounds_from-Held :
      (before left round : ℕ) (s : Loop)
      → length s.pins ≡ before + total s.new_pins
      → all_within c.block.rung s.pins ≡ true
      → Held before (rounds_from c left round s)
  unfolding rounds_from Held RoundKept
  rounds_from-Held before zero round s e k = (e, k)
  rounds_from-Held before (suc left) round s e k =
      let scaffolds : Dict Scaffold = (one_round c round s.pins s.scaffolds).0 in
      elim ((one_round c round s.pins s.scaffolds).1)
          as (λ o.
            RoundKept c.block.rung (length s.pins) o
            → Held before (elim (turn_after s scaffolds o) [
              | stop reason error last ↦ ended reason error last
              | go_on next ↦ rounds_from c left (suc round) next
            ])) [
              | err failure ↦ λ h. (e, k)
              | ok (pins, zero) ↦
                  λ (grown, kept). (omega (arith, e, grown, total-append s.new_pins 0), kept)
              | ok (pins, suc n) ↦ λ (grown, kept).
                  rounds_from-Held before left (suc round)
                    (record {
                      pins = pins;
                      scaffolds = scaffolds;
                      rounds = suc s.rounds;
                      new_pins = s.new_pins ++ suc n ∷ [];
                    })
                    (omega (arith, e, grown, total-append s.new_pins (suc n))) kept
            ]
        (one_round-RoundKept round s.pins s.scaffolds k)

  -- When the pins that the loop starts with are within the chosen rung, so are those it ends with, however it ends, and they are as many more as its convergence counts over all rounds.
  pub until_dry-pins :
      (limit : ℕ) (pins : List Pin) (scaffolds : Dict Scaffold)
      → all_within c.block.rung pins ≡ true
      → let r = until_dry c limit pins scaffolds in
        (length r.pins ≡ length pins + total r.convergence.new_pins_per_round)
        × (all_within c.block.rung r.pins ≡ true)
  unfolding until_dry Held
  until_dry-pins limit pins scaffolds kept =
      rounds_from-Held (length pins) limit 0
        (record { pins = pins; scaffolds = scaffolds; rounds = 0; new_pins = [] }) (omega arith)
        kept
