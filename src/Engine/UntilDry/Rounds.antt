-- ===== src/Engine/UntilDry/Rounds.antt =====
-- internal/engine/untildry.go: the scaffolds, one round and the loop over rounds.
use tf_mut.Prelude.{
  ℕ, zero, suc, Bool, true, false, Option, none, some, List, [], ◌∷◌, ◌++◌, map, ltb, if◌then◌else◌,
  select, Result, ok, err,
}
use tf_mut.Prelude.Sorting
use tf_mut.Prelude.Sorting.{Sortable}
use tf_mut.Text.{Text, text}
use tf_mut.Text.Order.{text_le, text_le_total, text_le_trans}
use tf_mut.Dict.{Dict, put, has}
use tf_mut.Oracle.Population.{authoritative, Population, Refused}
use tf_mut.Engine.UntilDry.{absorb_suggestions_as_pins, Pin, Suggestion, Block}

pub data ScaffoldStatus : Type 0 where
  scaffolded promoted : ScaffoldStatus

-- `characterise.Scaffold`; its identifier, a digest, and its one kind are left out.
pub record Scaffold : Type 0 where
  pub address : Text
  pub status : ScaffoldStatus
  pub artefact : Text

-- `scaffoldSet.record`.
unfoldable pub record_scaffold : Scaffold → Dict Scaffold → Dict Scaffold
record_scaffold entry set = if has entry.address set then set else put entry.address entry set

-- `scaffoldSet.replace`.
unfoldable pub replace_scaffold : Scaffold → Dict Scaffold → Dict Scaffold
replace_scaffold entry set = put entry.address entry set

-- `PromoteScaffold`.
unfoldable pub promote_scaffold : Scaffold → Scaffold
promote_scaffold s = record s { status = promoted; artefact = [] }

abbrev by_address : Sortable Scaffold
by_address = record {
  le = λ a b. text_le a.address b.address;
  le_total = λ a b. text_le_total a.address b.address;
  le_trans = λ a b c. text_le_trans a.address b.address c.address;
}

-- `scaffoldSet.all`.
unfoldable pub all_scaffolds : Dict Scaffold → List Scaffold
all_scaffolds set = Sorting.sort by_address (map (λ entry. entry.1) set)

abbrev awaiting : ScaffoldStatus → Bool
awaiting scaffolded = true
awaiting promoted = false

-- `scaffoldSet.scaffolded`.
unfoldable pub outstanding : Dict Scaffold → List Scaffold
unfolding all_scaffolds
outstanding set = select (λ entry. awaiting entry.status) (all_scaffolds set)

-- What grading the staged suite gives: the sites of the structurally unassertable mutants, the
-- suggestions and the population.
pub record Graded : Type 0 where
  pub unassertable_sites : List Text
  pub suggestions : List Suggestion
  pub population : Population

-- `recordScaffolds`.
unfoldable pub record_scaffolds : Text → List Text → Dict Scaffold → Dict Scaffold
unfolding record_scaffold
record_scaffolds artefact [] set = set
record_scaffolds artefact (site ∷ rest) set =
    record_scaffolds artefact rest
      (record_scaffold (record { address = site; status = scaffolded; artefact = artefact }) set)

-- An operational failure of a round, or the refusal of its population.
pub data RoundError (E : Type 0) : Type 0 where
  failed : E → RoundError E
  unobserved : Refused Text → RoundError E

pub data StopReason : Type 0 where
  bounded dry refused : StopReason

pub record Convergence : Type 0 where
  pub rounds : ℕ
  pub new_pins_per_round : List ℕ
  pub stop_reason : StopReason

-- What the loop ends with: the pins, the scaffolds, the report's convergence and the error returned.
pub record Ended (E : Type 0) : Type 0 where
  pub pins : List Pin
  pub scaffolds : Dict Scaffold
  pub convergence : Convergence
  pub error : Option (RoundError E)

pub record Setting (E : Type 0) : Type 0 where
  pub spelled : Text → Option (List Text)
  pub block : Block
  pub artefact : Text
  pub grade : ℕ → List Pin → Result E Graded

-- `ErrUntilDryPopulation` of curate.go, and what `oneRound` says of it.
abbrev pub population_refusal : Text
population_refusal = text "--until-dry requires a full, unsampled, unfiltered population"

abbrev pub population_rationale : Text
population_rationale =
    text "  A round that did not observe its whole population has not shown that the\n"
    ++ text "  survivors stopped yielding, only that it stopped waiting"

module _ {E : Type 0} (c : Setting E) where
  -- The end of `oneRound`, after the suite was graded.
  unfoldable pub settle : Graded → List Pin → Result (RoundError E) (List Pin × ℕ)
  unfolding authoritative absorb_suggestions_as_pins
  settle graded pins =
      elim (authoritative (λ m. m) graded.population population_refusal population_rationale) [
        | err refusal ↦ err (unobserved refusal)
        | ok observed ↦ ok (absorb_suggestions_as_pins c.spelled c.block pins graded.suggestions)
      ]

  -- `oneRound`, of what grading gave: the scaffolds it leaves, and its pins and count or its error.
  unfoldable pub after_grading :
      List Pin
      → Dict Scaffold
      → Result E Graded
      → Dict Scaffold × Result (RoundError E) (List Pin × ℕ)
  unfolding settle record_scaffolds
  after_grading pins scaffolds (err failure) = (scaffolds, err (failed failure))
  after_grading pins scaffolds (ok graded) =
      (record_scaffolds c.artefact graded.unassertable_sites scaffolds, settle graded pins)

  unfoldable pub one_round :
      ℕ → List Pin → Dict Scaffold → Dict Scaffold × Result (RoundError E) (List Pin × ℕ)
  unfolding after_grading
  one_round round pins scaffolds = after_grading pins scaffolds (c.grade round pins)

-- The variables of the loop.
pub record Loop : Type 0 where
  pub pins : List Pin
  pub scaffolds : Dict Scaffold
  pub rounds : ℕ
  pub new_pins : List ℕ

-- What a round leads to.
pub data Turn (E : Type 0) : Type 0 where
  stop : StopReason → Option (RoundError E) → Loop → Turn E
  go_on : Loop → Turn E

abbrev pub turn_after :
    {E : Type 0} → Loop → Dict Scaffold → Result (RoundError E) (List Pin × ℕ) → Turn E
turn_after s scaffolds (err e) = stop refused (some e) (record s { scaffolds = scaffolds })
turn_after s scaffolds (ok (pins, zero)) = stop dry none (record {
  pins = pins;
  scaffolds = scaffolds;
  rounds = suc s.rounds;
  new_pins = s.new_pins ++ 0 ∷ [];
})
turn_after s scaffolds (ok (pins, suc n)) = go_on (record {
  pins = pins;
  scaffolds = scaffolds;
  rounds = suc s.rounds;
  new_pins = s.new_pins ++ suc n ∷ [];
})

abbrev pub ended : {E : Type 0} → StopReason → Option (RoundError E) → Loop → Ended E
ended reason error s = record {
  pins = s.pins;
  scaffolds = s.scaffolds;
  convergence = record { rounds = s.rounds; new_pins_per_round = s.new_pins; stop_reason = reason };
  error = error;
}

module _ {E : Type 0} (c : Setting E) where
  -- The loop, with the rounds left and the round; the first component of the result of a round is
  -- kept also where the round failed.
  unfoldable pub rounds_from : ℕ → ℕ → Loop → Ended E
  unfolding one_round
  rounds_from zero round s = ended bounded none s
  rounds_from (suc left) round s =
      let (scaffolds, result) = one_round c round s.pins s.scaffolds in
      elim (turn_after s scaffolds result) [
        | stop reason error last ↦ ended reason error last
        | go_on next ↦ rounds_from left (suc round) next
      ]

  -- `untilDry`, with the limit of `roundLimit`.
  unfoldable pub until_dry : ℕ → List Pin → Dict Scaffold → Ended E
  unfolding rounds_from
  until_dry limit pins scaffolds =
      rounds_from limit 0 (record { pins = pins; scaffolds = scaffolds; rounds = 0; new_pins = [] })

-- `roundLimit`, of the seam's number.
unfoldable pub round_limit : ℕ → ℕ
round_limit seeded = if ltb 0 seeded then seeded else 5
