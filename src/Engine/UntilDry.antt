-- ===== src/Engine/UntilDry.antt =====
-- internal/engine/untildry.go: the rounds of the until-dry loop, with the pins, rungs and scaffolds of
-- internal/characterise. Staging, discovering and mutating the suite of a round is the parameter
-- `grade`, since Terraform runs there; the HCL library's reading of an expression is the parameter
-- `spelled`: the traversals of an expression as it writes them, `none` where it does not parse.
-- A pin's identifier, a digest, and its outcome, the same in every pin here, are left out.
pub mod Absorb
pub mod Rounds
pub mod Converge
pub mod Kept
use tf_mut.Prelude.{
  ℕ, zero, suc, ◌≡◌, ◌⊎◌, Bool, true, not, ◌&&◌, ◌||◌, Option, none, some, List, [], ◌∷◌, ◌++◌, map,
  arith, leb, ◌==◌, if◌then◌else◌, length, ◌>>=◌,
}
use tf_mut.Prelude.Sorting
use tf_mut.Prelude.Sorting.{Sortable}
use tf_mut.Text.{Text, text, text_eq, contains, text_eq_iff}
use tf_mut.Text.Order.{text_le, text_le_total, text_le_trans, text_le_antisymm, text_order}
use tf_mut.Text.Cutting.{has_prefix}
use tf_mut.Dict.{Dict, has}
use tf_mut.Discovery.Address.{parse_addr}
use tf_mut.Oracle.Population.{Population}

pub data Rung : Type 0 where
  outputs counts configured : Rung
  off_ladder : Text → Rung

-- `ladder`; a rung that is not on it has the zero of the map.
abbrev ladder : Rung → ℕ
ladder outputs = 0
ladder counts = 1
ladder configured = 2
ladder (off_ladder name) = 0

-- `Rung.Includes`.
unfoldable pub rung_includes : Rung → Rung → Bool
rung_includes rung other = leb (ladder other) (ladder rung)

pub record Pin : Type 0 where
  pub scenario : Text
  pub address : Text
  pub expression : Text
  pub rung : Rung

pub record Scenario : Type 0 where
  pub id : Text
  pub name : Text

-- The fields of `report.Suggestion` that the loop reads.
pub record Suggestion : Type 0 where
  pub target_run : Text
  pub is_verified : Bool
  pub expression : Text

-- What the loop reads of the report block.
pub record Block : Type 0 where
  pub rung : Rung
  pub scenarios : List Scenario

-- `AssertedAddress`.
unfoldable pub asserted_address : (Text → Option (List Text)) → Text → Text
asserted_address spelled expression = elim (spelled expression) [
  | some (traversal ∷ rest) ↦ traversal
  | _ ↦ []
]

-- `resourceAddressOnly`.
unfoldable pub resource_address_only : Text → Bool
unfolding parse_addr
resource_address_only address = length (parse_addr address).parts == 2

-- `RungOf`.
unfoldable pub rung_of : (Text → Option (List Text)) → Text → Rung
unfolding asserted_address has_prefix resource_address_only
rung_of spelled expression =
    let address = asserted_address spelled expression in
    if has_prefix (text "output.") address
    then outputs
    else if has_prefix (text "length(") expression && resource_address_only address
    then counts
    else configured

-- `scenarioForRun`; `none` is its `false`.
unfoldable pub scenario_for_run : List Scenario → Text → Option Text
scenario_for_run [] run = none
scenario_for_run (scenario ∷ rest) run =
    let later = scenario_for_run rest run in
    if text_eq (text "characterise_" ++ scenario.name) run then some scenario.id else later

abbrev pin_key : Text → Text → Text
pin_key scenario expression = scenario ++ (0 ∷ expression)

abbrev key_of : Pin → Text
key_of pin = pin_key pin.scenario pin.expression

-- The variables of the loop over the suggestions.
pub record Absorbed : Type 0 where
  pub known : List Text
  pub pins : List Pin
  pub added : ℕ

abbrev pinned : (Text → Option (List Text)) → Text → Text → Pin
pinned spelled scenario expression = record {
  scenario = scenario;
  address = asserted_address spelled expression;
  expression = expression;
  rung = rung_of spelled expression;
}

-- The body of the loop for a suggestion whose scenario was found.
unfoldable pub absorb_in :
    (Text → Option (List Text)) → Rung → Suggestion → Text → Absorbed → Absorbed
absorb_in spelled rung s scenario a =
    let key = pin_key scenario s.expression in
    if not s.is_verified
      || (contains key a.known || not (rung_includes rung (rung_of spelled s.expression)))
    then a
    else record {
      known = key ∷ a.known;
      pins = a.pins ++ pinned spelled scenario s.expression ∷ [];
      added = suc a.added;
    }

unfoldable pub absorb_one : (Text → Option (List Text)) → Block → Suggestion → Absorbed → Absorbed
unfolding scenario_for_run absorb_in
absorb_one spelled block s a = elim (scenario_for_run block.scenarios s.target_run) [
  | none ↦ a
  | some scenario ↦ absorb_in spelled block.rung s scenario a
]

unfoldable pub absorb_all :
    (Text → Option (List Text)) → Block → List Suggestion → Absorbed → Absorbed
unfolding absorb_one
absorb_all spelled block [] a = a
absorb_all spelled block (s ∷ rest) a = absorb_all spelled block rest (absorb_one spelled block s a)

abbrev pub pin_le : Pin → Pin → Bool
pin_le a b =
    if text_eq a.scenario b.scenario
    then text_le a.address b.address
    else text_le a.scenario b.scenario

pub pin_le_total : (a b : Pin) → (pin_le a b ≡ true) ⊎ (pin_le b a ≡ true)
pin_le_total a b = ground (
  arith,
  text_le_total a.address b.address,
  text_le_total a.scenario b.scenario,
  text_eq_iff a.scenario b.scenario,
  text_eq_iff b.scenario a.scenario,
)

pub pin_le_trans : (a b c : Pin) → pin_le a b ≡ true → pin_le b c ≡ true → pin_le a c ≡ true
pin_le_trans a b c = ground (
  arith,
  text_le_trans a.address b.address c.address,
  text_le_trans a.scenario b.scenario c.scenario,
  text_le_antisymm a.scenario b.scenario,
  text_eq_iff a.scenario b.scenario,
  text_eq_iff b.scenario c.scenario,
  text_eq_iff a.scenario c.scenario,
)

abbrev pub by_scenario : Sortable Pin
by_scenario = record { le = pin_le; le_total = pin_le_total; le_trans = pin_le_trans }

-- `absorbSuggestionsAsPins`.
unfoldable pub absorb_suggestions_as_pins :
    (Text → Option (List Text)) → Block → List Pin → List Suggestion → List Pin × ℕ
unfolding absorb_all
absorb_suggestions_as_pins spelled block pins suggestions =
    let a =
      absorb_all spelled block suggestions
        (record { known = map key_of pins; pins = pins; added = 0 }) in
    (Sorting.sort by_scenario a.pins, a.added)
