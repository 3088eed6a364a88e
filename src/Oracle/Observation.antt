-- ===== src/Oracle/Observation.antt =====
-- internal/oracle/observation.go: what was measured about a mutant, and the questions that the
-- engine asks of it. The adapters are functions of the measurement, as they are in the source.
use tf_mut.Prelude.{
  ℕ, Bool, true, false, not, ◌&&◌, ◌||◌, Option, none, some, List, [], ◌∷◌, ◌==◌, if◌then◌else◌,
  some_pass, all_pass, is_nil, Slice, elements,
}
use tf_mut.Prelude.Int.{ℤ}
use tf_mut.Text.{Text, text, text_eq, is_empty}
use tf_mut.Discovery.Reach.{Reach}
use tf_mut.Discovery.Address.{data_block, parse_addr, block_addr}
use tf_mut.Fingerprint.Delta.{addresses, Delta}
use tf_mut.Fingerprint.Mask.{Mask}
use tf_mut.Oracle.Outcome.{State, survived, Diagnostic, Outcome}

pub record Measurement : Type 0 where
  pub failed_runs : Bool
  pub errored_runs : Bool
  pub executed_runs : ℕ
  pub timed_out : Bool
  pub budget : ℤ
  pub diagnostics : Slice Diagnostic
  pub validate_valid : Bool
  pub invalid_diagnostics : Slice Diagnostic
  pub phase_two_decided : Bool
  pub operator : Text
  pub delta : Delta
  pub mask : Mask
  pub unknowns : List Text
  pub unstable : List Text
  pub in_cone : Text → Bool
  pub reads : Text → Reach
  pub computed_attributes : Text → Text → Text → Bool × Bool  -- computed, known
  pub suspicious : Text → Bool

-- `NeedsValidate`.
unfoldable pub needs_validate : Measurement → Bool
needs_validate m = if m.failed_runs then false else m.errored_runs || m.executed_runs == 0

abbrev pub survives : State → Bool
survives survived = true
survives _ = false

-- `NeedsPhaseTwo`.
unfoldable pub needs_phase_two : Measurement → Outcome → Bool
needs_phase_two m outcome = survives outcome.state && not m.phase_two_decided

-- `NoVerdictPossible`.
unfoldable pub no_verdict_possible : Measurement → Bool
no_verdict_possible m = m.executed_runs == 0

-- A root that is no data source and no output.
resource_lookup : Text → Text → Option (Text × Text × Text)
resource_lookup root attribute =
    if text_eq root data_block || text_eq root (text "output")
    then none
    else some (text "resource", root, attribute)

lookup_parts : List Text → Option (Text × Text × Text)
unfolding resource_lookup
lookup_parts (a ∷ b ∷ c ∷ d ∷ rest) =
    if text_eq a data_block then some (data_block, b, d) else resource_lookup a c
lookup_parts (a ∷ b ∷ c ∷ []) = resource_lookup a c
lookup_parts _ = none

-- `schemaAttribute` of judge.go: the kind, the resource type and the attribute; `none` is its
-- `false`.
unfoldable pub schema_attribute : Text → Option (Text × Text × Text)
unfolding lookup_parts
schema_attribute address =
    let parsed = parse_addr address in
    if is_nil parsed.module_path then lookup_parts parsed.parts else none

abbrev or_empty : Option Text → Text
or_empty none = []
or_empty (some s) = s

resource_parts : Text → List Text → Text
resource_parts address (a ∷ b ∷ c ∷ rest) =
    if text_eq a data_block
    then or_empty (block_addr data_block (b ∷ c ∷ []))
    else or_empty (block_addr (text "resource") (a ∷ b ∷ []))
resource_parts address (a ∷ b ∷ []) = or_empty (block_addr (text "resource") (a ∷ b ∷ []))
resource_parts address _ = address

-- `resourceOf` of judge.go.
unfoldable pub resource_of : Text → Text
unfolding resource_parts
resource_of address =
    let parsed = parse_addr address in
    if is_nil parsed.module_path then resource_parts address parsed.parts else []

-- `allAddressed` of judge.go.
abbrev pub all_addressed : Delta → Bool
all_addressed d = all_pass (λ change. not (is_empty change.address)) (elements d.changes)

-- The body of the loop of `computedConfined`: an attribute that the schema knows and computes.
abbrev pub computed_address : Measurement → Text → Bool
computed_address m address = elim (schema_attribute address) [
  | none ↦ false
  | some (kind, resource, attribute) ↦
      let (computed, known) = m.computed_attributes kind resource attribute in known && computed
]

-- `computedConfined` of judge.go.
unfoldable pub computed_confined : Measurement → Bool
computed_confined m =
    if is_nil (addresses m.delta) || not (all_addressed m.delta)
    then false
    else all_pass (computed_address m) (addresses m.delta)

-- `NeedsVolatilityRerun`.
unfoldable pub needs_volatility_rerun : Measurement → Bool
unfolding computed_confined
needs_volatility_rerun m =
    if is_nil (elements m.delta.changes)
    then false
    else if computed_confined m
    then true
    else some_pass (λ address. m.suspicious (resource_of address)) (addresses m.delta)
