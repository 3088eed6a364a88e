-- ===== src/Lib.antt =====
-- The verdict core of tf-mut, a mutation tester for Terraform modules: what is concluded of a mutant
-- from what was measured, what of it is stored, and what a run may claim of all its mutants.
--
-- tf-mut generates mutants from a catalogue of operators, runs a module's tests against each, and
-- compares canonical plans and states with those of a baseline. Components and files:
--   Prelude, Text, Dict: lists, results, slices that may be nil, sorting, Go strings and Go maps.
--   Mutation/Catalogue: internal/mutation/catalogue.go, the operators with their tiers, and whether
--     a construct projects into a plan or state; `describe`, `projects` are Describe, Projects.
--   Mutation/Edit: internal/mutation/edit.go, `apply_edit` is apply.
--   Discovery/Address: internal/discovery/address.go, `parse_addr`, `render`, `addr_contains`,
--     `block_addr`, `root_addr`; Discovery/Reach: the conclusion types of
--     internal/discovery/closure.go; Discovery/Expressions and
--     Discovery/Closure: the references of an expression and the walk of `reads` there.
--   Discovery/Graph: internal/discovery/graph.go, `forward_cone` and `multiplicity_guard`;
--     Graph/Adapters: where sites and payload addresses are in a cone; Graph/Build, Graph/Blocks,
--     Graph/Passes: how `build_graph` draws the nodes and edges of a configuration; Walk, Cones,
--     Outside, Guard, Duality, Paths, Built: their proofs.
--   Fingerprint/Delta, Fingerprint/Compare: internal/fingerprint/delta.go, the differences of two run
--     sets (`compare`) and their addresses; Fingerprint/Grammar with Bracketed and Members: the
--     paths of path.go; Fingerprint/Flatten, Project, Sensitive: payload.go, from a decoded document
--     to canonical values, versions, unknown addresses and sensitivity;
--     Fingerprint/Mask: internal/fingerprint/mask.go, the volatile set and its unions (`union` with
--     `merge`, `merge_mutant_volatility`); Fingerprint/Volatility: how the set is derived from two
--     runs (`derive`) and what masking leaves of a payload (`apply`); Fingerprint/Quoting: what
--     strconv's Quote and Unquote document, as a parameter.
--   Oracle/Outcome, Oracle/Constructors: outcome.go, evidence.go, suppression.go, diagnostics.go and
--     constructors.go of internal/oracle, the outcomes and the only functions that make them.
--   Oracle/Observation, Oracle/Judge: observation.go and judge.go, `judge` is Judge with its
--     precedence cut into phase one, the survivor's part and phase two.
--   Oracle/Record: record.go, `record_of` and `parse_record` are Outcome.Record and ParseRecord.
--   Oracle/Population, Oracle/Metrics: population.go and metrics.go.
--   Engine/Acceptance: internal/engine/acceptance.go with the entries of internal/store/baseline.go,
--     `judge_findings` and `acceptance_entries` are judgeFindings and acceptanceEntries.
--   Engine/Curate: internal/engine/curate.go from curateFindings on, over given kill sets.
--   Engine/UntilDry: internal/engine/untildry.go, `until_dry` and `one_round` are untilDry and
--     oneRound, with the rungs and pins of internal/characterise; UntilDry/Rounds: the loop and the
--     scaffolds; Absorb, Converge, Kept: the proofs.
--   Store/Verdicts, Store/Eviction: internal/store/verdict.go, `get_entry`, `put_entry` and `evict`.
--   Examples: the theorems at concrete inputs.
-- The judge takes its measurement from the mask and the delta, asks the catalogue whether the
-- operator projects, and gives an outcome; the record is what the verdict cache keeps of it; the
-- population is what the scores and the gates are drawn from.
--
-- Choices. A Go string is the list of its bytes. A Go string type with constants is a data type
-- with one more constructor for every other string. A Go map is an association list that holds
-- each key once, and nothing proved depends on its order. A nil slice is told from an empty one
-- where the program does. Refusals are data with what their message names, except where a message
-- is built. A quotient of counts is an exact fraction. The printer of numbers recurses on fuel
-- that is the number plus one, which its digits never exhaust. The loops of forwardCone and
-- MultiplicityGuard have one round of fuel more than the graph has edges, which is enough; the
-- loop of mapModulePaths takes its fuel as an argument, since a module that calls itself keeps the
-- source's loop going; where none does, the fuel of Discovery/Graph/Paths is enough. The walk of a
-- closure has fuel for every reference of its expansions and two more, since it nests by addresses
-- not yet seen. The until-dry loop recurses on its limit of rounds. Every other recursion is
-- structural. Whether a file of the verdict cache can be written, listed or removed is a parameter.
--
-- Not modelled: the parsing of HCL and the walks over it besides the reference graph's, Terraform
-- processes, sandboxes, files, JSON codecs and reports, and the engine that drives them.
pub mod Prelude
pub mod Text
pub mod Dict
pub mod Mutation
pub mod Discovery
pub mod Fingerprint
pub mod Oracle
pub mod Engine
pub mod Store
mod Examples
