-- ===== src/Fingerprint/Compare.antt =====
-- internal/fingerprint/delta.go: `Compare`. The maps of payloads by run are dictionaries by their key.
pub mod Identity
pub mod Empty
use tf_mut.Prelude.{
  ◌≡◌, ◌⊎◌, Bool, true, false, not, ◌&&◌, ◌||◌, Option, none, some, List, [], ◌∷◌, ◌++◌, map, arith,
  if◌then◌else◌, some_pass, ◌>>=◌,
}
use tf_mut.Prelude.Sorting
use tf_mut.Prelude.Sorting.{Sortable}
use tf_mut.Text.{Text, text_eq, is_empty, contains, text_eq_iff}
use tf_mut.Text.Order.{sort, text_le, text_le_total, text_le_trans, text_le_antisymm}
use tf_mut.Dict.{Dict, get, put, remove, keys, has}
use tf_mut.Fingerprint.Quoting.{Quoting}
use tf_mut.Fingerprint.Mask.{Mask}
use tf_mut.Fingerprint.Grammar.{parse_path, address, other}
use tf_mut.Fingerprint.Sensitive.{sensitive, sensitive_renderings}
use tf_mut.Fingerprint.Delta.{addresses, Change, Delta}
use tf_mut.Fingerprint.Volatility.{payload_key, apply, by_key, Payload}

-- What a map of payloads or of values gives for a missing key.
abbrev payload_at : Text → Dict Payload → Payload
payload_at key payloads = elim (get key payloads) [
  | none ↦ record { file = []; run = []; kind = []; values = []; unknowns = [] }
  | some payload ↦ payload
]

abbrev value_at : Text → Dict Text → Text
value_at path values = elim (get path values) [ none ↦ [] | some value ↦ value ]

-- The two payloads of a run as they were, and the secrets of all runs.
pub record Evidence : Type 0 where
  pub baseline : Payload
  pub mutant : Payload
  pub secrets : List Text

abbrev either_sensitive : Evidence → Text → Bool
either_sensitive e path = sensitive e.baseline path || sensitive e.mutant path

-- A difference; whether its baseline is volatile is written later.
unfoldable pub change_at : Evidence → Text → Text → Text → Text → Change
unfolding sensitive address parse_path
change_at e key path baseline mutant = record {
  run = key;
  path = path;
  address = address (parse_path path);
  baseline = baseline;
  mutant = mutant;
  baseline_volatile = false;
  sensitive = either_sensitive e path || (contains baseline e.secrets || contains mutant e.secrets);
}

-- The first loop of `comparePayload`.
unfoldable pub changed_values : Evidence → Text → Dict Text → Dict Text → List Change
unfolding change_at
changed_values e key mutant [] = []
changed_values e key mutant ((path, value) ∷ rest) =
    let later = changed_values e key mutant rest in
    let other = value_at path mutant in
    if has path mutant && text_eq other value
    then later
    else change_at e key path value other ∷ later

-- A value that only the mutant has: its baseline is absent and no rendering of the set.
abbrev appeared : Evidence → Text → Text → Text → Change
appeared e key path value =
    let change = change_at e key path [] value in
    record change { sensitive = either_sensitive e path || contains value e.secrets }

-- The second loop of `comparePayload`.
unfoldable pub added_values : Evidence → Text → Dict Text → Dict Text → List Change
unfolding change_at sensitive
added_values e key baseline [] = []
added_values e key baseline ((path, value) ∷ rest) =
    let later = added_values e key baseline rest in
    if has path baseline then later else appeared e key path value ∷ later

-- `comparePayload`.
unfoldable pub compare_payload : Text → Payload → Payload → Evidence → List Change
unfolding changed_values added_values
compare_payload key baseline mutant e =
    changed_values e key mutant.values baseline.values
    ++ added_values e key baseline.values mutant.values

-- `byKey`, the masked payloads of the mutant.
unfoldable pub masked_by_key : Quoting → Mask → List Payload → Dict Payload → Dict Payload
unfolding apply payload_key
masked_by_key q m [] by_run = by_run
masked_by_key q m (payload ∷ rest) by_run =
    masked_by_key q m rest (put (payload_key payload) (apply q m payload).0 by_run)

-- Whether masking some payload of a run set is undecidable.
unfoldable pub undecided : Quoting → Mask → List Payload → Bool
unfolding apply
undecided q m payloads = some_pass (λ payload. (apply q m payload).1) payloads

-- `secrets`, over both run sets.
unfoldable pub all_secrets : List Payload → List Text
unfolding sensitive_renderings
all_secrets [] = []
all_secrets (payload ∷ rest) = sensitive_renderings payload ++ all_secrets rest

-- The variables of the loop over the baseline.
pub record Comparison : Type 0 where
  pub by_run : Dict Payload
  pub changes : List Change
  pub missing : List Text

-- What the loop reads: the payloads as they were, and the secrets.
pub record Runs : Type 0 where
  pub unmasked : Dict Payload
  pub unmasked_mutant : Dict Payload
  pub secrets : List Text

abbrev evidence_of : Runs → Text → Evidence
evidence_of r key = record {
  baseline = payload_at key r.unmasked;
  mutant = payload_at key r.unmasked_mutant;
  secrets = r.secrets;
}

-- The body of the loop, of the masked payload that the mutant has for the run.
unfoldable pub compare_found : Runs → Text → Payload → Option Payload → Comparison → Comparison
unfolding compare_payload
compare_found r key baseline none s = record s { missing = s.missing ++ key ∷ [] }
compare_found r key baseline (some mutant) s = record s {
  changes = s.changes ++ compare_payload key baseline mutant (evidence_of r key);
  by_run = remove key s.by_run;
}

unfoldable pub compare_runs : Quoting → Mask → Runs → List Payload → Comparison → Comparison
unfolding compare_found apply payload_key
compare_runs q m r [] s = s
compare_runs q m r (payload ∷ rest) s =
    let key = payload_key payload in
    compare_runs q m r rest (compare_found r key (apply q m payload).0 (get key s.by_run) s)

abbrev run_path_le : Change → Change → Bool
run_path_le a b = if text_eq a.run b.run then text_le a.path b.path else text_le a.run b.run

pub run_path_le_total : (a b : Change) → (run_path_le a b ≡ true) ⊎ (run_path_le b a ≡ true)
run_path_le_total a b = ground (
  arith,
  text_le_total a.path b.path,
  text_le_total a.run b.run,
  text_eq_iff a.run b.run,
  text_eq_iff b.run a.run,
)

pub run_path_le_trans :
    (a b c : Change) → run_path_le a b ≡ true → run_path_le b c ≡ true → run_path_le a c ≡ true
run_path_le_trans a b c = ground (
  arith,
  text_le_trans a.path b.path c.path,
  text_le_trans a.run b.run c.run,
  text_le_antisymm a.run b.run,
  text_eq_iff a.run b.run,
  text_eq_iff b.run c.run,
  text_eq_iff a.run c.run,
)

abbrev pub by_run_path : Sortable Change
by_run_path = record {
  le = run_path_le;
  le_total = run_path_le_total;
  le_trans = run_path_le_trans;
}

abbrev volatile_of : Mask → Change → Change
volatile_of m change = record change {
  baseline_volatile = has change.path m.spans && not (is_empty change.baseline);
}

-- `Compare`.
unfoldable pub compare : Quoting → Mask → List Payload → List Payload → Delta
unfolding masked_by_key undecided all_secrets compare_runs by_key
compare q m baseline mutant =
    let r : Runs = record {
      unmasked = by_key baseline [];
      unmasked_mutant = by_key mutant [];
      secrets = all_secrets baseline ++ all_secrets mutant;
    } in
    let s : Comparison =
      compare_runs q m r baseline
        (record { by_run = masked_by_key q m mutant []; changes = []; missing = [] }) in
    record {
      changes = some (Sorting.sort by_run_path (map (volatile_of m) s.changes));
      indeterminate = undecided q m mutant || undecided q m baseline;
      missing_runs = sort (s.missing ++ keys s.by_run);
    }

-- The loop of `Unknowns` with the addresses seen.
unfoldable pub unseen : List Text → List Text → List Text
unseen seen [] = []
unseen seen (address ∷ rest) =
    let taken = contains address seen in
    let later = unseen (if taken then seen else address ∷ seen) rest in
    if taken then later else address ∷ later

abbrev all_unknowns : List Payload → List Text
all_unknowns [] = []
all_unknowns (payload ∷ rest) = payload.unknowns ++ all_unknowns rest

-- `Unknowns`.
unfoldable pub unknowns : List Payload → List Text
unfolding unseen
unknowns payloads = sort (unseen [] (all_unknowns payloads))
