-- ===== src/Store/Verdicts.antt =====
-- internal/store/verdict.go: the verdict cache. The directory is the dictionary of its files by name,
-- without the temporary files of `Put`, which no operation looks at. What the system does is a
-- parameter: whether a write, made to a temporary file first, succeeds (`written`), whether the
-- directory can be read (`listed`), and which files can be removed (`removable`). So are the JSON
-- codec, with the type of what it writes, and SHA-256. A run key has the sixteen letters that are cut
-- from it.
use tf_mut.Prelude.{
  ℕ, ◌+◌, ◌-◌, Bool, true, false, not, ◌&&◌, ◌||◌, Option, none, some, List, [], ◌∷◌, ◌++◌,
  if◌then◌else◌, length, select, take,
}
use tf_mut.Text.{Text, text, text_eq}
use tf_mut.Text.Order.{sort}
use tf_mut.Text.Cutting.{has_prefix, has_suffix}
use tf_mut.Dict.{Dict, get, put, remove, keys}
use tf_mut.Oracle.Record.{Record}

-- `CacheEntry`.
pub record CacheEntry : Type 0 where
  pub format_version : Text
  pub run_key : Text
  pub mutant_id : Text
  pub stored : Record
  pub observed : Text

-- `json.Marshal` and `json.Unmarshal` on an entry, which may fail and are not assumed to be inverse to
-- each other, and `sha256` in hexadecimal.
pub record Codec (C : Type 0) : Type 0 where
  pub encode : CacheEntry → Option C
  pub decode : C → Option CacheEntry
  pub digest : Text → Text

-- What a name of the directory stands for: a regular file with what reading it gives, a directory, or
-- anything that `Get` does not read.
pub data File (C : Type 0) : Type 0 where
  regular : C → File C
  directory irregular : File C

abbrev pub Directory : Type 0 → Type 0
Directory C = Dict (File C)

-- `VerdictCache`, without its directory.
pub record VerdictCache (C : Type 0) : Type 0 where
  pub codec : Codec C
  pub entry_format_version : Text
  pub max_entries : ℕ

-- `runKey[:KeyPrefixLength]`.
abbrev pub key_prefix : Text → Text
key_prefix run_key = take 16 run_key

-- `entryName`.
unfoldable pub entry_name : {C : Type 0} → Codec C → Text → Text → Text
entry_name c run_key mutant_id =
    key_prefix run_key
    ++ (text "-" ++ (take 32 (c.digest (run_key ++ (text "|" ++ mutant_id))) ++ text ".json"))

abbrev pub read_file : {C : Type 0} → Option (File C) → Option C
read_file (some (regular content)) = some content
read_file _ = none

-- The checks of `Get` on what was decoded.
abbrev pub admitted :
    {C : Type 0} → VerdictCache C → Text → Text → Option CacheEntry → Option CacheEntry
admitted c run_key mutant_id none = none
admitted c run_key mutant_id (some e) =
    if not (text_eq e.format_version c.entry_format_version)
      || (not (text_eq e.run_key run_key) || not (text_eq e.mutant_id mutant_id))
    then none
    else some e

-- `Get`; `none` is its miss.
unfoldable pub get_entry :
    {C : Type 0} → VerdictCache C → Directory C → Text → Text → Option CacheEntry
unfolding entry_name
get_entry c dir run_key mutant_id =
    elim (read_file (get (entry_name c.codec run_key mutant_id) dir)) [
      | none ↦ none
      | some content ↦ admitted c run_key mutant_id (c.codec.decode content)
    ]

-- `Put`.
unfoldable pub put_entry :
    {C : Type 0} → VerdictCache C → Bool → Text → Text → CacheEntry → Directory C → Directory C
unfolding entry_name
put_entry c written run_key mutant_id e dir = elim (c.codec.encode e) [
  | none ↦ dir
  | some content ↦
      if written then put (entry_name c.codec run_key mutant_id) (regular content) dir else dir
]

abbrev is_directory : {C : Type 0} → File C → Bool
is_directory directory = true
is_directory _ = false

-- The files that `Evict` counts, and those of the key it names.
unfoldable pub is_cached : {C : Type 0} → Text × File C → Bool
unfolding has_suffix
is_cached (name, file) = has_suffix (text ".json") name && not (is_directory file)

unfoldable pub is_current : {C : Type 0} → Text → Text × File C → Bool
unfolding has_prefix
is_current run_key (name, file) = has_prefix (key_prefix run_key ++ text "-") name

unfoldable pub stale_names : {C : Type 0} → Text → Directory C → List Text
unfolding is_cached is_current
stale_names run_key dir = sort (keys (select (λ f. is_cached f && not (is_current run_key f)) dir))

unfoldable pub current_names : {C : Type 0} → Text → Directory C → List Text
unfolding is_cached is_current
current_names run_key dir = sort (keys (select (λ f. is_cached f && is_current run_key f) dir))

-- `os.Remove` of each name; a file that cannot be removed stays.
unfoldable pub remove_all : {C : Type 0} → (Text → Bool) → List Text → Directory C → Directory C
remove_all removable [] dir = dir
remove_all removable (name ∷ rest) dir =
    remove_all removable rest (if removable name then remove name dir else dir)

-- The names that `Evict` asks to remove: its loop stops when there is no excess left, and counts a
-- removal that fails too.
unfoldable pub evicted : {C : Type 0} → VerdictCache C → Text → Directory C → List Text
unfolding stale_names current_names
evicted c run_key dir =
    let stale = stale_names run_key dir in
    let current = current_names run_key dir in
    take (length stale + length current - c.max_entries) (stale ++ current)

-- `Evict`.
unfoldable pub evict :
    {C : Type 0} → VerdictCache C → Bool → (Text → Bool) → Text → Directory C → Directory C
unfolding evicted remove_all
evict c listed removable run_key dir =
    if listed then remove_all removable (evicted c run_key dir) dir else dir
