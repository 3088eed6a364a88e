-- ===== src/Fingerprint/Project.antt =====
-- internal/fingerprint/payload.go: the projection of a run's payloads, their versions, unknown
-- addresses and sensitivity. The published types of outputs are left out.
use tf_mut.Dict.Keys.{TextSet, add}
use tf_mut.Discovery.Address.{split_dots}
use tf_mut.Fingerprint.Bracketed.{digits_only}
use tf_mut.Fingerprint.Members.{after_unknown, before_unknown}
use tf_mut.Fingerprint.Grammar.{parse_path, address}
use tf_mut.Fingerprint.Volatility.{Payload}
use tf_mut.Prelude.{
  ℕ, zero, suc, Bool, true, false, not, ◌&&◌, ◌||◌, Option, none, some, List, [], ◌∷◌, ◌++◌, ltb,
  ◌==◌, if◌then◌else◌, length, is_nil, ◌>>=◌, Result, ok, err,
}
use tf_mut.Prelude.Int.{ℤ, pos, negsuc}
use tf_mut.Text.{Text, text, text_eq, is_empty, join}
use tf_mut.Text.Order.{sort}
use tf_mut.Dict.{Dict, keys}
use tf_mut.Fingerprint.Quoting.{Quoting}
use tf_mut.Fingerprint.Grammar.Markers.{atoi}
use tf_mut.Fingerprint.Flatten.{
  flatten, flatten_members, Json, string, object, Members, no_more, member_of,
}

-- `tfexec.RunPayload`, with its document's members.
pub record RunPayload : Type 0 where
  pub file : Text
  pub run : Text
  pub kind : Text
  pub value : Members

-- What `checkFormatVersion` refuses.
pub data VersionError : Type 0 where
  undeclared not_a_string out_of_range : Text → VersionError

abbrev number_of : Option ℕ → ℤ
number_of none = negsuc 0
number_of (some n) = pos n

abbrev negated : ℤ → ℤ
negated (pos (suc n)) = negsuc n
negated z = z

-- `strconv.Atoi`, with -1 for its error; a sign is read. The least 64-bit integer, which is outside every
-- accepted version as -1 is, is taken for an error.
version_number : Text → ℤ
version_number [] = negsuc 0
version_number (c ∷ digits) =
    if c == b'-'
    then if digits_only digits then negated (number_of (atoi digits)) else negsuc 0
    else if c == b'+'
    then if digits_only digits then number_of (atoi digits) else negsuc 0
    else if digits_only (c ∷ digits)
    then number_of (atoi (c ∷ digits))
    else negsuc 0

-- `versionPart`, of the parts from an index on.
abbrev part_or_zero : List Text → ℤ
part_or_zero [] = pos 0
part_or_zero (part ∷ parts) = version_number part

abbrev tail_of : List Text → List Text
tail_of [] = []
tail_of (part ∷ parts) = parts

-- The sign of a difference.
pub data Sign : Type 0 where
  less equal greater : Sign

compare_numbers : ℕ → ℕ → Sign
compare_numbers a b = if ltb a b then less else if ltb b a then greater else equal

compare_ints : ℤ → ℤ → Sign
unfolding compare_numbers
compare_ints (pos a) (pos b) = compare_numbers a b
compare_ints (pos a) (negsuc b) = greater
compare_ints (negsuc a) (pos b) = less
compare_ints (negsuc a) (negsuc b) = compare_numbers b a

abbrev then_compare : Sign → Sign → Sign
then_compare equal later = later
then_compare order later = order

-- The loop of `compareVersions`; the fuel is the number of rounds.
compare_parts : ℕ → List Text → List Text → Sign
unfolding compare_ints version_number
compare_parts zero left right = equal
compare_parts (suc rounds) left right =
    then_compare (compare_ints (part_or_zero left) (part_or_zero right))
      (compare_parts rounds (tail_of left) (tail_of right))

abbrev larger : ℕ → ℕ → ℕ
larger a b = if ltb a b then b else a

-- `compareVersions`, of which callers read the sign.
unfoldable pub compare_versions : Text → Text → Sign
unfolding compare_parts split_dots
compare_versions left right =
    let left_parts = split_dots [] left in
    let right_parts = split_dots [] right in
    compare_parts (larger (length left_parts) (length right_parts)) left_parts right_parts

abbrev is_less : Sign → Bool
is_less less = true
is_less _ = false

abbrev is_greater : Sign → Bool
is_greater greater = true
is_greater _ = false

-- The last value that a document has at a member.
field_of : Text → Members → Option Json
field_of name no_more = none
field_of name (member_of key value rest) =
    let later = field_of name rest in if text_eq key name then some value else later

abbrev check_range : Text → Text → Text → Option Json → Result VersionError (Unit {0})
check_range field minimum maximum none = err (undeclared field)
check_range field minimum maximum (some (string version)) =
    if is_less (compare_versions version minimum) || is_greater (compare_versions version maximum)
    then err (out_of_range version)
    else ok tt
check_range field minimum maximum (some value) = err (not_a_string field)

-- `checkFormatVersion`.
unfoldable pub check_format_version : RunPayload → Result VersionError (Unit {0})
unfolding field_of compare_versions
check_format_version p =
    let plan_field = text "plan_format_version" in
    let state_field = text "state_format_version" in
    if text_eq p.kind (text "state")
    then check_range state_field (text "1.0") (text "1.0") (field_of state_field p.value)
    else check_range plan_field (text "1.0") (text "1.2") (field_of plan_field p.value)

-- The loop of `unknownAddress`, with the segments before.
unknown_from : List Text → List Text → Option Text
unknown_from before [] = none
unknown_from before (segment ∷ rest) =
    let later = unknown_from (before ++ segment ∷ []) rest in
    let owner = address (parse_path (join (text ".") before)) in
    if not (text_eq segment after_unknown) && not (text_eq segment before_unknown)
    then later
    else if is_empty owner
    then none
    else if is_nil rest
    then some owner
    else some (owner ++ (text "." ++ join (text ".") rest))

-- `unknownAddress`; `none` is its `false`.
unfoldable pub unknown_address : Text → Option Text
unfolding unknown_from split_dots
unknown_address path = unknown_from [] (split_dots [] path)

abbrev found_at : Text → Text → Option Text
found_at path value = if not (text_eq value (text "true")) then none else unknown_address path

-- The set `found`.
unknown_set : Dict Text → TextSet
unfolding unknown_address
unknown_set [] = []
unknown_set ((path, value) ∷ rest) = elim (found_at path value) [
  | none ↦ unknown_set rest
  | some found ↦ add found (unknown_set rest)
]

-- `unknownAddresses`.
unfoldable pub unknown_addresses : Dict Text → List Text
unfolding unknown_set
unknown_addresses values = sort (keys (unknown_set values))

-- `project`, without the types of the outputs.
unfoldable pub project : Quoting → RunPayload → Result VersionError Payload
unfolding check_format_version flatten_members unknown_addresses
project q p = do
  _ ← check_format_version p
  let values = flatten q [] (object p.value) []
  ok (record {
    file = p.file;
    run = p.run;
    kind = p.kind;
    values = values;
    unknowns = unknown_addresses values;
  })
