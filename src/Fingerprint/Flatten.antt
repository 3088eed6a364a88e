-- ===== src/Fingerprint/Flatten.antt =====
-- internal/fingerprint/payload.go: a decoded payload as canonical paths with scalar renderings. The
-- decoder leaves numbers as they were written. An object is the list of its members, of which Go's
-- map holds each key once.
pub mod Scalars
use tf_mut.Prelude.{
  ℕ, suc, Bool, true, false, not, ◌&&◌, ◌||◌, Option, none, some, List, [], ◌∷◌, ◌++◌, map,
  if◌then◌else◌, ◌>>=◌, elements,
}
use tf_mut.Text.{Text, text, text_eq, is_empty, contains}
use tf_mut.Text.Cutting.{cut_suffix, has_suffix, holds}
use tf_mut.Text.Decimal.{itoa}
use tf_mut.Dict.{Dict, put, keys}
use tf_mut.Fingerprint.Quoting.{Quoting}
use tf_mut.Fingerprint.Members.{resource_changes}

mutual
  pub data Json : Type 0 where
    null : Json
    string number : Text → Json
    boolean : Bool → Json
    array : Elements → Json
    object : Members → Json

  pub data Elements : Type 0 where
    none_left : Elements
    element : Json → Elements → Elements

  pub data Members : Type 0 where
    no_more : Members
    member_of : Text → Json → Members → Members

abbrev pub empty_object : Text
empty_object = text "{}"

abbrev pub empty_array : Text
empty_array = text "[]"

-- `unreachableMembers`.
abbrev unreachable_members : List Text
unreachable_members =
    text "provider_name"
    ∷ text "schema_version"
    ∷ text "mode"
    ∷ text "depends_on"
    ∷ text "replace_paths"
    ∷ text "deposed_key"
    ∷ text "tainted"
    ∷ text "provider_config_key"
    ∷ []

-- `isEntry`.
unfoldable pub is_entry : Text → Bool
unfolding has_suffix holds
is_entry prefix =
    has_suffix (text "]") prefix
    && (holds (resource_changes ++ text "[") prefix || holds (text "resources[") prefix)

-- `isChange`.
unfoldable pub is_change : Text → Bool
unfolding cut_suffix is_entry
is_change prefix = elim (cut_suffix (text ".change") prefix) [
  | none ↦ false
  | some trimmed ↦ is_entry trimmed
]

-- `reachable`.
unfoldable pub reachable : Text → Text → Bool
unfolding is_entry is_change
reachable prefix key =
    if is_empty prefix
    then not (text_eq key (text "relevant_attributes"))
    else if not (contains key unreachable_members)
    then true
    else not (is_entry prefix) && not (is_change prefix)

-- `join`.
unfoldable pub join_path : Text → Text → Text
join_path prefix key = if is_empty prefix then key else prefix ++ (text "." ++ key)

-- The values that `flatten` hands to `scalar`: it hands on no container, so the default case of
-- `scalar`, which encodes one, is never reached.
pub data Leaf : Type 0 where
  null_leaf : Leaf
  string_leaf number_leaf : Text → Leaf
  boolean_leaf : Bool → Leaf

-- `scalar`.
unfoldable pub scalar : Quoting → Leaf → Text
scalar q null_leaf = text "null"
scalar q (string_leaf s) = q.quote s
scalar q (boolean_leaf true) = text "true"
scalar q (boolean_leaf false) = text "false"
scalar q (number_leaf n) = n

abbrev member_address : Members → Option Json
member_address no_more = none
member_address (member_of key value rest) =
    let later = member_address rest in if text_eq key (text "address") then some value else later

abbrev address_value : Option Json → Option Text
address_value (some (string address)) = some address
address_value _ = none

abbrev element_address : Json → Option Text
element_address (object members) = address_value (member_address members)
element_address _ = none

-- The loop of `addressesOf`, with the addresses seen; `none` is its `false`.
addresses_from : List Text → Elements → Option (List Text)
addresses_from seen none_left = some []
addresses_from seen (element value rest) = elim (element_address value) [
  | none ↦ none
  | some address ↦
      let later = addresses_from (address ∷ seen) rest in
      if is_empty address || contains address seen
      then none
      else elim later [ none ↦ none | some addresses ↦ some (address ∷ addresses) ]
]

-- `addressesOf`.
unfoldable pub addresses_of : Elements → Option (List Text)
unfolding addresses_from
addresses_of elements = addresses_from [] elements

abbrev bracketed : Text → Text → Text
bracketed prefix key = prefix ++ (text "[" ++ (key ++ text "]"))

-- The key of the next element: its address, or its index.
abbrev next_key : Option (List Text) → ℕ → Text
next_key none index = itoa index
next_key (some []) index = []
next_key (some (address ∷ addresses)) index = address

abbrev next_keys : Option (List Text) → Option (List Text)
next_keys (some (address ∷ addresses)) = some addresses
next_keys keys = keys

-- `flatten`, with `flattenArray` in the case of an array.
unfoldable mutual
  unfolding reachable join_path scalar addresses_of itoa

  pub flatten : Quoting → Text → Json → Dict Text → Dict Text
  flatten q prefix (object no_more) into = put prefix empty_object into
  flatten q prefix (object (member_of key value rest)) into =
      flatten_members q prefix (member_of key value rest) into
  flatten q prefix (array none_left) into = put prefix empty_array into
  flatten q prefix (array (element value rest)) into =
      flatten_elements q prefix (addresses_of (element value rest)) 0 (element value rest) into
  flatten q prefix null into = put prefix (scalar q null_leaf) into
  flatten q prefix (string s) into = put prefix (scalar q (string_leaf s)) into
  flatten q prefix (number n) into = put prefix (scalar q (number_leaf n)) into
  flatten q prefix (boolean b) into = put prefix (scalar q (boolean_leaf b)) into

  pub flatten_members : Quoting → Text → Members → Dict Text → Dict Text
  flatten_members q prefix no_more into = into
  flatten_members q prefix (member_of key value rest) into =
      let flat = flatten q (join_path prefix key) value into in
      flatten_members q prefix rest (if not (reachable prefix key) then into else flat)

  pub flatten_elements : Quoting → Text → Option (List Text) → ℕ → Elements → Dict Text → Dict Text
  flatten_elements q prefix keys index none_left into = into
  flatten_elements q prefix keys index (element value rest) into =
      flatten_elements q prefix (next_keys keys) (suc index) rest
        (flatten q (bracketed prefix (next_key keys index)) value into)
