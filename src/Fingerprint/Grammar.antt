-- ===== src/Fingerprint/Grammar.antt =====
-- internal/fingerprint/path.go: the canonical payload path.
pub mod Markers
pub mod Addressing
use tf_mut.Prelude.{
  Bool, ◌&&◌, ◌||◌, Option, none, some, List, [], ◌∷◌, ◌++◌, ◌==◌, if◌then◌else◌, some_pass, ◌>>=◌,
}
use tf_mut.Prelude.Int.{increment, decrement, is_zero, ℤ, pos}
use tf_mut.Text.{Text, text, text_eq, is_empty}
use tf_mut.Text.Cutting.{has_prefix, cut_prefix, trim_prefix, cut, rest_of}
use tf_mut.Discovery.Address.{block_addr}
use tf_mut.Fingerprint.Members.{
  resource_changes, output_changes, root_module, state_outputs, output_root, plan_values,
  change_after, change_before, output_after_field, output_value_field,
}
use tf_mut.Fingerprint.Bracketed.{cut_bracketed, digits_only}

-- `pathKind`.
pub data PathKind : Type 0 where
  other plan_resource plan_output state_resource state_output : PathKind

-- `Path`.
pub record PayloadPath : Type 0 where
  pub raw : Text
  pub kind : PathKind
  pub owner : Text
  pub body : Text

-- A record of a resource, after its opening bracket.
abbrev resource_path : Text → PathKind → Option (Text × Text) → PayloadPath
resource_path raw kind none = record { raw = raw; kind = kind; owner = []; body = [] }
resource_path raw kind (some (inside, remainder)) = record {
  raw = raw;
  kind = kind;
  owner = inside;
  body = remainder;
}

-- A record of an output, after its separating dot.
abbrev output_path : Text → PathKind → Text × Option Text → PayloadPath
output_path raw kind (before, after) = record {
  raw = raw;
  kind = kind;
  owner = before;
  body = rest_of after;
}

-- `ParsePath`.
unfoldable pub parse_path : Text → PayloadPath
unfolding has_prefix trim_prefix cut cut_bracketed
parse_path raw =
    if has_prefix (resource_changes ++ text "[") raw
    then resource_path raw plan_resource
        (cut_bracketed (trim_prefix (resource_changes ++ text "[") raw))
    else if has_prefix (output_changes ++ text ".") raw
    then output_path raw plan_output (cut b'.' (trim_prefix (output_changes ++ text ".") raw))
    else if has_prefix (root_module ++ text ".resources[") raw
    then resource_path raw state_resource
        (cut_bracketed (trim_prefix (root_module ++ text ".resources[") raw))
    else if has_prefix (state_outputs ++ text ".") raw
    then output_path raw state_output (cut b'.' (trim_prefix (state_outputs ++ text ".") raw))
    else record { raw = raw; kind = other; owner = []; body = [] }

-- The loop of `addressUnder`, over the bodies.
under_body : Text → Text → List Text → Text
under_body owner rest [] = owner
under_body owner rest (body ∷ bodies) =
    let later = under_body owner rest bodies in
    if text_eq rest body then owner else elim (cut_prefix (body ++ text ".") rest) [
      | none ↦ later
      | some attribute ↦ owner ++ (text "." ++ attribute)
    ]

-- `addressUnder`.
unfoldable pub address_under : PayloadPath → List Text → Text
unfolding under_body trim_prefix cut_prefix
address_under p bodies = under_body p.owner (trim_prefix (text ".") p.body) bodies

abbrev block_or_empty : Option Text → Text
block_or_empty none = []
block_or_empty (some address) = address

abbrev pub output_block : Text → Text
output_block owner = block_or_empty (block_addr output_root (owner ∷ []))

-- `outputAddress`.
unfoldable pub output_address : PayloadPath → Text
output_address p = if is_empty p.owner then [] else output_block p.owner

abbrev address_of_kind : PathKind → PayloadPath → Text
address_of_kind plan_resource p = address_under p (change_after ∷ change_before ∷ [])
address_of_kind state_resource p = address_under p (plan_values ∷ [])
address_of_kind plan_output p = output_address p
address_of_kind state_output p = output_address p
address_of_kind other p = []

-- `Path.Address`.
unfoldable pub address : PayloadPath → Text
unfolding address_under output_address
address p = address_of_kind p.kind p

abbrev bodies_of : PathKind → List Text
bodies_of plan_resource = change_after ∷ change_before ∷ []
bodies_of state_resource = plan_values ∷ []
bodies_of _ = []

-- `Path.Attribute`; a path of another kind has no body to continue from.
unfoldable pub is_attribute : PayloadPath → Text → Text → Bool
unfolding has_prefix trim_prefix
is_attribute p resource attribute =
    let rest = trim_prefix (text ".") p.body in
    text_eq p.owner resource
    && some_pass
        (λ body.
          text_eq rest (body ++ (text "." ++ attribute))
          || has_prefix (body ++ (text "." ++ (attribute ++ text "."))) rest)
        (bodies_of p.kind)

-- The loop of `attributeSegments`, with the segment so far.
segments_from : Text → ℤ → Text → List Text
segments_from part depth [] = part ∷ []
segments_from part depth (letter ∷ rest) =
    let next : ℤ =
      if letter == b'['
      then increment depth
      else if letter == b']'
      then decrement depth
      else depth in
    let split : Bool = letter == b'.' && is_zero depth in
    let later = segments_from (if split then [] else part ++ letter ∷ []) next rest in
    if split then part ∷ later else later

-- `attributeSegments`; its nil is the empty list.
unfoldable pub attribute_segments : Text → List Text
unfolding segments_from
attribute_segments attribute = if is_empty attribute then [] else segments_from [] (pos 0) attribute

-- `splitAddressed`; `none` is its `false`.
unfoldable pub split_addressed : PayloadPath → Text → Option (Text × Text)
unfolding trim_prefix cut_prefix
split_addressed p body =
    let rest = trim_prefix (text ".") p.body in
    if text_eq rest body then some (p.owner, []) else elim (cut_prefix (body ++ text ".") rest) [
      | none ↦ none
      | some attribute ↦ some (p.owner, attribute)
    ]

-- The last case of `splitOutput`, after the opening bracket of an element.
abbrev output_element : Text → Text → Text × Option Text → Option (Text × Text)
output_element resource attribute (key, none) = none
output_element resource attribute (key, some rest) =
    if digits_only key then some (resource, text "[" ++ attribute) else none

-- `splitOutput`.
unfoldable pub split_output : PayloadPath → Text → Option (Text × Text)
unfolding cut_prefix cut digits_only
split_output p body =
    if is_empty p.owner
    then none
    else if text_eq p.body body
    then some (output_block p.owner, [])
    else elim (cut_prefix (body ++ text ".") p.body) [
      | some attribute ↦ some (output_block p.owner, attribute)
      | none ↦ elim (cut_prefix (body ++ text "[") p.body) [
        | none ↦ none
        | some attribute ↦ output_element (output_block p.owner) attribute (cut b']' attribute)
      ]
    ]

abbrev split_kind : PathKind → PayloadPath → Option (Text × Text)
split_kind plan_resource p = split_addressed p change_after
split_kind state_resource p = split_addressed p plan_values
split_kind plan_output p = split_output p output_after_field
split_kind state_output p = split_output p output_value_field
split_kind other p = none

-- `Path.Split`; `none` is its `false`.
unfoldable pub split : PayloadPath → Option (Text × Text)
unfolding split_addressed split_output
split p = split_kind p.kind p

-- `Path.Segments`.
unfoldable pub segments : PayloadPath → List Text
unfolding split attribute_segments
segments p = elim (split p) [
  | none ↦ []
  | some (resource, attribute) ↦ attribute_segments attribute
]
