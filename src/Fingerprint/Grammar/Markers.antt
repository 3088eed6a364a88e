-- ===== src/Fingerprint/Grammar/Markers.antt =====
-- internal/fingerprint/path.go: the paths of unknown markers, of output metadata and of counted
-- instances.
use tf_mut.Prelude.{
  ℕ, ◌+◌, ◌-◌, ◌*◌, Bool, true, false, not, ◌&&◌, ◌||◌, Option, none, some, [], ◌∷◌, ◌++◌, ltb,
  ◌==◌, if◌then◌else◌,
}
use tf_mut.Text.{Text, text, is_empty, contains}
use tf_mut.Text.Cutting.{cut_prefix, trim_prefix, cut_suffix, cut}
use tf_mut.Fingerprint.Bracketed.{cut_bracketed, digits_only}
use tf_mut.Fingerprint.Members.{
  resource_changes, output_changes, after_unknown, before_unknown, after_sensitive,
  before_sensitive, output_sensitive, output_type, change_after, change_after_unknown,
  output_after_field,
}
use tf_mut.Fingerprint.Grammar.{
  PathKind, plan_resource, plan_output, state_resource, state_output, PayloadPath,
}

-- What follows a marker: nothing, or a member.
abbrev dotted : Text → Bool
dotted [] = true
dotted (letter ∷ rest) = letter == b'.'

-- The element key that a marker carries, and what follows it.
abbrev marked_element : Option (Text × Text) → Option Text
marked_element none = none
marked_element (some (index, remainder)) =
    if dotted remainder then some (text "[" ++ (index ++ (text "]" ++ remainder))) else none

-- `unknownOutputBase`; `none` is its `false`.
unfoldable pub unknown_output_base : PayloadPath → Option Text
unfolding cut_prefix cut_bracketed
unknown_output_base p =
    let base = λ (marked : Text).
      output_changes ++ (text "." ++ (p.owner ++ (text "." ++ (output_after_field ++ marked)))) in
    elim (cut_prefix after_unknown p.body) [
      | none ↦ none
      | some marked ↦ elim (cut_prefix (text "[") marked) [
        | none ↦ if dotted marked then some (base marked) else none
        | some rest ↦ elim (marked_element (cut_bracketed rest)) [
          | none ↦ none
          | some element ↦ some (base element)
        ]
      ]
    ]

abbrev unknown_resource_base : PayloadPath → Option Text
unknown_resource_base p = elim (cut_prefix (text "." ++ change_after_unknown) p.body) [
  | none ↦ none
  | some marked ↦
      some (resource_changes ++ (text "[" ++ (p.owner ++ (text "]." ++ (change_after ++ marked)))))
]

abbrev unknown_base_of : PathKind → PayloadPath → Option Text
unknown_base_of plan_output p = unknown_output_base p
unknown_base_of plan_resource p = unknown_resource_base p
unknown_base_of _ p = none

-- `Path.UnknownValueBase`.
unfoldable pub unknown_value_base : PayloadPath → Option Text
unfolding unknown_output_base cut_prefix
unknown_value_base p = unknown_base_of p.kind p

abbrev found {ℓ} : {A : Type ℓ} → Option A → Bool
found none = false
found (some a) = true

-- `Path.IsUnknownMarker`.
unfoldable pub is_unknown_marker : PayloadPath → Bool
unfolding unknown_value_base
is_unknown_marker p = found (unknown_value_base p)

abbrev marked_part : PathKind → PayloadPath → Bool
marked_part plan_output p = not (is_empty (trim_prefix after_unknown p.body))
marked_part plan_resource p = not (is_empty (trim_prefix (text "." ++ change_after_unknown) p.body))
marked_part _ p = false

-- `Path.MarksValuePart`.
unfoldable pub marks_value_part : PayloadPath → Bool
unfolding is_unknown_marker trim_prefix
marks_value_part p = is_unknown_marker p && marked_part p.kind p

abbrev is_output : PathKind → Bool
is_output plan_output = true
is_output state_output = true
is_output _ = false

-- `Path.IsOutputMetadata`.
unfoldable pub is_output_metadata : PayloadPath → Bool
unfolding cut
is_output_metadata p =
    let field = (cut b'[' (cut b'.' p.body).0).0 in
    is_output p.kind
    && (not (is_empty p.body)
        && contains field (
            output_sensitive ∷ output_type ∷ after_sensitive ∷ before_sensitive ∷ after_unknown
            ∷ before_unknown ∷ []))

-- `strconv.Atoi` on a text of digits; `none` where a 64-bit integer does not hold the number.
abbrev atoi_from : ℕ → Text → ℕ
atoi_from n [] = n
atoi_from n (letter ∷ rest) = atoi_from (n * 10 + (letter - b'0')) rest

unfoldable pub atoi : Text → Option ℕ
atoi key = let n = atoi_from 0 key in if ltb n 9223372036854775808 then some n else none

abbrev is_resource : PathKind → Bool
is_resource plan_resource = true
is_resource state_resource = true
is_resource _ = false

-- A key that is closed, numeric and in range.
abbrev instance_index : Text → Option ℕ
instance_index tail = elim (cut_suffix (text "]") tail) [
  | none ↦ none
  | some key ↦ if digits_only key then atoi key else none
]

-- `Path.CountedInstance`; `none` is its `false`.
unfoldable pub counted_instance : PayloadPath → Option (Text × ℕ)
unfolding cut cut_suffix digits_only atoi
counted_instance p =
    let (name, tail) = cut b'[' p.owner in
    if not (is_resource p.kind) || is_empty name then none else elim tail [
      | none ↦ none
      | some t ↦ elim (instance_index t) [ none ↦ none | some index ↦ some (name, index) ]
    ]

-- `Path.CountedInstanceRoot`; where the text has no bracket the address starts with the text.
abbrev bracketed_address : Option (Text × Text) → Text
bracketed_address none = []
bracketed_address (some (inside, remainder)) = inside

unfoldable pub counted_instance_root : PayloadPath → Text
unfolding cut cut_bracketed
counted_instance_root p = elim (cut b'[' p.raw).1 [
  | none ↦ bracketed_address (cut_bracketed p.raw) ++ text "]"
  | some rest ↦
      (cut b'[' p.raw).0 ++ (text "[" ++ (bracketed_address (cut_bracketed rest) ++ text "]"))
]
