-- ===== src/Fingerprint/Volatility.antt =====
-- internal/fingerprint/mask.go: the volatile set of two runs, and what masking leaves of a payload.
-- Of a payload (payload.go) the types of the outputs are left out, which masking copies.
pub mod Deriving
pub mod Settled
pub mod Rerun
pub mod Ends
use tf_mut.Prelude.{
  ℕ, zero, suc, ◌+◌, ◌-◌, Bool, true, false, not, ◌||◌, Option, none, some, List, [], ◌∷◌, ◌++◌,
  ltb, if◌then◌else◌, length, ◌>>=◌,
}
use tf_mut.Text.Cutting.{has_prefix}
use tf_mut.Text.{Text, text, text_eq}
use tf_mut.Dict.{Dict, is_some, get, put, keys, has}
use tf_mut.Dict.Keys.{member, add}
use tf_mut.Fingerprint.Quoting.{unquote, Quoting}
use tf_mut.Fingerprint.Mask.{new_mask, mask_empty, add_all, Span, Mask}

pub record Payload : Type 0 where
  pub file : Text
  pub run : Text
  pub kind : Text
  pub values : Dict Text
  pub unknowns : List Text

-- `Payload.Key`.
unfoldable pub payload_key : Payload → Text
payload_key p = p.file ++ (text "::" ++ p.run)

abbrev pub volatile_marker : Text
volatile_marker = 0 ∷ []

-- `isContainer`.
unfoldable pub is_container : Text → Bool
is_container rendering = text_eq rendering (text "{}") || text_eq rendering (text "[]")

abbrev same : Bool → Bool → Bool
same true b = b
same false b = not b

-- `decompose`; `none` is its `false`.
unfoldable pub decompose : Quoting → Text → Text → Option Span
unfolding is_container unquote
decompose q left right =
    if not (same (is_some (unquote q left)) (is_some (unquote q right)))
      || not (same (is_container left) (is_container right))
    then none
    else some (record { prefix = []; suffix = []; whole = true; from_syntax = false })

-- `text[n:]`.
abbrev pub from : ℕ → Text → Text
from zero s = s
from (suc n) [] = []
from (suc n) (c ∷ s) = from n s

-- `Span.apply`; `none` is its `false`.
unfoldable pub span_apply : Quoting → Span → Text → Option Text
unfolding unquote has_prefix
span_apply q s value = if s.whole then some volatile_marker else elim (unquote q value) [
  | none ↦ some volatile_marker
  | some t ↦
      if ltb (length t) (length s.prefix + length s.suffix) || not (has_prefix s.prefix t)
      then none
      else some (q.quote (s.prefix ++ (volatile_marker ++ from (length t - length s.suffix) t)))
]

-- What the loop of `Apply` keeps at one path; `none` is a path that makes it indeterminate.
pub mask_value : Quoting → Mask → Text → Text → Option Text
unfolding span_apply
mask_value q m path value =
    if member path m.undecidable
    then none
    else elim (get path m.spans) [ none ↦ some value | some span ↦ span_apply q span value ]

-- The loop of `Apply`: the masked values, and whether some path was indeterminate.
pub mask_values : Quoting → Mask → Dict Text → Dict Text × Bool
unfolding mask_value
mask_values q m [] = ([], false)
mask_values q m ((path, value) ∷ rest) =
    let (masked, indeterminate) = mask_values q m rest in
    elim (mask_value q m path value) [
      | none ↦ (masked, true)
      | some kept ↦ ((path, kept) ∷ masked, indeterminate)
    ]

-- `Mask.Apply`.
unfoldable pub apply : Quoting → Mask → Payload → Payload × Bool
unfolding mask_values
apply q m p =
    if mask_empty m
    then (p, false)
    else (record p { values = (mask_values q m p.values).0 }, (mask_values q m p.values).1)

abbrev undecide : Text → Mask → Mask
undecide path m = record m { undecidable = add path m.undecidable }

-- One round of the first loop of `derivePayload`.
pub derive_value : Quoting → Payload → Text → Text → Mask → Mask
derive_value q second path value m = elim (get path second.values) [
  | none ↦ undecide path m
  | some other ↦ if text_eq value other then m else elim (decompose q value other) [
    | none ↦ undecide path m
    | some span ↦ record m { spans = put path span m.spans }
  ]
]

pub derive_values : Quoting → Payload → Dict Text → Mask → Mask
unfolding derive_value
derive_values q second [] m = m
derive_values q second ((path, value) ∷ rest) m =
    derive_values q second rest (derive_value q second path value m)

-- The second loop of `derivePayload`.
pub derive_missing : Payload → Dict Text → Mask → Mask
derive_missing first [] m = m
derive_missing first ((path, value) ∷ rest) m =
    derive_missing first rest (if has path first.values then m else undecide path m)

pub derive_payload : Quoting → Payload → Payload → Mask → Mask
unfolding derive_values derive_missing
derive_payload q first second m =
    derive_missing first second.values (derive_values q second first.values m)

-- `byKey`: a later payload replaces an earlier one of the same run.
unfoldable pub by_key : List Payload → Dict Payload → Dict Payload
unfolding payload_key
by_key [] m = m
by_key (payload ∷ rest) m = by_key rest (put (payload_key payload) payload m)

-- The loop of `Derive`.
pub derive_runs : Quoting → Dict Payload → List Payload → Mask → Mask
unfolding derive_payload payload_key
derive_runs q second [] m = m
derive_runs q second (payload ∷ rest) m =
    derive_runs q second rest (elim (get (payload_key payload) second) [
      | none ↦ record m { undecidable = add_all (keys payload.values) m.undecidable }
      | some other ↦ derive_payload q payload other m
    ])

-- `Derive`.
unfoldable pub derive : Quoting → List Payload → List Payload → Mask
unfolding derive_runs by_key new_mask
derive q first second = derive_runs q (by_key second []) first new_mask
