-- ===== src/Examples/Payloads.antt =====
-- Payload paths, renderings and deltas at concrete inputs.
use tf_mut.Prelude.{◌≡◌, refl, true, false, some, [], ◌∷◌, length, elements}
use tf_mut.Prelude.Sorting
use tf_mut.Text.{Text, text, text_eq}
use tf_mut.Dict.{get, put, remove, keys}
use tf_mut.Fingerprint.Mask.{new_mask, mask_empty, Mask}
use tf_mut.Fingerprint.Delta.{delta_empty}
use tf_mut.Fingerprint.Grammar.{parse_path, address, split}
use tf_mut.Fingerprint.Grammar.Addressing.{
  plan_path, state_path, split-parse_path, closing, plain, Balanced, empty, letter_then, quote_then,
  bracket_then,
}
use tf_mut.Fingerprint.Flatten.{flatten, string}
use tf_mut.Fingerprint.Flatten.Scalars.{scalar_injective, string_scalar}
use tf_mut.Fingerprint.Volatility.{payload_key, span_apply, apply, by_key}
use tf_mut.Fingerprint.Compare.{compare}
use tf_mut.Fingerprint.Compare.Empty.{compare-Identical, Identical}
use tf_mut.Examples.Reruns.{plain_quoting, payload}

-- An instance whose key holds a bracket.
abbrev keyed : Text
keyed = text "d.a[\"x]\"]"

keyed-Balanced : Balanced keyed
keyed-Balanced = letter_then b'd' refl (
    letter_then b'.' refl (
      letter_then b'a' refl (
        bracket_then
          (quote_then {key = text "x]\""} {rest = []}
            (plain b'x' refl refl (plain b']' refl refl closing)) empty)
          empty)))

split-parse_path_example :
    (address (parse_path (plan_path keyed (text ".change.after.size"))) ≡ text "d.a[\"x]\"].size")
    × (split (parse_path (plan_path keyed (text ".change.after.size"))) ≡ some (keyed, text "size"))
    × (address (parse_path (state_path keyed (text ".values.size"))) ≡ text "d.a[\"x]\"].size")
    × (split (parse_path (state_path keyed (text ".values.size"))) ≡ some (keyed, text "size"))
split-parse_path_example = split-parse_path keyed (text "size") keyed-Balanced

scalar_injective_example : string (text "null") ≡ string (text "null")
unfolding flatten put get text_eq
scalar_injective_example =
    scalar_injective plain_quoting (text "a") [] ((text "a", text "1") ∷ []) (string (text "null"))
      (string (text "null")) (string_scalar (text "null")) (string_scalar (text "null")) refl

-- The stamp is volatile.
abbrev stamp_mask : Mask
stamp_mask = record {
  spans =
      (text "a.stamp", record { prefix = []; suffix = []; whole = true; from_syntax = false }) ∷ [];
  undecidable = [];
}

compare-Identical_example :
    Identical plain_quoting stamp_mask (payload (text "1") ∷ []) (payload (text "2") ∷ [])
unfolding compare delta_empty by_key payload_key get put text_eq mask_empty keys remove apply
    span_apply Sorting.sort
compare-Identical_example =
    compare-Identical plain_quoting stamp_mask (payload (text "1") ∷ []) (payload (text "2") ∷ [])
      refl

-- Without the mask the stamp is a change of the delta.
one_change :
    length (
      elements
        (compare plain_quoting new_mask
          (payload (text "1") ∷ [])
          (payload (text "2") ∷ [])).changes)
    ≡ 1
unfolding compare by_key payload_key get put text_eq mask_empty new_mask keys remove Sorting.sort
one_change = refl
