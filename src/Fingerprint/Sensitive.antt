-- ===== src/Fingerprint/Sensitive.antt =====
-- internal/fingerprint/payload.go: which values a payload marks sensitive, and its digest.
use tf_mut.Prelude.{
  Bool, false, not, ◌&&◌, Option, none, some, List, [], ◌∷◌, ◌++◌, map, if◌then◌else◌, select,
  some_pass,
}
use tf_mut.Text.{Text, text, text_eq}
use tf_mut.Text.Cutting.{has_prefix, trim_prefix, holds}
use tf_mut.Dict.{get}
use tf_mut.Fingerprint.Members.{
  resource_changes, output_changes, root_module, state_outputs, output_root, after_sensitive,
  before_sensitive, sensitive_values, output_sensitive, change_before,
}
use tf_mut.Fingerprint.Grammar.{
  parse_path, attribute_segments, split, segments, other, plan_resource, plan_output,
  state_resource, state_output, PayloadPath,
}
use tf_mut.Fingerprint.Volatility.{Payload}

abbrev mirror_of : PayloadPath → Text → Text
mirror_of p resource = elim p.kind [
  | plan_resource ↦
      let mirror =
        if holds (text "]." ++ change_before) p.raw then before_sensitive else after_sensitive in
      resource_changes ++ (text "[" ++ (resource ++ (text "].change." ++ mirror)))
  | state_resource ↦
      root_module ++ (text ".resources[" ++ (resource ++ (text "]." ++ sensitive_values)))
  | plan_output ↦
      output_changes
      ++ (text "."
          ++ (trim_prefix (output_root ++ text ".") resource ++ (text "." ++ after_sensitive)))
  | state_output ↦
      state_outputs
      ++ (text "."
          ++ (trim_prefix (output_root ++ text ".") resource ++ (text "." ++ output_sensitive)))
  | other ↦ []
]

-- `sensitivityMirror`; `none` is its `false`. A path that splits is of one of the four records.
unfoldable pub sensitivity_mirror : PayloadPath → Option (Text × List Text)
unfolding split attribute_segments holds trim_prefix
sensitivity_mirror p = elim (split p) [
  | none ↦ none
  | some (resource, attribute) ↦ some (mirror_of p resource, attribute_segments attribute)
]

-- `ancestorPaths`.
unfoldable pub ancestor_paths : Text → List Text → List Text
ancestor_paths base [] = base ∷ []
ancestor_paths base (segment ∷ segments) =
    base ∷ ancestor_paths (base ++ (text "." ++ segment)) segments

abbrev is_true : Option Text → Bool
is_true none = false
is_true (some value) = text_eq value (text "true")

-- `Payload.Sensitive`.
unfoldable pub sensitive : Payload → Text → Bool
unfolding parse_path sensitivity_mirror ancestor_paths
sensitive p path = elim (sensitivity_mirror (parse_path path)) [
  | none ↦ false
  | some (base, segments) ↦
      some_pass (λ candidate. is_true (get candidate p.values)) (ancestor_paths base segments)
]

abbrev is_secret : Payload → Text × Text → Bool
is_secret p (path, value) =
    has_prefix (text "\"") value && (not (text_eq value (text "\"\"")) && sensitive p path)

-- `SensitiveRenderings`, the values of the set.
unfoldable pub sensitive_renderings : Payload → List Text
unfolding sensitive has_prefix
sensitive_renderings p = map (λ kv. kv.1) (select (is_secret p) p.values)
