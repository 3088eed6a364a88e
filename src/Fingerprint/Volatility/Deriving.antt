-- ===== src/Fingerprint/Volatility/Deriving.antt =====
-- What `Derive` records of one path.
use tf_mut.Prelude.{
  ◌≡◌, inl, inr, Bool, true, false, not, ◌&&◌, ◌||◌, none, some, [], ◌∷◌, arith, if◌then◌else◌,
  some_pass, cases,
}
use tf_mut.Text.{Text, text_eq, text_eq_iff}
use tf_mut.Dict.{Dict, is_some, get, has, get-put}
use tf_mut.Dict.Keys.{member}
use tf_mut.Fingerprint.Quoting.{Quoting}
use tf_mut.Fingerprint.Mask.{Mask}
use tf_mut.Fingerprint.Volatility.{
  decompose, undecide, derive_value, derive_values, derive_missing, Payload,
}

-- A value whose motion has no span, and one that has.
abbrev pub unplaced : Quoting → Payload → Text × Text → Bool
unplaced q second (k, v) = elim (get k second.values) [
  | none ↦ true
  | some o ↦ not (text_eq v o) && not (is_some (decompose q v o))
]

abbrev pub placed : Quoting → Payload → Text × Text → Bool
placed q second (k, v) = elim (get k second.values) [
  | none ↦ false
  | some o ↦ not (text_eq v o) && is_some (decompose q v o)
]

abbrev pub at_path : Text → (Text × Text → Bool) → Text × Text → Bool
at_path path p kv = text_eq path kv.0 && p kv

module _ (q : Quoting) (path : Text) where
  derive_value_lem :
      (second : Payload) (k v : Text) (m : Mask)
      → (member path (derive_value q second k v m).undecidable
          ≡ (member path m.undecidable || at_path path (unplaced q second) (k, v)))
        × (has path (derive_value q second k v m).spans
            ≡ (has path m.spans || at_path path (placed q second) (k, v)))
  unfolding derive_value
  derive_value_lem second k v m = elim (cases (get k second.values)) [
    | inl e ↦
        ground (arith, e, get-put k path tt m.undecidable, text_eq_iff k path, text_eq_iff path k)
    | inr (o, e) ↦ elim (cases (decompose q v o)) [
      | inl d ↦
          ground
            (arith, e, d, get-put k path tt m.undecidable, text_eq_iff k path, text_eq_iff path k)
      | inr (s, d) ↦
          ground (arith, e, d, get-put k path s m.spans, text_eq_iff k path, text_eq_iff path k)
    ]
  ]

  pub derive_values_lem :
      (second : Payload) (values : Dict Text) (m : Mask)
      → (member path (derive_values q second values m).undecidable
          ≡ (member path m.undecidable || some_pass (at_path path (unplaced q second)) values))
        × (has path (derive_values q second values m).spans
            ≡ (has path m.spans || some_pass (at_path path (placed q second)) values))
  unfolding derive_values
  derive_values_lem second [] m = ground arith
  derive_values_lem second ((k, v) ∷ rest) m = ground (
    arith,
    derive_values_lem second rest (derive_value q second k v m),
    derive_value_lem second k v m,
  )

  pub derive_missing_lem :
      (first : Payload) (values : Dict Text) (m : Mask)
      → (member path (derive_missing first values m).undecidable
          ≡ (member path m.undecidable || (has path values && not (has path first.values))))
        × (has path (derive_missing first values m).spans ≡ has path m.spans)
  unfolding derive_missing get
  derive_missing_lem first [] m = ground arith
  derive_missing_lem first ((k, v) ∷ rest) m = ground (
    arith,
    derive_missing_lem first rest (if has k first.values then m else undecide k m),
    get-put k path tt m.undecidable,
    text_eq_iff k path,
  )

  -- A key that a map holds passes the test that its value passes.
  pub some_pass-get :
      (p : Text × Text → Bool) (values : Dict Text) (v : Text)
      → get path values ≡ some v
      → p (path, v) ≡ true
      → some_pass (at_path path p) values ≡ true
  unfolding get
  some_pass-get p [] v e h = cc
  some_pass-get p ((k, w) ∷ rest) v e h =
      ground (arith, e, h, some_pass-get p rest v, text_eq_iff k path, text_eq_iff path k)
