-- ===== src/Fingerprint/Volatility/Settled.antt =====
-- A path that moved between the two runs is in the volatile set, and stays there.
use tf_mut.Prelude.{
  ◌≡◌, inl, inr, Bool, true, false, not, ◌&&◌, ◌||◌, none, some, List, [], ◌∷◌, ◌++◌, arith, cases,
}
use tf_mut.Text.{Text, text_eq}
use tf_mut.Dict.{Dict, get, keys, has}
use tf_mut.Dict.Keys.{member}
use tf_mut.Fingerprint.Quoting.{Quoting}
use tf_mut.Fingerprint.Mask.{add_all, Mask}
use tf_mut.Fingerprint.Mask.View.{member-add_all}
use tf_mut.Fingerprint.Volatility.{payload_key, derive_values, derive_payload, derive_runs, Payload}
use tf_mut.Fingerprint.Volatility.Deriving.{
  unplaced, placed, derive_values_lem, derive_missing_lem, some_pass-get,
}

-- The two payloads say the same of the path.
abbrev pub same_at : Text → Payload → Payload → Bool
same_at path a b = elim (get path a.values) [
  | none ↦ not (has path b.values)
  | some v ↦ elim (get path b.values) [ none ↦ false | some o ↦ text_eq v o ]
]

-- They say the same, or the mask has the path: undecidable, or by a span where both have it.
abbrev pub settled : Text → Payload → Payload → Mask → Bool
settled path a b m =
    member path m.undecidable
    || (same_at path a b || (has path a.values && (has path b.values && has path m.spans)))

module _ (q : Quoting) (path : Text) where
  derive_payload-settled :
      (a b : Payload) (m : Mask) → settled path a b (derive_payload q a b m) ≡ true
  unfolding derive_payload
  derive_payload-settled a b m =
      let inner : Mask = derive_values q b a.values m in
      let missing = derive_missing_lem q path a b.values inner in
      let values = derive_values_lem q path b a.values m in
      elim (cases (get path a.values)) [
        | inl e ↦ ground (arith, e, missing)
        | inr (v, e) ↦ elim (cases (get path b.values)) [
          | inl f ↦
              ground
                (arith, e, f, missing, values, some_pass-get q path (unplaced q b) a.values v e)
          | inr (o, f) ↦ ground (
            arith,
            e,
            f,
            missing,
            values,
            some_pass-get q path (unplaced q b) a.values v e,
            some_pass-get q path (placed q b) a.values v e,
          )
        ]
      ]

  -- The volatile set only grows.
  derive_runs_grow :
      (second : Dict Payload) (runs : List Payload) (m : Mask)
      → (member path m.undecidable ≡ true
          → member path (derive_runs q second runs m).undecidable ≡ true)
        × (has path m.spans ≡ true → has path (derive_runs q second runs m).spans ≡ true)
  unfolding derive_runs derive_payload
  derive_runs_grow second [] m = ground arith
  derive_runs_grow second (run ∷ rest) m = elim (cases (get (payload_key run) second)) [
    | inl e ↦
        let n : Mask = record m { undecidable = add_all (keys run.values) m.undecidable } in
        ground (
          arith,
          e,
          derive_runs_grow second rest n,
          member-add_all path (keys run.values) m.undecidable,
        )
    | inr (other, e) ↦ ground (
      arith,
      e,
      derive_runs_grow second rest (derive_payload q run other m),
      derive_missing_lem q path run other.values (derive_values q other run.values m),
      derive_values_lem q path other run.values m,
    )
  ]

  -- Every run that the second list has is settled.
  pub derive_runs-settled :
      (second : Dict Payload) (before after : List Payload) (a b : Payload) (m : Mask)
      → get (payload_key a) second ≡ some b
      → settled path a b (derive_runs q second (before ++ a ∷ after) m) ≡ true
  unfolding derive_runs
  derive_runs-settled second [] after a b m e = ground (
    arith,
    e,
    derive_payload-settled a b m,
    derive_runs_grow second after (derive_payload q a b m),
  )
  derive_runs-settled second (run ∷ before) after a b m e =
      derive_runs-settled second before after a b _ e
