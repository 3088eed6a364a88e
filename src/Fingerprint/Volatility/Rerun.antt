-- ===== src/Fingerprint/Volatility/Rerun.antt =====
-- Masking makes the two runs that the mask was derived from agree.
use tf_mut.Fingerprint.Volatility.Settled.{same_at, settled, derive_runs-settled}
use tf_mut.Prelude.{
  ◌≡◌, refl, ◌⊎◌, inl, inr, Bool, true, false, Option, none, some, List, [], ◌∷◌, ◌++◌, arith,
  Bool-cases, all_pass, cases,
}
use tf_mut.Text.{Text, text_eq_iff}
use tf_mut.Dict.{Dict, is_some, get, put, keys, has}
use tf_mut.Dict.Keys.{member, IsDict}
use tf_mut.Fingerprint.Quoting.{Quoting}
use tf_mut.Fingerprint.Mask.{new_mask, mask_empty, add_all, Span, Mask}
use tf_mut.Fingerprint.Volatility.{
  payload_key, decompose, span_apply, mask_value, mask_values, apply, derive_value, derive_values,
  derive_missing, derive_payload, by_key, derive_runs, derive, Payload,
}

-- Every span masks its value whole.
abbrev is_whole : Mask → Bool
is_whole m = all_pass (λ kv. kv.1.whole) m.spans

decompose-whole : (q : Quoting) (v o : Text) (s : Span) → decompose q v o ≡ some s → s.whole ≡ true
unfolding decompose
decompose-whole q v o s h = ground (arith, h)

put-whole :
    (k : Text) (s : Span) (spans : Dict Span)
    → s.whole ≡ true
    → all_pass (λ kv. kv.1.whole) spans ≡ true
    → all_pass (λ kv. kv.1.whole) (put k s spans) ≡ true
unfolding put
put-whole k s [] h i = ground (arith, h)
put-whole k s ((j, t) ∷ rest) h i = ground (arith, h, i, put-whole k s rest h)

get-whole :
    (k : Text) (s : Span) (spans : Dict Span)
    → all_pass (λ kv. kv.1.whole) spans ≡ true
    → get k spans ≡ some s
    → s.whole ≡ true
unfolding get
get-whole k s [] h e = cc
get-whole k s ((j, t) ∷ rest) h e = ground (arith, h, e, get-whole k s rest)

derive_values-whole :
    (q : Quoting) (second : Payload) (values : Dict Text) (m : Mask)
    → is_whole m ≡ true
    → is_whole (derive_values q second values m) ≡ true
unfolding derive_values derive_value
derive_values-whole q second [] m h = h
derive_values-whole q second ((k, v) ∷ rest) m h =
    derive_values-whole q second rest (derive_value q second k v m)
      (one (cases (get k second.values)))
  where
    one :
        (get k second.values ≡ none) ⊎ ((o : Text) × (get k second.values ≡ some o))
        → is_whole (derive_value q second k v m) ≡ true
    one (inl e) = ground (arith, e, h)
    one (inr (o, e)) = elim (cases (decompose q v o)) [
      | inl d ↦ ground (arith, e, d, h)
      | inr (s, d) ↦ ground (arith, e, d, h, put-whole k s m.spans (decompose-whole q v o s d) h)
    ]

derive_missing-whole :
    (first : Payload) (values : Dict Text) (m : Mask)
    → is_whole m ≡ true
    → is_whole (derive_missing first values m) ≡ true
unfolding derive_missing
derive_missing-whole first [] m h = h
derive_missing-whole first ((k, v) ∷ rest) m h =
    derive_missing-whole first rest _ (ground (arith, h))

derive_runs-whole :
    (q : Quoting) (second : Dict Payload) (runs : List Payload) (m : Mask)
    → is_whole m ≡ true
    → is_whole (derive_runs q second runs m) ≡ true
unfolding derive_runs derive_payload
derive_runs-whole q second [] m h = h
derive_runs-whole q second (run ∷ rest) m h = elim (cases (get (payload_key run) second)) [
  | inl e ↦
      let n : Mask = record m { undecidable = add_all (keys run.values) m.undecidable } in
      ground (arith, e, derive_runs-whole q second rest n h)
  | inr (other, e) ↦
      let values : Mask = derive_values q other run.values m in
      let n : Mask = derive_missing run other.values values in
      ground (
        arith,
        e,
        derive_runs-whole q second rest n (
            derive_missing-whole run other.values values
              (derive_values-whole q other run.values m h)),
      )
]

-- What `Apply` leaves of a path.
abbrev masked_at : Quoting → Mask → Text → Payload → Option Text
masked_at q m path p = elim (get path p.values) [ none ↦ none | some v ↦ mask_value q m path v ]

mask_values-get :
    (q : Quoting) (m : Mask) (path : Text) (values : Dict Text)
    → IsDict values
    → (get path (mask_values q m values).0
        ≡ elim (get path values) [ none ↦ none | some v ↦ mask_value q m path v ])
      × ((mask_values q m values).1 ≡ false
          → has path values ≡ true
          → is_some (elim (get path values) [ none ↦ none | some v ↦ mask_value q m path v ])
            ≡ true)
unfolding mask_values get
mask_values-get q m path [] h = ground arith
mask_values-get q m path ((k, v) ∷ rest) h = elim (cases (mask_value q m k v)) [
  | inl e ↦ ground (arith, e, mask_values-get q m path rest h.1, text_eq_iff k path, h.0)
  | inr (w, e) ↦ ground (arith, e, mask_values-get q m path rest h.1, text_eq_iff k path, h.0)
]

-- A settled path under a mask of whole spans: what is left of it agrees, or is nothing.
settled-masked :
    (q : Quoting) (m : Mask) (path : Text) (a b : Payload)
    → is_whole m ≡ true
    → settled path a b m ≡ true
    → (member path m.undecidable ≡ true) ⊎ (masked_at q m path a ≡ masked_at q m path b)
unfolding mask_value span_apply
settled-masked q m path a b h s = elim (Bool-cases (member path m.undecidable)) [
  | inl u ↦ inl u
  | inr u ↦ inr (elim (cases (get path a.values)) [
    | inl e ↦ ground (arith, u, e, s)
    | inr (v, e) ↦ elim (cases (get path b.values)) [
      | inl f ↦ ground (arith, u, e, f, s)
      | inr (o, f) ↦ elim (cases (get path m.spans)) [
        | inl d ↦ ground (arith, u, e, f, d, s, text_eq_iff v o)
        | inr (span, d) ↦
            ground (arith, u, e, f, d, s, text_eq_iff v o, get-whole path span m.spans h d)
      ]
    ]
  ])
]

empty_lem :
    (m : Mask) (path : Text)
    → mask_empty m ≡ true
    → (member path m.undecidable ≡ false) × (has path m.spans ≡ false)
unfolding mask_empty get
empty_lem m path h = ground (arith, h)

same_at-get :
    (path : Text) (a b : Payload) → same_at path a b ≡ true → get path a.values ≡ get path b.values
same_at-get path a b h = elim (cases (get path a.values)) [
  | inl e ↦ ground (arith, e, h)
  | inr (v, e) ↦ elim (cases (get path b.values)) [
    | inl f ↦ ground (arith, e, f, h)
    | inr (o, f) ↦ ground (arith, e, f, h, text_eq_iff v o)
  ]
]

-- An undecidable path that a payload has makes the payload indeterminate.
undecidable-masked :
    (q : Quoting) (m : Mask) (path : Text) (p : Payload)
    → member path m.undecidable ≡ true
    → masked_at q m path p ≡ none
unfolding mask_value
undecidable-masked q m path p u = ground (arith, u)

apply-settled :
    (q : Quoting) (m : Mask) (path : Text) (a b : Payload)
    → is_whole m ≡ true
    → settled path a b m ≡ true
    → IsDict a.values
    → IsDict b.values
    → (apply q m a).1 ≡ false
    → (apply q m b).1 ≡ false
    → get path (apply q m a).0.values ≡ get path (apply q m b).0.values
unfolding apply
apply-settled q m path a b w s h k na nb = elim (Bool-cases (mask_empty m)) [
  | inl e ↦ ground (arith, e, empty_lem m path e, s, same_at-get path a b)
  | inr e ↦ elim (settled-masked q m path a b w s) [
    | inl u ↦ ground (
      arith,
      e,
      u,
      na,
      nb,
      mask_values-get q m path a.values h,
      mask_values-get q m path b.values k,
      undecidable-masked q m path a u,
      undecidable-masked q m path b u,
    )
    | inr agree ↦
        ground (
          arith,
          e,
          agree,
          mask_values-get q m path a.values h,
          mask_values-get q m path b.values k,
        )
  ]
]

-- A rerun of the same configuration never shows a difference. Take the mask derived from two lists of
-- runs, a payload of the first list, and the payload of the same run that the second list ends with;
-- the values of both hold each path once. Where masking finds neither of the two indeterminate, the
-- masked payloads agree at every path.
pub apply-derive :
    (q : Quoting) (before after second : List Payload) (a b : Payload) (path : Text)
    → get (payload_key a) (by_key second []) ≡ some b
    → IsDict a.values
    → IsDict b.values
    → let mask = derive q (before ++ a ∷ after) second in
      (apply q mask a).1 ≡ false
      → (apply q mask b).1 ≡ false
      → get path (apply q mask a).0.values ≡ get path (apply q mask b).0.values
unfolding derive new_mask
apply-derive q before after second a b path e h k na nb =
    let index : Dict Payload = by_key second [] in
    apply-settled q (derive_runs q index (before ++ a ∷ after) new_mask) path a b
      (derive_runs-whole q index (before ++ a ∷ after) new_mask refl)
      (derive_runs-settled q path index before after a b new_mask e) h k na nb
