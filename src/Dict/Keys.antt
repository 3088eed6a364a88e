-- ===== src/Dict/Keys.antt =====
-- The keys of a map, and sets kept as maps to `true`.
use tf_mut.Prelude.{◌≡◌, refl, Bool, false, [], ◌∷◌, arith, Bool-cases, inl, inr}
use tf_mut.Text.{Text, text_eq, text_eq_iff, contains}
use tf_mut.Dict.{Dict, get, put, remove, keys, has, get-put, get-remove}

-- A `map[string]bool` of which every value is `true`.
abbrev pub TextSet : Type 0
TextSet = Dict (Unit {0})

abbrev pub member : Text → TextSet → Bool
member k s = has k s

abbrev pub add : Text → TextSet → TextSet
add k s = put k tt s

module _ {ℓ} {V : Type ℓ} where
  pub contains-keys : (k : Text) (m : Dict V) → contains k (keys m) ≡ has k m
  unfolding get keys contains
  contains-keys k [] = refl
  contains-keys k ((j, v) ∷ m) = ground (arith, contains-keys k m, text_eq_iff j k, text_eq_iff k j)

  -- No key stands twice.
  abbrev pub IsDict : Dict V → Type 0
  IsDict [] = Unit
  IsDict ((j, v) ∷ m) = (has j m ≡ false) × IsDict m

  pub put-IsDict : (k : Text) (v : V) (m : Dict V) → IsDict m → IsDict (put k v m)
  unfolding put
  put-IsDict k v [] h = (unfold get in refl, tt)
  put-IsDict k v ((j, w) ∷ m) h = elim (Bool-cases (text_eq j k)) [
    | inl e ↦ rw e (ground (arith, (text_eq_iff j k).0 e), h.1)
    | inr e ↦
        rw e
          (ground (arith, get-put k j v m, text_eq_iff k j, text_eq_iff j k), put-IsDict k v m h.1)
  ]

  pub remove-IsDict : (k : Text) (m : Dict V) → IsDict m → IsDict (remove k m)
  unfolding remove
  remove-IsDict k [] h = tt
  remove-IsDict k ((j, w) ∷ m) h = elim (Bool-cases (text_eq j k)) [
    | inl e ↦ rw e (remove-IsDict k m h.1)
    | inr e ↦
        rw e (
          ground (arith, get-remove k j m, text_eq_iff k j, text_eq_iff j k),
          remove-IsDict k m h.1,
        )
  ]
