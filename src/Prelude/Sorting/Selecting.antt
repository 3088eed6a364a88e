-- ===== src/Prelude/Sorting/Selecting.antt =====
-- Sorting and then selecting is selecting and then sorting.
use tf_mut.Prelude.{◌≡◌, refl, Bool, true, List, [], ◌∷◌, arith, if◌then◌else◌, select, all_pass}
use tf_mut.Prelude.Sorting.{Sortable, insert, sort, IsSorted, sort-IsSorted}

module _ {ℓ} {A : Type ℓ} (o : Sortable A) where
  open o use {le, le_total, le_trans}

  insert_first : (a : A) (xs : List A) → all_pass (le a) xs ≡ true → insert o a xs ≡ a ∷ xs
  unfolding insert
  insert_first a [] h = refl
  insert_first a (x ∷ xs) h = ground (arith, h)

  all_pass-select :
      (p q : A → Bool) (xs : List A) → all_pass q xs ≡ true → all_pass q (select p xs) ≡ true
  all_pass-select p q [] h = refl
  all_pass-select p q (x ∷ xs) h = ground (arith, all_pass-select p q xs, h)

  all_above :
      (a b : A) (xs : List A)
      → le a b ≡ true
      → all_pass (le b) xs ≡ true
      → all_pass (le a) xs ≡ true
  all_above a b [] h k = refl
  all_above a b (x ∷ xs) h k = ground (arith, le_trans a b x h, all_above a b xs h)

  select-insert :
      (p : A → Bool) (a : A) (xs : List A)
      → IsSorted o xs
      → select p (insert o a xs) ≡ (if p a then insert o a (select p xs) else select p xs)
  unfolding insert
  select-insert p a [] h = ground arith
  select-insert p a (x ∷ xs) h = ground (
    arith,
    select-insert p a xs h.1,
    insert_first a (select p xs),
    all_pass-select p (le a) xs,
    all_above a x xs,
    h.0,
  )

  pub select-sort : (p : A → Bool) (xs : List A) → select p (sort o xs) ≡ sort o (select p xs)
  unfolding sort
  select-sort p [] = refl
  select-sort p (x ∷ xs) =
      ground (arith, select-insert p x (sort o xs) (sort-IsSorted o xs), select-sort p xs)
