-- ===== src/Prelude/Sorting.antt =====
-- `slices.Sort` and `slices.SortFunc`, as insertion sort over a total preorder. Where the order is
-- antisymmetric any sorting algorithm returns this list; where it is not, this one is stable.
pub mod Selecting
use Prim.Native.Nat.{suc}
use mathlib.Core.Path.{◌≡◌, refl, ◌∙◌}
use mathlib.Core.Logic.{◌⊎◌}
use mathlib.Core.Bool.{Bool, true, ◌&&◌}
use mathlib.Core.List.{List, [], ◌∷◌, Permᴰ}
use native.Mathlib.Omega.{arith}
use tf_mut.Prelude.Tests.{if◌then◌else◌}
use tf_mut.Prelude.Lists.{length, all_pass, count_if}

-- A comparison that sorts: total and transitive.
pub record Sortable {ℓ} (A : Type ℓ) : Type ℓ where
  pub le : A → A → Bool
  pub le_total : (a b : A) → (le a b ≡ true) ⊎ (le b a ≡ true)
  pub le_trans : (a b c : A) → le a b ≡ true → le b c ≡ true → le a c ≡ true

module _ {ℓ} {A : Type ℓ} (o : Sortable A) where
  open o use {le, le_total, le_trans}

  unfoldable pub insert : A → List A → List A
  insert a [] = a ∷ []
  insert a (b ∷ bs) = let rest = insert a bs in if le a b then a ∷ b ∷ bs else b ∷ rest

  unfoldable pub sort : List A → List A
  unfolding insert
  sort [] = []
  sort (a ∷ xs) = insert a (sort xs)

  abbrev pub IsSorted : List A → Type 0
  IsSorted [] = Unit
  IsSorted (a ∷ xs) = (all_pass (le a) xs ≡ true) × IsSorted xs

  pub count_if-insert :
      (p : A → Bool) (a : A) (xs : List A) → count_if p (insert a xs) ≡ count_if p (a ∷ xs)
  unfolding insert
  count_if-insert p a [] = refl
  count_if-insert p a (b ∷ bs) = ground (arith, count_if-insert p a bs)

  -- Sorting keeps every element xs often xs it was there.
  pub count_if-sort : (p : A → Bool) (xs : List A) → count_if p (sort xs) ≡ count_if p xs
  unfolding sort
  count_if-sort p [] = refl
  count_if-sort p (a ∷ xs) = omega (arith, count_if-insert p a (sort xs), count_if-sort p xs)

  pub length-insert : (a : A) (xs : List A) → length (insert a xs) ≡ suc (length xs)
  unfolding insert
  length-insert a [] = refl
  length-insert a (b ∷ bs) = ground (arith, length-insert a bs)

  pub length-sort : (xs : List A) → length (sort xs) ≡ length xs
  unfolding sort
  length-sort [] = refl
  length-sort (a ∷ xs) = omega (arith, length-insert a (sort xs), length-sort xs)

  all_pass-insert :
      (p : A → Bool) (a : A) (xs : List A) → all_pass p (insert a xs) ≡ (p a && all_pass p xs)
  unfolding insert
  all_pass-insert p a [] = refl
  all_pass-insert p a (b ∷ bs) = ground (arith, all_pass-insert p a bs)

  pub all_pass-sort : (p : A → Bool) (xs : List A) → all_pass p (sort xs) ≡ all_pass p xs
  unfolding sort
  all_pass-sort p [] = refl
  all_pass-sort p (a ∷ xs) = ground (arith, all_pass-insert p a (sort xs), all_pass-sort p xs)

  all_pass-le_trans :
      (a b : A) (xs : List A)
      → le a b ≡ true
      → all_pass (le b) xs ≡ true
      → all_pass (le a) xs ≡ true
  all_pass-le_trans a b [] h k = refl
  all_pass-le_trans a b (c ∷ cs) h k = ground (arith, le_trans a b c h, all_pass-le_trans a b cs h)

  insert-IsSorted : (a : A) (xs : List A) → IsSorted xs → IsSorted (insert a xs)
  unfolding insert
  insert-IsSorted a [] h = (refl, tt)
  insert-IsSorted a (b ∷ bs) h = ground (
    arith,
    le_total a b,
    all_pass-le_trans a b bs,
    all_pass-insert (le b) a bs,
    insert-IsSorted a bs,
  )

  pub sort-IsSorted : (xs : List A) → IsSorted (sort xs)
  unfolding sort
  sort-IsSorted [] = tt
  sort-IsSorted (a ∷ xs) = insert-IsSorted a (sort xs) (sort-IsSorted xs)

-- Where the comparison is antisymmetric, the order in which the elements came is forgotten: a Go map
-- that is iterated and then sorted gives one list.
module _ {ℓ} {A : Type ℓ} (o : Sortable A)
    (antisymm : (a b : A) → o.le a b ≡ true → o.le b a ≡ true → a ≡ b) where
  open o use {le, le_total, le_trans}

  insert_comm : (a b : A) (xs : List A) → insert o a (insert o b xs) ≡ insert o b (insert o a xs)
  unfolding insert
  insert_comm a b [] = ground (arith, le_total a b, antisymm a b)
  insert_comm a b (c ∷ cs) = ground (
    arith,
    insert_comm a b cs,
    le_total a b,
    antisymm a b,
    le_total a c,
    le_total b c,
    le_trans a b c,
    le_trans b a c,
    le_trans b c a,
    le_trans a c b,
  )

  sort-Permᴰ : {xs ys : List A} → Permᴰ xs ys → sort o xs ≡ sort o ys
  unfolding sort
  sort-Permᴰ Permᴰ.nil = refl
  sort-Permᴰ (Permᴰ.cons {a = x} {b = y} {l₁ = xs} {l₂ = ys} e p) = cc (e, sort-Permᴰ p)
  sort-Permᴰ (Permᴰ.swap {a = x} {b = y} {l = xs} e f) = rw (← e, ← f) (insert_comm x y (sort o xs))
  sort-Permᴰ (Permᴰ.trans p q) = sort-Permᴰ p ∙ sort-Permᴰ q
