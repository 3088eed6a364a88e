-- ===== src/Text/Order.antt =====
-- `strings.Compare`, `cmp.Compare` and `slices.Sort` on strings.
use tf_mut.Prelude.{
  ℕ, ◌≡◌, refl, sym, ap, ◌∙◌, ◌⊎◌, inl, inr, Bool, true, false, ◌&&◌, ◌||◌, List, [], ◌∷◌, arith,
  ltb, ◌==◌, count_if,
}
use tf_mut.Prelude.Sorting
use tf_mut.Prelude.Sorting.{Sortable}
use tf_mut.Text.{Text, text_eq, contains}

unfoldable pub text_le : Text → Text → Bool
text_le [] t = true
text_le (a ∷ s) [] = false
text_le (a ∷ s) (b ∷ t) = ltb a b || (a == b && text_le s t)

pub text_le_total : (a b : Text) → (text_le a b ≡ true) ⊎ (text_le b a ≡ true)
unfolding text_le
text_le_total [] b = inl refl
text_le_total (x ∷ a) [] = inr refl
text_le_total (x ∷ a) (y ∷ b) = ground (arith, text_le_total a b)

pub text_le_trans : (a b c : Text) → text_le a b ≡ true → text_le b c ≡ true → text_le a c ≡ true
unfolding text_le
text_le_trans [] b c h k = refl
text_le_trans (x ∷ a) [] c h k = cc
text_le_trans (x ∷ a) (y ∷ b) [] h k = cc
text_le_trans (x ∷ a) (y ∷ b) (z ∷ c) h k = ground (arith, text_le_trans a b c)

pub text_le_antisymm : (a b : Text) → text_le a b ≡ true → text_le b a ≡ true → a ≡ b
unfolding text_le
text_le_antisymm [] [] h k = refl
text_le_antisymm [] (y ∷ b) h k = cc
text_le_antisymm (x ∷ a) [] h k = cc
text_le_antisymm (x ∷ a) (y ∷ b) h k = ground (arith, text_le_antisymm a b)

abbrev pub text_order : Sortable Text
text_order = record { le = text_le; le_total = text_le_total; le_trans = text_le_trans }

-- `slices.Sort` on a slice of strings.
abbrev pub sort : List Text → List Text
sort = Sorting.sort text_order

contains-count : (a : Text) (xs : List Text) → contains a xs ≡ ltb 0 (count_if (text_eq a) xs)
unfolding contains
contains-count a [] = refl
contains-count a (x ∷ xs) = ground (arith, contains-count a xs)

-- Sorting keeps the members.
pub contains-sort : (a : Text) (xs : List Text) → contains a (sort xs) ≡ contains a xs
contains-sort a xs =
    contains-count a (sort xs)
    ∙ ap (λ (n : ℕ). ltb 0 n) (Sorting.count_if-sort text_order (text_eq a) xs)
    ∙ sym (contains-count a xs)
