-- ===== src/Store/Counting.antt =====
-- How many of a list of names are left when its first ones are removed.
use mathlib.Core.List.{append_assoc}
use tf_mut.Prelude.{
  ℕ, zero, suc, ◌+◌, ◌-◌, ◌≤◌, ◌≡◌, refl, sym, ap, ◌∙◌, Bool, true, not, List, [], ◌∷◌, ◌++◌, arith,
  length, select, all_pass, count_if, take, drop, count_if-le-length, count_if-append,
}
use tf_mut.Text.{Text, contains, text_eq_refl}

pub count_if-same :
    {A : Type 0}
    → (p q : A → Bool) → ((a : A) → p a ≡ q a)
    → (xs : List A) → count_if p xs ≡ count_if q xs
count_if-same p q same [] = refl
count_if-same p q same (x ∷ xs) = ground (arith, same x, count_if-same p q same xs)

contains-select :
    (r : Text → Bool) (x : Text) (zs xs : List Text)
    → r x ≡ true
    → contains x (select r (zs ++ x ∷ xs)) ≡ true
unfolding contains
contains-select r x [] xs h = ground (arith, h, text_eq_refl x)
contains-select r x (z ∷ zs) xs h = ground (arith, contains-select r x zs xs h)

count_if-own :
    (r : Text → Bool) (zs xs : List Text)
    → count_if (λ x. not (contains x (select r (zs ++ xs)))) xs ≤ count_if (λ x. not (r x)) xs
count_if-own r zs [] = omega arith
count_if-own r zs (x ∷ xs) =
    let same : zs ++ (x ∷ xs) ≡ (zs ++ x ∷ []) ++ xs = sym (append_assoc zs (x ∷ []) xs) in
    let moved = ap (λ ys. count_if (λ y. not (contains y (select r ys))) xs) same in
    ground (arith, contains-select r x zs xs, moved, count_if-own r (zs ++ x ∷ []) xs)

take-drop : (n : ℕ) (xs : List Text) → take n xs ++ drop n xs ≡ xs
take-drop zero xs = refl
take-drop (suc n) [] = refl
take-drop (suc n) (x ∷ xs) = ap (λ ys. x ∷ ys) (take-drop n xs)

length-drop : (n : ℕ) (xs : List Text) → length (drop n xs) ≡ length xs - n
length-drop zero xs = omega arith
length-drop (suc n) [] = omega arith
length-drop (suc n) (x ∷ xs) = omega (arith, length-drop n xs)

-- Of a list, what the removable of its first names leave is no longer than the rest and those of them
-- that cannot be removed.
pub count_if-rest :
    (r : Text → Bool) (n : ℕ) (xs : List Text)
    → count_if (λ x. not (contains x (select r (take n xs)))) xs
      ≤ (length xs - n) + count_if (λ x. not (r x)) (take n xs)
count_if-rest r n xs =
    let q : Text → Bool = λ x. not (contains x (select r (take n xs))) in
    let parts : count_if q xs ≡ count_if q (take n xs) + count_if q (drop n xs) =
      sym (ap (count_if q) (take-drop n xs)) ∙ count_if-append q (take n xs) (drop n xs) in
    omega (
      arith,
      parts,
      count_if-own r [] (take n xs),
      count_if-le-length q (drop n xs),
      length-drop n xs,
    )

pub none_fails :
    (r : Text → Bool) (xs : List Text) → all_pass r xs ≡ true → count_if (λ x. not (r x)) xs ≡ 0
none_fails r [] h = refl
none_fails r (x ∷ xs) h = ground (arith, h, none_fails r xs)
