-- ===== src/Text/Cutting.antt =====
-- The cuts of Go's `strings` package at a prefix, a suffix or a separator.
use tf_mut.Prelude.{
  ℕ, ◌≡◌, refl, ap, Bool, true, false, ◌&&◌, ◌||◌, Option, none, some, [], ◌∷◌, ◌++◌, arith, ◌==◌,
  if◌then◌else◌,
}
use tf_mut.Text.{Text, text_eq, is_empty}

-- `strings.HasPrefix(s, prefix)`.
unfoldable pub has_prefix : Text → Text → Bool
has_prefix [] s = true
has_prefix (c ∷ prefix) [] = false
has_prefix (c ∷ prefix) (x ∷ s) = c == x && has_prefix prefix s

-- `strings.CutPrefix(s, prefix)`; `none` is its `false`.
unfoldable pub cut_prefix : Text → Text → Option Text
cut_prefix [] s = some s
cut_prefix (c ∷ prefix) [] = none
cut_prefix (c ∷ prefix) (x ∷ s) = let rest = cut_prefix prefix s in if c == x then rest else none

abbrev or_else : Text → Option Text → Text
or_else s none = s
or_else s (some t) = t

-- `strings.TrimPrefix(s, prefix)`.
unfoldable pub trim_prefix : Text → Text → Text
unfolding cut_prefix
trim_prefix prefix s = or_else s (cut_prefix prefix s)

-- `strings.CutSuffix(s, suffix)`; `none` is its `false`.
unfoldable pub cut_suffix : Text → Text → Option Text
cut_suffix suffix [] = if is_empty suffix then some [] else none
cut_suffix suffix (c ∷ s) =
    let later = cut_suffix suffix s in
    if text_eq (c ∷ s) suffix then some [] else elim later [ none ↦ none | some t ↦ some (c ∷ t) ]

-- `strings.HasSuffix(s, suffix)`.
unfoldable pub has_suffix : Text → Text → Bool
has_suffix suffix [] = is_empty suffix
has_suffix suffix (c ∷ s) = text_eq (c ∷ s) suffix || has_suffix suffix s

-- `strings.Contains(s, part)`.
unfoldable pub holds : Text → Text → Bool
unfolding has_prefix
holds part [] = is_empty part
holds part (c ∷ s) = has_prefix part (c ∷ s) || holds part s

-- `strings.Cut(s, separator)` at one letter; the rest is `none` where the letter is not found.
unfoldable pub cut : ℕ → Text → Text × Option Text
cut separator [] = ([], none)
cut separator (c ∷ s) =
    let later = cut separator s in if c == separator then ([], some s) else (c ∷ later.0, later.1)

-- The rest of a cut, empty where the separator is not found.
abbrev pub rest_of : Option Text → Text
rest_of none = []
rest_of (some s) = s

pub cut_prefix-append : (prefix s : Text) → cut_prefix prefix (prefix ++ s) ≡ some s
unfolding cut_prefix
cut_prefix-append [] s = refl
cut_prefix-append (c ∷ prefix) s = ground (arith, cut_prefix-append prefix s)

pub has_prefix-append : (prefix s : Text) → has_prefix prefix (prefix ++ s) ≡ true
unfolding has_prefix
has_prefix-append [] s = refl
has_prefix-append (c ∷ prefix) s = ground (arith, has_prefix-append prefix s)

pub trim_prefix-append : (prefix s : Text) → trim_prefix prefix (prefix ++ s) ≡ s
unfolding trim_prefix
trim_prefix-append prefix s = ap (or_else (prefix ++ s)) (cut_prefix-append prefix s)
