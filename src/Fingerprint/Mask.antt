-- ===== src/Fingerprint/Mask.antt =====
-- internal/fingerprint/mask.go: the volatile set, its unions, and what masking leaves of a payload.
pub mod View
pub mod WellFormed
pub mod Lattice
pub mod Paths
use tf_mut.Prelude.{
  Bool, true, false, not, ◌&&◌, ◌||◌, Option, none, some, List, [], ◌∷◌, ◌++◌, map, ◌==◌,
  if◌then◌else◌, is_nil, ◌>>=◌,
}
use tf_mut.Text.{Text}
use tf_mut.Text.Order.{sort}
use mathlib.Core.List.{reverse}
use mathlib.Core.Bool.{xor}
use tf_mut.Dict.{Dict, get, put, remove, keys, has}
use tf_mut.Dict.Keys.{TextSet, add}
use tf_mut.Fingerprint.Quoting.{Quoting}

pub record Span : Type 0 where
  pub prefix : Text
  pub suffix : Text
  pub whole : Bool
  pub from_syntax : Bool

-- Of the map `Undecidable` the program only ever writes `true`, so it is a set.
pub record Mask : Type 0 where
  pub spans : Dict Span
  pub undecidable : TextSet

unfoldable pub new_mask : Mask
new_mask = record { spans = []; undecidable = [] }

unfoldable pub syntax_span : Text → Text → Bool → Span
syntax_span prefix suffix whole = record {
  prefix = prefix;
  suffix = suffix;
  whole = whole;
  from_syntax = true;
}

-- `Mask.Empty`.
unfoldable pub mask_empty : Mask → Bool
mask_empty m = is_nil m.spans && is_nil m.undecidable

-- `Mask.Paths`.
unfoldable pub paths : Mask → List Text
paths m = sort (keys m.spans ++ keys m.undecidable)

-- `Mask.Undecidables`.
unfoldable pub undecidables : Mask → List Text
undecidables m = sort (keys m.undecidable)

unfoldable pub common_prefix : Text → Text → Text
common_prefix [] b = []
common_prefix (x ∷ a) [] = []
common_prefix (x ∷ a) (y ∷ b) = let rest = common_prefix a b in if x == y then x ∷ rest else []

-- `commonSuffix`: the common prefix of the two texts read backwards.
unfoldable pub common_suffix : Text → Text → Text
unfolding common_prefix
common_suffix a b = reverse (common_prefix (reverse a) (reverse b))

unfoldable pub narrower : Span → Span → Span
unfolding xor
narrower left right =
    if xor left.from_syntax right.from_syntax
    then (if left.from_syntax then left else right)
    else if left.whole || right.whole
    then record { prefix = []; suffix = []; whole = true; from_syntax = left.from_syntax }
    else record {
      prefix = common_prefix left.prefix right.prefix;
      suffix = common_suffix left.suffix right.suffix;
      whole = false;
      from_syntax = left.from_syntax;
    }

-- The switch of the first loop of `union`, on what the receiver has at the path.
pub merge_known : Option Span → Bool → Text → Span → Mask → Mask
merge_known (some existing) new_is_undecidable path span merged = record merged {
  spans = put path (narrower existing span) merged.spans;
}
merge_known none new_is_undecidable path span merged =
    if new_is_undecidable
    then record merged { undecidable = add path merged.undecidable }
    else record merged { spans = put path span merged.spans }

-- The loop, over the spans of the other mask: a path is looked up in the receiver, not in the result.
pub merge_spans : Mask → Bool → Dict Span → Mask → Mask
unfolding merge_known
merge_spans m new_is_undecidable [] merged = merged
merge_spans m new_is_undecidable ((path, span) ∷ rest) merged =
    merge_spans m new_is_undecidable rest
      (merge_known (get path m.spans) new_is_undecidable path span merged)

-- The second loop.
pub add_all : List Text → TextSet → TextSet
add_all [] s = s
add_all (path ∷ rest) s = add_all rest (add path s)

-- The third loop.
pub remove_all : List Text → Dict Span → Dict Span
remove_all [] m = m
remove_all (path ∷ rest) m = remove_all rest (remove path m)

unfoldable pub union : Mask → Mask → Bool → Mask
unfolding merge_spans add_all remove_all
union m other new_is_undecidable =
    let merged = merge_spans m new_is_undecidable other.spans m in
    let undecidable = add_all (keys other.undecidable) merged.undecidable in
    record { spans = remove_all (keys undecidable) merged.spans; undecidable = undecidable }

-- `Mask.Merge`.
abbrev pub merge : Mask → Mask → Mask
merge m other = union m other false

-- `Mask.MergeMutantVolatility`.
abbrev pub merge_mutant_volatility : Mask → Mask → Mask
merge_mutant_volatility m other = union m other true
