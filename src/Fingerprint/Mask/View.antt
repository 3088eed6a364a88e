-- ===== src/Fingerprint/Mask/View.antt =====
-- What a mask says of one path, and that a union is decided path by path.
use tf_mut.Prelude.{
  ◌≡◌, refl, Bool, false, ◌&&◌, ◌||◌, Option, none, some, List, [], ◌∷◌, arith, if◌then◌else◌,
}
use tf_mut.Text.{Text, text_eq, contains, text_eq_iff}
use tf_mut.Dict.{Dict, get, remove, keys, get-put, get-remove}
use tf_mut.Dict.Keys.{TextSet, member, add, contains-keys, IsDict}
use tf_mut.Fingerprint.Mask.{
  narrower, merge_known, merge_spans, add_all, remove_all, union, Span, Mask,
}

-- A path is left alone, masked down to a span, or beyond comparison.
pub data PathMask : Type 0 where
  clear : PathMask
  masked : Span → PathMask
  undecided : PathMask

abbrev of_span : Option Span → PathMask
of_span none = clear
of_span (some s) = masked s

abbrev pub view : Mask → Text → PathMask
view m path = if member path m.undecidable then undecided else of_span (get path m.spans)

-- How `Merge` and `MergeMutantVolatility` combine two such facts.
abbrev pub combine : Bool → PathMask → PathMask → PathMask
combine mutant undecided y = undecided
combine mutant clear undecided = undecided
combine mutant (masked s) undecided = undecided
combine mutant clear clear = clear
combine mutant (masked s) clear = masked s
combine mutant clear (masked t) = if mutant then undecided else masked t
combine mutant (masked s) (masked t) = masked (narrower s t)

-- The loops, read at one path: the span after a round in which the other mask has `t` there, and
-- the receiver has `o`.
module _ (mutant : Bool) (path : Text) where
  abbrev spanned : Option Span → Span → Option Span → Option Span
  spanned (some s) t before = some (narrower s t)
  spanned none t before = if mutant then before else some t

  abbrev after_loop : Option Span → Option Span → Option Span → Option Span
  after_loop o none before = before
  after_loop o (some t) before = spanned o t before

  abbrev newly : Option Span → Option Span → Bool
  newly none (some t) = mutant
  newly _ _ = false

  get-merge_known :
      (o : Option Span) (p : Text) (t : Span) (m : Mask)
      → get path (merge_known o mutant p t m).spans
        ≡ (if text_eq p path then spanned o t (get path m.spans) else get path m.spans)
  unfolding merge_known
  get-merge_known (some s) p t m = get-put p path (narrower s t) m.spans
  get-merge_known none p t m = ground (arith, get-put p path t m.spans)

  member-merge_known :
      (o : Option Span) (p : Text) (t : Span) (m : Mask)
      → member path (merge_known o mutant p t m).undecidable
        ≡ ((text_eq p path && newly o (some t)) || member path m.undecidable)
  unfolding merge_known
  member-merge_known (some s) p t m = ground arith
  member-merge_known none p t m = ground (arith, get-put p path tt m.undecidable)

  get-merge_spans :
      (m : Mask) (spans : Dict Span) (merged : Mask)
      → IsDict spans
      → get path (merge_spans m mutant spans merged).spans
        ≡ after_loop (get path m.spans) (get path spans) (get path merged.spans)
  unfolding merge_spans get
  get-merge_spans m [] merged h = refl
  get-merge_spans m ((p, t) ∷ spans) merged h = ground (
    arith,
    text_eq_iff p path,
    get-merge_known (get p m.spans) p t merged,
    get-merge_spans m spans (merge_known (get p m.spans) mutant p t merged) h.1,
    h.0,
  )

  member-merge_spans :
      (m : Mask) (spans : Dict Span) (merged : Mask)
      → IsDict spans
      → member path (merge_spans m mutant spans merged).undecidable
        ≡ (newly (get path m.spans) (get path spans) || member path merged.undecidable)
  unfolding merge_spans get
  member-merge_spans m [] merged h = ground arith
  member-merge_spans m ((p, t) ∷ spans) merged h = ground (
    arith,
    text_eq_iff p path,
    member-merge_known (get p m.spans) p t merged,
    member-merge_spans m spans (merge_known (get p m.spans) mutant p t merged) h.1,
    h.0,
  )

pub member-add_all :
    (path : Text) (ps : List Text) (s : TextSet)
    → member path (add_all ps s) ≡ (contains path ps || member path s)
unfolding add_all contains
member-add_all path [] s = refl
member-add_all path (p ∷ ps) s = ground (
  arith,
  member-add_all path ps (add p s),
  get-put p path tt s,
  text_eq_iff p path,
  text_eq_iff path p,
)

pub get-remove_all :
    (path : Text) (ps : List Text) (m : Dict Span)
    → get path (remove_all ps m) ≡ (if contains path ps then none else get path m)
unfolding remove_all contains
get-remove_all path [] m = refl
get-remove_all path (p ∷ ps) m = ground (
  arith,
  get-remove_all path ps (remove p m),
  get-remove p path m,
  text_eq_iff p path,
  text_eq_iff path p,
)

-- A union is decided path by path: what the merged mask says of a path is the combination of what
-- the two masks say of it, where the other mask's spans hold each path once, as a map does.
pub view-union :
    (m other : Mask) (mutant : Bool) (path : Text)
    → IsDict other.spans
    → view (union m other mutant) path ≡ combine mutant (view m path) (view other path)
unfolding union
view-union m other mutant path h =
    let merged : Mask = merge_spans m mutant other.spans m in
    let undecidable : TextSet = add_all (keys other.undecidable) merged.undecidable in
    ground (
      arith,
      get-remove_all path (keys undecidable) merged.spans,
      contains-keys path undecidable,
      member-add_all path (keys other.undecidable) merged.undecidable,
      contains-keys path other.undecidable,
      get-merge_spans mutant path m other.spans m h,
      member-merge_spans mutant path m other.spans m h,
    )
