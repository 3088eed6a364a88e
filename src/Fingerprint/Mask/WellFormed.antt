-- ===== src/Fingerprint/Mask/WellFormed.antt =====
-- The well-formedness of a mask, and that the unions keep it.
use tf_mut.Prelude.{
  ◌≡◌, refl, inl, inr, Bool, true, Option, none, some, List, [], ◌∷◌, arith, Bool-cases,
}
use tf_mut.Text.{Text}
use tf_mut.Dict.{Dict, get, remove, keys}
use tf_mut.Dict.Keys.{TextSet, member, add, contains-keys, IsDict, put-IsDict, remove-IsDict}
use tf_mut.Fingerprint.Mask.{
  new_mask, narrower, merge_known, merge_spans, add_all, remove_all, union, Span, Mask,
}
use tf_mut.Fingerprint.Mask.View.{get-remove_all}

-- The two maps hold each key once, and no undecidable path has a span.
pub record IsMask (m : Mask) : Type 0 where
  pub spans_once : IsDict m.spans
  pub undecidable_once : IsDict m.undecidable
  pub apart : (path : Text) → member path m.undecidable ≡ true → get path m.spans ≡ none

merge_spans-IsDict :
    (m : Mask) (mutant : Bool) (spans : Dict Span) (merged : Mask)
    → IsDict merged.spans × IsDict merged.undecidable
    → IsDict (merge_spans m mutant spans merged).spans
      × IsDict (merge_spans m mutant spans merged).undecidable
unfolding merge_spans
merge_spans-IsDict m mutant [] merged h = h
merge_spans-IsDict m mutant ((p, t) ∷ spans) merged h =
    merge_spans-IsDict m mutant spans (merge_known (get p m.spans) mutant p t merged)
      (one_round (get p m.spans))
  where
    one_round :
        (o : Option Span)
        → IsDict (merge_known o mutant p t merged).spans
          × IsDict (merge_known o mutant p t merged).undecidable
    one_round (some s) = (put-IsDict p (narrower s t) merged.spans h.0, h.1)
    one_round none = elim (Bool-cases mutant) [
      | inl e ↦ rw e (h.0, put-IsDict p tt merged.undecidable h.1)
      | inr e ↦ rw e (put-IsDict p t merged.spans h.0, h.1)
    ]

add_all-IsDict : (ps : List Text) (s : TextSet) → IsDict s → IsDict (add_all ps s)
unfolding add_all
add_all-IsDict [] s h = h
add_all-IsDict (p ∷ ps) s h = add_all-IsDict ps (add p s) (put-IsDict p tt s h)

remove_all-IsDict : (ps : List Text) (m : Dict Span) → IsDict m → IsDict (remove_all ps m)
unfolding remove_all
remove_all-IsDict [] m h = h
remove_all-IsDict (p ∷ ps) m h = remove_all-IsDict ps (remove p m) (remove-IsDict p m h)

new_mask-IsMask : IsMask new_mask
unfolding new_mask get
new_mask-IsMask = record { spans_once = tt; undecidable_once = tt; apart = λ path e. refl }

-- The union of a well-formed mask with any other is well formed, under both rules: each map holds a
-- path once, and no undecidable path keeps a span.
pub union-IsMask : (m other : Mask) (mutant : Bool) → IsMask m → IsMask (union m other mutant)
unfolding union
union-IsMask m other mutant h =
    let merged : Mask = merge_spans m mutant other.spans m in
    let undecidable : TextSet = add_all (keys other.undecidable) merged.undecidable in
    let once = merge_spans-IsDict m mutant other.spans m (h.spans_once, h.undecidable_once) in
    record {
      spans_once = remove_all-IsDict (keys undecidable) merged.spans once.0;
      undecidable_once = add_all-IsDict (keys other.undecidable) merged.undecidable once.1;
      apart = λ path e. ground (
        arith,
        get-remove_all path (keys undecidable) merged.spans,
        contains-keys path undecidable,
        e,
      );
    }
