-- ===== src/Examples/Masks.antt =====
-- Concrete masks.
use tf_mut.Prelude.{◌≡◌, refl, true, false, [], ◌∷◌, arith}
use tf_mut.Text.{Text, text, text_eq, text_eq_iff}
use tf_mut.Dict.{get}
use tf_mut.Fingerprint.Mask.{union, merge, merge_mutant_volatility, Span, Mask}
use tf_mut.Fingerprint.Mask.View.{view, combine, view-union, undecided}
use tf_mut.Fingerprint.Mask.WellFormed.{union-IsMask, IsMask}
use tf_mut.Fingerprint.Mask.Lattice.{merge_comm, merge_mutant_volatility_lem}

abbrev tag_span : Text → Span
tag_span prefix = record { prefix = prefix; suffix = []; whole = false; from_syntax = false }

-- A path masked down to a span, and one beyond comparison.
abbrev baseline_mask : Mask
baseline_mask = record {
  spans = (text "a.tag", tag_span (text "build-")) ∷ [];
  undecidable = (text "a.id", tt) ∷ [];
}

abbrev mutant_mask : Mask
mutant_mask = record {
  spans = (text "a.tag", tag_span (text "bu")) ∷ (text "a.name", tag_span []) ∷ [];
  undecidable = [];
}

baseline_mask-IsMask : IsMask baseline_mask
unfolding get text_eq
baseline_mask-IsMask = record {
  spans_once = (refl, tt);
  undecidable_once = (refl, tt);
  apart =
      λ path e. ground (arith, e, text_eq_iff (text "a.id") path, text_eq_iff (text "a.tag") path);
}

mutant_mask-IsMask : IsMask mutant_mask
unfolding get text_eq
mutant_mask-IsMask = record {
  spans_once = (refl, (refl, tt));
  undecidable_once = tt;
  apart = λ path e. cc;
}

view-union_example :
    view (union baseline_mask mutant_mask true) (text "a.tag")
    ≡ combine true (view baseline_mask (text "a.tag")) (view mutant_mask (text "a.tag"))
view-union_example =
    view-union baseline_mask mutant_mask true (text "a.tag") mutant_mask-IsMask.spans_once

union-IsMask_example : IsMask (union baseline_mask mutant_mask true)
union-IsMask_example = union-IsMask baseline_mask mutant_mask true baseline_mask-IsMask

merge_comm_example :
    view (merge baseline_mask mutant_mask) (text "a.tag")
    ≡ view (merge mutant_mask baseline_mask) (text "a.tag")
merge_comm_example =
    merge_comm baseline_mask mutant_mask baseline_mask-IsMask mutant_mask-IsMask (text "a.tag")

-- The mutant's own runs moved a name that the baseline leaves alone.
merge_mutant_volatility_lem_example :
    view (merge_mutant_volatility baseline_mask mutant_mask) (text "a.name") ≡ undecided
unfolding get text_eq
merge_mutant_volatility_lem_example =
    (merge_mutant_volatility_lem baseline_mask mutant_mask (text "a.name")
        mutant_mask-IsMask.spans_once).0
      refl λ e. ground arith
