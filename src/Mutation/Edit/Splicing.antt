-- ===== src/Mutation/Edit/Splicing.antt =====
-- internal/mutation/edit.go: what the disjoint parts of an edit make of a source.
use mathlib.Core.List.{append_assoc}
use tf_mut.Prelude.{
  ℕ, ◌+◌, ◌≡◌, refl, sym, ap, ◌∙◌, Option, none, some, List, [], ◌∷◌, ◌++◌, arith, length,
  length-append, take-append, drop-append,
}
use tf_mut.Prelude.Sorting
use tf_mut.Text.{Text}
use tf_mut.Mutation.Edit.{last_first, splice, splice_all, apply_edit, Part, Edit}

-- A stretch of a source that is kept, the one after it that is replaced, and the replacement.
pub record Piece : Type 0 where
  pub kept : Text
  pub replaced : Text
  pub by : Text

-- The source of pieces and a tail, and what is to become of it.
unfoldable pub before : List Piece → Text → Text
before [] tail = tail
before (p ∷ rest) tail = p.kept ++ (p.replaced ++ before rest tail)

unfoldable pub after : List Piece → Text → Text
after [] tail = tail
after (p ∷ rest) tail = p.kept ++ (p.by ++ after rest tail)

-- The parts of the pieces of a source from an offset, the last part first.
unfoldable pub parts_of : ℕ → List Piece → List Part
parts_of offset [] = []
parts_of offset (p ∷ rest) =
    let start = offset + length p.kept in
    let end = start + length p.replaced in
    parts_of end rest ++ record { rng = record { start = start; end = end }; text = p.by } ∷ []

abbrev then_splice : Part → Option Text → Option Text
then_splice p none = none
then_splice p (some spliced) = splice p spliced

splice_all-append :
    (ps : List Part) (p : Part) (source : Text)
    → splice_all (ps ++ p ∷ []) source ≡ then_splice p (splice_all ps source)
unfolding splice_all
splice_all-append [] p source =
    elim (splice p source) as (λ o. elim o [ none ↦ none | some spliced ↦ some spliced ] ≡ o) [
      | none ↦ refl
      | some spliced ↦ refl
    ]
splice_all-append (q ∷ ps) p source =
    elim (splice q source)
      as (λ o.
        elim o [ none ↦ none | some spliced ↦ splice_all (ps ++ p ∷ []) spliced ]
        ≡ then_splice p (elim o [ none ↦ none | some spliced ↦ splice_all ps spliced ])) [
          | none ↦ refl
          | some spliced ↦ splice_all-append ps p spliced
        ]

-- A part that lies between two stretches of a source.
splice-between :
    (left cut right by : Text)
    → splice
        (record { rng = record { start = length left; end = length left + length cut }; text = by })
        (left ++ (cut ++ right))
      ≡ some (left ++ (by ++ right))
unfolding splice
splice-between left cut right by = ground (
  arith,
  take-append left (cut ++ right),
  drop-append (left ++ cut) right,
  append_assoc left cut right,
  length-append left cut,
  length-append left (cut ++ right),
  length-append cut right,
)

splice_all-parts_of :
    (left : Text) (pieces : List Piece) (tail : Text)
    → splice_all (parts_of (length left) pieces) (left ++ before pieces tail)
      ≡ some (left ++ after pieces tail)
unfolding splice_all parts_of before after
splice_all-parts_of left [] tail = refl
splice_all-parts_of left (p ∷ rest) tail =
    let front : Text = left ++ p.kept in
    let full : Text = front ++ p.replaced in
    let start : ℕ = length left + length p.kept in
    let end : ℕ = start + length p.replaced in
    let part : Part = record { rng = record { start = start; end = end }; text = p.by } in
    let source : Text = left ++ (p.kept ++ (p.replaced ++ before rest tail)) in
    let starts : start ≡ length front = omega (arith, length-append left p.kept) in
    let ends : end ≡ length full = omega (arith, starts, length-append front p.replaced) in
    let joined : source ≡ full ++ before rest tail = sym (
      append_assoc front p.replaced (before rest tail)
      ∙ append_assoc left p.kept (p.replaced ++ before rest tail)) in
    let later : splice_all (parts_of end rest) source
        ≡ some (front ++ (p.replaced ++ after rest tail)) =
      ap (splice_all (parts_of end rest)) joined
      ∙ ap (λ n. splice_all (parts_of n rest) (full ++ before rest tail)) ends
      ∙ splice_all-parts_of full rest tail
      ∙ ap some (append_assoc front p.replaced (after rest tail)) in
    splice_all-append (parts_of end rest) part source
    ∙ ap (then_splice part) later
    ∙ ap
        (λ n.
          splice (record { rng = record { start = n; end = n + length p.replaced }; text = p.by })
            (front ++ (p.replaced ++ after rest tail)))
        starts
    ∙ splice-between front p.replaced (after rest tail) p.by
    ∙ ap some (append_assoc left p.kept (p.by ++ after rest tail))

-- When the parts of an edit, in whatever order it holds them, are those of the pieces that a source is cut into once they are put last first, applying the edit succeeds, and gives the source with every replaced stretch replaced and every kept byte unchanged.
pub apply_edit-before :
    (e : Edit) (pieces : List Piece) (tail : Text)
    → Sorting.sort last_first e.parts ≡ parts_of 0 pieces
    → apply_edit e (before pieces tail) ≡ some (after pieces tail)
unfolding apply_edit
apply_edit-before e pieces tail ordered =
    ap (λ ps. splice_all ps (before pieces tail)) ordered ∙ splice_all-parts_of [] pieces tail
