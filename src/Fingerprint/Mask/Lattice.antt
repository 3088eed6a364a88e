-- ===== src/Fingerprint/Mask/Lattice.antt =====
-- `narrower` and the unions as operations on what the masks say of a path: the order of the sources
-- of a mask does not matter, and no union forgets a mask.
use mathlib.Core.List.{reverse, reverse-reverse}
use tf_mut.Prelude.{◌≡◌, refl, sym, ap, ◌∙◌, ◌≢◌, true, false, [], ◌∷◌, arith}
use tf_mut.Text.{Text}
use tf_mut.Fingerprint.Mask.WellFormed.{union-IsMask, IsMask}
use tf_mut.Fingerprint.Mask.View.{view, combine, view-union, PathMask, clear, masked, undecided}
use tf_mut.Dict.Keys.{IsDict}
use tf_mut.Fingerprint.Mask.{
  common_prefix, common_suffix, narrower, merge, merge_mutant_volatility, Span, Mask,
}

common_prefix_comm : (a b : Text) → common_prefix a b ≡ common_prefix b a
unfolding common_prefix
common_prefix_comm [] [] = refl
common_prefix_comm [] (y ∷ b) = refl
common_prefix_comm (x ∷ a) [] = refl
common_prefix_comm (x ∷ a) (y ∷ b) = ground (arith, common_prefix_comm a b)

common_prefix_assoc :
    (a b c : Text) → common_prefix (common_prefix a b) c ≡ common_prefix a (common_prefix b c)
unfolding common_prefix
common_prefix_assoc [] b c = refl
common_prefix_assoc (x ∷ a) [] c = refl
common_prefix_assoc (x ∷ a) (y ∷ b) [] = ground arith
common_prefix_assoc (x ∷ a) (y ∷ b) (z ∷ c) = ground (arith, common_prefix_assoc a b c)

common_suffix_comm : (a b : Text) → common_suffix a b ≡ common_suffix b a
unfolding common_suffix
common_suffix_comm a b = ap reverse (common_prefix_comm (reverse a) (reverse b))

common_suffix_assoc :
    (a b c : Text) → common_suffix (common_suffix a b) c ≡ common_suffix a (common_suffix b c)
unfolding common_suffix
common_suffix_assoc a b c =
    simp reverse-reverse (ap reverse (common_prefix_assoc (reverse a) (reverse b) (reverse c)))

-- Two sources of a span may be asked in either order.
pub narrower_comm : (s t : Span) → narrower s t ≡ narrower t s
unfolding narrower
narrower_comm s t =
    ground (arith, common_prefix_comm s.prefix t.prefix, common_suffix_comm s.suffix t.suffix)

pub narrower_assoc : (s t u : Span) → narrower (narrower s t) u ≡ narrower s (narrower t u)
unfolding narrower
narrower_assoc s t u = ground (
  arith,
  common_prefix_assoc s.prefix t.prefix u.prefix,
  common_suffix_assoc s.suffix t.suffix u.suffix,
)

combine_comm : (x y : PathMask) → combine false x y ≡ combine false y x
combine_comm undecided undecided = refl
combine_comm undecided clear = refl
combine_comm undecided (masked t) = refl
combine_comm clear undecided = refl
combine_comm clear clear = refl
combine_comm clear (masked t) = refl
combine_comm (masked s) undecided = refl
combine_comm (masked s) clear = refl
combine_comm (masked s) (masked t) = ap masked (narrower_comm s t)

combine_assoc :
    (x y z : PathMask) → combine false (combine false x y) z ≡ combine false x (combine false y z)
combine_assoc undecided y z = refl
combine_assoc clear undecided z = refl
combine_assoc clear clear z = ground arith
combine_assoc clear (masked t) z = ground arith
combine_assoc (masked s) undecided z = refl
combine_assoc (masked s) clear z = ground arith
combine_assoc (masked s) (masked t) undecided = refl
combine_assoc (masked s) (masked t) clear = refl
combine_assoc (masked s) (masked t) (masked u) = ap masked (narrower_assoc s t u)

-- Merging two well-formed masks in either order says the same of every path.
pub merge_comm :
    (m other : Mask)
    → IsMask m
    → IsMask other
    → (path : Text) → view (merge m other) path ≡ view (merge other m) path
merge_comm m other h k path =
    view-union m other false path k.spans_once
    ∙ combine_comm (view m path) (view other path)
    ∙ sym (view-union other m false path h.spans_once)

-- Merging three masks, the second and third well formed, says the same of every path however they
-- are grouped.
pub merge_assoc :
    (m other third : Mask)
    → IsMask other
    → IsMask third
    → (path : Text)
    → view (merge (merge m other) third) path ≡ view (merge m (merge other third)) path
merge_assoc m other third h k path =
    view-union (merge m other) third false path k.spans_once
    ∙ ap (λ x. combine false x (view third path)) (view-union m other false path h.spans_once)
    ∙ combine_assoc (view m path) (view other path) (view third path)
    ∙ ap (combine false (view m path)) (sym (view-union other third false path k.spans_once))
    ∙ sym
        (view-union m (merge other third) false path (union-IsMask other third false h).spans_once)

combine-fresh : (x y : PathMask) → x ≡ clear → y ≢ clear → combine true x y ≡ undecided
combine-fresh clear clear c n = absurd (n refl)
combine-fresh clear (masked t) c n = refl
combine-fresh clear undecided c n = refl
combine-fresh (masked s) y c n = absurd (ground arith)
combine-fresh undecided y c n = refl

combine-kept :
    (s : Span) (x y : PathMask)
    → x ≡ masked s
    → y ≢ undecided
    → (t : Span) × (combine true x y ≡ masked t)
combine-kept s clear y e n = absurd (ground arith)
combine-kept s undecided y e n = absurd (ground arith)
combine-kept s (masked r) clear e n = (r, refl)
combine-kept s (masked r) (masked t) e n = (narrower r t, refl)
combine-kept s (masked r) undecided e n = absurd (n refl)

-- `MergeMutantVolatility` never adopts a mask the baseline did not have, where the spans of the other
-- mask hold each path once. A path that the baseline
-- mask leaves alone and the mutant's own runs moved becomes undecidable; a path that the baseline
-- masks by a span keeps a span unless the mutant's mask could not decide it.
pub merge_mutant_volatility_lem :
    (m other : Mask) (path : Text)
    → IsDict other.spans
    → (view m path ≡ clear
        → view other path ≢ clear
        → view (merge_mutant_volatility m other) path ≡ undecided)
      × ((s : Span)
          → view m path ≡ masked s
          → view other path ≢ undecided
          → (t : Span) × (view (merge_mutant_volatility m other) path ≡ masked t))
merge_mutant_volatility_lem m other path h = (
  λ c n. view-union m other true path h ∙ combine-fresh (view m path) (view other path) c n,
  λ s e n.
      let (t, q) = combine-kept s (view m path) (view other path) e n in
      (t, view-union m other true path h ∙ q),
)
