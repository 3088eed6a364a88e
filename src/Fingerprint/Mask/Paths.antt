-- ===== src/Fingerprint/Mask/Paths.antt =====
-- The listings of a mask: `Paths`, `Undecidables` and `Empty`.
use tf_mut.Prelude.{◌≡◌, ◌∙◌, Bool, true, false, not, ◌++◌, arith}
use tf_mut.Text.{Text, contains, contains-append}
use tf_mut.Text.Order.{contains-sort}
use tf_mut.Dict.{get, keys}
use tf_mut.Dict.Keys.{member, contains-keys}
use tf_mut.Fingerprint.Mask.{mask_empty, paths, undecidables, Mask}
use tf_mut.Fingerprint.Mask.View.{view, PathMask, clear}

abbrev pub is_clear : PathMask → Bool
is_clear clear = true
is_clear _ = false

-- `Paths` lists exactly the paths that the mask says something of; `Undecidables` exactly those
-- beyond comparison; an empty mask says nothing of any path.
pub paths_lem :
    (m : Mask) (path : Text)
    → (contains path (paths m) ≡ not (is_clear (view m path)))
      × (contains path (undecidables m) ≡ member path m.undecidable)
      × (mask_empty m ≡ true → view m path ≡ clear)
unfolding paths undecidables mask_empty get
paths_lem m path = (
  contains-sort path (keys m.spans ++ keys m.undecidable)
      ∙ ground (
        arith,
        contains-append path (keys m.spans) (keys m.undecidable),
        contains-keys path m.spans,
        contains-keys path m.undecidable,
      ),
  contains-sort path (keys m.undecidable) ∙ contains-keys path m.undecidable,
  λ e. ground (arith, e),
)
