-- ===== src/Prelude/Slices.antt =====
-- Go slices where the program tells `nil` from an empty slice.
use mathlib.Core.Bool.{Bool, true, false}
use mathlib.Core.Option.{Option, none, some}
use mathlib.Core.List.{List, []}

abbrev pub Slice {ℓ} : Type ℓ → Type ℓ
Slice A = Option (List A)

module _ {ℓ} {A : Type ℓ} where
  -- What a `range` over the slice visits.
  abbrev pub elements : Slice A → List A
  elements none = []
  elements (some xs) = xs

  -- `s != nil`.
  abbrev pub present : Slice A → Bool
  present none = false
  present (some xs) = true
