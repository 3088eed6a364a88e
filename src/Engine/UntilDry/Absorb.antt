-- ===== src/Engine/UntilDry/Absorb.antt =====
-- internal/engine/untildry.go: what a round's suggestions add to the pins.
use tf_mut.Prelude.{
  ℕ, ◌+◌, ◌≡◌, refl, ◌∙◌, Bool, true, ◌&&◌, Option, none, some, List, [], ◌∷◌, ◌++◌, map, arith,
  length, all_pass, length-append,
}
use tf_mut.Prelude.Sorting
use tf_mut.Text.{Text}
use tf_mut.Engine.UntilDry.{
  rung_includes, scenario_for_run, key_of, pinned, absorb_in, absorb_one, absorb_all, by_scenario,
  absorb_suggestions_as_pins, Rung, Pin, Suggestion, Block, Absorbed,
}

-- The pins keep to a rung, and the count is what was added to so many pins.
pub Grown : Rung → ℕ → Absorbed → Type 0
Grown rung before a =
    (length a.pins ≡ before + a.added)
    × (all_pass (λ pin. rung_includes rung pin.rung) a.pins ≡ true)

all_pass-append :
    {A : Type 0}
    → (p : A → Bool) (xs ys : List A) → all_pass p (xs ++ ys) ≡ (all_pass p xs && all_pass p ys)
all_pass-append p [] ys = refl
all_pass-append p (x ∷ xs) ys = ground (arith, all_pass-append p xs ys)

module _ (spelled : Text → Option (List Text)) (block : Block) (before : ℕ) where
  absorb_in-Grown :
      (s : Suggestion) (scenario : Text) (a : Absorbed)
      → Grown block.rung before a
      → Grown block.rung before (absorb_in spelled block.rung s scenario a)
  unfolding absorb_in Grown
  absorb_in-Grown s scenario a (grown, kept) =
      let pin = pinned spelled scenario s.expression in
      ground (
        arith,
        grown,
        kept,
        length-append a.pins (pin ∷ []),
        all_pass-append (λ p. rung_includes block.rung p.rung) a.pins (pin ∷ []),
      )

  absorb_one-Grown :
      (s : Suggestion) (a : Absorbed)
      → Grown block.rung before a
      → Grown block.rung before (absorb_one spelled block s a)
  unfolding absorb_one
  absorb_one-Grown s a grown =
      elim (scenario_for_run block.scenarios s.target_run)
        as (λ o.
          Grown block.rung before
            (elim o [ none ↦ a | some scenario ↦ absorb_in spelled block.rung s scenario a ])) [
              | none ↦ grown
              | some scenario ↦ absorb_in-Grown s scenario a grown
            ]

  absorb_all-Grown :
      (suggestions : List Suggestion) (a : Absorbed)
      → Grown block.rung before a
      → Grown block.rung before (absorb_all spelled block suggestions a)
  unfolding absorb_all
  absorb_all-Grown [] a grown = grown
  absorb_all-Grown (s ∷ rest) a grown =
      absorb_all-Grown rest (absorb_one spelled block s a) (absorb_one-Grown s a grown)

-- The pins after a round's suggestions: as many more as were counted, and still within the rung.
pub absorb-Grown :
    (spelled : Text → Option (List Text)) (block : Block) (pins : List Pin)
    (suggestions : List Suggestion)
    → all_pass (λ pin. rung_includes block.rung pin.rung) pins ≡ true
    → (length (absorb_suggestions_as_pins spelled block pins suggestions).0
        ≡ length pins + (absorb_suggestions_as_pins spelled block pins suggestions).1)
      × (all_pass
            (λ pin. rung_includes block.rung pin.rung)
            (absorb_suggestions_as_pins spelled block pins suggestions).0
          ≡ true)
unfolding absorb_suggestions_as_pins Grown
absorb-Grown spelled block pins suggestions kept =
    let start : Absorbed = record { known = map key_of pins; pins = pins; added = 0 } in
    let (grown, within) =
      absorb_all-Grown spelled block (length pins) suggestions start (omega arith, kept) in
    let a = absorb_all spelled block suggestions start in
    (
      Sorting.length-sort by_scenario a.pins ∙ grown,
      Sorting.all_pass-sort by_scenario (λ pin. rung_includes block.rung pin.rung) a.pins ∙ within,
    )
