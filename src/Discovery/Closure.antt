-- ===== src/Discovery/Closure.antt =====
-- internal/discovery/closure.go: the forward closure through outputs and locals, and what it concludes
-- of an address. The map of expansions is a dictionary of appended references; where several keys are
-- prefixes of an address the first is taken. The test files' assertions are given with the references
-- of their conditions.
pub mod Proven
pub mod Seen
pub mod Enough
use tf_mut.Prelude.{
  ℕ, zero, suc, ◌+◌, Bool, true, false, not, ◌&&◌, ◌||◌, Option, none, some, List, [], ◌∷◌, ◌++◌,
  map, ◌==◌, if◌then◌else◌, length, ◌>>=◌,
}
use tf_mut.Prelude.Int.{increment, decrement, is_zero, ℤ, pos}
use tf_mut.Text.{Text, text, text_eq, contains}
use tf_mut.Text.Cutting.{has_prefix}
use tf_mut.Dict.{Dict, get, put, keys}
use tf_mut.Discovery.Expressions.{references_of, Expr}
use tf_mut.Discovery.Reach.{Ref, Assertion, Reach}

pub record Closure : Type 0 where
  pub expansions : Dict (List Ref)
  pub assertions : List Assertion

abbrev refs_or_none : Option (List Ref) → List Ref
refs_or_none none = []
refs_or_none (some refs) = refs

abbrev append_refs : Text → List Ref → Dict (List Ref) → Dict (List Ref)
append_refs address refs expansions =
    put address (refs_or_none (get address expansions) ++ refs) expansions

-- `Closure.record`, over the attributes of a block.
unfoldable pub record_attributes :
    Text → Text → List (Text × Expr) → Dict (List Ref) → Dict (List Ref)
unfolding references_of
record_attributes address wanted [] expansions = expansions
record_attributes address wanted ((name, e) ∷ rest) expansions =
    record_attributes address wanted rest (
      if not (text_eq name wanted)
      then expansions
      else append_refs address (references_of e) expansions)

-- `overlaps`.
unfoldable pub overlaps : Text → Text → Bool
unfolding has_prefix
overlaps left right =
    text_eq left right
    || (has_prefix (right ++ text ".") left || has_prefix (left ++ text ".") right)

normalise_from : ℤ → Text → Text
normalise_from depth [] = []
normalise_from depth (letter ∷ rest) =
    let next : ℤ =
      if letter == b'['
      then increment depth
      else if letter == b']'
      then decrement depth
      else depth in
    let later = normalise_from next rest in
    if letter == b'[' || (letter == b']' || not (is_zero depth)) then later else letter ∷ later

-- `normaliseAddress`.
unfoldable pub normalise_address : Text → Text
unfolding normalise_from
normalise_address address = normalise_from (pos 0) address

-- The loop of `expansionsFor` over the candidates.
enclosing : Text → Dict (List Ref) → List Ref
unfolding has_prefix
enclosing address [] = []
enclosing address ((candidate, refs) ∷ rest) =
    let later = enclosing address rest in
    if has_prefix (candidate ++ text ".") address then refs else later

-- `expansionsFor`.
unfoldable pub expansions_for : Dict (List Ref) → Text → List Ref
unfolding enclosing
expansions_for expansions address = elim (get address expansions) [
  | some refs ↦ refs
  | none ↦ enclosing address expansions
]

abbrev no_assertion : Assertion
no_assertion = record {
  ref = record { address = []; precise = false; construct = [] };
  file = [];
  run = [];
  line = 0;
}

abbrev conclusion : Bool → Bool → Text → Reach
conclusion read defeated construct = record {
  read = read;
  defeated = defeated;
  assertion = no_assertion;
  construct = construct;
}

-- `next` in the loop of `reach`.
abbrev weaken : Ref → Ref → Ref
weaken from expansion =
    if not from.precise
    then record expansion { precise = false; construct = from.construct }
    else expansion

-- The loop of `reach` over the expansions, with what the walk of one gives and leaves as seen.
unfoldable pub reach_each :
    (Ref → List Text → Reach × List Text) → Ref → List Ref → Reach → List Text → Reach × List Text
reach_each walk from [] result seen = (result, seen)
reach_each walk from (expansion ∷ rest) result seen =
    let (verdict, after) = walk (weaken from expansion) seen in
    elim verdict.read [
      | true ↦ (verdict, after)
      | false ↦ reach_each walk from rest (if verdict.defeated then verdict else result) after
    ]

-- `reach`, with the addresses seen passed on; the fuel bounds the depth.
unfoldable pub reach : ℕ → Dict (List Ref) → Text → Ref → List Text → Reach × List Text
unfolding reach_each overlaps expansions_for
reach zero expansions target from seen = (conclusion false false [], seen)
reach (suc fuel) expansions target from seen = elim (contains from.address seen) [
  | true ↦ (conclusion false false [], seen)
  | false ↦ elim (overlaps from.address target) [
    | true ↦ (conclusion from.precise (not from.precise) from.construct, from.address ∷ seen)
    | false ↦
        reach_each (reach fuel expansions target) from (expansions_for expansions from.address)
          (conclusion false false []) (from.address ∷ seen)
  ]
]

-- The number of references that the expansions hold: a walk nests no deeper than one more.
abbrev pub count_refs : Dict (List Ref) → ℕ
count_refs [] = 0
count_refs ((address, refs) ∷ rest) = length refs + count_refs rest

abbrev verdict_of : Closure → Text → Assertion → Reach
verdict_of c target a = (reach (suc (suc (count_refs c.expansions))) c.expansions target a.ref []).0

-- The loop of `Reads`, with the first defeated conclusion.
unfoldable pub reads_from : Closure → Text → List Assertion → Reach → Reach
unfolding reach
reads_from c target [] defeated = defeated
reads_from c target (a ∷ rest) defeated =
    let verdict = record (verdict_of c target a) { assertion = a } in
    elim verdict.read [
      | true ↦ verdict
      | false ↦
          reads_from c target rest
            (if verdict.defeated && not defeated.defeated then verdict else defeated)
    ]

-- `Closure.Reads`.
unfoldable pub reads : Closure → Text → Reach
unfolding reads_from normalise_address
reads c address = reads_from c (normalise_address address) c.assertions (conclusion false false [])
