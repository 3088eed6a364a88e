-- ===== src/Fingerprint/Delta.antt =====
-- internal/fingerprint/delta.go: the masked difference between a baseline and a mutant.
pub mod Addresses
use tf_mut.Prelude.{Bool, not, ◌&&◌, List, [], ◌∷◌, if◌then◌else◌, is_nil, ◌>>=◌, Slice, elements}
use tf_mut.Text.{Text, is_empty, contains}
use tf_mut.Text.Order.{sort}

pub record Change : Type 0 where
  pub run : Text
  pub path : Text
  pub address : Text
  pub baseline : Text
  pub mutant : Text
  pub baseline_volatile : Bool
  pub sensitive : Bool

pub record Delta : Type 0 where
  pub changes : Slice Change
  pub indeterminate : Bool
  pub missing_runs : List Text

-- `Delta.Empty`.
unfoldable pub delta_empty : Delta → Bool
delta_empty d = is_nil (elements d.changes) && (not d.indeterminate && is_nil d.missing_runs)

-- The loop of `Addresses`, with the set of addresses seen so far.
distinct_addresses : List Text → List Change → List Text
distinct_addresses seen [] = []
distinct_addresses seen (change ∷ rest) =
    let skip = distinct_addresses seen rest in
    let keep = change.address ∷ distinct_addresses (change.address ∷ seen) rest in
    if is_empty change.address then skip else if contains change.address seen then skip else keep

-- `Delta.Addresses`.
unfoldable pub addresses : Delta → List Text
unfolding distinct_addresses
addresses d = sort (distinct_addresses [] (elements d.changes))
