-- ===== src/Mutation/Catalogue.antt =====
-- internal/mutation/catalogue.go: the catalogue is a Go map keyed by operator, built once from the
-- per-tier tables; a later row replaces an earlier one of the same operator.
pub mod Types
pub mod Expressions
pub mod Projections
pub mod Contracts
pub mod Lookup
use tf_mut.Prelude.{Bool, true, Option, none, some, List, [], ◌∷◌, ◌++◌, if◌then◌else◌}
use tf_mut.Text.{Text, text_eq}
use Types.{Entry, Tier, other}
use Expressions.{extreme_entries, expression_entries, collection_entries}
use Projections.{projection_entries, meta_entries}
use Contracts.{contract_entries, lifecycle_entries, pack_entries}

-- `table[entry.Operator] = entry`.
pub table_set : Entry → List Entry → List Entry
table_set e [] = e ∷ []
table_set e (x ∷ xs) =
    let rest = table_set e xs in if text_eq x.operator e.operator then e ∷ xs else x ∷ rest

fill : List Entry → List Entry → List Entry
unfolding table_set
fill table [] = table
fill table (e ∷ es) = fill (table_set e table) es

entries : List Entry
unfolding extreme_entries expression_entries collection_entries projection_entries meta_entries
    contract_entries lifecycle_entries pack_entries
entries =
    extreme_entries
    ++ (expression_entries
        ++ (collection_entries
            ++ (projection_entries
                ++ (meta_entries ++ (contract_entries ++ (lifecycle_entries ++ pack_entries))))))

-- `buildCatalogue`.
unfoldable pub catalogue : List Entry
unfolding fill entries
catalogue = fill [] entries

unfoldable pub lookup : Text → List Entry → Option Entry
lookup operator [] = none
lookup operator (x ∷ xs) =
    let rest = lookup operator xs in if text_eq x.operator operator then some x else rest

unfoldable pub describe : Text → Option Entry
describe operator = lookup operator catalogue

unfoldable pub projects : Text → Bool
projects operator = elim (describe operator) [ none ↦ true | some e ↦ e.projects ]

-- `TierOf`; the empty tier for an unknown operator.
pub tier_of : Text → Tier
tier_of operator = elim (describe operator) [ none ↦ other [] | some e ↦ e.tier ]
