-- ===== src/Fingerprint/Delta/Addresses.antt =====
-- `Delta.Addresses` lists each address of the delta once, in order.
use tf_mut.Prelude.{
  ◌≤◌, ◌≡◌, ◌∙◌, Bool, not, ◌&&◌, List, [], ◌∷◌, arith, if◌then◌else◌, some_pass, count_if,
  elements,
}
use tf_mut.Prelude.Sorting
use tf_mut.Text.{Text, text_eq, is_empty, contains, text_eq_iff}
use tf_mut.Text.Order.{text_order, contains-sort}
use tf_mut.Fingerprint.Delta.{distinct_addresses, addresses, Change, Delta}

abbrev pub touches : Text → List Change → Bool
touches a changes = some_pass (λ change. text_eq a change.address) changes

contains-distinct :
    (a : Text) (seen : List Text) (changes : List Change)
    → contains a (distinct_addresses seen changes)
      ≡ (not (is_empty a) && (not (contains a seen) && touches a changes))
unfolding distinct_addresses contains
contains-distinct a seen [] = ground arith
contains-distinct a seen (change ∷ rest) = ground (
  arith,
  contains-distinct a seen rest,
  contains-distinct a (change.address ∷ seen) rest,
  text_eq_iff a change.address,
)

distinct_addresses_once :
    (a : Text) (seen : List Text) (changes : List Change)
    → count_if (text_eq a) (distinct_addresses seen changes) ≤ (if contains a seen then 0 else 1)
unfolding distinct_addresses contains
distinct_addresses_once a seen [] = omega arith
distinct_addresses_once a seen (change ∷ rest) = ground (
  arith,
  distinct_addresses_once a seen rest,
  distinct_addresses_once a (change.address ∷ seen) rest,
  text_eq_iff a change.address,
)

-- The addresses of a delta are listed sorted: the list holds each address at most once, and holds exactly the addresses that are not
-- empty and that some change names.
pub addresses_lem :
    (d : Delta)
    → Sorting.IsSorted text_order (addresses d)
      × ((a : Text)
          → (count_if (text_eq a) (addresses d) ≤ 1)
            × (contains a (addresses d) ≡ (not (is_empty a) && touches a (elements d.changes))))
unfolding addresses contains
addresses_lem d = (
  Sorting.sort-IsSorted text_order (distinct_addresses [] (elements d.changes)),
  λ a. (
    omega (
      arith,
      Sorting.count_if-sort text_order (text_eq a) (distinct_addresses [] (elements d.changes)),
      distinct_addresses_once a [] (elements d.changes),
    ),
    contains-sort a (distinct_addresses [] (elements d.changes))
        ∙ contains-distinct a [] (elements d.changes),
  ),
)

pub contains-addresses :
    (a : Text) (d : Delta)
    → contains a (addresses d) ≡ (not (is_empty a) && touches a (elements d.changes))
contains-addresses a d = ((addresses_lem d).1 a).1
