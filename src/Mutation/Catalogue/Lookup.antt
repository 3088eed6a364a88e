-- ===== src/Mutation/Catalogue/Lookup.antt =====
-- What holds of every entry of the catalogue, checked once over the whole table.
use tf_mut.Prelude.{
  ◌≡◌, refl, Bool, true, false, not, ◌||◌, Option, none, some, List, [], ◌∷◌, arith, all_pass,
  if◌then◌else◌,
}
use tf_mut.Text.{Text, text_eq, text_eq_iff, is_empty}
use tf_mut.Mutation.Catalogue.Types.{Entry}
use tf_mut.Mutation.Catalogue.{catalogue, lookup, describe, projects, table_set}

pub lookup_passes :
    (p : Entry → Bool) (operator : Text) (table : List Entry) (e : Entry)
    → all_pass p table ≡ true
    → lookup operator table ≡ some e
    → p e ≡ true
unfolding lookup
lookup_passes p operator [] e h k = cc
lookup_passes p operator (x ∷ xs) e h k = ground (arith, lookup_passes p operator xs e)

-- An entry is found under its own operator.
pub operator-lookup :
    (operator : Text) (table : List Entry) (e : Entry)
    → lookup operator table ≡ some e
    → e.operator ≡ operator
unfolding lookup
operator-lookup operator [] e k = cc
operator-lookup operator (x ∷ xs) e k =
    ground (arith, operator-lookup operator xs e, text_eq_iff x.operator operator)

-- Setting a row replaces the row of its operator and leaves the others.
pub lookup-table_set :
    (e : Entry) (operator : Text) (table : List Entry)
    → lookup operator (table_set e table)
      ≡ (if text_eq e.operator operator then some e else lookup operator table)
unfolding lookup table_set
lookup-table_set e operator [] = ground arith
lookup-table_set e operator (x ∷ xs) = ground (
  arith,
  lookup-table_set e operator xs,
  text_eq_iff x.operator operator,
  text_eq_iff e.operator operator,
  text_eq_iff x.operator e.operator,
)

-- A construct with no projection is catalogued with a fix to report.
abbrev has_fix : Entry → Bool
has_fix e = e.projects || not (is_empty e.fix)

catalogue-has_fix : all_pass has_fix catalogue ≡ true
unfolding catalogue text_eq
catalogue-has_fix = refl

-- An operator that the catalogue calls unprojecting is catalogued under its own name and has a fix
-- that is not empty; an operator that it does not know counts as projecting.
pub unprojecting_has_fix :
    (operator : Text)
    → projects operator ≡ false
    → (e : Entry) × (describe operator ≡ some e)
      × (e.operator ≡ operator)
      × (e.projects ≡ false)
      × (is_empty e.fix ≡ false)
unfolding projects describe
unprojecting_has_fix operator h = go (lookup operator catalogue) refl
  where
    go :
        (o : Option Entry)
        → lookup operator catalogue ≡ o
        → (e : Entry) × (lookup operator catalogue ≡ some e)
          × (e.operator ≡ operator)
          × (e.projects ≡ false)
          × (is_empty e.fix ≡ false)
    go none k = cc (h, k)
    go (some e) k =
        let no_projection : e.projects ≡ false = ground (arith, h, k) in
        (
          e,
          k,
          operator-lookup operator catalogue e k,
          no_projection,
          ground (arith, lookup_passes has_fix operator catalogue e catalogue-has_fix k),
        )
