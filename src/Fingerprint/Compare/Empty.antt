-- ===== src/Fingerprint/Compare/Empty.antt =====
-- internal/fingerprint/delta.go: fingerprint identity, `Compare` with an empty delta.
use tf_mut.Dict.Keys.{contains-keys}
use tf_mut.Prelude.{
  ◌≡◌, refl, sym, ap, ◌∙◌, true, false, ◌||◌, List, [], ◌∷◌, ◌++◌, map, arith, length, is_nil,
}
use tf_mut.Prelude.Sorting
use tf_mut.Prelude.Sorting.{Sortable}
use tf_mut.Text.{Text, contains}
use tf_mut.Text.Order.{text_order}
use tf_mut.Dict.{keys, has}
use tf_mut.Fingerprint.Quoting.{Quoting}
use tf_mut.Fingerprint.Mask.{Mask}
use tf_mut.Fingerprint.Delta.{delta_empty, Change}
use tf_mut.Fingerprint.Volatility.{payload_key, by_key, Payload}
use tf_mut.Fingerprint.Compare.{
  masked_by_key, undecided, all_secrets, compare_runs, by_run_path, volatile_of, compare,
  Comparison, Runs,
}
use tf_mut.Fingerprint.Compare.Identity.{
  append-empty, compare_runs-empty, compare_runs-covers, Matched, Among,
}

no_length : {A : Type 0} → (xs : List A) → length xs ≡ 0 → xs ≡ []
no_length [] e = refl
no_length (x ∷ xs) e = ground (arith, e)

sort-empty : {A : Type 0} → (o : Sortable A) (xs : List A) → Sorting.sort o xs ≡ [] → xs ≡ []
sort-empty o xs e = no_length xs (sym (Sorting.length-sort o xs) ∙ ap length e)

map-empty : {A B : Type 0} → (f : A → B) (xs : List A) → map f xs ≡ [] → xs ≡ []
map-empty f [] e = refl
map-empty f (x ∷ xs) e = ground (arith, e)

is_nil_lem : {A : Type 0} → (xs : List A) → is_nil xs ≡ true → xs ≡ []
is_nil_lem [] e = refl
is_nil_lem (x ∷ xs) e = ground (arith, e)

contains-nil : (a : Text) → contains a [] ≡ false
unfolding contains
contains-nil a = refl

-- What fingerprint identity promises: no payload is undecidable under the mask, every run of the
-- baseline has a payload of the mutant with the same masked values, and the mutant has no other run.
pub record Identical (q : Quoting) (m : Mask) (baseline mutant : List Payload) : Type 0 where
  decided : (undecided q m baseline ≡ false) × (undecided q m mutant ≡ false)
  matched : (p : Payload) → Among p baseline → Matched q m (masked_by_key q m mutant []) p
  covered :
      (key : Text)
      → has key (masked_by_key q m mutant []) ≡ true
      → contains key (map payload_key baseline) ≡ true

module _ (q : Quoting) (m : Mask) (baseline mutant : List Payload) where
  abbrev runs : Runs
  runs = record {
    unmasked = by_key baseline [];
    unmasked_mutant = by_key mutant [];
    secrets = all_secrets baseline ++ all_secrets mutant;
  }

  abbrev begin : Comparison
  begin = record { by_run = masked_by_key q m mutant []; changes = []; missing = [] }

  abbrev final : Comparison
  final = compare_runs q m runs baseline begin

  compare_parts :
      delta_empty (compare q m baseline mutant) ≡ true
      → (final.changes ≡ [])
        × (final.missing ≡ [])
        × (keys final.by_run ≡ [])
        × ((undecided q m mutant || undecided q m baseline) ≡ false)
  unfolding compare delta_empty
  compare_parts e =
      let listed : List Change = map (volatile_of m) final.changes in
      let absent : List Text = final.missing ++ keys final.by_run in
      let no_changes = map-empty (volatile_of m) final.changes (
        sort-empty by_run_path listed
          (is_nil_lem (Sorting.sort by_run_path listed) (ground (arith, e)))) in
      let no_missing = append-empty final.missing (keys final.by_run) (
        sort-empty text_order absent
          (is_nil_lem (Sorting.sort text_order absent) (ground (arith, e)))) in
      (no_changes, no_missing.0, no_missing.1, ground (arith, e))

  -- When the delta of a baseline and a mutant is empty, no payload of either is undecidable under the mask, every run of the baseline has the same masked values in the mutant's payload of that run, and the mutant has no other run.
  pub compare-Identical :
      delta_empty (compare q m baseline mutant) ≡ true → Identical q m baseline mutant
  compare-Identical e =
      let (c, d, k, u) = compare_parts e in
      record {
        decided = ground (arith, u);
        matched = compare_runs-empty q m runs baseline begin c d;
        covered = λ key there.
            compare_runs-covers q m runs baseline begin key c d there
              (sym (contains-keys key final.by_run) ∙ ap (contains key) k ∙ contains-nil key);
      }
