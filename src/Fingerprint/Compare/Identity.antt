-- ===== src/Fingerprint/Compare/Identity.antt =====
-- internal/fingerprint/delta.go: what an empty delta says of the masked payloads.
use tf_mut.Fingerprint.Volatility.{payload_key, apply, Payload}
use tf_mut.Prelude.{
  ◌≡◌, refl, sym, ap, ◌∙◌, inl, inr, true, false, Option, none, some, List, [], ◌∷◌, ◌++◌, map,
  arith, Bool-cases, cases,
}
use tf_mut.Text.{Text, text_eq, contains, text_eq_iff}
use tf_mut.Dict.{Dict, get, has, get-remove}
use tf_mut.Fingerprint.Quoting.{Quoting}
use tf_mut.Fingerprint.Mask.{Mask}
use tf_mut.Fingerprint.Compare.{
  changed_values, added_values, compare_payload, evidence_of, compare_found, compare_runs, Evidence,
  Comparison, Runs,
}

module _ (e : Evidence) (key : Text) where
  changed_values-empty :
      (mutant baseline : Dict Text)
      → changed_values e key mutant baseline ≡ []
      → (path value : Text) → get path baseline ≡ some value
      → get path mutant ≡ some value
  unfolding changed_values get
  changed_values-empty mutant [] none_changed path value found = ground (arith, found)
  changed_values-empty mutant ((at, old) ∷ rest) none_changed path value found =
      elim (cases (get at mutant)) [
        | inl absent ↦ ground (arith, none_changed, absent)
        | inr (new, there) ↦ elim (Bool-cases (text_eq at path)) [
          | inl same ↦ ground (
            arith,
            none_changed,
            there,
            found,
            same,
            text_eq_iff new old,
            ap (λ k. get k mutant) ((text_eq_iff at path).0 same),
          )
          | inr other ↦
              changed_values-empty mutant rest (ground (arith, none_changed, there)) path value
                (ground (arith, found, other))
        ]
      ]

  added_values-empty :
      (baseline mutant : Dict Text)
      → added_values e key baseline mutant ≡ []
      → (path : Text) → has path mutant ≡ true
      → has path baseline ≡ true
  unfolding added_values get
  added_values-empty baseline [] none_added path there = ground (arith, there)
  added_values-empty baseline ((at, new) ∷ rest) none_added path there =
      elim (Bool-cases (has at baseline)) [
        | inl old ↦ elim (Bool-cases (text_eq at path)) [
          | inl same ↦ ground (arith, old, ap (λ k. get k baseline) ((text_eq_iff at path).0 same))
          | inr other ↦
              added_values-empty baseline rest (ground (arith, none_added, old)) path
                (ground (arith, there, other))
        ]
        | inr old ↦ ground (arith, none_added, old)
      ]

-- Two maps that give the same at every key.
pub SameValues : Dict Text → Dict Text → Type 0
SameValues left right = (path : Text) → get path left ≡ get path right

pub append-empty : {A : Type 0} → (xs ys : List A) → xs ++ ys ≡ [] → (xs ≡ []) × (ys ≡ [])
append-empty [] ys e = (refl, e)
append-empty (x ∷ xs) ys e = ground (arith, e)

compare_payload-empty :
    (key : Text) (baseline mutant : Payload) (e : Evidence)
    → compare_payload key baseline mutant e ≡ []
    → SameValues baseline.values mutant.values
unfolding compare_payload SameValues
compare_payload-empty key baseline mutant e none_listed path =
    let parts =
      append-empty (changed_values e key mutant.values baseline.values)
        (added_values e key baseline.values mutant.values) none_listed in
    elim (cases (get path baseline.values)) [
      | inr (value, there) ↦
          there
          ∙ sym (changed_values-empty e key mutant.values baseline.values parts.0 path value there)
      | inl absent ↦ elim (cases (get path mutant.values)) [
        | inl gone ↦ absent ∙ sym gone
        | inr (value, there) ↦ ground (
          arith,
          absent,
          there,
          added_values-empty e key baseline.values mutant.values parts.1 path
              (ground (arith, there)),
        )
      ]
    ]

-- A payload that the loop finds the same in the masked payloads of the mutant.
pub record Matched (q : Quoting) (m : Mask) (by_run : Dict Payload) (p : Payload) : Type 0 where
  mutant : Payload
  found : get (payload_key p) by_run ≡ some mutant
  same : SameValues (apply q m p).0.values mutant.values

-- The payload is one of the list.
pub data Among (p : Payload) : List Payload → Type 0 where
  first : {rest : List Payload} → Among p (p ∷ rest)
  later : {other : Payload} {rest : List Payload} → Among p rest → Among p (other ∷ rest)

-- A round that listed nothing found the run among the mutant's, with the same values.
record Quiet (r : Runs) (key : Text) (baseline : Payload) (found : Option Payload) (s : Comparison)
    : Type 0 where
  mutant : Payload
  present : found ≡ some mutant
  same : SameValues baseline.values mutant.values
  unchanged : s.changes ≡ []
  unmissed : s.missing ≡ []

compare_found-empty :
    (r : Runs) (key : Text) (baseline : Payload) (found : Option Payload) (s : Comparison)
    → (compare_found r key baseline found s).changes ≡ []
    → (compare_found r key baseline found s).missing ≡ []
    → Quiet r key baseline found s
unfolding compare_found
compare_found-empty r key baseline none s c d =
    ground (arith, (append-empty s.missing (key ∷ []) d).1)
compare_found-empty r key baseline (some mutant) s c d =
    let parts =
      append-empty s.changes (compare_payload key baseline mutant (evidence_of r key)) c in
    record {
      mutant = mutant;
      present = refl;
      same = compare_payload-empty key baseline mutant (evidence_of r key) parts.1;
      unchanged = parts.0;
      unmissed = d;
    }

module _ (q : Quoting) (m : Mask) (r : Runs) where
  abbrev round : Payload → Comparison → Comparison
  round p s = compare_found r (payload_key p) (apply q m p).0 (get (payload_key p) s.by_run) s

  compare_runs-grows :
      (baseline : List Payload) (s : Comparison)
      → (compare_runs q m r baseline s).changes ≡ []
      → (compare_runs q m r baseline s).missing ≡ []
      → (s.changes ≡ []) × (s.missing ≡ [])
  unfolding compare_runs
  compare_runs-grows [] s c d = (c, d)
  compare_runs-grows (p ∷ rest) s c d =
      let before = compare_runs-grows rest (round p s) c d in
      let quiet =
        compare_found-empty r (payload_key p) (apply q m p).0 (get (payload_key p) s.by_run) s
          before.0 before.1 in
      (quiet.unchanged, quiet.unmissed)

  round-Quiet :
      (p : Payload) (rest : List Payload) (s : Comparison)
      → (compare_runs q m r (p ∷ rest) s).changes ≡ []
      → (compare_runs q m r (p ∷ rest) s).missing ≡ []
      → Quiet r (payload_key p) (apply q m p).0 (get (payload_key p) s.by_run) s
  unfolding compare_runs
  round-Quiet p rest s c d =
      let before = compare_runs-grows rest (round p s) c d in
      compare_found-empty r (payload_key p) (apply q m p).0 (get (payload_key p) s.by_run) s
        before.0 before.1

  -- What is left after a quiet round was there before it.
  round-get :
      (p : Payload) (s : Comparison) (k : Text) (payload : Payload)
      → Quiet r (payload_key p) (apply q m p).0 (get (payload_key p) s.by_run) s
      → get k (round p s).by_run ≡ some payload
      → get k s.by_run ≡ some payload
  unfolding compare_found
  round-get p s k payload quiet e =
      ground (arith, e, quiet.present, get-remove (payload_key p) k s.by_run)

  round-has :
      (p : Payload) (s : Comparison) (k : Text)
      → Quiet r (payload_key p) (apply q m p).0 (get (payload_key p) s.by_run) s
      → text_eq k (payload_key p) ≡ false
      → has k s.by_run ≡ true
      → has k (round p s).by_run ≡ true
  unfolding compare_found
  round-has p s k quiet other there = ground (
    arith,
    there,
    other,
    quiet.present,
    get-remove (payload_key p) k s.by_run,
    text_eq_iff k (payload_key p),
    text_eq_iff (payload_key p) k,
  )

  pub compare_runs-empty :
      (baseline : List Payload) (s : Comparison)
      → (compare_runs q m r baseline s).changes ≡ []
      → (compare_runs q m r baseline s).missing ≡ []
      → (p : Payload) → Among p baseline
      → Matched q m s.by_run p
  unfolding compare_runs
  compare_runs-empty [] s c d other among = elim among [ ]
  compare_runs-empty (p ∷ rest) s c d _ first =
      let quiet = round-Quiet p rest s c d in
      record { mutant = quiet.mutant; found = quiet.present; same = quiet.same }
  compare_runs-empty (p ∷ rest) s c d other (later among) =
      let quiet = round-Quiet p rest s c d in
      let matched = compare_runs-empty rest (round p s) c d other among in
      record {
        mutant = matched.mutant;
        found = round-get p s (payload_key other) matched.mutant quiet matched.found;
        same = matched.same;
      }

  -- A run of the mutant that is not left is one of the baseline's.
  pub compare_runs-covers :
      (baseline : List Payload) (s : Comparison) (k : Text)
      → (compare_runs q m r baseline s).changes ≡ []
      → (compare_runs q m r baseline s).missing ≡ []
      → has k s.by_run ≡ true
      → has k (compare_runs q m r baseline s).by_run ≡ false
      → contains k (map payload_key baseline) ≡ true
  unfolding compare_runs contains
  compare_runs-covers [] s k c d there gone = ground (arith, there, gone)
  compare_runs-covers (p ∷ rest) s k c d there gone =
      elim (Bool-cases (text_eq k (payload_key p))) [
        | inl same ↦ ground (arith, same)
        | inr other ↦
            let quiet = round-Quiet p rest s c d in
            let still : has k (round p s).by_run ≡ true = round-has p s k quiet other there in
            ground (arith, other, compare_runs-covers rest (round p s) k c d still gone)
      ]
