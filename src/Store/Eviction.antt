-- ===== src/Store/Eviction.antt =====
-- internal/store/verdict.go: the size cap that `Evict` enforces, and what `Get` finds after `Put`.
use tf_mut.Prelude.{
  ◌+◌, ◌-◌, ◌≤◌, ◌≡◌, refl, ◌∙◌, ◌≢◌, ◌↔◌, inl, inr, Bool, true, not, ◌&&◌, ◌||◌, Option, none,
  some, List, [], ◌∷◌, ◌++◌, arith, Bool-cases, length, select, all_pass, count_if, take,
  length-append, count_if-append,
}
use tf_mut.Prelude.Sorting
use tf_mut.Text.{Text, text_eq, contains, text_eq_iff, text_eq_refl}
use tf_mut.Text.Order.{sort, text_order}
use tf_mut.Dict.{get, put, remove, keys, get-put}
use tf_mut.Store.Counting.{count_if-same, count_if-rest, none_fails}
use tf_mut.Store.Verdicts.{
  Directory, entry_name, admitted, get_entry, put_entry, is_cached, is_current, stale_names,
  current_names, remove_all, evicted, evict, CacheEntry, File, regular, VerdictCache,
}

module _ {C : Type 0} where
  got_back : (k : Text) (file : File C) (dir : Directory C) → get k (put k file dir) ≡ some file
  got_back k file dir = ground (arith, get-put k k file dir, text_eq_refl k)

  got_unchanged :
      (k j : Text) (file : File C) (dir : Directory C) → k ≢ j → get j (put k file dir) ≡ get j dir
  got_unchanged k j file dir other = ground (arith, get-put k j file dir, other, text_eq_iff k j)

  -- What `Get` may hand out: an entry of the cache's version, of the key and of the mutant asked for.
  abbrev pub Carries : VerdictCache C → Text → Text → CacheEntry → Type 0
  Carries c run_key mutant_id e =
      (e.format_version ≡ c.entry_format_version)
      × (e.run_key ≡ run_key)
      × (e.mutant_id ≡ mutant_id)

  admitted-Carries :
      (c : VerdictCache C) (run_key mutant_id : Text) (o : Option CacheEntry) (e : CacheEntry)
      → (admitted c run_key mutant_id o ≡ some e) ↔ ((o ≡ some e) × Carries c run_key mutant_id e)
  admitted-Carries c run_key mutant_id none e = ground arith
  admitted-Carries c run_key mutant_id (some d) e = ground (
    arith,
    text_eq_iff d.format_version c.entry_format_version,
    text_eq_iff d.run_key run_key,
    text_eq_iff d.mutant_id mutant_id,
  )

  -- After an entry was encoded and written, `Get` hands out an entry for a key and a mutant of the same entry name, whatever the cache held before, exactly when the content decodes to that entry and the entry is of the cache's version, of that key and of that mutant. For a key and a mutant of another entry name `Get` answers as before.
  pub get_entry-put_entry :
      (c : VerdictCache C) (dir : Directory C) (run_key mutant_id : Text) (e : CacheEntry)
      (content : C) (other_key other_id : Text)
      → c.codec.encode e ≡ some content
      → let name = entry_name c.codec run_key mutant_id in
        let other = entry_name c.codec other_key other_id in
        let after = put_entry c true run_key mutant_id e dir in
        (name ≡ other
          → (got : CacheEntry)
          → (get_entry c after other_key other_id ≡ some got)
            ↔ ((c.codec.decode content ≡ some got) × Carries c other_key other_id got))
        × (name ≢ other → get_entry c after other_key other_id ≡ get_entry c dir other_key other_id)
  unfolding get_entry put_entry
  get_entry-put_entry c dir run_key mutant_id e content other_key other_id encoded =
      let name : Text = entry_name c.codec run_key mutant_id in
      let other : Text = entry_name c.codec other_key other_id in
      let file : File C = regular content in
      (
        λ same got. ground (
          arith,
          encoded,
          same,
          got_back other file dir,
          admitted-Carries c other_key other_id (c.codec.decode content) got,
        ),
        λ apart. ground (arith, encoded, got_unchanged name other file dir apart),
      )

  -- The files that are left, of those that a test counts.
  count_if-remove :
      (p : Text × File C → Bool) (name : Text) (dir : Directory C)
      → count_if p (remove name dir) ≡ count_if (λ f. p f && not (text_eq f.0 name)) dir
  unfolding remove
  count_if-remove p name [] = refl
  count_if-remove p name ((j, file) ∷ rest) = ground (arith, count_if-remove p name rest)

  count_if-remove_all :
      (r : Text → Bool) (p : Text × File C → Bool) (names : List Text) (dir : Directory C)
      → count_if p (remove_all r names dir)
        ≡ count_if (λ f. p f && not (contains f.0 (select r names))) dir
  unfolding remove_all contains
  count_if-remove_all r p [] dir = count_if-same p (λ f. p f && true) (λ f. ground arith) dir
  count_if-remove_all r p (name ∷ rest) dir = elim (Bool-cases (r name)) [
    | inr e ↦ rw e (count_if-remove_all r p rest dir)
    | inl e ↦ rw e (
        count_if-remove_all r p rest (remove name dir)
        ∙ count_if-remove (λ f. p f && not (contains f.0 (select r rest))) name dir
        ∙ count_if-same (λ f. (p f && not (contains f.0 (select r rest))) && not (text_eq f.0 name))
            (λ f. p f && not (text_eq f.0 name || contains f.0 (select r rest))) (λ f. ground arith)
            dir)
  ]

  count_if-keys :
      (q : Text → Bool) (p : Text × File C → Bool) (dir : Directory C)
      → count_if q (keys (select p dir)) ≡ count_if (λ f. p f && q f.0) dir
  unfolding keys
  count_if-keys q p [] = refl
  count_if-keys q p (f ∷ rest) = ground (arith, count_if-keys q p rest)

  count_if-split :
      (p r q : Text × File C → Bool) (dir : Directory C)
      → count_if (λ f. (p f && not (r f)) && q f) dir + count_if (λ f. (p f && r f) && q f) dir
        ≡ count_if (λ f. p f && q f) dir
  count_if-split p r q [] = refl
  count_if-split p r q (f ∷ rest) = ground (arith, count_if-split p r q rest)

  count_if-names :
      (q : Text → Bool) (run_key : Text) (dir : Directory C)
      → count_if q (stale_names run_key dir ++ current_names run_key dir)
        ≡ count_if (λ f. is_cached f && q f.0) dir
  unfolding stale_names current_names
  count_if-names q run_key dir =
      let stale = keys (select (λ f. is_cached f && not (is_current run_key f)) dir) in
      let current = keys (select (λ f. is_cached f && is_current run_key f) dir) in
      omega (
        arith,
        count_if-append q (sort stale) (sort current),
        Sorting.count_if-sort text_order q stale,
        Sorting.count_if-sort text_order q current,
        count_if-keys q (λ f. is_cached f && not (is_current run_key f)) dir,
        count_if-keys q (λ f. is_cached f && is_current run_key f) dir,
        count_if-split is_cached (is_current run_key) (λ f. q f.0) dir,
      )

  -- Where the directory can be read, it holds after an eviction at most as many cache files as the cap, and the files chosen for eviction that could not be removed, whatever it held before and whichever key was named. So where all of these can be removed it is within the cap.
  pub evict-max_entries :
      (c : VerdictCache C) (removable : Text → Bool) (run_key : Text) (dir : Directory C)
      → let left = count_if is_cached (evict c true removable run_key dir) in
        let failed = count_if (λ name. not (removable name)) (evicted c run_key dir) in
        (left ≤ c.max_entries + failed)
        × (all_pass removable (evicted c run_key dir) ≡ true → left ≤ c.max_entries)
  unfolding evict evicted
  evict-max_entries c removable run_key dir =
      let stale = stale_names run_key dir in
      let current = current_names run_key dir in
      let names = stale ++ current in
      let n = length stale + length current - c.max_entries in
      let within =
        count_if is_cached (evict c true removable run_key dir)
        ≤ c.max_entries + count_if (λ name. not (removable name)) (take n names) in
      let bound : within = omega (
        arith,
        count_if-remove_all removable is_cached (take n names) dir,
        count_if-names (λ x. not (contains x (select removable (take n names)))) run_key dir,
        count_if-rest removable n names,
        length-append stale current,
      ) in
      (bound, λ all. omega (arith, bound, none_fails removable (take n names) all))
