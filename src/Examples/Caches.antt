-- ===== src/Examples/Caches.antt =====
-- An edit of a source, and a verdict cache with a stale and a current entry.
use tf_mut.Prelude.{◌≤◌, ◌≡◌, refl, ◌↔◌, true, not, none, some, List, [], ◌∷◌, length, count_if}
use tf_mut.Prelude.Sorting
use tf_mut.Text.{text, text_eq}
use tf_mut.Text.Cutting.{has_prefix, has_suffix}
use tf_mut.Dict.{remove, keys}
use tf_mut.Mutation.Edit.{apply_edit, Edit}
use tf_mut.Mutation.Edit.Splicing.{before, after, parts_of, apply_edit-before, Piece}
use tf_mut.Oracle.Record.{record_of}
use tf_mut.Oracle.Constructors.{new_killed}
use tf_mut.Oracle.Record.{record_of}
use tf_mut.Store.Verdicts.{
  Directory, get_entry, put_entry, is_cached, evicted, evict, CacheEntry, regular, irregular,
  VerdictCache,
}
use tf_mut.Store.Eviction.{Carries, get_entry-put_entry, evict-max_entries}

-- Two operands that change places, given first to last.
abbrev swap : Edit
swap = record {
  parts =
      record { rng = record { start = 4; end = 5 }; text = text "bb" }
      ∷ record { rng = record { start = 8; end = 10 }; text = text "a" }
      ∷ [];
  site = text "local.n";
  resource = [];
}

abbrev pieces : List Piece
pieces =
    record { kept = text "n = "; replaced = text "a"; by = text "bb" }
    ∷ record { kept = text " < "; replaced = text "bb"; by = text "a" }
    ∷ []

apply_edit-before_example : apply_edit swap (text "n = a < bb\n") ≡ some (text "n = bb < a\n")
unfolding Sorting.sort parts_of before after
apply_edit-before_example = apply_edit-before swap pieces (text "\n") refl

-- A part that ends past the source makes no mutant.
past_the_end : apply_edit swap (text "n = a") ≡ none
unfolding apply_edit Sorting.sort
past_the_end = refl

abbrev entry : CacheEntry
entry = record {
  format_version = text "3";
  run_key = text "0123456789abcdef0";
  mutant_id = text "m1";
  stored = record_of new_killed;
  observed = text "{}";
}

-- Contents that are the entries themselves, and a digest that keeps the text.
abbrev cache : VerdictCache CacheEntry
cache = record {
  codec = record { encode = some; decode = some; digest = λ s. s };
  entry_format_version = text "3";
  max_entries = 1;
}

abbrev cache_dir : Directory CacheEntry
cache_dir =
    (text "ffffffffffffffff-1.json", regular entry)
    ∷ (text "lock", irregular)
    ∷ (text "0123456789abcdef-1.json", regular entry)
    ∷ []

get_entry-put_entry_example :
    (get_entry cache
        (put_entry cache true entry.run_key entry.mutant_id entry cache_dir)
        entry.run_key
        entry.mutant_id
      ≡ some entry)
    ↔ ((some entry ≡ some entry) × Carries cache entry.run_key entry.mutant_id entry)
get_entry-put_entry_example =
    (get_entry-put_entry cache cache_dir entry.run_key entry.mutant_id entry entry entry.run_key
        entry.mutant_id refl).0
      refl entry

-- It is got back.
stored_entry :
    get_entry cache
      (put_entry cache true entry.run_key entry.mutant_id entry cache_dir)
      entry.run_key
      entry.mutant_id
    ≡ some entry
stored_entry = get_entry-put_entry_example.1 (refl, (refl, refl, refl))

evict-max_entries_example :
    count_if is_cached (evict cache true (λ name. true) entry.run_key cache_dir) ≤ 1
unfolding evicted keys Sorting.sort has_suffix has_prefix text_eq
evict-max_entries_example = (evict-max_entries cache (λ name. true) entry.run_key cache_dir).1 refl

-- The stale entry is the one that leaves.
stale_first :
    keys (evict cache true (λ name. true) entry.run_key cache_dir)
    ≡ text "lock" ∷ text "0123456789abcdef-1.json" ∷ []
unfolding evict keys remove text_eq Sorting.sort has_suffix has_prefix
stale_first = refl

-- Where it cannot be removed, it stays, and the current entry stays too.
nothing_removed :
    length (evict cache true (λ name. not (has_prefix (text "f") name)) entry.run_key cache_dir) ≡ 3
unfolding evict remove text_eq Sorting.sort has_suffix has_prefix keys
nothing_removed = refl
