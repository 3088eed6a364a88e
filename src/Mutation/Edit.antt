-- ===== src/Mutation/Edit.antt =====
-- internal/mutation/edit.go: a mutant as byte replacements. A text is a list of bytes here, and the
-- offsets of a range are not negative, as the HCL library gives them.
pub mod Splicing
use mathlib.Core.List.{reverse}
use tf_mut.Prelude.{
  ℕ, suc, ◌+◌, ◌-◌, ◌≡◌, ◌⊎◌, Bool, true, not, ◌||◌, Option, none, some, List, [], ◌∷◌, ◌++◌, map,
  arith, ltb, leb, ◌==◌, if◌then◌else◌, length, take, drop, ◌>>=◌,
}
use tf_mut.Prelude.Sorting
use tf_mut.Prelude.Sorting.{Sortable}
use tf_mut.Text.{Text, text, is_empty, join}
use tf_mut.Text.Cutting.{has_prefix, holds}

-- The bytes that an `hcl.Range` covers.
pub record ByteRange : Type 0 where
  pub start : ℕ
  pub end : ℕ

pub record Part : Type 0 where
  pub rng : ByteRange
  pub text : Text

-- `edit`, without its operator and the names of its pack entry.
pub record Edit : Type 0 where
  pub parts : List Part
  pub site : Text
  pub resource : Text

-- The comparison of `apply`: the last part first.
pub part_le_total :
    (a b : Part) → (leb b.rng.start a.rng.start ≡ true) ⊎ (leb a.rng.start b.rng.start ≡ true)
part_le_total a b = ground arith

pub part_le_trans :
    (a b c : Part)
    → leb b.rng.start a.rng.start ≡ true
    → leb c.rng.start b.rng.start ≡ true
    → leb c.rng.start a.rng.start ≡ true
part_le_trans a b c h k = ground arith

abbrev pub last_first : Sortable Part
last_first = record {
  le = λ a b. leb b.rng.start a.rng.start;
  le_total = part_le_total;
  le_trans = part_le_trans;
}

abbrev out_of_range : Text → ByteRange → Bool
out_of_range source r = ltb (length source) r.end || ltb r.end r.start

-- One round of the loop of `apply`; `none` is its nil.
unfoldable pub splice : Part → Text → Option Text
splice p source =
    if out_of_range source p.rng
    then none
    else some (take p.rng.start source ++ (p.text ++ drop p.rng.end source))

unfoldable pub splice_all : List Part → Text → Option Text
unfolding splice
splice_all [] source = some source
splice_all (p ∷ rest) source = elim (splice p source) [
  | none ↦ none
  | some spliced ↦ splice_all rest spliced
]

-- `edit.apply`.
unfoldable pub apply_edit : Edit → Text → Option Text
unfolding splice_all
apply_edit e source = splice_all (Sorting.sort last_first e.parts) source

-- `replacement`.
unfoldable pub replacement : Edit → Text
unfolding join
replacement e = join (31 ∷ []) (map (λ p. p.text) e.parts)

-- `sourceText`.
unfoldable pub source_text : Text → ByteRange → Text
source_text source r =
    if out_of_range source r then [] else take (r.end - r.start) (drop r.start source)

-- `original`.
unfoldable pub original : Edit → Text → Text
unfolding source_text join
original e source = join (31 ∷ []) (map (λ p. source_text source p.rng) e.parts)

-- `between`.
unfoldable pub between : ByteRange → ByteRange → ByteRange
between left right = record { start = left.end; end = right.start }

-- `strings.Index`; `none` is its -1.
unfoldable pub index_of : Text → Text → Option ℕ
unfolding has_prefix
index_of token [] = if is_empty token then some 0 else none
index_of token (c ∷ s) =
    let later = index_of token s in
    if has_prefix token (c ∷ s) then some 0 else elim later [ none ↦ none | some n ↦ some (suc n) ]

-- `findToken`; `none` is its `false`.
unfoldable pub find_token : Text → ByteRange → Text → Option ByteRange
unfolding source_text index_of
find_token source within token = elim (index_of token (source_text source within)) [
  | none ↦ none
  | some offset ↦
      some (record { start = within.start + offset; end = within.start + offset + length token })
]

abbrev is_blank : ℕ → Bool
is_blank letter = letter == b' ' || letter == b'\t'

-- The loop back over the reversed bytes before the start; `none` where the line holds more.
back_over : ℕ → Text → Option ℕ
back_over start [] = some start
back_over start (letter ∷ before) =
    let further = back_over (start - 1) before in
    if letter == b'\n' then some start else if is_blank letter then further else none

-- The loop on over the bytes from the end; the newline is taken too.
on_over : ℕ → Text → Option ℕ
on_over end [] = some end
on_over end (letter ∷ after) =
    let further = on_over (suc end) after in
    if letter == b'\n' then some (suc end) else if is_blank letter then further else none

-- `lineRange`.
unfoldable pub line_range : Text → ByteRange → ByteRange
unfolding back_over on_over
line_range source r = elim (back_over r.start (reverse (take r.start source))) [
  | none ↦ r
  | some start ↦ elim (on_over r.end (drop r.end source)) [
    | none ↦ r
    | some end ↦ record { start = start; end = end }
  ]
]
