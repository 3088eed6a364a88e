-- ===== src/Discovery/Address.antt =====
-- internal/discovery/address.go: the canonical address model.
pub mod Split
pub mod RoundTrip
pub mod Containment
use tf_mut.Prelude.{
  ℕ, Bool, true, false, ◌&&◌, ◌||◌, Option, none, some, List, [], ◌∷◌, ◌++◌, map, ◌==◌,
  if◌then◌else◌, ◌>>=◌,
}
use tf_mut.Prelude.Int.{increment, decrement, is_positive, ℤ, pos}
use tf_mut.Text.{Text, text, text_eq, is_empty, join}

abbrev pub wildcard : Text
wildcard = text "*"

abbrev pub module_block : Text
module_block = text "module"

abbrev pub data_block : Text
data_block = text "data"

pub record Addr : Type 0 where
  pub module_path : List Text
  pub parts : List Text

-- The variables of the loop of `splitAddress`, without the segments, and the segments that one
-- letter completes.
record Scan : Type 0 where
  builder : Text
  depth : ℤ
  flushed : List Text

-- `flush`: an empty part is dropped.
flush : Text → List Text
flush part = if is_empty part then [] else part ∷ []

-- The switch of `splitAddress`. The depth is signed: an unmatched `]` makes it negative.
scan_letter : Text → ℤ → ℕ → Scan
unfolding flush
scan_letter builder depth letter =
    if letter == b'['
    then record { builder = builder; depth = increment depth; flushed = [] }
    else if letter == b']'
    then record { builder = builder; depth = decrement depth; flushed = [] }
    else if is_positive depth
    then record { builder = builder; depth = depth; flushed = [] }
    else if letter == b'.'
    then record { builder = []; depth = depth; flushed = flush builder }
    else record { builder = builder ++ letter ∷ []; depth = depth; flushed = [] }

scan : Text → ℤ → Text → List Text
unfolding scan_letter
scan builder depth [] = flush builder
scan builder depth (letter ∷ rest) =
    let s = scan_letter builder depth letter in s.flushed ++ scan s.builder s.depth rest

unfoldable pub split_address : Text → List Text
unfolding scan
split_address address = scan [] (pos 0) address

-- The loop of `ParseAddr`: leading `module.<name>` pairs go to the module path.
strip_modules : List Text → Addr
strip_modules [] = record { module_path = []; parts = [] }
strip_modules (a ∷ []) = record { module_path = []; parts = a ∷ [] }
strip_modules (a ∷ b ∷ rest) =
    let inner = strip_modules rest in
    if text_eq a module_block
    then record { module_path = b ∷ inner.module_path; parts = inner.parts }
    else record { module_path = []; parts = a ∷ b ∷ rest }

unfoldable pub parse_addr : Text → Addr
unfolding split_address strip_modules
parse_addr address = strip_modules (split_address address)

abbrev two_labels : List Text → Option (Text × Text)
two_labels (a ∷ b ∷ []) = some (a, b)
two_labels _ = none

abbrev one_label : List Text → Option Text
one_label (a ∷ []) = some a
one_label _ = none

-- `BlockAddr`; `none` is its `"", false`.
unfoldable pub block_addr : Text → List Text → Option Text
block_addr kind labels =
    if text_eq kind (text "resource")
    then elim (two_labels labels) [ none ↦ none | some (a, b) ↦ some (a ++ (text "." ++ b)) ]
    else if text_eq kind data_block
    then elim (two_labels labels) [
      | none ↦ none
      | some (a, b) ↦ some (data_block ++ (text "." ++ (a ++ (text "." ++ b))))
    ]
    else if text_eq kind (text "output")
        || (text_eq kind module_block
            || (text_eq kind (text "check") || text_eq kind (text "provider")))
    then elim (one_label labels) [ none ↦ none | some a ↦ some (kind ++ (text "." ++ a)) ]
    else if text_eq kind (text "variable")
    then elim (one_label labels) [ none ↦ none | some a ↦ some (text "var." ++ a) ]
    else none

-- `strings.Split(s, ".")`, with the part read so far.
unfoldable pub split_dots : Text → Text → List Text
split_dots part [] = part ∷ []
split_dots part (c ∷ cs) =
    let cut = split_dots [] cs in
    let on = split_dots (part ++ c ∷ []) cs in if c == b'.' then part ∷ cut else on

-- `RootAddr`.
unfoldable pub root_addr : Text → Option Text
unfolding split_dots
root_addr address = elim (split_dots [] address) [
  | a ∷ b ∷ rest ↦ some (a ++ (text "." ++ b))
  | _ ↦ none
]

-- One segment of `Contains`: the wildcard on either side matches.
segment_matches : Text → Text → Bool
segment_matches a b = text_eq a wildcard || (text_eq b wildcard || text_eq a b)

segments_match : List Text → List Text → Bool
unfolding segment_matches
segments_match [] bs = true
segments_match (a ∷ tail_a) [] = false
segments_match (a ∷ tail_a) (b ∷ bs) = segment_matches a b && segments_match tail_a bs

-- The loop over the module paths, of which the lengths were compared first.
same_path : List Text → List Text → Bool
same_path [] [] = true
same_path [] (b ∷ bs) = false
same_path (a ∷ tail_a) [] = false
same_path (a ∷ tail_a) (b ∷ bs) = text_eq a b && same_path tail_a bs

unfoldable pub addr_contains : Addr → Addr → Bool
unfolding same_path segments_match
addr_contains a other =
    same_path a.module_path other.module_path && segments_match a.parts other.parts

-- `Addr.String`.
unfoldable pub render : Addr → Text
render a =
    join (text ".") (map (λ name. module_block ++ (text "." ++ name)) a.module_path ++ a.parts)
