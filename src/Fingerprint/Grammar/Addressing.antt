-- ===== src/Fingerprint/Grammar/Addressing.antt =====
-- internal/fingerprint/path.go and payload.go: what a path that is spelled from its parts parses to.
use tf_mut.Text.Cutting.{has_prefix, cut_prefix, trim_prefix}
use tf_mut.Fingerprint.Members.{resource_changes, root_module}
use tf_mut.Fingerprint.Grammar.{
  resource_path, parse_path, under_body, address_under, address, split_addressed, split,
  plan_resource, state_resource,
}
use mathlib.Core.List.{append-nil, append_assoc}
use tf_mut.Prelude.{
  ℕ, suc, ◌≡◌, refl, ap, ◌∙◌, Bool, true, false, ◌||◌, Option, some, [], ◌∷◌, ◌++◌, arith, ◌==◌,
}
use tf_mut.Text.{Text, text, text_eq}
use tf_mut.Fingerprint.Bracketed.{scan_bracket, cut_from, cut_bracketed, Bracket}

-- The letters that the scan takes for structure outside a quoted key.
abbrev structural : ℕ → Bool
structural letter = letter == b'"' || (letter == b'[' || letter == b']')

-- The contents of a quoted key, up to and with its closing quote: escapes are pairs.
pub data Quoted : Text → Type 0 where
  closing : Quoted (b'"' ∷ [])
  escape : (letter : ℕ) {rest : Text} → Quoted rest → Quoted (b'\\' ∷ letter ∷ rest)
  plain :
      (letter : ℕ) {rest : Text}
      → (letter == b'\\') ≡ false
      → (letter == b'"') ≡ false
      → Quoted rest
      → Quoted (letter ∷ rest)

-- A text whose brackets are matched, those in quoted keys aside.
pub data Balanced : Text → Type 0 where
  empty : Balanced []
  letter_then :
      (letter : ℕ) {rest : Text}
      → structural letter ≡ false
      → Balanced rest
      → Balanced (letter ∷ rest)
  quote_then : {key rest : Text} → Quoted key → Balanced rest → Balanced (b'"' ∷ (key ++ rest))
  bracket_then :
      {inner rest : Text}
      → Balanced inner
      → Balanced rest
      → Balanced (b'[' ∷ (inner ++ (b']' ∷ rest)))

-- The state between the letters of a key, and outside one.
abbrev outside_key : ℕ → Bracket
outside_key depth = record { depth = depth; quoted = false; escaped = false }

abbrev inside_key : ℕ → Bracket
inside_key depth = record { depth = depth; quoted = true; escaped = false }

abbrev shut : Text → Text → Option (Text × Text)
shut inside rest = some (inside, rest)

cut_from-Quoted :
    (depth : ℕ) (seen : Text) {key : Text} (rest : Text)
    → Quoted key
    → cut_from (inside_key (suc depth)) seen (key ++ rest)
      ≡ cut_from (outside_key (suc depth)) (seen ++ key) rest
unfolding cut_from scan_bracket
cut_from-Quoted depth seen rest closing = ground arith
cut_from-Quoted depth seen rest (escape letter {rest = key} q) = ground (
  arith,
  cut_from-Quoted depth ((seen ++ b'\\' ∷ []) ++ letter ∷ []) rest q,
  append_assoc (seen ++ b'\\' ∷ []) (letter ∷ []) key,
  append_assoc seen (b'\\' ∷ []) (letter ∷ key),
)
cut_from-Quoted depth seen rest (plain letter {rest = key} b e q) = ground (
  arith,
  b,
  e,
  cut_from-Quoted depth (seen ++ letter ∷ []) rest q,
  append_assoc seen (letter ∷ []) key,
)

cut_from-Balanced :
    (depth : ℕ) (seen : Text) {inside : Text} (rest : Text)
    → Balanced inside
    → cut_from (outside_key (suc depth)) seen (inside ++ rest)
      ≡ cut_from (outside_key (suc depth)) (seen ++ inside) rest
unfolding cut_from scan_bracket
cut_from-Balanced depth seen rest empty = ground (arith, append-nil seen)
cut_from-Balanced depth seen rest (letter_then letter {rest = inside} s b) = ground (
  arith,
  s,
  cut_from-Balanced depth (seen ++ letter ∷ []) rest b,
  append_assoc seen (letter ∷ []) inside,
)
cut_from-Balanced depth seen rest (quote_then {key} {rest = inside} q b) = ground (
  arith,
  cut_from-Quoted depth (seen ++ b'"' ∷ []) (inside ++ rest) q,
  cut_from-Balanced depth ((seen ++ b'"' ∷ []) ++ key) rest b,
  append_assoc key inside rest,
  append_assoc (seen ++ b'"' ∷ []) key inside,
  append_assoc seen (b'"' ∷ []) (key ++ inside),
)
cut_from-Balanced depth seen rest (bracket_then {inner} {rest = inside} q b) =
    let opened : Text = seen ++ b'[' ∷ [] in
    let closed : Text = (opened ++ inner) ++ b']' ∷ [] in
    ground (
      arith,
      cut_from-Balanced (suc depth) opened (b']' ∷ (inside ++ rest)) q,
      cut_from-Balanced depth closed rest b,
      append_assoc inner (b']' ∷ inside) rest,
      append_assoc (opened ++ inner) (b']' ∷ []) inside,
      append_assoc opened inner (b']' ∷ inside),
      append_assoc seen (b'[' ∷ []) (inner ++ (b']' ∷ inside)),
    )

closing_bracket :
    (inside rest : Text) → cut_from (outside_key 1) inside (b']' ∷ rest) ≡ some (inside, rest)
unfolding cut_from scan_bracket
closing_bracket inside rest = refl

-- The scan for the closing bracket of an opened one stops at the bracket that follows a balanced text.
pub cut_bracketed-Balanced :
    (inside rest : Text)
    → Balanced inside
    → cut_bracketed (inside ++ (b']' ∷ rest)) ≡ some (inside, rest)
unfolding cut_bracketed
cut_bracketed-Balanced inside rest b =
    cut_from-Balanced 0 [] (b']' ∷ rest) b ∙ closing_bracket inside rest

-- The paths of a resource of a plan and of a state, with what follows the resource's address.
abbrev pub plan_path : Text → Text → Text
plan_path owner body = (resource_changes ++ text "[") ++ (owner ++ (b']' ∷ body))

abbrev pub state_path : Text → Text → Text
state_path owner body = (root_module ++ text ".resources[") ++ (owner ++ (b']' ∷ body))

parse_path-plan_path :
    (owner body : Text)
    → Balanced owner
    → parse_path (plan_path owner body)
      ≡ record { raw = plan_path owner body; kind = plan_resource; owner = owner; body = body }
unfolding parse_path has_prefix trim_prefix cut_prefix
parse_path-plan_path owner body b =
    ap (resource_path (plan_path owner body) plan_resource) (cut_bracketed-Balanced owner body b)

parse_path-state_path :
    (owner body : Text)
    → Balanced owner
    → parse_path (state_path owner body)
      ≡ record { raw = state_path owner body; kind = state_resource; owner = owner; body = body }
unfolding parse_path has_prefix trim_prefix cut_prefix
parse_path-state_path owner body b =
    ap (resource_path (state_path owner body) state_resource) (cut_bracketed-Balanced owner body b)

-- For a resource address whose brackets match (those in quoted keys aside) and any attribute path, the plan's path of the attribute and the state's both parse back: each names the address followed by a dot and the attribute path, and splits into the two.
pub split-parse_path :
    (owner attribute : Text)
    → Balanced owner
    → (address (parse_path (plan_path owner (text ".change.after." ++ attribute)))
        ≡ owner ++ (text "." ++ attribute))
      × (split (parse_path (plan_path owner (text ".change.after." ++ attribute)))
          ≡ some (owner, attribute))
      × (address (parse_path (state_path owner (text ".values." ++ attribute)))
          ≡ owner ++ (text "." ++ attribute))
      × (split (parse_path (state_path owner (text ".values." ++ attribute)))
          ≡ some (owner, attribute))
unfolding address address_under under_body trim_prefix cut_prefix split split_addressed text_eq
split-parse_path owner attribute b =
    let plan = parse_path-plan_path owner (text ".change.after." ++ attribute) b in
    let state = parse_path-state_path owner (text ".values." ++ attribute) b in
    (ap address plan, ap split plan, ap address state, ap split state)
