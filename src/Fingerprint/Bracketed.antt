-- ===== src/Fingerprint/Bracketed.antt =====
-- internal/fingerprint/payload.go: `CutBracketed` and `digitsOnly`.
use tf_mut.Prelude.{
  ℕ, suc, ◌-◌, Bool, true, false, ◌&&◌, Option, none, some, [], ◌∷◌, ◌++◌, leb, ◌==◌, if◌then◌else◌,
  all_pass,
}
use tf_mut.Text.{Text}

-- The variables of the scan.
pub record Bracket : Type 0 where
  pub depth : ℕ
  pub quoted : Bool
  pub escaped : Bool

-- The switch, for one letter.
unfoldable pub scan_bracket : Bracket → ℕ → Bracket
scan_bracket s letter =
    if s.quoted
    then if s.escaped
      then record s { escaped = false }
      else if letter == b'\\'
      then record s { escaped = true }
      else if letter == b'"'
      then record s { quoted = false }
      else s
    else if letter == b'"'
    then record s { quoted = true }
    else if letter == b'['
    then record s { depth = suc s.depth }
    else if letter == b']'
    then record s { depth = s.depth - 1 }
    else s

-- The loop, with the letters inside the bracket so far.
unfoldable pub cut_from : Bracket → Text → Text → Option (Text × Text)
unfolding scan_bracket
cut_from s inside [] = none
cut_from s inside (letter ∷ rest) =
    let after = scan_bracket s letter in
    let later = cut_from after (inside ++ letter ∷ []) rest in
    if after.depth == 0 then some (inside, rest) else later

-- `CutBracketed`; `none` is its `"", "", false`.
unfoldable pub cut_bracketed : Text → Option (Text × Text)
unfolding cut_from
cut_bracketed rest = cut_from (record { depth = 1; quoted = false; escaped = false }) [] rest

-- `digitsOnly`.
unfoldable pub digits_only : Text → Bool
digits_only [] = false
digits_only (c ∷ key) = all_pass (λ letter. leb b'0' letter && leb letter b'9') (c ∷ key)
