-- ===== src/Fingerprint/Quoting.antt =====
-- The two functions of Go's `strconv` that canonical renderings go through. Which letters `Quote`
-- escapes depends on Unicode tables, so they are a parameter, with what `strconv` documents of them:
-- a quoted string opens with a quotation mark and goes on, and `Unquote` reads it back.
use tf_mut.Prelude.{
  ◌≤◌, ◌≡◌, Bool, false, ◌&&◌, Option, none, some, [], ◌∷◌, arith, ◌==◌, leb, length, if◌then◌else◌,
}
use tf_mut.Text.{Text}

pub record Quoting : Type 0 where
  pub quote : Text → Text
  pub unquote_literal : Text → Option Text
  pub unquote-quote : (s : Text) → unquote_literal (quote s) ≡ some s
  pub quote_opens : (s : Text) → (rest : Text) × (quote s ≡ b'"' ∷ rest) × (1 ≤ length rest)

abbrev opens_quote : Text → Bool
opens_quote [] = false
opens_quote (c ∷ s) = c == b'"'

-- `unquote` of mask.go: a rendering that is too short or opens no string is `"", false`.
unfoldable pub unquote : Quoting → Text → Option Text
unquote q rendering =
    if leb 2 (length rendering) && opens_quote rendering then q.unquote_literal rendering else none

-- What was quoted is a string rendering of itself.
pub unquote-quote_lem : (q : Quoting) (s : Text) → unquote q (q.quote s) ≡ some s
unfolding unquote
unquote-quote_lem q s = ground (arith, q.unquote-quote s, q.quote_opens s)
