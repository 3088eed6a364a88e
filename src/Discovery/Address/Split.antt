-- ===== src/Discovery/Address/Split.antt =====
-- How `splitAddress` walks an address: plain names, the separators between them, instance keys.
use mathlib.Core.List.{append-nil, append_assoc}
use tf_mut.Prelude.{
  ℕ, suc, ◌≡◌, refl, sym, ap, Bool, true, not, ◌&&◌, List, [], ◌∷◌, ◌++◌, arith, ◌==◌, all_pass,
}
use tf_mut.Prelude.Int.{pos}
use tf_mut.Text.{Text, text, is_empty, join}
use tf_mut.Discovery.Address.{scan, split_address}

-- A letter that is no dot and no bracket.
abbrev pub plain_letter : ℕ → Bool
plain_letter c = not (c == b'.') && (not (c == b'[') && not (c == b']'))

-- A name: not empty, and of plain letters.
abbrev pub is_name : Text → Bool
is_name s = not (is_empty s) && all_pass plain_letter s

-- A letter of an instance key: anything but a bracket.
abbrev pub key_letter : ℕ → Bool
key_letter c = not (c == b'[') && not (c == b']')

scan-plain :
    (builder s rest : Text)
    → all_pass plain_letter s ≡ true
    → scan builder (pos 0) (s ++ rest) ≡ scan (builder ++ s) (pos 0) rest
unfolding scan
scan-plain builder [] rest h = rw append-nil
scan-plain builder (c ∷ s) rest h =
    ground (arith, scan-plain (builder ++ c ∷ []) s rest, append_assoc builder (c ∷ []) s)

scan-name : (a : Text) → is_name a ≡ true → scan [] (pos 0) a ≡ a ∷ []
unfolding scan
scan-name a h = ground (arith, ap (scan [] (pos 0)) (sym (append-nil a)), scan-plain [] a [])

scan-name_dot :
    (a rest : Text)
    → is_name a ≡ true
    → scan [] (pos 0) (a ++ b'.' ∷ rest) ≡ a ∷ scan [] (pos 0) rest
unfolding scan
scan-name_dot a rest h = ground (arith, scan-plain [] a (b'.' ∷ rest))

scan-join :
    (names : List Text)
    → all_pass is_name names ≡ true
    → scan [] (pos 0) (join (text ".") names) ≡ names
unfolding join
scan-join [] h = unfold scan in refl
scan-join (a ∷ []) h = scan-name a (ground arith)
scan-join (a ∷ b ∷ rest) h =
    ground (arith, scan-name_dot a (join (text ".") (b ∷ rest)), scan-join (b ∷ rest))

-- Splitting what was joined by dots gives the names back.
pub split_address-join :
    (names : List Text)
    → all_pass is_name names ≡ true
    → split_address (join (text ".") names) ≡ names
unfolding split_address
split_address-join names h = scan-join names h

scan-key :
    (builder key rest : Text) (n : ℕ)
    → all_pass key_letter key ≡ true
    → scan builder (pos (suc n)) (key ++ rest) ≡ scan builder (pos (suc n)) rest
unfolding scan
scan-key builder [] rest n h = refl
scan-key builder (c ∷ key) rest n h = ground (arith, scan-key builder key rest n)

scan-instance :
    (builder key rest : Text)
    → all_pass key_letter key ≡ true
    → scan builder (pos 0) (b'[' ∷ (key ++ b']' ∷ rest)) ≡ scan builder (pos 0) rest
unfolding scan
scan-instance builder key rest h = ground (arith, scan-key builder key (b']' ∷ rest) 0)

scan-prefix :
    (builder before x y : Text)
    → all_pass key_letter before ≡ true
    → ((b : Text) → scan b (pos 0) x ≡ scan b (pos 0) y)
    → scan builder (pos 0) (before ++ x) ≡ scan builder (pos 0) (before ++ y)
unfolding scan
scan-prefix builder [] x y h same = same builder
scan-prefix builder (c ∷ before) x y h same = ground (
  arith,
  λ (k : all_pass key_letter before ≡ true). scan-prefix [] before x y k same,
  λ (k : all_pass key_letter before ≡ true). scan-prefix (builder ++ c ∷ []) before x y k same,
)

-- What stands in brackets is not part of the segments, an instance key and a bracketed splat alike:
-- `app[0].x`, `app["a"].x` and `app[*].x` all split as `app.x`. The key may hold dots, and neither it
-- nor the text before it holds brackets.
pub split_address-instance :
    (before key rest : Text)
    → all_pass key_letter before ≡ true
    → all_pass key_letter key ≡ true
    → split_address (before ++ b'[' ∷ (key ++ b']' ∷ rest)) ≡ split_address (before ++ rest)
unfolding split_address
split_address-instance before key rest h k =
    scan-prefix [] before (b'[' ∷ (key ++ b']' ∷ rest)) rest h (λ b. scan-instance b key rest k)
