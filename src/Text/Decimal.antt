-- ===== src/Text/Decimal.antt =====
-- `strconv.Itoa` and the verb `%d`, on numbers that are not negative.
use Prim.Native.Nat.{◌/◌, ◌%◌}
use tf_mut.Prelude.{ℕ, zero, suc, ◌+◌, ◌≡◌, refl, [], ◌∷◌, ltb, if◌then◌else◌}
use tf_mut.Text.{Text, text}

-- The digits of a number before `rest`; the fuel bounds the digits, and a number has fewer digits
-- than its successor.
digits : ℕ → ℕ → Text → Text
digits zero n rest = rest
digits (suc fuel) n rest =
    let longer = digits fuel (n / 10) ((b'0' + n % 10) ∷ rest) in
    if ltb n 10 then (b'0' + n) ∷ rest else longer

unfoldable pub itoa : ℕ → Text
unfolding digits
itoa n = digits (suc n) n []

itoa_two : itoa 120 ≡ text "120"
unfolding itoa
itoa_two = refl
