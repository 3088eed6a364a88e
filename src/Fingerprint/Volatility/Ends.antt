-- ===== src/Fingerprint/Volatility/Ends.antt =====
-- What a span that keeps both ends of a value leaves of it.
use mathlib.Core.Path.{subst}
use mathlib.Core.List.{append_assoc}
use tf_mut.Prelude.{
  ℕ, ◌-◌, ◌≡◌, refl, ap, ◌∙◌, false, some, [], ◌∷◌, ◌++◌, arith, length, length-append,
}
use tf_mut.Text.Cutting.{has_prefix-append}
use tf_mut.Text.{Text}
use tf_mut.Fingerprint.Quoting.{unquote-quote_lem, Quoting}
use tf_mut.Fingerprint.Mask.{Span}
use tf_mut.Fingerprint.Volatility.{volatile_marker, from, span_apply}

from-append : (s t : Text) → from (length s) (s ++ t) ≡ t
from-append [] t = refl
from-append (c ∷ s) t = from-append s t

from_end : (s t : Text) → from (length (s ++ t) - length t) (s ++ t) ≡ t
from_end s t =
    let e : length (s ++ t) - length t ≡ length s = omega (arith, length-append s t) in
    ap (λ (n : ℕ). from n (s ++ t)) e ∙ from-append s t

from-suffix :
    (prefix middle suffix : Text)
    → from (length (prefix ++ (middle ++ suffix)) - length suffix) (prefix ++ (middle ++ suffix))
      ≡ suffix
from-suffix prefix middle suffix =
    subst (λ (x : Text). from (length x - length suffix) x ≡ suffix)
      (append_assoc prefix middle suffix) (from_end (prefix ++ middle) suffix)

-- A span that is not whole keeps its ends and forgets what stands between: the rendering of any string that
-- begins with the prefix and goes on to end with the suffix is masked to the same rendering.
pub span_apply-quote :
    (q : Quoting) (s : Span) (middle : Text)
    → s.whole ≡ false
    → span_apply q s (q.quote (s.prefix ++ (middle ++ s.suffix)))
      ≡ some (q.quote (s.prefix ++ (volatile_marker ++ s.suffix)))
unfolding span_apply
span_apply-quote q s middle h = ground (
  arith,
  h,
  unquote-quote_lem q (s.prefix ++ (middle ++ s.suffix)),
  has_prefix-append s.prefix (middle ++ s.suffix),
  from-suffix s.prefix middle s.suffix,
  length-append s.prefix (middle ++ s.suffix),
  length-append middle s.suffix,
)
