-- ===== src/Examples/Reruns.antt =====
-- A rerun of a concrete configuration.
use tf_mut.Prelude.{
  ℕ, ◌≡◌, refl, ap, true, false, Option, none, some, [], ◌∷◌, ◌++◌, arith, length-append,
}
use tf_mut.Text.{Text, text, text_eq}
use tf_mut.Dict.{get, put}
use tf_mut.Fingerprint.Quoting.{unquote, Quoting}
use tf_mut.Fingerprint.Mask.{mask_empty, Span}
use tf_mut.Fingerprint.Volatility.{
  payload_key, is_container, decompose, apply, by_key, derive, Payload,
}
use tf_mut.Fingerprint.Volatility.Rerun.{apply-derive}

-- Quotation marks around a string that needs no escapes.
abbrev pub without_last : Text → Text
without_last [] = []
without_last (c ∷ []) = []
without_last (c ∷ d ∷ s) = c ∷ without_last (d ∷ s)

pub without_last-append : (s : Text) (c : ℕ) → without_last (s ++ c ∷ []) ≡ s
without_last-append [] c = refl
without_last-append (x ∷ []) c = refl
without_last-append (x ∷ y ∷ s) c = ap (λ (t : Text). x ∷ t) (without_last-append (y ∷ s) c)

abbrev pub unquoted : Text → Option Text
unquoted [] = none
unquoted (c ∷ s) = some (without_last s)

abbrev pub plain_quoting : Quoting
plain_quoting = record {
  quote = λ s. b'"' ∷ (s ++ b'"' ∷ []);
  unquote_literal = unquoted;
  unquote-quote = λ s. ap some (without_last-append s b'"');
  quote_opens = λ s. (s ++ b'"' ∷ [], refl, omega (arith, length-append s (b'"' ∷ [])));
}

abbrev pub payload : Text → Payload
payload stamp = record {
  file = text "main.tftest.hcl";
  run = text "sizes";
  kind = text "plan";
  values = (text "a.stamp", stamp) ∷ (text "a.size", text "3") ∷ [];
  unknowns = [];
}

-- The stamp moved between the two runs.
apply-derive_example :
    let mask = derive plain_quoting (payload (text "1") ∷ []) (payload (text "2") ∷ []) in
    get (text "a.stamp") (apply plain_quoting mask (payload (text "1"))).0.values
    ≡ get (text "a.stamp") (apply plain_quoting mask (payload (text "2"))).0.values
unfolding apply derive by_key payload_key get put text_eq decompose is_container unquote mask_empty
apply-derive_example =
    apply-derive plain_quoting [] [] (payload (text "2") ∷ []) (payload (text "1"))
      (payload (text "2")) (text "a.stamp") refl (refl, (refl, tt)) (refl, (refl, tt)) refl refl

abbrev arn_span : Span
arn_span = record { prefix = text "arn:"; suffix = text ":db"; whole = false; from_syntax = true }
