-- ===== src/Discovery/Address/Containment.antt =====
-- `Addr.Contains`: what it decides, and how it behaves under extension.
use tf_mut.Prelude.{◌≡◌, refl, sym, ◌↔◌, true, List, [], ◌∷◌, ◌++◌, arith, length}
use tf_mut.Text.{Text, text_eq_iff}
use tf_mut.Discovery.Address.{
  Addr, wildcard, segment_matches, segments_match, same_path, addr_contains,
}

-- The two sides of a segment agree, or one of them is the wildcard.
pub data Agrees : Text → Text → Type 0 where
  left_wild : {a b : Text} → a ≡ wildcard → Agrees a b
  right_wild : {a b : Text} → b ≡ wildcard → Agrees a b
  equal : {a b : Text} → a ≡ b → Agrees a b

-- The first list names a prefix of the second, segment by segment.
pub data Covers : List Text → List Text → Type 0 where
  done : {bs : List Text} → Covers [] bs
  step : {a b : Text} {xs ys : List Text} → Agrees a b → Covers xs ys → Covers (a ∷ xs) (b ∷ ys)

Agrees-segment_matches : {a b : Text} → Agrees a b → segment_matches a b ≡ true
unfolding segment_matches
Agrees-segment_matches {a} {b} (left_wild e) = ground (arith, text_eq_iff a wildcard)
Agrees-segment_matches {a} {b} (right_wild e) = ground (arith, text_eq_iff b wildcard)
Agrees-segment_matches {a} {b} (equal e) = ground (arith, text_eq_iff a b)

segment_matches-Agrees : (a b : Text) → segment_matches a b ≡ true → Agrees a b
unfolding segment_matches
segment_matches-Agrees a b h = grind (
  arith,
  text_eq_iff a wildcard,
  text_eq_iff b wildcard,
  text_eq_iff a b,
  left_wild,
  right_wild,
  equal,
)

Covers-segments_match : {xs ys : List Text} → Covers xs ys → segments_match xs ys ≡ true
unfolding segments_match
Covers-segments_match done = refl
Covers-segments_match (step h c) = ground (arith, Agrees-segment_matches h, Covers-segments_match c)

segments_match-Covers : (xs ys : List Text) → segments_match xs ys ≡ true → Covers xs ys
unfolding segments_match
segments_match-Covers [] ys h = done
segments_match-Covers (x ∷ xs) [] h = absurd (cc)
segments_match-Covers (x ∷ xs) (y ∷ ys) h =
    step (segment_matches-Agrees x y (ground arith)) (segments_match-Covers xs ys (ground arith))

same_path_iff : (xs ys : List Text) → (same_path xs ys ≡ true) ↔ (xs ≡ ys)
unfolding same_path
same_path_iff [] [] = ground arith
same_path_iff [] (y ∷ ys) = ground arith
same_path_iff (x ∷ xs) [] = ground arith
same_path_iff (x ∷ xs) (y ∷ ys) = ground (arith, same_path_iff xs ys, text_eq_iff x y)

-- `Contains` decides the relation: it answers true exactly where the module paths are equal and the
-- segments of the first address agree with a prefix of those of the second, up to wildcards.
pub addr_contains_iff :
    (a b : Addr)
    → (addr_contains a b ≡ true) ↔ ((a.module_path ≡ b.module_path) × Covers a.parts b.parts)
unfolding addr_contains
addr_contains_iff a b = (
  λ h. (
    (same_path_iff a.module_path b.module_path).0 (ground arith),
    segments_match-Covers a.parts b.parts (ground arith),
  ),
  λ h. ground (arith, (same_path_iff a.module_path b.module_path).1 h.0, Covers-segments_match h.1),
)

Agrees-symm : {a b : Text} → Agrees a b → Agrees b a
Agrees-symm (left_wild e) = right_wild e
Agrees-symm (right_wild e) = left_wild e
Agrees-symm (equal e) = equal (sym e)

Covers-append : {xs ys : List Text} (more : List Text) → Covers xs ys → Covers xs (ys ++ more)
Covers-append more done = done
Covers-append more (step h c) = step h (Covers-append more c)

Covers-refl : (xs : List Text) → Covers xs xs
Covers-refl [] = done
Covers-refl (x ∷ xs) = step (equal refl) (Covers-refl xs)

Covers-symm : {xs ys : List Text} → Covers xs ys → length xs ≡ length ys → Covers ys xs
Covers-symm {ys = []} done e = done
Covers-symm {ys = y ∷ ys} done e = absurd (omega arith)
Covers-symm (step h c) e = step (Agrees-symm h) (Covers-symm c (omega arith))

abbrev pub extend : Addr → List Text → Addr
extend a more = record a { parts = a.parts ++ more }

-- An address contains itself and all its extensions, and what it contains it goes on containing
-- when that is extended.
pub addr_contains-extend :
    (a b : Addr) (more : List Text)
    → (addr_contains a (extend a more) ≡ true)
      × (addr_contains a b ≡ true → addr_contains a (extend b more) ≡ true)
addr_contains-extend a b more = (
  (addr_contains_iff a (extend a more)).1 (refl, Covers-append more (Covers-refl a.parts)),
  λ h.
      let (path, covered) = (addr_contains_iff a b).0 h in
      (addr_contains_iff a (extend b more)).1 (path, Covers-append more covered),
)
