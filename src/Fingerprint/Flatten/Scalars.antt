-- ===== src/Fingerprint/Flatten/Scalars.antt =====
-- internal/fingerprint/payload.go: the renderings of leaves and of empty containers.
use tf_mut.Prelude.{
  ◌≡◌, sym, ap, ◌∙◌, Bool, true, false, ◌&&◌, ◌||◌, Option, none, some, [], ◌∷◌, arith, leb, ◌==◌,
  if◌then◌else◌,
}
use tf_mut.Text.{Text, text, text_eq_refl}
use tf_mut.Dict.{Dict, get, put, get-put}
use tf_mut.Fingerprint.Quoting.{Quoting}
use tf_mut.Fingerprint.Flatten.{
  null, boolean, array, object, none_left, no_more, empty_object, empty_array, null_leaf, scalar,
  flatten, Json, string, number,
}

-- What a number starts with.
abbrev opens_number : Text → Bool
opens_number [] = false
opens_number (c ∷ rest) = c == b'-' || (leb b'0' c && leb c b'9')

-- A value that is rendered as one scalar: a leaf or an empty container.
pub data IsScalar : Json → Type 0 where
  null_scalar : IsScalar null
  string_scalar : (s : Text) → IsScalar (string s)
  number_scalar : (n : Text) → opens_number n ≡ true → IsScalar (number n)
  boolean_scalar : (b : Bool) → IsScalar (boolean b)
  array_scalar : IsScalar (array none_left)
  object_scalar : IsScalar (object no_more)

abbrev string_of : Option Text → Option Json
string_of none = none
string_of (some s) = some (string s)

-- A reader of renderings, by their first letter.
read : Quoting → Text → Option Json
read q [] = none
read q (c ∷ rest) =
    if c == b'"'
    then string_of (q.unquote_literal (c ∷ rest))
    else if c == b'n'
    then some null
    else if c == b't'
    then some (boolean true)
    else if c == b'f'
    then some (boolean false)
    else if c == b'{'
    then some (object no_more)
    else if c == b'['
    then some (array none_left)
    else some (number (c ∷ rest))

-- What `flatten` records of a value at its path.
abbrev recorded : Quoting → Text → Json → Dict Text → Option Text
recorded q path v into = get path (flatten q path v into)

abbrev read_recorded : Quoting → Option Text → Option Json
read_recorded q none = none
read_recorded q (some rendering) = read q rendering

recorded_put :
    (path rendering : Text) (into : Dict Text) → get path (put path rendering into) ≡ some rendering
recorded_put path rendering into =
    ground (arith, get-put path path rendering into, text_eq_refl path)

read-put :
    (q : Quoting) (path rendering : Text) (into : Dict Text)
    → read_recorded q (get path (put path rendering into)) ≡ read q rendering
read-put q path rendering into = ap (read_recorded q) (recorded_put path rendering into)

read-quote : (q : Quoting) (s : Text) → read q (q.quote s) ≡ some (string s)
unfolding read
read-quote q s =
    let (rest, opens, long) = q.quote_opens s in ground (arith, opens, q.unquote-quote s)

read-number : (q : Quoting) (n : Text) → opens_number n ≡ true → read q n ≡ some (number n)
unfolding read
read-number q [] e = ground (arith, e)
read-number q (c ∷ rest) e = ground (arith, e)

read-flatten :
    (q : Quoting) (path : Text) (into : Dict Text) (v : Json)
    → IsScalar v
    → read_recorded q (recorded q path v into) ≡ some v
unfolding read scalar flatten
read-flatten q path into _ null_scalar = read-put q path (scalar q null_leaf) into
read-flatten q path into _ (string_scalar s) = read-put q path (q.quote s) into ∙ read-quote q s
read-flatten q path into _ (number_scalar n e) = read-put q path n into ∙ read-number q n e
read-flatten q path into _ (boolean_scalar true) = read-put q path (text "true") into
read-flatten q path into _ (boolean_scalar false) = read-put q path (text "false") into
read-flatten q path into _ array_scalar = read-put q path empty_array into
read-flatten q path into _ object_scalar = read-put q path empty_object into

-- For any quoting: two values, each a leaf or an empty container, with numbers that open with a digit or a minus sign, are equal when `flatten` records the same rendering for them at a path, whatever was recorded before.
pub scalar_injective :
    (q : Quoting) (path : Text) (into other : Dict Text) (v w : Json)
    → IsScalar v
    → IsScalar w
    → get path (flatten q path v into) ≡ get path (flatten q path w other)
    → v ≡ w
scalar_injective q path into other v w h k e =
    let same : some v ≡ some w =
      sym (read-flatten q path into v h) ∙ ap (read_recorded q) e ∙ read-flatten q path other w k in
    ground (arith, same)
