-- ===== src/Discovery/Address/RoundTrip.antt =====
-- `ParseAddr` reads back what `Addr.String` renders.
use mathlib.Core.List.{append_assoc}
use tf_mut.Prelude.{
  ◌≡◌, refl, ap, ◌∙◌, Bool, true, false, List, [], ◌∷◌, ◌++◌, map, arith, all_pass, is_nil,
}
use tf_mut.Text.{Text, text, text_eq, join}
use tf_mut.Discovery.Address.{Addr, module_block, strip_modules, split_address, parse_addr, render}
use tf_mut.Discovery.Address.Split.{is_name, split_address-join}

-- The segments `module`, `<name>` of each module call.
abbrev calls : List Text → List Text
calls [] = []
calls (a ∷ rest) = module_block ∷ a ∷ calls rest

abbrev opens_module : List Text → Bool
opens_module (a ∷ b ∷ rest) = text_eq a module_block
opens_module _ = false

-- An address that the canonical grammar spells: every segment is a name, and the node does not
-- begin with a module call.
pub record IsCanonical (a : Addr) : Type 0 where
  pub path_names : all_pass is_name a.module_path ≡ true
  pub part_names : all_pass is_name a.parts ≡ true
  pub node_first : opens_module a.parts ≡ false

join-cons :
    (a b : Text) (rest : List Text)
    → join (text ".") ((a ++ (text "." ++ b)) ∷ rest) ≡ join (text ".") (a ∷ b ∷ rest)
unfolding join
join-cons a b [] = refl
join-cons a b (c ∷ rest) =
    ground (arith, append_assoc a (text "." ++ b) (b'.' ∷ join (text ".") (c ∷ rest)))

join-head :
    (a : Text) (xs ys : List Text)
    → join (text ".") xs ≡ join (text ".") ys
    → is_nil xs ≡ is_nil ys
    → join (text ".") (a ∷ xs) ≡ join (text ".") (a ∷ ys)
unfolding join
join-head a [] [] h k = refl
join-head a [] (y ∷ ys) h k = cc
join-head a (x ∷ xs) [] h k = cc
join-head a (x ∷ xs) (y ∷ ys) h k = cc

abbrev call_address : Text → Text
call_address name = module_block ++ (text "." ++ name)

is_nil-calls :
    (path parts : List Text)
    → is_nil (map call_address path ++ parts) ≡ is_nil (calls path ++ parts)
is_nil-calls [] parts = refl
is_nil-calls (a ∷ path) parts = refl

join-calls :
    (path parts : List Text)
    → join (text ".") (map call_address path ++ parts) ≡ join (text ".") (calls path ++ parts)
join-calls [] parts = refl
join-calls (a ∷ path) parts =
    join-head (call_address a) (map call_address path ++ parts) (calls path ++ parts)
      (join-calls path parts) (is_nil-calls path parts)
    ∙ join-cons module_block a (calls path ++ parts)

all_pass-calls :
    (path parts : List Text)
    → all_pass is_name path ≡ true
    → all_pass is_name parts ≡ true
    → all_pass is_name (calls path ++ parts) ≡ true
all_pass-calls [] parts h k = k
all_pass-calls (a ∷ path) parts h k = ground (arith, all_pass-calls path parts)

strip_modules-node :
    (parts : List Text)
    → opens_module parts ≡ false
    → strip_modules parts ≡ record { module_path = []; parts = parts }
unfolding strip_modules
strip_modules-node [] h = refl
strip_modules-node (a ∷ []) h = refl
strip_modules-node (a ∷ b ∷ rest) h = ground arith

strip_modules-calls :
    (path parts : List Text)
    → opens_module parts ≡ false
    → strip_modules (calls path ++ parts) ≡ record { module_path = path; parts = parts }
unfolding strip_modules text_eq
strip_modules-calls [] parts h = strip_modules-node parts h
strip_modules-calls (a ∷ path) parts h = ground (arith, strip_modules-calls path parts)

-- Parsing the rendering of a canonical address gives the address back, its module path and its
-- segments alike.
pub parse_addr-render : (a : Addr) → IsCanonical a → parse_addr (render a) ≡ a
unfolding parse_addr render
parse_addr-render a canonical =
    ap (λ (t : Text). strip_modules (split_address t)) (join-calls a.module_path a.parts)
    ∙ ap strip_modules (
        split_address-join (calls a.module_path ++ a.parts)
          (all_pass-calls a.module_path a.parts canonical.path_names canonical.part_names))
    ∙ strip_modules-calls a.module_path a.parts canonical.node_first
