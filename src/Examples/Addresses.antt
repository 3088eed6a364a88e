-- ===== src/Examples/Addresses.antt =====
-- The canonical addresses of concrete texts.
use tf_mut.Prelude.{◌≡◌, refl, true, false, some, [], ◌∷◌}
use tf_mut.Prelude.Sorting
use tf_mut.Text.{Text, text, text_eq}
use tf_mut.Text.Order.{text_order}
use tf_mut.Discovery.Address.{wildcard, split_address, parse_addr, addr_contains, render, Addr}
use tf_mut.Discovery.Address.Split.{split_address-instance}
use tf_mut.Discovery.Address.RoundTrip.{parse_addr-render, IsCanonical}
use tf_mut.Discovery.Address.Containment.{addr_contains_iff, right_wild, equal, done, step}
use tf_mut.Fingerprint.Delta.{addresses, Change, Delta}
use tf_mut.Fingerprint.Delta.Addresses.{addresses_lem}

abbrev bucket : Addr
bucket = record { module_path = text "store" ∷ []; parts = text "aws_s3_bucket" ∷ text "logs" ∷ [] }

bucket-IsCanonical : IsCanonical bucket
unfolding text_eq
bucket-IsCanonical = record { path_names = refl; part_names = refl; node_first = refl }

parse_addr-render_example : parse_addr (render bucket) ≡ bucket
parse_addr-render_example = parse_addr-render bucket bucket-IsCanonical

split_address-instance_example :
    split_address (text "app[\"a.b\"].port") ≡ split_address (text "app.port")
split_address-instance_example =
    split_address-instance (text "app") (text "\"a.b\"") (text ".port") refl refl

addr_contains_iff_example :
    addr_contains bucket
      (record bucket { parts = text "aws_s3_bucket" ∷ wildcard ∷ text "acl" ∷ [] })
    ≡ true
addr_contains_iff_example =
    (addr_contains_iff bucket
        (record bucket { parts = text "aws_s3_bucket" ∷ wildcard ∷ text "acl" ∷ [] })).1
      (refl, step (equal refl) (step (right_wild refl) done))

abbrev change_of : Text → Change
change_of address = record {
  run = text "sizes";
  path = address;
  address = address;
  baseline = text "1";
  mutant = text "2";
  baseline_volatile = false;
  sensitive = false;
}

-- Two changes at one address, one before it, and one without an address.
abbrev mixed : Delta
mixed = record {
  changes = some (
      change_of (text "b.x") ∷ change_of (text "a.x") ∷ change_of (text "b.x") ∷ change_of [] ∷ []);
  indeterminate = false;
  missing_runs = [];
}

addresses_lem_example : Sorting.IsSorted text_order (addresses mixed)
addresses_lem_example = (addresses_lem mixed).0
