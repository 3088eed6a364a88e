-- ===== src/Mutation/Catalogue/Types.antt =====
-- `Tier` and `Entry` of internal/mutation/catalogue.go. A tier is a Go string: `other` stands for
-- every string that is none of the four constants.
use Prim.Native.String.{String}
use tf_mut.Prelude.{ℕ, Bool, true, false, [], ◌&&◌, leb, ltb}
use tf_mut.Text.{Text, text}

pub data Tier : Type 0 where
  smoke standard deep pack : Tier
  other : Text → Tier

unfoldable pub rank : Tier → ℕ
rank smoke = 1
rank standard = 2
rank deep = 3
rank pack = 4
rank (other name) = 0

-- `Tier.Includes`.
unfoldable pub includes : Tier → Tier → Bool
unfolding rank
includes t other_tier = leb (rank other_tier) (rank t)

-- `Tier.Valid`.
unfoldable pub valid : Tier → Bool
unfolding rank
valid t = ltb 0 (rank t) && ltb (rank t) 4

pub record Entry : Type 0 where
  pub operator : Text
  pub tier : Tier
  pub description : Text
  pub killer : Text
  pub projects : Bool
  pub fix : Text

abbrev pub projecting : String → Tier → String → Text → Entry
projecting operator tier description killer = record {
  operator = text operator;
  tier = tier;
  description = text description;
  killer = killer;
  projects = true;
  fix = [];
}

abbrev pub unprojecting : String → Tier → String → Text → Text → Entry
unprojecting operator tier description killer fix = record {
  operator = text operator;
  tier = tier;
  description = text description;
  killer = killer;
  projects = false;
  fix = fix;
}
