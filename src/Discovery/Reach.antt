-- ===== src/Discovery/Reach.antt =====
-- internal/discovery/closure.go: the closure's conclusion about one delta address.
use tf_mut.Prelude.{ℕ, Bool, ◌++◌}
use tf_mut.Text.{Text, text}

pub record Ref : Type 0 where
  pub address : Text
  pub precise : Bool
  pub construct : Text

pub record Assertion : Type 0 where
  pub ref : Ref
  pub file : Text
  pub run : Text
  pub line : ℕ

unfoldable pub location : Assertion → Text
location a = a.file ++ (text ":" ++ a.run)

pub record Reach : Type 0 where
  pub read : Bool
  pub defeated : Bool
  pub assertion : Assertion
  pub construct : Text
