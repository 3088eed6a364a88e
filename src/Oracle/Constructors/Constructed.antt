-- ===== src/Oracle/Constructors/Constructed.antt =====
-- The outcomes that a constructor made: an outcome's fields are private to the package, so there are
-- no others.
use tf_mut.Prelude.{◌≡◌, false, List, Slice}
use tf_mut.Prelude.Int.{ℤ}
use tf_mut.Text.{Text}
use tf_mut.Mutation.Catalogue.{projects}
use tf_mut.Discovery.Reach.{Reach}
use tf_mut.Fingerprint.Delta.{Delta}
use tf_mut.Fingerprint.Mask.{Mask}
use tf_mut.Oracle.Outcome.{Diagnostic, Suppression, Outcome}
use tf_mut.Oracle.Constructors.{
  survived_indeterminate_unknowns, survived_indeterminate_volatility, survived_weak_assertion,
  survived_no_assertion, survived_unasserted, new_structurally_unassertable, new_unobservable,
  statically_unobservable, statically_unobservable_default, new_killed, new_killed_by_error,
  new_timed_out, new_invalid, new_no_coverage, new_ignored, new_pending, new_survived_phase_one,
}

-- The package calls `newStructurallyUnassertable` only for an operator that does not project.
pub data Constructed : Outcome → Type 0 where
  of_unknowns : (u : Slice Text) (m : Mask) → Constructed (survived_indeterminate_unknowns u m)
  of_volatility :
      (d : Delta) (m : Mask) (u : List Text) → Constructed (survived_indeterminate_volatility d m u)
  of_weak :
      (d : Delta) (m : Mask) (a : Text) (c : Reach) → Constructed (survived_weak_assertion d m a c)
  of_no_assertion : (d : Delta) (m : Mask) → Constructed (survived_no_assertion d m)
  of_unasserted :
      (d : Delta) (m : Mask) (a : Text) (c : Reach) → Constructed (survived_unasserted d m a c)
  of_unassertable : (o : Text) → projects o ≡ false → Constructed (new_structurally_unassertable o)
  of_unobservable : (m : Mask) → Constructed (new_unobservable m)
  of_empty_cone : Constructed statically_unobservable
  of_default : (v : Text) → Constructed (statically_unobservable_default v)
  of_killed : Constructed new_killed
  of_killed_by_error : (d : Slice Diagnostic) → Constructed (new_killed_by_error d)
  of_timed_out : (b : ℤ) → Constructed (new_timed_out b)
  of_invalid : (d : Slice Diagnostic) → Constructed (new_invalid d)
  of_no_coverage : (r : Text) → Constructed (new_no_coverage r)
  of_ignored : (s : Suppression) → Constructed (new_ignored s)
  of_pending : Constructed new_pending
  of_phase_one : Constructed new_survived_phase_one
