-- ===== src/Flags/Validate/Evaluates.antt =====
-- A flag that the store accepts always evaluates to a value of its type
-- (platform-services/feature-flags/src/store/mod.rs, and the engine).
use inf_k8s.Prelude.{subst, ◌≡◌, refl, String, true, List, [], ◌∷◌, ◌++◌, some, ok, >>=-eq-ok}
use inf_k8s.Prelude.Assoc.{lookup}
use inf_k8s.Flags.Model.{variant, Flag, Snapshot, Segment, Resolution, EvalContext}
use inf_k8s.Flags.Engine.{Libraries, Resolved, evaluate}
use inf_k8s.Flags.Engine.Origin.{
  Resolves, from_variant, unknown, evaluate-Resolves, evaluate-FlagIsWellFormed,
}
use inf_k8s.Flags.Validate.{has_type, check_variants, validate_flag, validate_desired}
use inf_k8s.Flags.Validate.Variants.{found_typed}
use inf_k8s.Flags.Validate.Accepted.{checked_parts}

same_resolution : {N : Type 0} {a b : Resolution N} → ◌≡◌ {A = Resolved N} (ok a) (ok b) → a ≡ b
same_resolution e = cc

module _ {N : Type 0} (lib : Libraries N) where
  resolved_typed :
      (flag : Flag N) (res : Resolution N)
      → check_variants lib.numbers flag.value_type flag.variants ≡ ok tt
      → (r : Resolved N) → Resolves flag r
      → r ≡ ok res
      → has_type lib.numbers flag.value_type res.value ≡ true
  unfolding variant
  resolved_typed flag res h r (from_variant key reason v found same) e =
      subst (λ (x : Resolution N). has_type lib.numbers flag.value_type x.value ≡ true)
        (same_resolution e) (found_typed lib.numbers flag.value_type key flag.variants h found)
  resolved_typed flag res h r (unknown key missing) e = cc

  desired_accepted :
      (before : List (Flag N)) (flag : Flag N) (after : List (Flag N)) (segments : List (Segment N))
      → validate_desired lib.numbers (before ++ flag ∷ after) segments ≡ ok tt
      → validate_flag lib.numbers flag ≡ ok tt
  unfolding validate_desired
  desired_accepted [] flag after segments h =
      let (u, first, rest) = >>=-eq-ok (validate_flag lib.numbers flag) _ h in first
  desired_accepted (f ∷ before) flag after segments h =
      let (u, first, rest) = >>=-eq-ok (validate_flag lib.numbers f) _ h in
      desired_accepted before flag after segments rest

  -- A flag of a configuration that the store accepts evaluates in every snapshot that has it, for
  -- every context, without an error, and to a value of the flag's declared type.
  pub evaluate-validate_desired :
      (before : List (Flag N)) (flag : Flag N) (after : List (Flag N)) (segments : List (Segment N))
      → validate_desired lib.numbers (before ++ flag ∷ after) segments ≡ ok tt
      → (snapshot : Snapshot N) (key : String) (ctx : EvalContext N)
      → lookup key snapshot.flags ≡ some flag
      → (res : Resolution N) × (evaluate lib snapshot key ctx ≡ some (ok res))
        × (has_type lib.numbers flag.value_type res.value ≡ true)
  evaluate-validate_desired before flag after segments h snapshot key ctx found =
      let accepted = desired_accepted before flag after segments h in
      let (formed, full, typed) = checked_parts lib.numbers flag accepted in
      let (res, e) = evaluate-FlagIsWellFormed lib snapshot key ctx found formed in
      (
        res,
        e,
        resolved_typed flag res typed (ok res)
            (evaluate-Resolves lib snapshot key ctx found (ok res) e) refl,
      )
