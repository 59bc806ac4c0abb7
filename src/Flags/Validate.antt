-- ===== src/Flags/Validate.antt =====
-- What the store accepts: the validation in platform-services/feature-flags/src/store/mod.rs. The sum
-- of the weights is a `u32`, which wraps around in a release build.
pub mod Variants
pub mod Accepted
pub mod Evaluates
use inf_k8s.Prelude.{
  ℕ, suc, ◌+◌, ◌-◌, ◌%◌, ◌/◌, ◌^◌, ◌==◌, leb, ltb, String, Bool, true, false, not, List, [], ◌∷◌,
  map, Option, none, some, str_eq, if◌then◌else◌, any, all, is_empty, Result, ok, err, ◌>>=◌,
}
use inf_k8s.Prelude.Float.{F64, is_finite}
use inf_k8s.Flags.Json.{Json, Numbers, as_f64}
use inf_k8s.Flags.Model.{ValueType, Variant, Segment, Distribution, Rule, Flag}
use inf_k8s.Flags.Engine.{is_some_and}

-- `AppError::Invalid`, with one constructor for each message.
pub data Invalid : Type 0 where
  unknown_default : String → String → Invalid
  wrong_type : String → ValueType → Invalid
  unknown_variant : String → String → Invalid
  bad_split : ℕ → ℕ → Invalid

abbrev pub Checked : Type 0
Checked = Result {0, 0} Invalid Unit

-- `x.fract() == 0.0`: the bits of the fraction that stand behind the binary point are zero.
unfoldable pub is_whole : F64 → Bool
unfolding is_finite
is_whole x =
    let exponent = (x / 2 ^ 52) % 2 ^ 11 in
    if ltb exponent 1023
    then (x % 2 ^ 63) == 0
    else if leb 1075 exponent
    then is_finite x
    else (x % 2 ^ (1075 - exponent)) == 0

module _ {N : Type 0} (num : Numbers N) where
  unfoldable pub has_type : ValueType → Json N → Bool
  unfolding is_whole
  has_type ValueType.boolean (Json.bool b) = true
  has_type ValueType.string (Json.string s) = true
  has_type ValueType.integer value = is_some_and is_whole (as_f64 num value)
  has_type ValueType.float (Json.number n) = true
  has_type ValueType.object (Json.object o) = true
  has_type _ _ = false

  unfoldable pub check_variant_type : ValueType → Variant N → Checked
  unfolding has_type
  check_variant_type t v = if has_type t v.value then ok tt else err (Invalid.wrong_type v.key t)

  unfoldable pub check_variants : ValueType → List (Variant N) → Checked
  unfolding check_variant_type
  check_variants t [] = ok tt
  check_variants t (v ∷ vs) = do _ ← check_variant_type t v; check_variants t vs

-- `variants.contains(key)`
abbrev pub has_key : String → List String → Bool
has_key key variants = any (λ k. str_eq k key) variants

-- The loop over a rollout, which adds up the weights.
unfoldable pub sum_weights : String → List String → ℕ → List Distribution → Result Invalid ℕ
sum_weights flag_key variants total [] = ok total
sum_weights flag_key variants total (d ∷ ds) =
    let rest = sum_weights flag_key variants ((total + d.weight) % 2 ^ 32) ds in
    if has_key d.variant_key variants
    then rest
    else err (Invalid.unknown_variant d.variant_key flag_key)

unfoldable pub check_target : String → List String → Option String → Checked
check_target flag_key variants none = ok tt
check_target flag_key variants (some v) =
    if has_key v variants then ok tt else err (Invalid.unknown_variant v flag_key)

unfoldable pub check_total : ℕ → ℕ → Checked
check_total rank total = if total == 100 then ok tt else err (Invalid.bad_split rank total)

unfoldable pub check_split : String → List String → ℕ → List Distribution → Checked
unfolding sum_weights check_total
check_split flag_key variants rank ds =
    if is_empty ds
    then ok tt
    else (do total ← sum_weights flag_key variants 0 ds; check_total rank total)

module _ {N : Type 0} where
  -- The loop over the rules, from a rank on.
  unfoldable pub check_rules : String → List String → ℕ → List (Rule N) → Checked
  unfolding check_target check_split
  check_rules flag_key variants rank [] = ok tt
  check_rules flag_key variants rank (rule ∷ rules) = do
    _ ← check_target flag_key variants rule.variant_key
    _ ← check_split flag_key variants rank rule.distributions
    check_rules flag_key variants (suc rank) rules

  unfoldable pub validate_rules : String → List (Rule N) → List String → Checked
  unfolding check_rules
  validate_rules flag_key rules variants = check_rules flag_key variants 0 rules

module _ {N : Type 0} (num : Numbers N) where
  unfoldable pub check_default : Flag N → Checked
  check_default flag =
      if all (λ v. not (str_eq v.key flag.default_variant_key)) flag.variants
      then err (Invalid.unknown_default flag.key flag.default_variant_key)
      else ok tt

  -- The body of the loop over the flags.
  unfoldable pub validate_flag : Flag N → Checked
  unfolding check_default check_variants validate_rules
  validate_flag flag = do
    _ ← check_default flag
    _ ← check_variants num flag.value_type flag.variants
    validate_rules flag.key flag.rules (map (λ v. v.key) flag.variants)

  unfoldable pub validate_desired : List (Flag N) → List (Segment N) → Checked
  unfolding validate_flag
  validate_desired [] segments = ok tt
  validate_desired (flag ∷ flags) segments = do
    _ ← validate_flag flag
    validate_desired flags segments
