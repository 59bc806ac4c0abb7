-- ===== src/Flags/Equal.antt =====
-- `==` of the data model, as it is derived in crates/feature-flag/feature-flag-engine/src/model.rs.
use inf_k8s.Prelude.{
  ℕ, Bool, true, false, ◌&&◌, List, [], ◌∷◌, Option, none, some, ◌==◌, bool_eq, str_eq,
}
use inf_k8s.Flags.Json.{Numbers, json_eq}
use inf_k8s.Flags.Model.{
  ValueType, Operator, Variant, Constraint, Segment, ConstraintGroup, Distribution, Rule, Flag,
}

module _ {ℓ} {A : Type ℓ} (eq : A → A → Bool) where
  abbrev pub list_eq : List A → List A → Bool
  list_eq [] [] = true
  list_eq (x ∷ xs) (y ∷ ys) = eq x y && list_eq xs ys
  list_eq _ _ = false

  abbrev pub option_eq : Option A → Option A → Bool
  option_eq none none = true
  option_eq (some a) (some b) = eq a b
  option_eq _ _ = false

-- The positions of the variants in their declarations.
abbrev value_type_index : ValueType → ℕ
value_type_index ValueType.boolean = 0
value_type_index ValueType.string = 1
value_type_index ValueType.integer = 2
value_type_index ValueType.float = 3
value_type_index ValueType.object = 4

abbrev operator_index : Operator → ℕ
operator_index Operator.eq = 0
operator_index Operator.neq = 1
operator_index Operator.in_list = 2
operator_index Operator.not_in = 3
operator_index Operator.contains = 4
operator_index Operator.starts_with = 5
operator_index Operator.ends_with = 6
operator_index Operator.gt = 7
operator_index Operator.gte = 8
operator_index Operator.lt = 9
operator_index Operator.lte = 10
operator_index Operator.exists = 11
operator_index Operator.regex = 12
operator_index Operator.flag_matches = 13

unfoldable pub value_type_eq : ValueType → ValueType → Bool
value_type_eq a b = value_type_index a == value_type_index b

unfoldable pub operator_eq : Operator → Operator → Bool
operator_eq a b = operator_index a == operator_index b

unfoldable pub distribution_eq : Distribution → Distribution → Bool
distribution_eq a b = str_eq a.variant_key b.variant_key && a.weight == b.weight

module _ {N : Type 0} (num : Numbers N) where
  unfoldable pub variant_eq : Variant N → Variant N → Bool
  variant_eq a b = str_eq a.key b.key && json_eq num a.value b.value

  unfoldable pub constraint_eq : Constraint N → Constraint N → Bool
  unfolding operator_eq
  constraint_eq a b =
      str_eq a.attribute b.attribute
      && operator_eq a.operator b.operator
      && list_eq (json_eq num) a.values b.values

  unfoldable pub segment_eq : Segment N → Segment N → Bool
  unfolding constraint_eq
  segment_eq a b =
      str_eq a.key b.key
      && str_eq a.name b.name
      && list_eq constraint_eq a.constraints b.constraints

  unfoldable pub group_eq : ConstraintGroup N → ConstraintGroup N → Bool
  unfolding constraint_eq
  group_eq a b = list_eq constraint_eq a.constraints b.constraints

  unfoldable pub rule_eq : Rule N → Rule N → Bool
  unfolding distribution_eq group_eq
  rule_eq a b =
      a.rank == b.rank
      && option_eq str_eq a.segment_key b.segment_key
      && option_eq str_eq a.variant_key b.variant_key
      && list_eq distribution_eq a.distributions b.distributions
      && list_eq group_eq a.constraint_groups b.constraint_groups
      && str_eq a.bucket_salt b.bucket_salt

  unfoldable pub flag_eq : Flag N → Flag N → Bool
  unfolding value_type_eq variant_eq rule_eq
  flag_eq a b =
      str_eq a.key b.key
      && value_type_eq a.value_type b.value_type
      && bool_eq a.enabled b.enabled
      && str_eq a.default_variant_key b.default_variant_key
      && bool_eq a.archived b.archived
      && list_eq variant_eq a.variants b.variants
      && list_eq rule_eq a.rules b.rules
