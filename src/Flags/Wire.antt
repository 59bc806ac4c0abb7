-- ===== src/Flags/Wire.antt =====
-- The messages of crates/feature-flag/feature-flag-proto/proto/featureflag/v1, as the generated
-- structs. A field that holds an enumeration is its number on the wire.
use inf_k8s.Prelude.{none, ℕ, String, Bool, List, Option, ◌==◌, if◌then◌else◌}
use inf_k8s.Prelude.Int.{ℤ, pos, negsuc}
use inf_k8s.Prelude.Float.{F64}

-- `prost_types::Value` with its `kind`: `unset` where there is none.
mutual
  pub data ProstValue : Type 0 where
    unset : ProstValue
    null_value : ℤ → ProstValue
    bool_value : Bool → ProstValue
    number_value : F64 → ProstValue
    string_value : String → ProstValue
    list_value : ProstItems → ProstValue
    struct_value : ProstFields → ProstValue

  pub data ProstItems : Type 0 where
    nil : ProstItems
    cons : ProstValue → ProstItems → ProstItems

  pub data ProstFields : Type 0 where
    end : ProstFields
    field : String → ProstValue → ProstFields → ProstFields

pub data ValueType : Type 0 where
  unspecified boolean string integer float object : ValueType

pub data ConstraintOperator : Type 0 where
  unspecified eq neq in_list not_in contains starts_with ends_with : ConstraintOperator
  gt gte lt lte exists regex flag_matches : ConstraintOperator

pub data Reason : Type 0 where
  unspecified static default targeting_match split disabled error : Reason

abbrev pub value_type_number : ValueType → ℤ
value_type_number ValueType.unspecified = pos 0
value_type_number ValueType.boolean = pos 1
value_type_number ValueType.string = pos 2
value_type_number ValueType.integer = pos 3
value_type_number ValueType.float = pos 4
value_type_number ValueType.object = pos 5

-- The generated accessors: a number that is not in the enumeration reads as the first of it.
abbrev pub value_type_of : ℤ → ValueType
value_type_of (negsuc n) = ValueType.unspecified
value_type_of (pos n) =
    if n == 1
    then ValueType.boolean
    else if n == 2
    then ValueType.string
    else if n == 3
    then ValueType.integer
    else if n == 4
    then ValueType.float
    else if n == 5
    then ValueType.object
    else ValueType.unspecified

abbrev pub operator_number : ConstraintOperator → ℤ
operator_number ConstraintOperator.unspecified = pos 0
operator_number ConstraintOperator.eq = pos 1
operator_number ConstraintOperator.neq = pos 2
operator_number ConstraintOperator.in_list = pos 3
operator_number ConstraintOperator.not_in = pos 4
operator_number ConstraintOperator.contains = pos 5
operator_number ConstraintOperator.starts_with = pos 6
operator_number ConstraintOperator.ends_with = pos 7
operator_number ConstraintOperator.gt = pos 8
operator_number ConstraintOperator.gte = pos 9
operator_number ConstraintOperator.lt = pos 10
operator_number ConstraintOperator.lte = pos 11
operator_number ConstraintOperator.exists = pos 12
operator_number ConstraintOperator.regex = pos 13
operator_number ConstraintOperator.flag_matches = pos 14

abbrev pub operator_of : ℤ → ConstraintOperator
operator_of (negsuc n) = ConstraintOperator.unspecified
operator_of (pos n) =
    if n == 1
    then ConstraintOperator.eq
    else if n == 2
    then ConstraintOperator.neq
    else if n == 3
    then ConstraintOperator.in_list
    else if n == 4
    then ConstraintOperator.not_in
    else if n == 5
    then ConstraintOperator.contains
    else if n == 6
    then ConstraintOperator.starts_with
    else if n == 7
    then ConstraintOperator.ends_with
    else if n == 8
    then ConstraintOperator.gt
    else if n == 9
    then ConstraintOperator.gte
    else if n == 10
    then ConstraintOperator.lt
    else if n == 11
    then ConstraintOperator.lte
    else if n == 12
    then ConstraintOperator.exists
    else if n == 13
    then ConstraintOperator.regex
    else if n == 14
    then ConstraintOperator.flag_matches
    else ConstraintOperator.unspecified

abbrev pub reason_number : Reason → ℤ
reason_number Reason.unspecified = pos 0
reason_number Reason.static = pos 1
reason_number Reason.default = pos 2
reason_number Reason.targeting_match = pos 3
reason_number Reason.split = pos 4
reason_number Reason.disabled = pos 5
reason_number Reason.error = pos 6

-- `Reason::try_from(n).unwrap_or(Reason::Unspecified)`
abbrev pub reason_of : ℤ → Reason
reason_of (negsuc n) = Reason.unspecified
reason_of (pos n) =
    if n == 1
    then Reason.static
    else if n == 2
    then Reason.default
    else if n == 3
    then Reason.targeting_match
    else if n == 4
    then Reason.split
    else if n == 5
    then Reason.disabled
    else if n == 6
    then Reason.error
    else Reason.unspecified

pub record Variant : Type 0 where
  pub key : String
  pub value : Option ProstValue

pub record Constraint : Type 0 where
  pub attribute : String
  pub operator : ℤ
  pub values : List ProstValue

pub record Segment : Type 0 where
  pub key : String
  pub name : String
  pub constraints : List Constraint

pub record ConstraintGroup : Type 0 where
  pub constraints : List Constraint

pub record Distribution : Type 0 where
  pub variant_key : String
  pub weight : ℕ

pub record Rule : Type 0 where
  pub rank : ℕ
  pub segment_key : String
  pub variant_key : String
  pub distributions : List Distribution
  pub constraint_groups : List ConstraintGroup
  pub bucket_salt : String

pub record Flag : Type 0 where
  pub key : String
  pub value_type : ℤ
  pub enabled : Bool
  pub default_variant_key : String
  pub archived : Bool
  pub variants : List Variant
  pub rules : List Rule

pub record SnapshotResponse : Type 0 where
  pub version : ℤ
  pub flags : List Flag
  pub segments : List Segment

pub record EvaluationContext : Type 0 where
  pub targeting_key : String
  pub attributes : Option ProstFields

-- `EvaluationContext::default()`
abbrev pub empty_context : EvaluationContext
empty_context = record { targeting_key = ""; attributes = none }

pub record ResolveRequest : Type 0 where
  pub flag_key : String
  pub context : Option EvaluationContext

pub record ResolutionMeta : Type 0 where
  pub variant : String
  pub reason : ℤ
  pub error_code : String
  pub error_message : String

pub record EvaluatedFlag : Type 0 where
  pub flag_key : String
  pub value_type : ℤ
  pub value : Option ProstValue
  pub meta : Option ResolutionMeta
