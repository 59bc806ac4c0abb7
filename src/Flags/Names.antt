-- ===== src/Flags/Names.antt =====
-- The texts that the store keeps for types and operators:
-- platform-services/feature-flags/src/store/types.rs.
use inf_k8s.Prelude.{◌≡◌, refl, String, if◌then◌else◌, str_eq, Result, ok, err}
use inf_k8s.Flags.Model.{ValueType, Operator}

-- `AppError::Invalid`, with the text that is not known.
pub data Unknown : Type 0 where
  value_type operator : String → Unknown

unfoldable pub value_type_to_str : ValueType → String
value_type_to_str ValueType.boolean = "boolean"
value_type_to_str ValueType.string = "string"
value_type_to_str ValueType.integer = "integer"
value_type_to_str ValueType.float = "float"
value_type_to_str ValueType.object = "object"

unfoldable pub value_type_from_str : String → Result Unknown ValueType
value_type_from_str s =
    if str_eq s "boolean"
    then ok ValueType.boolean
    else if str_eq s "string"
    then ok ValueType.string
    else if str_eq s "integer"
    then ok ValueType.integer
    else if str_eq s "float"
    then ok ValueType.float
    else if str_eq s "object"
    then ok ValueType.object
    else err (Unknown.value_type s)

unfoldable pub operator_to_str : Operator → String
operator_to_str Operator.eq = "eq"
operator_to_str Operator.neq = "neq"
operator_to_str Operator.in_list = "in"
operator_to_str Operator.not_in = "not_in"
operator_to_str Operator.contains = "contains"
operator_to_str Operator.starts_with = "starts_with"
operator_to_str Operator.ends_with = "ends_with"
operator_to_str Operator.gt = "gt"
operator_to_str Operator.gte = "gte"
operator_to_str Operator.lt = "lt"
operator_to_str Operator.lte = "lte"
operator_to_str Operator.exists = "exists"
operator_to_str Operator.regex = "regex"
operator_to_str Operator.flag_matches = "flag_matches"

unfoldable pub operator_from_str : String → Result Unknown Operator
operator_from_str s =
    if str_eq s "eq"
    then ok Operator.eq
    else if str_eq s "neq"
    then ok Operator.neq
    else if str_eq s "in"
    then ok Operator.in_list
    else if str_eq s "not_in"
    then ok Operator.not_in
    else if str_eq s "contains"
    then ok Operator.contains
    else if str_eq s "starts_with"
    then ok Operator.starts_with
    else if str_eq s "ends_with"
    then ok Operator.ends_with
    else if str_eq s "gt"
    then ok Operator.gt
    else if str_eq s "gte"
    then ok Operator.gte
    else if str_eq s "lt"
    then ok Operator.lt
    else if str_eq s "lte"
    then ok Operator.lte
    else if str_eq s "exists"
    then ok Operator.exists
    else if str_eq s "regex"
    then ok Operator.regex
    else if str_eq s "flag_matches"
    then ok Operator.flag_matches
    else err (Unknown.operator s)

-- Every type of values is read back from the text that the store keeps for it.
pub value_type_from_str-value_type_to_str :
    (t : ValueType) → value_type_from_str (value_type_to_str t) ≡ ok t
unfolding value_type_from_str value_type_to_str
value_type_from_str-value_type_to_str ValueType.boolean = refl
value_type_from_str-value_type_to_str ValueType.string = refl
value_type_from_str-value_type_to_str ValueType.integer = refl
value_type_from_str-value_type_to_str ValueType.float = refl
value_type_from_str-value_type_to_str ValueType.object = refl

-- Every operator is read back from the text that the store keeps for it.
pub operator_from_str-operator_to_str :
    (op : Operator) → operator_from_str (operator_to_str op) ≡ ok op
unfolding operator_from_str operator_to_str
operator_from_str-operator_to_str Operator.eq = refl
operator_from_str-operator_to_str Operator.neq = refl
operator_from_str-operator_to_str Operator.in_list = refl
operator_from_str-operator_to_str Operator.not_in = refl
operator_from_str-operator_to_str Operator.contains = refl
operator_from_str-operator_to_str Operator.starts_with = refl
operator_from_str-operator_to_str Operator.ends_with = refl
operator_from_str-operator_to_str Operator.gt = refl
operator_from_str-operator_to_str Operator.gte = refl
operator_from_str-operator_to_str Operator.lt = refl
operator_from_str-operator_to_str Operator.lte = refl
operator_from_str-operator_to_str Operator.exists = refl
operator_from_str-operator_to_str Operator.regex = refl
operator_from_str-operator_to_str Operator.flag_matches = refl
