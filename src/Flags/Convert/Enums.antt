-- ===== src/Flags/Convert/Enums.antt =====
-- The enumerations, to the wire and back:
-- crates/feature-flag/feature-flag-engine/src/convert/types.rs.
use inf_k8s.Prelude.{Result, ok, err}
use inf_k8s.Flags.Model.{ValueType, Operator, Reason}
use inf_k8s.Flags.Wire
use inf_k8s.Flags.Wire.{
  ProstValue, ProstItems, ProstFields, value_type_number, value_type_of, operator_number,
  operator_of,
}

-- One constructor for each message.
pub data ConversionError : Type 0 where
  value_type_unspecified operator_unspecified : ConversionError

unfoldable pub value_type_to_wire : ValueType → Wire.ValueType
value_type_to_wire ValueType.boolean = Wire.ValueType.boolean
value_type_to_wire ValueType.string = Wire.ValueType.string
value_type_to_wire ValueType.integer = Wire.ValueType.integer
value_type_to_wire ValueType.float = Wire.ValueType.float
value_type_to_wire ValueType.object = Wire.ValueType.object

unfoldable pub value_type_from_wire : Wire.ValueType → Result ConversionError ValueType
value_type_from_wire Wire.ValueType.unspecified = err ConversionError.value_type_unspecified
value_type_from_wire Wire.ValueType.boolean = ok ValueType.boolean
value_type_from_wire Wire.ValueType.string = ok ValueType.string
value_type_from_wire Wire.ValueType.integer = ok ValueType.integer
value_type_from_wire Wire.ValueType.float = ok ValueType.float
value_type_from_wire Wire.ValueType.object = ok ValueType.object

unfoldable pub reason_to_wire : Reason → Wire.Reason
reason_to_wire Reason.static = Wire.Reason.static
reason_to_wire Reason.default = Wire.Reason.default
reason_to_wire Reason.targeting_match = Wire.Reason.targeting_match
reason_to_wire Reason.split = Wire.Reason.split
reason_to_wire Reason.disabled = Wire.Reason.disabled
reason_to_wire Reason.error = Wire.Reason.error

unfoldable pub operator_to_wire : Operator → Wire.ConstraintOperator
operator_to_wire Operator.eq = Wire.ConstraintOperator.eq
operator_to_wire Operator.neq = Wire.ConstraintOperator.neq
operator_to_wire Operator.in_list = Wire.ConstraintOperator.in_list
operator_to_wire Operator.not_in = Wire.ConstraintOperator.not_in
operator_to_wire Operator.contains = Wire.ConstraintOperator.contains
operator_to_wire Operator.starts_with = Wire.ConstraintOperator.starts_with
operator_to_wire Operator.ends_with = Wire.ConstraintOperator.ends_with
operator_to_wire Operator.gt = Wire.ConstraintOperator.gt
operator_to_wire Operator.gte = Wire.ConstraintOperator.gte
operator_to_wire Operator.lt = Wire.ConstraintOperator.lt
operator_to_wire Operator.lte = Wire.ConstraintOperator.lte
operator_to_wire Operator.exists = Wire.ConstraintOperator.exists
operator_to_wire Operator.regex = Wire.ConstraintOperator.regex
operator_to_wire Operator.flag_matches = Wire.ConstraintOperator.flag_matches

unfoldable pub operator_from_wire : Wire.ConstraintOperator → Result ConversionError Operator
operator_from_wire Wire.ConstraintOperator.unspecified = err ConversionError.operator_unspecified
operator_from_wire Wire.ConstraintOperator.eq = ok Operator.eq
operator_from_wire Wire.ConstraintOperator.neq = ok Operator.neq
operator_from_wire Wire.ConstraintOperator.in_list = ok Operator.in_list
operator_from_wire Wire.ConstraintOperator.not_in = ok Operator.not_in
operator_from_wire Wire.ConstraintOperator.contains = ok Operator.contains
operator_from_wire Wire.ConstraintOperator.starts_with = ok Operator.starts_with
operator_from_wire Wire.ConstraintOperator.ends_with = ok Operator.ends_with
operator_from_wire Wire.ConstraintOperator.gt = ok Operator.gt
operator_from_wire Wire.ConstraintOperator.gte = ok Operator.gte
operator_from_wire Wire.ConstraintOperator.lt = ok Operator.lt
operator_from_wire Wire.ConstraintOperator.lte = ok Operator.lte
operator_from_wire Wire.ConstraintOperator.exists = ok Operator.exists
operator_from_wire Wire.ConstraintOperator.regex = ok Operator.regex
operator_from_wire Wire.ConstraintOperator.flag_matches = ok Operator.flag_matches
