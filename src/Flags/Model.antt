-- ===== src/Flags/Model.antt =====
-- crates/feature-flag/feature-flag-engine/src/model.rs and engine/types.rs.
use Prim.Native.String.{◌++◌ as append}
use inf_k8s.Prelude.{ℕ, String, Bool, List, Option, find, str_eq}
use inf_k8s.Prelude.Assoc.{Assoc}
use inf_k8s.Prelude.Int.{ℤ}
use inf_k8s.Flags.Json.{Json}

pub data ValueType : Type 0 where
  boolean string integer float object : ValueType

pub data Operator : Type 0 where
  eq neq in_list not_in contains starts_with ends_with : Operator
  gt gte lt lte exists regex flag_matches : Operator

pub record Variant (N : Type 0) : Type 0 where
  pub key : String
  pub value : Json N

pub record Constraint (N : Type 0) : Type 0 where
  pub attribute : String
  pub operator : Operator
  pub values : List (Json N)

pub record Segment (N : Type 0) : Type 0 where
  pub key : String
  pub name : String
  pub constraints : List (Constraint N)

pub record ConstraintGroup (N : Type 0) : Type 0 where
  pub constraints : List (Constraint N)

pub record Distribution : Type 0 where
  pub variant_key : String
  pub weight : ℕ

pub record Rule (N : Type 0) : Type 0 where
  pub rank : ℕ
  pub segment_key : Option String
  pub variant_key : Option String
  pub distributions : List Distribution
  pub constraint_groups : List (ConstraintGroup N)
  pub bucket_salt : String

pub record Flag (N : Type 0) : Type 0 where
  pub key : String
  pub value_type : ValueType
  pub enabled : Bool
  pub default_variant_key : String
  pub archived : Bool
  pub variants : List (Variant N)
  pub rules : List (Rule N)

-- `Flag::variant`
unfoldable pub variant : {N : Type 0} → Flag N → String → Option (Variant N)
variant flag key = find (λ v. str_eq v.key key) flag.variants

pub record Snapshot (N : Type 0) : Type 0 where
  pub version : ℤ
  pub flags : Assoc (Flag N)
  pub segments : Assoc (Segment N)

pub data Reason : Type 0 where
  static default targeting_match split disabled error : Reason

pub data ErrorCode : Type 0 where
  flag_not_found parse_error general : ErrorCode

pub record Resolution (N : Type 0) : Type 0 where
  pub value : Json N
  pub variant : String
  pub reason : Reason

-- One constructor for each message, with what the message shows.
pub data EvalError : Type 0 where
  dependency_cycle missing_flag : String → EvalError
  unknown_variant : String → String → EvalError

-- The field `code` of an error.
unfoldable pub error_code : EvalError → ErrorCode
error_code (EvalError.dependency_cycle key) = ErrorCode.parse_error
error_code (EvalError.missing_flag key) = ErrorCode.flag_not_found
error_code (EvalError.unknown_variant key variant) = ErrorCode.parse_error

-- The field `message`.
unfoldable pub message : EvalError → String
message (EvalError.dependency_cycle key) =
    append "flag dependency cycle through flag `" (append key "`")
message (EvalError.missing_flag key) = append "flag `" (append key "` not found")
message (EvalError.unknown_variant key variant) =
    append "flag `" (append key (append "` references unknown variant `" (append variant "`")))

-- `ErrorCode::as_str`
unfoldable pub code_str : ErrorCode → String
code_str ErrorCode.flag_not_found = "FLAG_NOT_FOUND"
code_str ErrorCode.parse_error = "PARSE_ERROR"
code_str ErrorCode.general = "GENERAL"

pub record EvalContext (N : Type 0) : Type 0 where
  pub targeting_key : String
  pub attributes : Assoc (Json N)
