-- ===== src/Expr/Syntax.antt =====
-- The values, expressions, tokens and errors of platform-services/janitor-bot/src/rules/expr.rs.
use inf_k8s.Prelude.{ℕ, String, Char, Bool}
use inf_k8s.Prelude.Int.{ℤ}
use inf_k8s.Prelude.Float.{F64}

pub data Value : Type 0 where
  bool : Bool → Value
  i64 : ℤ → Value
  f64 : F64 → Value
  string : String → Value

pub data CmpOp : Type 0 where
  eq ne lt le gt ge : CmpOp

pub data Expr : Type 0 where
  var : String → Expr
  lit : Value → Expr
  not : Expr → Expr
  and or : Expr → Expr → Expr
  cmp : Expr → CmpOp → Expr → Expr

pub data Token : Type 0 where
  lparen rparen and or not eq ne lt le gt ge true false : Token
  int : ℤ → Token
  float : F64 → Token
  str : String → Token
  ident : String → Token

-- One constructor for each message, with what the message shows. `out_of_fuel` is the model's.
pub data Error : Type 0 where
  expected_bool : Value → Error
  expected_and expected_or expected_eq unterminated_string : Error
  invalid_float invalid_integer : String → Error
  unexpected_character : Char → Error
  expected_rparen unexpected_end : Error
  unexpected_token : Token → Error
  unexpected_position : ℕ → Error
  cannot_compare_bools : CmpOp → Error
  cannot_compare : Value → Value → Error
  undefined_variable : String → Error
  out_of_fuel : Error
