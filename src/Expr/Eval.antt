-- ===== src/Expr/Eval.antt =====
-- Evaluation: `as_bool`, `flip`, `cmp_values`, `eval`, `referenced_vars` and `collect_vars` of
-- platform-services/janitor-bot/src/rules/expr.rs.
pub mod Vars
pub mod Typing
pub mod Laws
use Prim.Native.Nat.{Ordering}
use Prim.Native.String.{compare}
use inf_k8s.Prelude.{
  String, Bool, true, false, List, [], ◌∷◌, ◌++◌, Option, none, some, str_eq, not, bool_eq,
  if◌then◌else◌, Result, ok, err, ◌>>=◌,
}
use inf_k8s.Prelude.Assoc.{Assoc, lookup}
use inf_k8s.Prelude.Int.{ℤ, ltb_ℤ, leb_ℤ, eqb_ℤ}
use inf_k8s.Prelude.Float.{F64, f64_lt, f64_le, f64_eq, of_ℤ}
use inf_k8s.Expr.Syntax.{
  Value, CmpOp, Expr, Error, eq, ne, lt, le, gt, ge, expected_bool, cannot_compare_bools,
  cannot_compare, undefined_variable,
}

unfoldable pub as_bool : Value → Result Error Bool
as_bool (Value.bool b) = ok b
as_bool other = err (expected_bool other)

-- The order of Rust's `str`: by code points, which is the order of the UTF-8 bytes.
abbrev str_lt : String → String → Bool
str_lt a b = elim (compare a b) [ Ordering.lt ↦ true | _ ↦ false ]

abbrev str_le : String → String → Bool
str_le a b = elim (compare a b) [ Ordering.gt ↦ false | _ ↦ true ]

unfoldable pub cmp_i64 : ℤ → CmpOp → ℤ → Bool
cmp_i64 a eq b = eqb_ℤ a b
cmp_i64 a ne b = not (eqb_ℤ a b)
cmp_i64 a lt b = ltb_ℤ a b
cmp_i64 a le b = leb_ℤ a b
cmp_i64 a gt b = ltb_ℤ b a
cmp_i64 a ge b = leb_ℤ b a

unfoldable pub cmp_f64 : F64 → CmpOp → F64 → Bool
cmp_f64 a eq b = f64_eq a b
cmp_f64 a ne b = not (f64_eq a b)
cmp_f64 a lt b = f64_lt a b
cmp_f64 a le b = f64_le a b
cmp_f64 a gt b = f64_lt b a
cmp_f64 a ge b = f64_le b a

unfoldable pub cmp_string : String → CmpOp → String → Bool
cmp_string a eq b = str_eq a b
cmp_string a ne b = not (str_eq a b)
cmp_string a lt b = str_lt a b
cmp_string a le b = str_le a b
cmp_string a gt b = str_lt b a
cmp_string a ge b = str_le b a

unfoldable pub cmp_bool : Bool → CmpOp → Bool → Result Error Bool
cmp_bool a eq b = ok (bool_eq a b)
cmp_bool a ne b = ok (not (bool_eq a b))
cmp_bool a op b = err (cannot_compare_bools op)

unfoldable pub flip : CmpOp → CmpOp
flip eq = eq
flip ne = ne
flip lt = gt
flip le = ge
flip gt = lt
flip ge = le

-- The recursive call of the case `F64, I64` is one of the case `I64, F64`, written out.
unfoldable pub cmp_values : Value → CmpOp → Value → Result Error Bool
unfolding cmp_i64 cmp_f64 cmp_string cmp_bool flip
cmp_values (Value.i64 a) op (Value.i64 b) = ok (cmp_i64 a op b)
cmp_values (Value.f64 a) op (Value.f64 b) = ok (cmp_f64 a op b)
cmp_values (Value.i64 a) op (Value.f64 b) = ok (cmp_f64 (of_ℤ a) op b)
cmp_values (Value.f64 a) op (Value.i64 b) = ok (cmp_f64 (of_ℤ b) (flip op) a)
cmp_values (Value.string a) op (Value.string b) = ok (cmp_string a op b)
cmp_values (Value.bool a) op (Value.bool b) = cmp_bool a op b
cmp_values lhs op rhs = err (cannot_compare lhs rhs)

unfoldable pub or_undefined : String → Option Value → Result Error Value
or_undefined name none = err (undefined_variable name)
or_undefined name (some v) = ok v

unfoldable pub eval : Expr → Assoc Value → Result Error Value
unfolding or_undefined as_bool
eval (Expr.lit v) vars = ok v
eval (Expr.var name) vars = or_undefined name (lookup name vars)
eval (Expr.not e) vars = do v ← eval e vars; b ← as_bool v; ok (Value.bool (not b))
eval (Expr.and a b) vars = do
  v ← eval a vars
  lhs ← as_bool v
  if lhs then (do w ← eval b vars; rhs ← as_bool w; ok (Value.bool rhs)) else ok (Value.bool false)
eval (Expr.or a b) vars = do
  v ← eval a vars
  lhs ← as_bool v
  if lhs then ok (Value.bool true) else (do w ← eval b vars; rhs ← as_bool w; ok (Value.bool rhs))
eval (Expr.cmp lhs op rhs) vars = do
  l ← eval lhs vars
  r ← eval rhs vars
  b ← cmp_values l op r
  ok (Value.bool b)

unfoldable pub collect_vars : Expr → List String → List String
collect_vars (Expr.var name) vars = vars ++ name ∷ []
collect_vars (Expr.lit v) vars = vars
collect_vars (Expr.not e) vars = collect_vars e vars
collect_vars (Expr.and a b) vars = collect_vars b (collect_vars a vars)
collect_vars (Expr.or a b) vars = collect_vars b (collect_vars a vars)
collect_vars (Expr.cmp a op b) vars = collect_vars b (collect_vars a vars)

unfoldable pub referenced_vars : Expr → List String
unfolding collect_vars
referenced_vars e = collect_vars e []
