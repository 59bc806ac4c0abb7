-- ===== src/Expr/Parse.antt =====
-- `Parser` and `parse` of platform-services/janitor-bot/src/rules/expr.rs. The parser's state is the
-- list of the tokens from `pos` on. Each call takes a unit of fuel.
pub mod Progress
pub mod Grammar
pub mod Complete
pub mod Sound
pub mod Show
use inf_k8s.Prelude.{
  ℕ, zero, suc, ◌+◌, ◌-◌, ◌*◌, String, true, false, List, [], ◌∷◌, Option, none, some, length,
  Result, ok, err, ◌>>=◌,
}
use inf_k8s.Expr.Syntax.{
  Value, CmpOp, Expr, Token, Error, expected_rparen, unexpected_end, unexpected_token,
  unexpected_position, out_of_fuel,
}
use inf_k8s.Expr.Lex.{Std, tokenize}

abbrev pub Parsed : Type 0
Parsed = Result Error (Expr × List Token)

-- The operator of a comparison, if the next token is one.
unfoldable pub cmp_op : List Token → Option CmpOp
cmp_op (Token.eq ∷ _) = some CmpOp.eq
cmp_op (Token.ne ∷ _) = some CmpOp.ne
cmp_op (Token.lt ∷ _) = some CmpOp.lt
cmp_op (Token.le ∷ _) = some CmpOp.le
cmp_op (Token.gt ∷ _) = some CmpOp.gt
cmp_op (Token.ge ∷ _) = some CmpOp.ge
cmp_op _ = none

-- The input behind the next token.
abbrev pub advance : List Token → List Token
advance [] = []
advance (t ∷ ts) = ts

abbrev pub close : Expr → List Token → Parsed
close e (Token.rparen ∷ ts) = ok (e, ts)
close e _ = err expected_rparen

-- The second operand of a comparison, read by `unary`, if the next token is an operator.
unfoldable pub right_operand : (List Token → Parsed) → Expr → List Token → Option CmpOp → Parsed
right_operand unary left rest none = ok (left, rest)
right_operand unary left rest (some op) = do
  (right, rest') ← unary (advance rest)
  ok (Expr.cmp left op right, rest')

unfoldable mutual
  pub parse_expr : ℕ → List Token → Parsed
  parse_expr zero ts = err out_of_fuel
  parse_expr (suc f) ts = parse_or f ts

  pub parse_or : ℕ → List Token → Parsed
  parse_or zero ts = err out_of_fuel
  parse_or (suc f) ts = do (left, rest) ← parse_and f ts; or_loop f left rest

  pub or_loop : ℕ → Expr → List Token → Parsed
  or_loop zero left ts = err out_of_fuel
  or_loop (suc f) left (Token.or ∷ ts) = do
    (right, rest) ← parse_and f ts
    or_loop f (Expr.or left right) rest
  or_loop (suc f) left ts = ok (left, ts)

  pub parse_and : ℕ → List Token → Parsed
  parse_and zero ts = err out_of_fuel
  parse_and (suc f) ts = do (left, rest) ← parse_comparison f ts; and_loop f left rest

  pub and_loop : ℕ → Expr → List Token → Parsed
  and_loop zero left ts = err out_of_fuel
  and_loop (suc f) left (Token.and ∷ ts) = do
    (right, rest) ← parse_comparison f ts
    and_loop f (Expr.and left right) rest
  and_loop (suc f) left ts = ok (left, ts)

  pub parse_comparison : ℕ → List Token → Parsed
  parse_comparison zero ts = err out_of_fuel
  parse_comparison (suc f) ts = do
    (left, rest) ← parse_unary f ts
    right_operand (parse_unary f) left rest (cmp_op rest)

  pub parse_unary : ℕ → List Token → Parsed
  parse_unary zero ts = err out_of_fuel
  parse_unary (suc f) (Token.not ∷ ts) = do (e, rest) ← parse_unary f ts; ok (Expr.not e, rest)
  parse_unary (suc f) ts = parse_atom f ts

  pub parse_atom : ℕ → List Token → Parsed
  parse_atom zero ts = err out_of_fuel
  parse_atom (suc f) [] = err unexpected_end
  parse_atom (suc f) (Token.lparen ∷ ts) = do (e, rest) ← parse_expr f ts; close e rest
  parse_atom (suc f) (Token.true ∷ ts) = ok (Expr.lit (Value.bool true), ts)
  parse_atom (suc f) (Token.false ∷ ts) = ok (Expr.lit (Value.bool false), ts)
  parse_atom (suc f) (Token.int n ∷ ts) = ok (Expr.lit (Value.i64 n), ts)
  parse_atom (suc f) (Token.float x ∷ ts) = ok (Expr.lit (Value.f64 x), ts)
  parse_atom (suc f) (Token.str s ∷ ts) = ok (Expr.lit (Value.string s), ts)
  parse_atom (suc f) (Token.ident name ∷ ts) = ok (Expr.var name, ts)
  parse_atom (suc f) (t ∷ ts) = err (unexpected_token t)

-- All tokens must be used; `pos` is the number of those that were.
unfoldable pub finish : ℕ → Expr → List Token → Result Error Expr
finish n e [] = ok e
finish n e (t ∷ ts) = err (unexpected_position (n - length (t ∷ ts)))

-- Fuel that is enough for the given number of tokens.
abbrev pub fuel_for : ℕ → ℕ
fuel_for n = 16 * n + 16

unfoldable pub parse_tokens : List Token → Result Error Expr
unfolding finish
parse_tokens [] = ok (Expr.lit (Value.bool true))
parse_tokens (t ∷ ts) = do
  (e, rest) ← parse_expr (fuel_for (length (t ∷ ts))) (t ∷ ts)
  finish (length (t ∷ ts)) e rest

unfoldable pub parse : Std → String → Result Error Expr
unfolding parse_tokens
parse std input = do tokens ← tokenize std input; parse_tokens tokens
