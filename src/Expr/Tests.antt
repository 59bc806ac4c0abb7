-- ===== src/Expr/Tests.antt =====
-- Runs of the condition language, and its theorems at concrete inputs
-- (platform-services/janitor-bot/src/rules/expr.rs).
use inf_k8s.Prelude.{◌≡◌, ◌≢◌, ◌↔◌, refl, true, ◌||◌, [], ◌∷◌, none, All, ok, err}
use inf_k8s.Prelude.Assoc.{Assoc, lookup}
use inf_k8s.Prelude.Int.{pos, negsuc}
use inf_k8s.Prelude.Float.{of_ℤ, f64_lt, is_nan, is_finite, key}
use inf_k8s.Expr.Syntax.{
  Value, CmpOp, Expr, Token, Error, out_of_fuel, expected_rparen, expected_and,
}
use inf_k8s.Expr.Lex.{Std, tokenize, is_ascii_digit, is_ascii_letter}
use inf_k8s.Expr.Parse.{parse, parse_tokens, parse_expr, right_operand, cmp_op}
use inf_k8s.Expr.Parse.Progress.{parse-ne-out_of_fuel}
use inf_k8s.Expr.Parse.Grammar.{IsOr}
use inf_k8s.Expr.Parse.Sound.{parse_tokens-eq-ok_iff}
use inf_k8s.Expr.Parse.Show.{show, parse_tokens-show}
use inf_k8s.Expr.Eval.{eval, referenced_vars, cmp_values, flip}
use inf_k8s.Expr.Eval.Vars.{eval-referenced_vars}
use inf_k8s.Expr.Eval.Typing
use inf_k8s.Expr.Eval.Typing.{Kind, HasKind, Has, Good, eval-Good}
use inf_k8s.Expr.Eval.Laws.{cmp_values-flip, eval-not_and, eval-not_or}

-- Letters and digits of ASCII, and no floats.
abbrev ascii_std : Std
ascii_std = record {
  is_alphanumeric = λ c. is_ascii_digit c || is_ascii_letter c;
  parse_f64 = λ s. none;
  ascii = λ c h. refl;
}

abbrev var_a : Expr
var_a = Expr.var "a"

abbrev var_b : Expr
var_b = Expr.var "b"

abbrev var_c : Expr
var_c = Expr.var "c"

precedence : parse ascii_std "a || b && !c" ≡ ok (Expr.or var_a (Expr.and var_b (Expr.not var_c)))
unfolding parse tokenize parse_expr right_operand cmp_op is_ascii_letter
precedence = refl

to_the_left : parse ascii_std "a||b||c" ≡ ok (Expr.or (Expr.or var_a var_b) var_c)
unfolding parse tokenize parse_expr right_operand cmp_op is_ascii_letter
to_the_left = refl

empty_text : parse ascii_std "" ≡ ok (Expr.lit (Value.bool true))
unfolding parse tokenize is_ascii_letter
empty_text = refl

negative :
    parse ascii_std "x >= -12"
    ≡ ok (Expr.cmp (Expr.var "x") CmpOp.ge (Expr.lit (Value.i64 (negsuc 11))))
unfolding parse tokenize parse_expr right_operand cmp_op is_ascii_letter
negative = refl

quotes :
    parse ascii_std "s == 'it'"
    ≡ ok (Expr.cmp (Expr.var "s") CmpOp.eq (Expr.lit (Value.string "it")))
unfolding parse tokenize parse_expr right_operand cmp_op is_ascii_letter
quotes = refl

single_ampersand : parse ascii_std "a & b" ≡ err expected_and
unfolding parse tokenize is_ascii_letter
single_ampersand = refl

unclosed : parse ascii_std "(a && b" ≡ err expected_rparen
unfolding parse tokenize parse_expr right_operand cmp_op is_ascii_letter
unclosed = refl

too_large :
    tokenize ascii_std "9223372036854775808" ≡ err (Error.invalid_integer "9223372036854775808")
unfolding tokenize
too_large = refl

-- A comparison takes two operands, so a second operator is left over.
no_chain : parse ascii_std "a == b == c" ≡ err (Error.unexpected_position 3)
unfolding parse tokenize parse_expr right_operand cmp_op is_ascii_letter
no_chain = refl

abbrev env : Assoc Value
env = ("a", Value.bool true) ∷ ("x", Value.i64 (pos 5)) ∷ []

mixed : cmp_values (Value.f64 (of_ℤ (negsuc 1))) CmpOp.lt (Value.i64 (pos 5)) ≡ ok true
unfolding cmp_values of_ℤ f64_lt is_nan is_finite key
mixed = refl

parse-ne-out_of_fuel_example : parse ascii_std "((a" ≢ err out_of_fuel
parse-ne-out_of_fuel_example = parse-ne-out_of_fuel ascii_std "((a"

parse_tokens-eq-ok_iff_example :
    (parse_tokens (Token.ident "a" ∷ []) ≡ ok var_a) ↔ IsOr (Token.ident "a" ∷ []) var_a
parse_tokens-eq-ok_iff_example = parse_tokens-eq-ok_iff (Token.ident "a") [] var_a

parse_tokens-show_example :
    parse_tokens (show (Expr.and (Expr.or var_a var_b) (Expr.not (Expr.cmp var_a CmpOp.lt var_b))))
    ≡ ok (Expr.and (Expr.or var_a var_b) (Expr.not (Expr.cmp var_a CmpOp.lt var_b)))
parse_tokens-show_example =
    parse_tokens-show (Expr.and (Expr.or var_a var_b) (Expr.not (Expr.cmp var_a CmpOp.lt var_b)))

same_a :
    All
      (λ name. lookup name env ≡ lookup name (("a", Value.bool true) ∷ []))
      (referenced_vars var_a)
unfolding referenced_vars lookup
same_a = (refl, tt)

eval-referenced_vars_example : eval var_a env ≡ eval var_a (("a", Value.bool true) ∷ [])
eval-referenced_vars_example = eval-referenced_vars var_a env (("a", Value.bool true) ∷ []) same_a

Has-x : Has env "x" Kind.number
unfolding lookup
Has-x = record { value = Value.i64 (pos 5); found = refl; of_kind = refl }

abbrev below_ten : Expr
below_ten = Expr.cmp (Expr.var "x") CmpOp.lt (Expr.lit (Value.i64 (pos 10)))

below_ten_kind : HasKind env below_ten Kind.truth
below_ten_kind =
    Typing.cmp (Typing.var Has-x) (Typing.lit (Value.i64 (pos 10))) (Typing.numbers CmpOp.lt)

eval-Good_example : Good Kind.truth (eval below_ten env)
eval-Good_example = eval-Good env below_ten Kind.truth below_ten_kind

four_lt_five : cmp_values (Value.i64 (pos 4)) CmpOp.lt (Value.f64 (of_ℤ (pos 5))) ≡ ok true
unfolding cmp_values of_ℤ f64_lt is_nan is_finite key
four_lt_five = refl

cmp_values-flip_example :
    cmp_values (Value.f64 (of_ℤ (pos 5))) (flip CmpOp.lt) (Value.i64 (pos 4)) ≡ ok true
cmp_values-flip_example =
    cmp_values-flip (Value.i64 (pos 4)) CmpOp.lt (Value.f64 (of_ℤ (pos 5))) four_lt_five

eval-not_and_example :
    eval (Expr.not (Expr.and var_a below_ten)) env
    ≡ eval (Expr.or (Expr.not var_a) (Expr.not below_ten)) env
eval-not_and_example = eval-not_and var_a below_ten env

eval-not_or_example :
    eval (Expr.not (Expr.or var_a below_ten)) env
    ≡ eval (Expr.and (Expr.not var_a) (Expr.not below_ten)) env
eval-not_or_example = eval-not_or var_a below_ten env
