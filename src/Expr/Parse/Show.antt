-- ===== src/Expr/Parse/Show.antt =====
-- Expressions written as tokens with no parentheses but those that the binding strengths call for,
-- and read back (platform-services/janitor-bot/src/rules/expr.rs).
use inf_k8s.Prelude.{ℕ, ◌≡◌, ◌<◌, refl, List, [], ◌∷◌, ◌++◌, leb, arith, if◌then◌else◌, ok, length}
use inf_k8s.Expr.Syntax.{Expr, Token}
use inf_k8s.Expr.Parse.{parse_tokens}
use inf_k8s.Expr.Parse.Grammar.{
  op_token, lit_token, IsOr, IsAnd, IsComparison, IsUnary, or_one, or_more, and_one, and_more,
  cmp_one, cmp_two, unary_not, unary_atom, atom_var, atom_lit, atom_paren,
}
use inf_k8s.Expr.Parse.Complete.{parse_tokens-derived}

-- How strongly an expression holds together.
abbrev pub strength : Expr → ℕ
strength (Expr.or a b) = 0
strength (Expr.and a b) = 1
strength (Expr.cmp a op b) = 2
strength (Expr.not e) = 3
strength (Expr.var name) = 4
strength (Expr.lit v) = 4

abbrev pub parens : List Token → List Token
parens ts = Token.lparen ∷ (ts ++ Token.rparen ∷ [])

-- The tokens of an expression; an operand that is weaker than its place stands in parentheses.
unfoldable pub show : Expr → List Token
show (Expr.or a b) = show a ++ Token.or ∷ (if leb 1 (strength b) then show b else parens (show b))
show (Expr.and a b) =
    (if leb 1 (strength a) then show a else parens (show a))
    ++ Token.and ∷ (if leb 2 (strength b) then show b else parens (show b))
show (Expr.cmp a op b) =
    (if leb 3 (strength a) then show a else parens (show a))
    ++ op_token op ∷ (if leb 3 (strength b) then show b else parens (show b))
show (Expr.not e) = Token.not ∷ (if leb 3 (strength e) then show e else parens (show e))
show (Expr.var name) = Token.ident name ∷ []
show (Expr.lit v) = lit_token v ∷ []

abbrev place : ℕ → Expr → List Token
place l e = if leb l (strength e) then show e else parens (show e)

-- The derivations of an expression at each place where it may stand.
record Placed (e : Expr) : Type 0 where
  at_or : IsOr (show e) e
  at_and : IsAnd (place 1 e) e
  at_comparison : IsComparison (place 2 e) e
  at_unary : IsUnary (place 3 e) e

from_unary : {ts : List Token} {e : Expr} → IsUnary ts e → IsAnd ts e
from_unary d = and_one (cmp_one d)

in_parens : {ts : List Token} {e : Expr} → IsOr ts e → IsUnary (parens ts) e
in_parens d = unary_atom (atom_paren d refl)

show-Placed : (e : Expr) → Placed e
unfolding show
show-Placed (Expr.or a b) =
    let d : IsOr (show (Expr.or a b)) (Expr.or a b) =
      or_more (show-Placed a).at_or (show-Placed b).at_and refl in
    record {
      at_or = d;
      at_and = from_unary (in_parens d);
      at_comparison = cmp_one (in_parens d);
      at_unary = in_parens d;
    }
show-Placed (Expr.and a b) =
    let d : IsAnd (show (Expr.and a b)) (Expr.and a b) =
      and_more (show-Placed a).at_and (show-Placed b).at_comparison refl in
    record {
      at_or = or_one d;
      at_and = d;
      at_comparison = cmp_one (in_parens (or_one d));
      at_unary = in_parens (or_one d);
    }
show-Placed (Expr.cmp a op b) =
    let d : IsComparison (show (Expr.cmp a op b)) (Expr.cmp a op b) =
      cmp_two op (show-Placed a).at_unary (show-Placed b).at_unary refl in
    record {
      at_or = or_one (and_one d);
      at_and = and_one d;
      at_comparison = d;
      at_unary = in_parens (or_one (and_one d));
    }
show-Placed (Expr.not e) =
    let d : IsUnary (show (Expr.not e)) (Expr.not e) = unary_not (show-Placed e).at_unary in
    record {
      at_or = or_one (from_unary d);
      at_and = from_unary d;
      at_comparison = cmp_one d;
      at_unary = d;
    }
show-Placed (Expr.var name) =
    let d : IsUnary (show (Expr.var name)) (Expr.var name) = unary_atom (atom_var name) in
    record {
      at_or = or_one (from_unary d);
      at_and = from_unary d;
      at_comparison = cmp_one d;
      at_unary = d;
    }
show-Placed (Expr.lit v) =
    let d : IsUnary (show (Expr.lit v)) (Expr.lit v) = unary_atom (atom_lit v refl) in
    record {
      at_or = or_one (from_unary d);
      at_and = from_unary d;
      at_comparison = cmp_one d;
      at_unary = d;
    }

parse_tokens_of : (ts : List Token) {e : Expr} → IsOr ts e → 0 < length ts → parse_tokens ts ≡ ok e
parse_tokens_of [] d h = absurd (omega arith)
parse_tokens_of (t ∷ ts) d h = parse_tokens-derived t ts d

append_pos : (ts : List Token) (t : Token) (us : List Token) → 0 < length (ts ++ t ∷ us)
append_pos [] t us = omega arith
append_pos (x ∷ ts) t us = omega arith

show-pos : (e : Expr) → 0 < length (show e)
unfolding show
show-pos (Expr.or a b) = append_pos (show a) _ _
show-pos (Expr.and a b) = append_pos (place 1 a) _ _
show-pos (Expr.cmp a op b) = append_pos (place 3 a) _ _
show-pos _ = omega arith

-- Every expression is read back from its tokens written with the fewest parentheses: `!` binds
-- most, then a comparison, then `&&`, then `||`, and the last two go to the left.
pub parse_tokens-show : (e : Expr) → parse_tokens (show e) ≡ ok e
parse_tokens-show e = parse_tokens_of (show e) (show-Placed e).at_or (show-pos e)
