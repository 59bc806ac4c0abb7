-- ===== src/Expr/Parse/Sound.antt =====
-- Whatever the parser reads, the grammar derives; with the completeness, the parser is the grammar
-- (platform-services/janitor-bot/src/rules/expr.rs).
use inf_k8s.Prelude.{
  ℕ, zero, suc, ◌≡◌, ◌↔◌, ◌∙◌, refl, sym, ap, subst, true, false, List, [], ◌∷◌, ◌++◌, append_assoc,
  append-nil, Option, none, some, arith, length, ok, err, Result, ◌>>=◌,
}
use inf_k8s.Expr.Syntax.{Value, CmpOp, Expr, Token, Error}
use inf_k8s.Expr.Parse.{
  Parsed, cmp_op, advance, close, right_operand, parse_expr, parse_or, or_loop, parse_and, and_loop,
  parse_comparison, parse_unary, parse_atom, finish, parse_tokens,
}
use inf_k8s.Expr.Parse.Grammar.{
  op_token, IsOr, IsAnd, IsComparison, IsUnary, IsAtom, or_one, or_more, and_one, and_more, cmp_one,
  cmp_two, unary_not, unary_atom, atom_var, atom_lit, atom_paren,
}
use inf_k8s.Expr.Parse.Complete.{parse_tokens-derived}

-- A result is derived from the tokens before those that it leaves.
data Derives (P : List Token → Expr → Type 0) (ts : List Token) : Parsed → Type 0 where
  derived :
      {e : Expr} {rest : List Token} (pre : List Token)
      → P pre e
      → ts ≡ pre ++ rest
      → Derives P ts (ok (e, rest))
  refused : {e : Error} → Derives P ts (err e)

module _ {P Q : List Token → Expr → Type 0} {ts us : List Token} where
  Derives-bind :
      {x : Parsed}
      → Derives P ts x
      → (k : Expr × List Token → Parsed)
      → ((pre : List Token) (e : Expr) (rest : List Token)
          → P pre e
          → ts ≡ pre ++ rest
          → Derives Q us (k (e, rest)))
      → Derives Q us (x >>= k)
  Derives-bind (derived {e} {rest} pre d p) k next = next pre e rest d p
  Derives-bind refused k next = refused

close-Derives :
    (pre : List Token) (e : Expr) (rest ts : List Token)
    → IsOr pre e
    → ts ≡ pre ++ rest
    → Derives IsAtom (Token.lparen ∷ ts) (close e rest)
close-Derives pre e (Token.rparen ∷ rest) ts d p =
    derived (Token.lparen ∷ (pre ++ Token.rparen ∷ [])) (atom_paren d refl) (simp (p, append_assoc))
close-Derives pre e _ ts d p = refused

cmp_op-eq-some :
    (op : CmpOp) (ts : List Token) → cmp_op ts ≡ some op → ts ≡ op_token op ∷ advance ts
unfolding cmp_op
cmp_op-eq-some op ts h = ground arith

right_operand-Derives :
    (unary : List Token → Parsed) (pre : List Token) (left : Expr) (rest ts : List Token)
    (o : Option CmpOp)
    → IsUnary pre left
    → ts ≡ pre ++ rest
    → cmp_op rest ≡ o
    → Derives IsUnary (advance rest) (unary (advance rest))
    → Derives IsComparison ts (right_operand unary left rest o)
unfolding right_operand
right_operand-Derives unary pre left rest ts none d p q k = derived pre (cmp_one d) p
right_operand-Derives unary pre left rest ts (some op) d p q k =
    Derives-bind k _ λ us right rest' g r. derived (pre ++ op_token op ∷ us) (cmp_two op d g refl) (
      p
      ∙ ap (λ l. pre ++ l) (cmp_op-eq-some op rest q ∙ ap (λ l. op_token op ∷ l) r)
      ∙ sym (append_assoc pre (op_token op ∷ us) rest'))

as-IsUnary : {ts : List Token} {x : Parsed} → Derives IsAtom ts x → Derives IsUnary ts x
as-IsUnary (derived pre d p) = derived pre (unary_atom d) p
as-IsUnary refused = refused

mutual
  unfolding parse_expr

  parse_expr-Derives : (f : ℕ) (ts : List Token) → Derives IsOr ts (parse_expr f ts)
  parse_expr-Derives zero ts = refused
  parse_expr-Derives (suc f) ts = parse_or-Derives f ts

  parse_or-Derives : (f : ℕ) (ts : List Token) → Derives IsOr ts (parse_or f ts)
  parse_or-Derives zero ts = refused
  parse_or-Derives (suc f) ts =
      Derives-bind (parse_and-Derives f ts) _
        λ pre left rest d p. or_loop-Derives f left rest pre (or_one d) p

  or_loop-Derives :
      (f : ℕ) (left : Expr) (rest : List Token) {ts : List Token} (pre : List Token)
      → IsOr pre left
      → ts ≡ pre ++ rest
      → Derives IsOr ts (or_loop f left rest)
  or_loop-Derives zero left rest pre d p = refused
  or_loop-Derives (suc f) left (Token.or ∷ rest) pre d p =
      Derives-bind (parse_and-Derives f rest) _ λ us right rest' g q.
        or_loop-Derives f (Expr.or left right) rest' (pre ++ Token.or ∷ us) (or_more d g refl)
          (p ∙ ap (λ l. pre ++ Token.or ∷ l) q ∙ sym (append_assoc pre (Token.or ∷ us) rest'))
  or_loop-Derives (suc f) left _ pre d p = derived pre d p

  parse_and-Derives : (f : ℕ) (ts : List Token) → Derives IsAnd ts (parse_and f ts)
  parse_and-Derives zero ts = refused
  parse_and-Derives (suc f) ts =
      Derives-bind (parse_comparison-Derives f ts) _
        λ pre left rest d p. and_loop-Derives f left rest pre (and_one d) p

  and_loop-Derives :
      (f : ℕ) (left : Expr) (rest : List Token) {ts : List Token} (pre : List Token)
      → IsAnd pre left
      → ts ≡ pre ++ rest
      → Derives IsAnd ts (and_loop f left rest)
  and_loop-Derives zero left rest pre d p = refused
  and_loop-Derives (suc f) left (Token.and ∷ rest) pre d p =
      Derives-bind (parse_comparison-Derives f rest) _ λ us right rest' g q.
        and_loop-Derives f (Expr.and left right) rest' (pre ++ Token.and ∷ us) (and_more d g refl)
          (p ∙ ap (λ l. pre ++ Token.and ∷ l) q ∙ sym (append_assoc pre (Token.and ∷ us) rest'))
  and_loop-Derives (suc f) left _ pre d p = derived pre d p

  parse_comparison-Derives :
      (f : ℕ) (ts : List Token) → Derives IsComparison ts (parse_comparison f ts)
  parse_comparison-Derives zero ts = refused
  parse_comparison-Derives (suc f) ts =
      Derives-bind (parse_unary-Derives f ts) _ λ pre left rest d p.
        right_operand-Derives (parse_unary f) pre left rest ts (cmp_op rest) d p refl
          (parse_unary-Derives f (advance rest))

  parse_unary-Derives : (f : ℕ) (ts : List Token) → Derives IsUnary ts (parse_unary f ts)
  parse_unary-Derives zero ts = refused
  parse_unary-Derives (suc f) (Token.not ∷ ts) =
      Derives-bind (parse_unary-Derives f ts) _
        λ pre e rest d p. derived (Token.not ∷ pre) (unary_not d) (ap (λ l. Token.not ∷ l) p)
  parse_unary-Derives (suc f) ts = as-IsUnary (parse_atom-Derives f ts)

  parse_atom-Derives : (f : ℕ) (ts : List Token) → Derives IsAtom ts (parse_atom f ts)
  parse_atom-Derives zero ts = refused
  parse_atom-Derives (suc f) [] = refused
  parse_atom-Derives (suc f) (Token.lparen ∷ ts) =
      Derives-bind (parse_expr-Derives f ts) _ λ pre e rest d p. close-Derives pre e rest ts d p
  parse_atom-Derives (suc f) (Token.true ∷ ts) = derived _ (atom_lit (Value.bool true) refl) refl
  parse_atom-Derives (suc f) (Token.false ∷ ts) = derived _ (atom_lit (Value.bool false) refl) refl
  parse_atom-Derives (suc f) (Token.int n ∷ ts) = derived _ (atom_lit (Value.i64 n) refl) refl
  parse_atom-Derives (suc f) (Token.float x ∷ ts) = derived _ (atom_lit (Value.f64 x) refl) refl
  parse_atom-Derives (suc f) (Token.str s ∷ ts) = derived _ (atom_lit (Value.string s) refl) refl
  parse_atom-Derives (suc f) (Token.ident name ∷ ts) = derived _ (atom_var name) refl
  parse_atom-Derives (suc f) (t ∷ ts) = refused

data Whole (ts : List Token) : Result Error Expr → Type 0 where
  whole : {e : Expr} → IsOr ts e → Whole ts (ok e)
  none_read : {e : Error} → Whole ts (err e)

finish-Whole :
    (n : ℕ) (pre : List Token) (e : Expr) (rest ts : List Token)
    → IsOr pre e
    → ts ≡ pre ++ rest
    → Whole ts (finish n e rest)
unfolding finish
finish-Whole n pre e [] ts d p = whole (subst (λ l. IsOr l e) (sym (p ∙ append-nil pre)) d)
finish-Whole n pre e (t ∷ rest) ts d p = none_read

finished :
    (n : ℕ) (ts : List Token) {x : Parsed}
    → Derives IsOr ts x
    → Whole ts (x >>= λ (e, rest). finish n e rest)
finished n ts (derived {e} {rest} pre d p) = finish-Whole n pre e rest ts d p
finished n ts refused = none_read

from_Whole :
    {ts : List Token} {x : Result Error Expr} {e : Expr} → Whole ts x → x ≡ ok e → IsOr ts e
from_Whole {ts} (whole d) p = subst (IsOr ts) (cc) d
from_Whole none_read p = cc

-- On a list of tokens that is not empty, the parser returns an expression exactly when the grammar
-- derives it from the whole list.
pub parse_tokens-eq-ok_iff :
    (t : Token) (ts : List Token) (e : Expr) → (parse_tokens (t ∷ ts) ≡ ok e) ↔ IsOr (t ∷ ts) e
unfolding parse_tokens
parse_tokens-eq-ok_iff t ts e = (
  from_Whole (finished (length (t ∷ ts)) (t ∷ ts) (parse_expr-Derives _ (t ∷ ts))),
  parse_tokens-derived t ts,
)
