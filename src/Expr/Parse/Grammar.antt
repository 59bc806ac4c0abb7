-- ===== src/Expr/Parse/Grammar.antt =====
-- The grammar of the condition language, as derivations: `||` binds least, then `&&`, both to the
-- left; a comparison has two operands; `!` binds most
-- (platform-services/janitor-bot/src/rules/expr.rs).
use inf_k8s.Prelude.{
  ℕ, suc, ◌≤◌, ◌≡◌, ap, String, List, [], ◌∷◌, ◌++◌, arith, length, length-append, if◌then◌else◌,
}
use inf_k8s.Expr.Syntax.{Value, CmpOp, Expr, Token}

-- The token of a comparison operator.
abbrev pub op_token : CmpOp → Token
op_token CmpOp.eq = Token.eq
op_token CmpOp.ne = Token.ne
op_token CmpOp.lt = Token.lt
op_token CmpOp.le = Token.le
op_token CmpOp.gt = Token.gt
op_token CmpOp.ge = Token.ge

-- The token of a literal.
abbrev pub lit_token : Value → Token
lit_token (Value.bool b) = if b then Token.true else Token.false
lit_token (Value.i64 n) = Token.int n
lit_token (Value.f64 x) = Token.float x
lit_token (Value.string s) = Token.str s

mutual
  pub data IsOr : List Token → Expr → Type 0 where
    or_one : {ts : List Token} {e : Expr} → IsAnd ts e → IsOr ts e
    or_more :
        {ts us vs : List Token} {a b : Expr}
        → IsOr ts a
        → IsAnd us b
        → vs ≡ ts ++ Token.or ∷ us
        → IsOr vs (Expr.or a b)

  pub data IsAnd : List Token → Expr → Type 0 where
    and_one : {ts : List Token} {e : Expr} → IsComparison ts e → IsAnd ts e
    and_more :
        {ts us vs : List Token} {a b : Expr}
        → IsAnd ts a
        → IsComparison us b
        → vs ≡ ts ++ Token.and ∷ us
        → IsAnd vs (Expr.and a b)

  pub data IsComparison : List Token → Expr → Type 0 where
    cmp_one : {ts : List Token} {e : Expr} → IsUnary ts e → IsComparison ts e
    cmp_two :
        {ts us vs : List Token} {a b : Expr} (op : CmpOp)
        → IsUnary ts a
        → IsUnary us b
        → vs ≡ ts ++ op_token op ∷ us
        → IsComparison vs (Expr.cmp a op b)

  pub data IsUnary : List Token → Expr → Type 0 where
    unary_not : {ts : List Token} {e : Expr} → IsUnary ts e → IsUnary (Token.not ∷ ts) (Expr.not e)
    unary_atom : {ts : List Token} {e : Expr} → IsAtom ts e → IsUnary ts e

  pub data IsAtom : List Token → Expr → Type 0 where
    atom_var : (name : String) → IsAtom (Token.ident name ∷ []) (Expr.var name)
    atom_lit : {ts : List Token} (v : Value) → ts ≡ lit_token v ∷ [] → IsAtom ts (Expr.lit v)
    atom_paren :
        {ts us : List Token} {e : Expr}
        → IsOr ts e
        → us ≡ Token.lparen ∷ (ts ++ Token.rparen ∷ [])
        → IsAtom us e

-- How many operators the left spine of a derivation has.
unfoldable pub or_spine : {ts : List Token} {e : Expr} → IsOr ts e → ℕ
or_spine (or_one d) = 0
or_spine (or_more d g p) = suc (or_spine d)

unfoldable pub and_spine : {ts : List Token} {e : Expr} → IsAnd ts e → ℕ
and_spine (and_one d) = 0
and_spine (and_more d g p) = suc (and_spine d)

pub or_spine-le : {ts : List Token} {e : Expr} (d : IsOr ts e) → or_spine d ≤ length ts
unfolding or_spine
or_spine-le (or_one d) = omega arith
or_spine-le (or_more {ts} {us} d g p) =
    omega (arith, or_spine-le d, ap length p, length-append ts (Token.or ∷ us))

pub and_spine-le : {ts : List Token} {e : Expr} (d : IsAnd ts e) → and_spine d ≤ length ts
unfolding and_spine
and_spine-le (and_one d) = omega arith
and_spine-le (and_more {ts} {us} d g p) =
    omega (arith, and_spine-le d, ap length p, length-append ts (Token.and ∷ us))
