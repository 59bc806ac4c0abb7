-- ===== src/Expr/Parse/Complete.antt =====
-- Whatever the grammar derives, the parser reads (platform-services/janitor-bot/src/rules/expr.rs).
use inf_k8s.Prelude.{
  ℕ, zero, suc, ◌+◌, ◌*◌, ◌-◌, ◌≤◌, ◌≡◌, refl, sym, ap, ◌∙◌, Bool, true, false, List, [], ◌∷◌, ◌++◌,
  append_assoc, append-nil, none, some, arith, length, length-append, ok, then_ok,
}
use inf_k8s.Expr.Syntax.{Value, CmpOp, Expr, Token}
use inf_k8s.Expr.Parse.{
  cmp_op, right_operand, parse_expr, parse_or, or_loop, parse_and, and_loop, parse_comparison,
  parse_unary, parse_atom, parse_tokens,
}
use inf_k8s.Expr.Parse.Grammar.{
  op_token, lit_token, IsOr, IsAnd, IsComparison, IsUnary, IsAtom, or_one, or_more, and_one,
  and_more, cmp_one, cmp_two, unary_not, unary_atom, atom_var, atom_lit, atom_paren, or_spine,
  and_spine, or_spine-le, and_spine-le,
}

abbrev starts_or : List Token → Bool
starts_or (Token.or ∷ ts) = true
starts_or _ = false

abbrev starts_and : List Token → Bool
starts_and (Token.and ∷ ts) = true
starts_and _ = false

-- What may follow an expression: no operator that would go on with it.
record Follows (rest : List Token) : Type 0 where
  no_cmp : cmp_op rest ≡ none
  no_and : starts_and rest ≡ false
  no_or : starts_or rest ≡ false

or_loop_stops :
    (f : ℕ) (e : Expr) (rest : List Token)
    → starts_or rest ≡ false
    → or_loop (suc f) e rest ≡ ok (e, rest)
unfolding parse_expr
or_loop_stops f e [] h = refl
or_loop_stops f e (Token.or ∷ ts) h = cc
or_loop_stops f e (t ∷ ts) h = refl

and_loop_stops :
    (f : ℕ) (e : Expr) (rest : List Token)
    → starts_and rest ≡ false
    → and_loop (suc f) e rest ≡ ok (e, rest)
unfolding parse_expr
and_loop_stops f e [] h = refl
and_loop_stops f e (Token.and ∷ ts) h = cc
and_loop_stops f e (t ∷ ts) h = refl

lit_reads :
    (f : ℕ) (v : Value) (rest : List Token)
    → parse_atom (suc f) (lit_token v ∷ rest) ≡ ok (Expr.lit v, rest)
unfolding parse_expr
lit_reads f (Value.bool true) rest = refl
lit_reads f (Value.bool false) rest = refl
lit_reads f (Value.i64 n) rest = refl
lit_reads f (Value.f64 x) rest = refl
lit_reads f (Value.string s) rest = refl

lit_is_atom :
    (f : ℕ) (v : Value) (rest : List Token)
    → parse_unary (suc f) (lit_token v ∷ rest) ≡ parse_atom f (lit_token v ∷ rest)
unfolding parse_expr
lit_is_atom f (Value.bool true) rest = refl
lit_is_atom f (Value.bool false) rest = refl
lit_is_atom f (Value.i64 n) rest = refl
lit_is_atom f (Value.f64 x) rest = refl
lit_is_atom f (Value.string s) rest = refl

unary-atom :
    (f : ℕ) {ts : List Token} {e : Expr} (rest : List Token)
    → IsAtom ts e
    → parse_unary (suc f) (ts ++ rest) ≡ parse_atom f (ts ++ rest)
unfolding parse_expr
unary-atom f rest (atom_var name) = refl
unary-atom f rest (atom_lit v p) = rw p (lit_is_atom f v rest)
unary-atom f rest (atom_paren d p) = rw p

op_reads : (op : CmpOp) (ts : List Token) → cmp_op (op_token op ∷ ts) ≡ some op
unfolding cmp_op
op_reads CmpOp.eq ts = refl
op_reads CmpOp.ne ts = refl
op_reads CmpOp.lt ts = refl
op_reads CmpOp.le ts = refl
op_reads CmpOp.gt ts = refl
op_reads CmpOp.ge ts = refl

or_follow :
    (ts : List Token) → (cmp_op (Token.or ∷ ts) ≡ none) × (starts_and (Token.or ∷ ts) ≡ false)
unfolding cmp_op
or_follow ts = (refl, refl)

and_follow : (ts : List Token) → cmp_op (Token.and ∷ ts) ≡ none
unfolding cmp_op
and_follow ts = refl

paren_follow : (ts : List Token) → Follows (Token.rparen ∷ ts)
unfolding cmp_op
paren_follow ts = record { no_cmp = refl; no_and = refl; no_or = refl }

end_follow : Follows []
unfolding cmp_op
end_follow = record { no_cmp = refl; no_and = refl; no_or = refl }

sub_suc : (f : ℕ) → suc f - 1 ≡ f
sub_suc f = omega arith

-- An atom in parentheses, once its expression is read.
paren :
    (f : ℕ) (ts rest : List Token) {e : Expr}
    → parse_or (f - 1) (ts ++ Token.rparen ∷ rest) ≡ ok (e, Token.rparen ∷ rest)
    → 1 ≤ f
    → parse_atom (suc f) (Token.lparen ∷ (ts ++ Token.rparen ∷ rest)) ≡ ok (e, rest)
unfolding parse_expr
paren zero ts rest h le = absurd (omega arith)
paren (suc f) ts rest h le = rw (rw sub_suc at h)

-- A comparison of one operand, and of two.
after_unary :
    (f : ℕ) (ts : List Token) {left : Expr} {rest : List Token}
    → parse_unary f ts ≡ ok (left, rest)
    → cmp_op rest ≡ none
    → parse_comparison (suc f) ts ≡ ok (left, rest)
unfolding parse_expr right_operand
after_unary f ts {left} {rest} h c = then_ok h _ ∙ ap (right_operand (parse_unary f) left rest) c

after_operator :
    (f : ℕ) (op : CmpOp) (ts us : List Token) {left right : Expr} {rest : List Token}
    → parse_unary f ts ≡ ok (left, op_token op ∷ us)
    → parse_unary f us ≡ ok (right, rest)
    → parse_comparison (suc f) ts ≡ ok (Expr.cmp left op right, rest)
unfolding parse_expr right_operand
after_operator f op ts us {left} h k =
    then_ok h _
    ∙ ap (right_operand (parse_unary f) left (op_token op ∷ us)) (op_reads op us)
    ∙ then_ok k _

-- `parse_and` on a derived text comes to the loop behind the last operand.
abbrev AndReads : {ts : List Token} {e : Expr} → IsAnd ts e → Type 0
AndReads {ts} {e} d =
    (f g : ℕ) (rest : List Token)
    → 16 * length ts + 4 ≤ g
    → g ≡ f + and_spine d
    → cmp_op rest ≡ none
    → parse_and (suc g) (ts ++ rest) ≡ and_loop f e rest

abbrev OrReads : {ts : List Token} {e : Expr} → IsOr ts e → Type 0
OrReads {ts} {e} d =
    (f g : ℕ) (rest : List Token)
    → 16 * length ts + 6 ≤ g
    → g ≡ f + or_spine d
    → cmp_op rest ≡ none
    → starts_and rest ≡ false
    → parse_or (suc g) (ts ++ rest) ≡ or_loop f e rest

and_whole :
    {ts : List Token} {e : Expr} (d : IsAnd ts e)
    → AndReads d
    → (g : ℕ) (rest : List Token) → 16 * length ts + 5 ≤ g
    → cmp_op rest ≡ none
    → starts_and rest ≡ false
    → parse_and g (ts ++ rest) ≡ ok (e, rest)
and_whole d reads zero rest le c a = absurd (omega arith)
and_whole {e = e} d reads (suc g) rest le c a =
    reads (suc (g - and_spine d - 1)) g rest (omega arith) (omega (arith, and_spine-le d)) c
    ∙ and_loop_stops _ e rest a

or_whole :
    {ts : List Token} {e : Expr} (d : IsOr ts e)
    → OrReads d
    → (g : ℕ) (rest : List Token) → 16 * length ts + 7 ≤ g
    → Follows rest
    → parse_or g (ts ++ rest) ≡ ok (e, rest)
or_whole d reads zero rest le h = absurd (omega arith)
or_whole {e = e} d reads (suc g) rest le h =
    reads (suc (g - or_spine d - 1)) g rest (omega arith) (omega (arith, or_spine-le d)) h.no_cmp
      h.no_and
    ∙ or_loop_stops _ e rest h.no_or

mutual
  unfolding parse_expr or_spine and_spine

  or-reads : {ts : List Token} {e : Expr} (d : IsOr ts e) → OrReads d
  or-reads (or_one {e} d) f g rest le p c a =
      rw (and_whole d (and-reads d) g rest (omega arith) c a)
        (ap (λ n. or_loop n e rest) (omega arith))
  or-reads (or_more {ts} {us} {vs} d k q) f g rest le p c a =
      let long = ap length q in
      rw (q, append_assoc)
        (or-reads d (suc f) g (Token.or ∷ (us ++ rest))
            (omega (arith, length-append ts (Token.or ∷ us))) (omega arith)
            (or_follow (us ++ rest)).0 (or_follow (us ++ rest)).1
          ∙ rw (
              and_whole k (and-reads k) f rest
                (omega (arith, length-append ts (Token.or ∷ us), or_spine-le d)) c a))

  and-reads : {ts : List Token} {e : Expr} (d : IsAnd ts e) → AndReads d
  and-reads (and_one {e} d) f g rest le p c =
      then_ok (comparison-reads d g rest (omega arith) c) _
      ∙ (ap (λ n. and_loop n e rest) (omega arith))
  and-reads (and_more {ts} {us} {vs} d k q) f g rest le p c =
      let long = ap length q in
      rw (q, append_assoc)
        (and-reads d (suc f) g (Token.and ∷ (us ++ rest))
            (omega (arith, length-append ts (Token.and ∷ us))) (omega arith)
            (and_follow (us ++ rest))
          ∙ rw (
              comparison-reads k f rest
                (omega (arith, length-append ts (Token.and ∷ us), and_spine-le d)) c))

  comparison-reads :
      {ts : List Token} {e : Expr}
      → IsComparison ts e
      → (f : ℕ) (rest : List Token) → 16 * length ts + 3 ≤ f
      → cmp_op rest ≡ none
      → parse_comparison f (ts ++ rest) ≡ ok (e, rest)
  comparison-reads d zero rest le c = absurd (omega arith)
  comparison-reads (cmp_one d) (suc f) rest le c =
      after_unary f _ (unary-reads d f rest (omega arith)) c
  comparison-reads (cmp_two {ts} {us} op d k q) (suc f) rest le c =
      let long = ap length q in
      let size = length-append ts (op_token op ∷ us) in
      rw (q, append_assoc)
        (after_operator f op _ (us ++ rest)
          (unary-reads d f (op_token op ∷ (us ++ rest)) (omega arith))
          (unary-reads k f rest (omega arith)))

  unary-reads :
      {ts : List Token} {e : Expr}
      → IsUnary ts e
      → (f : ℕ) (rest : List Token) → 16 * length ts + 2 ≤ f
      → parse_unary f (ts ++ rest) ≡ ok (e, rest)
  unary-reads d zero rest le = absurd (omega arith)
  unary-reads (unary_not d) (suc f) rest le = rw (unary-reads d f rest (omega arith))
  unary-reads (unary_atom d) (suc f) rest le =
      unary-atom f rest d ∙ atom-reads d f rest (omega arith)

  atom-reads :
      {ts : List Token} {e : Expr}
      → IsAtom ts e
      → (f : ℕ) (rest : List Token) → 16 * length ts + 1 ≤ f
      → parse_atom f (ts ++ rest) ≡ ok (e, rest)
  atom-reads d zero rest le = absurd (omega arith)
  atom-reads (atom_var name) (suc f) rest le = refl
  atom-reads (atom_lit v q) (suc f) rest le = rw q (lit_reads f v rest)
  atom-reads (atom_paren {ts} {us} d q) (suc f) rest le =
      let long = ap length q in
      rw (q, append_assoc)
        (paren f ts rest
          (or_whole d (or-reads d) (f - 1) (Token.rparen ∷ rest)
            (omega (arith, length-append ts (Token.rparen ∷ []))) (paren_follow rest))
          (omega arith))

expr-reads :
    {ts : List Token} {e : Expr} (d : IsOr ts e) (g : ℕ)
    → 16 * length ts + 8 ≤ g
    → parse_expr g ts ≡ ok (e, [])
unfolding parse_expr
expr-reads d zero le = absurd (omega arith)
expr-reads {ts} d (suc g) le =
    ap (parse_or g) (sym (append-nil ts)) ∙ or_whole d (or-reads d) g [] (omega arith) end_follow

-- The parser returns what the grammar derives from all the tokens.
pub parse_tokens-derived :
    (t : Token) (ts : List Token) {e : Expr} → IsOr (t ∷ ts) e → parse_tokens (t ∷ ts) ≡ ok e
unfolding parse_tokens
parse_tokens-derived t ts d = then_ok (expr-reads d _ (omega arith)) _
