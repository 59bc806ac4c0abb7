-- ===== src/Expr/Parse/Progress.antt =====
-- The parser consumes input at every call, so the fuel of `parse_tokens` suffices
-- (platform-services/janitor-bot/src/rules/expr.rs).
use inf_k8s.Prelude.{
  ℕ, zero, suc, ◌+◌, ◌*◌, ◌≤◌, ◌<◌, ◌≢◌, String, List, [], ◌∷◌, Option, none, some, arith, length,
  Result, ok, err, ◌>>=◌,
}
use inf_k8s.Expr.Syntax.{CmpOp, Expr, Token, Error, out_of_fuel}
use inf_k8s.Expr.Lex.{Std, tokenize}
use inf_k8s.Expr.Lex.Progress.{tokenize-ne-out_of_fuel}
use inf_k8s.Expr.Parse.{
  Parsed, cmp_op, advance, close, right_operand, parse_expr, parse_or, or_loop, parse_and, and_loop,
  parse_comparison, parse_unary, parse_atom, finish, parse_tokens, parse,
}

-- A result leaves fewer than `n` tokens, an error is one of the source's.
pub data Consumes (n : ℕ) : Parsed → Type 0 where
  leaves : {e : Expr} {rest : List Token} → length rest < n → Consumes n (ok (e, rest))
  wrong : {e : Error} → e ≢ out_of_fuel → Consumes n (err e)

Consumes-bind :
    {m n : ℕ} {x : Parsed}
    → Consumes m x
    → (k : Expr × List Token → Parsed)
    → ((e : Expr) (rest : List Token) → length rest < m → Consumes n (k (e, rest)))
    → Consumes n (x >>= k)
Consumes-bind (leaves {e} {rest} h) k next = next e rest h
Consumes-bind (wrong h) k next = wrong h

close-Consumes : (e : Expr) (ts : List Token) {n : ℕ} → length ts < n → Consumes n (close e ts)
close-Consumes e (Token.rparen ∷ ts) h = leaves (omega arith)
close-Consumes e _ h = wrong (ground arith)

length-advance : (ts : List Token) → length (advance ts) ≤ length ts
length-advance [] = omega arith
length-advance (t ∷ ts) = omega arith

-- The second operand of a comparison, if there is one.
right_operand-Consumes :
    (unary : List Token → Parsed) (left : Expr) (rest : List Token) (o : Option CmpOp) {n : ℕ}
    → length rest < n
    → Consumes (length (advance rest)) (unary (advance rest))
    → Consumes n (right_operand unary left rest o)
unfolding right_operand
right_operand-Consumes unary left rest none h c = leaves h
right_operand-Consumes unary left rest (some op) h c =
    Consumes-bind c _ λ right rest' lt. leaves (omega (arith, length-advance rest))

mutual
  unfolding parse_expr

  parse_expr-Consumes :
      (f : ℕ) (ts : List Token) → 8 * length ts + 8 ≤ f → Consumes (length ts) (parse_expr f ts)
  parse_expr-Consumes zero ts h = absurd (omega arith)
  parse_expr-Consumes (suc f) ts h = parse_or-Consumes f ts (omega arith)

  parse_or-Consumes :
      (f : ℕ) (ts : List Token) → 8 * length ts + 7 ≤ f → Consumes (length ts) (parse_or f ts)
  parse_or-Consumes zero ts h = absurd (omega arith)
  parse_or-Consumes (suc f) ts h =
      Consumes-bind (parse_and-Consumes f ts (omega arith)) _
        λ left rest le. or_loop-Consumes f left rest (omega arith) (omega arith)

  or_loop-Consumes :
      (f : ℕ) (left : Expr) (ts : List Token) {n : ℕ}
      → 8 * length ts + 6 ≤ f
      → length ts < n
      → Consumes n (or_loop f left ts)
  or_loop-Consumes zero left ts h le = absurd (omega arith)
  or_loop-Consumes (suc f) left (Token.or ∷ ts) h le =
      Consumes-bind (parse_and-Consumes f ts (omega arith)) _
        λ right rest lt. or_loop-Consumes f (Expr.or left right) rest (omega arith) (omega arith)
  or_loop-Consumes (suc f) left _ h le = leaves le

  parse_and-Consumes :
      (f : ℕ) (ts : List Token) → 8 * length ts + 5 ≤ f → Consumes (length ts) (parse_and f ts)
  parse_and-Consumes zero ts h = absurd (omega arith)
  parse_and-Consumes (suc f) ts h =
      Consumes-bind (parse_comparison-Consumes f ts (omega arith)) _
        λ left rest le. and_loop-Consumes f left rest (omega arith) (omega arith)

  and_loop-Consumes :
      (f : ℕ) (left : Expr) (ts : List Token) {n : ℕ}
      → 8 * length ts + 4 ≤ f
      → length ts < n
      → Consumes n (and_loop f left ts)
  and_loop-Consumes zero left ts h le = absurd (omega arith)
  and_loop-Consumes (suc f) left (Token.and ∷ ts) h le =
      Consumes-bind (parse_comparison-Consumes f ts (omega arith)) _
        λ right rest lt. and_loop-Consumes f (Expr.and left right) rest (omega arith) (omega arith)
  and_loop-Consumes (suc f) left _ h le = leaves le

  parse_comparison-Consumes :
      (f : ℕ) (ts : List Token)
      → 8 * length ts + 3 ≤ f
      → Consumes (length ts) (parse_comparison f ts)
  parse_comparison-Consumes zero ts h = absurd (omega arith)
  parse_comparison-Consumes (suc f) ts h =
      Consumes-bind (parse_unary-Consumes f ts (omega arith)) _ λ left rest le.
        right_operand-Consumes (parse_unary f) left rest (cmp_op rest) le
          (parse_unary-Consumes f (advance rest) (omega (arith, length-advance rest)))

  parse_unary-Consumes :
      (f : ℕ) (ts : List Token) → 8 * length ts + 2 ≤ f → Consumes (length ts) (parse_unary f ts)
  parse_unary-Consumes zero ts h = absurd (omega arith)
  parse_unary-Consumes (suc f) (Token.not ∷ ts) h =
      Consumes-bind (parse_unary-Consumes f ts (omega arith)) _ λ e rest le. leaves (omega arith)
  parse_unary-Consumes (suc f) ts h = parse_atom-Consumes f ts (omega arith)

  parse_atom-Consumes :
      (f : ℕ) (ts : List Token) → 8 * length ts + 1 ≤ f → Consumes (length ts) (parse_atom f ts)
  parse_atom-Consumes zero ts h = absurd (omega arith)
  parse_atom-Consumes (suc f) [] h = wrong (ground arith)
  parse_atom-Consumes (suc f) (Token.lparen ∷ ts) h =
      Consumes-bind (parse_expr-Consumes f ts (omega arith)) _
        λ e rest le. close-Consumes e rest (omega arith)
  parse_atom-Consumes (suc f) (Token.true ∷ ts) h = leaves (omega arith)
  parse_atom-Consumes (suc f) (Token.false ∷ ts) h = leaves (omega arith)
  parse_atom-Consumes (suc f) (Token.int n ∷ ts) h = leaves (omega arith)
  parse_atom-Consumes (suc f) (Token.float x ∷ ts) h = leaves (omega arith)
  parse_atom-Consumes (suc f) (Token.str s ∷ ts) h = leaves (omega arith)
  parse_atom-Consumes (suc f) (Token.ident name ∷ ts) h = leaves (omega arith)
  parse_atom-Consumes (suc f) (t ∷ ts) h = wrong (ground arith)

finish-ne-out_of_fuel : (n : ℕ) (e : Expr) (ts : List Token) → finish n e ts ≢ err out_of_fuel
unfolding finish
finish-ne-out_of_fuel n e [] = λ p. cc
finish-ne-out_of_fuel n e (t ∷ ts) = λ p. cc

finished :
    (n : ℕ) {m : ℕ} {x : Parsed}
    → Consumes m x
    → (x >>= λ (e, rest). finish n e rest) ≢ err out_of_fuel
finished n (leaves {e} {rest} lt) = finish-ne-out_of_fuel n e rest
finished n (wrong h) = λ p. h (ground arith)

-- The fuel of the parser is enough for every list of tokens.
pub parse_tokens-ne-out_of_fuel : (ts : List Token) → parse_tokens ts ≢ err out_of_fuel
unfolding parse_tokens
parse_tokens-ne-out_of_fuel [] = λ p. cc
parse_tokens-ne-out_of_fuel (t ∷ ts) = finished _ (parse_expr-Consumes _ (t ∷ ts) (omega arith))

-- `parse` ends on every text, with an expression or with one of the errors of the source.
pub parse-ne-out_of_fuel : (std : Std) (input : String) → parse std input ≢ err out_of_fuel
unfolding parse
parse-ne-out_of_fuel std input = go (tokenize std input) (tokenize-ne-out_of_fuel std input)
  where
    go :
        (x : Result Error (List Token))
        → x ≢ err out_of_fuel
        → (x >>= parse_tokens) ≢ err out_of_fuel
    go (ok ts) h = parse_tokens-ne-out_of_fuel ts
    go (err e) h = λ p. h (ground arith)
