-- ===== src/Expr/Lex/Progress.antt =====
-- Each round of the lexer leaves less input, so the fuel of `tokenize` suffices
-- (platform-services/janitor-bot/src/rules/expr.rs).
use Prim.Native.String.{[], ◌∷◌}
use inf_k8s.Prelude.Int.{ℤ}
use inf_k8s.Prelude.Float.{F64}
use inf_k8s.Prelude.{
  Option-cases, ◌==◌, ◌&&◌, ◌||◌, List, ℕ, zero, suc, ◌≤◌, ◌<◌, ◌≡◌, ◌≢◌, refl, String, Char, code,
  Bool, true, false, Option, none, some, arith, if◌then◌else◌, inl, inr, Result, ok, err, ◌>>=◌,
}
use inf_k8s.Expr.Syntax.{Token, Error, out_of_fuel}
use inf_k8s.Expr.Lex.{
  Std, Step, size, span, double, maybe_eq, quoted, lex_string, number_token, lex_number,
  is_ident_char, starts_digit, is_number_char, is_ascii_digit, lex_ident, put, lex_word, lex_one,
  lex, tokenize, parse_i64, has_char,
}

-- A step within `n`: a result leaves at most `n` characters, an error is one of the source's.
pub data Fits (n : ℕ) : Step → Type 0 where
  leaves : {t : Option Token} {rest : String} → size rest ≤ n → Fits n (ok (t, rest))
  wrong : {e : Error} → e ≢ out_of_fuel → Fits n (err e)

Fits-if :
    {n : ℕ} (b : Bool) {x y : Step}
    → (b ≡ true → Fits n x)
    → (b ≡ false → Fits n y)
    → Fits n (if b then x else y)
Fits-if true hx hy = hx refl
Fits-if false hx hy = hy refl

span-rest : (p : ℕ → Bool) (s : String) → size (span p s).1 ≤ size s
unfolding span
span-rest p [] = omega arith
span-rest p (c ∷ r) = ground (arith, span-rest p r)

span_step :
    (p : ℕ → Bool) (c : Char) (r : String) → p (code c) ≡ true → size (span p (c ∷ r)).1 ≤ size r
unfolding span
span_step p c r h = rw h (span-rest p r)

double-Fits :
    (q : ℕ) (t : Token) (e : Error) (r : String) → e ≢ out_of_fuel → Fits (size r) (double q t e r)
unfolding double
double-Fits q t e [] h = wrong h
double-Fits q t e (c ∷ r) h = Fits-if (code c == q) (λ _. leaves (omega arith)) (λ _. wrong h)

maybe_eq-Fits : (t u : Token) (r : String) → Fits (size r) (maybe_eq t u r)
unfolding maybe_eq
maybe_eq-Fits t u [] = leaves (omega arith)
maybe_eq-Fits t u (c ∷ r) =
    Fits-if (code c == b'=') (λ _. leaves (omega arith)) (λ _. leaves (omega arith))

quoted-rest : (q : ℕ) (s a b : String) → quoted q s ≡ some (a, b) → size b ≤ size s
unfolding quoted
quoted-rest q [] a b h = cc
quoted-rest q (c ∷ r) a b h = elim (Option-cases (quoted q r)) [
  | inl e ↦ ground (arith, e)
  | inr (p, e) ↦ ground (arith, e, quoted-rest q r p.0 p.1)
]

lex_string-Fits : (q : ℕ) (r : String) → Fits (size r) (lex_string q r)
unfolding lex_string
lex_string-Fits q r = go (quoted q r) (λ a b. quoted-rest q r a b)
  where
    go :
        (o : Option (String × String))
        → ((a b : String) → o ≡ some (a, b) → size b ≤ size r)
        → Fits (size r) (elim o [
          | none ↦ err Error.unterminated_string
          | some (s, rest) ↦ ok (some (Token.str s), rest)
        ])
    go none h = wrong (ground arith)
    go (some (a, b)) h = leaves (h a b refl)

number_token-Fits :
    (std : Std) (num rest : String) {n : ℕ} → size rest ≤ n → Fits n (number_token std num rest)
unfolding number_token
number_token-Fits std num rest {n} h =
    Fits-if (has_char b'.' num) (λ _. float (std.parse_f64 num)) (λ _. int (parse_i64 num))
  where
    float :
        (o : Option F64)
        → Fits n (elim o [
          | none ↦ err (Error.invalid_float num)
          | some x ↦ ok (some (Token.float x), rest)
        ])
    float none = wrong (ground arith)
    float (some x) = leaves h

    int :
        (o : Option ℤ)
        → Fits n (elim o [
          | none ↦ err (Error.invalid_integer num)
          | some x ↦ ok (some (Token.int x), rest)
        ])
    int none = wrong (ground arith)
    int (some x) = leaves h

module _ (std : Std) (c : Char) (r : String) where
  lex_number-Fits :
      (is_ascii_digit (code c) || (code c == b'-' && starts_digit r)) ≡ true
      → Fits (size r) (lex_number std c r)
  unfolding lex_number is_number_char
  lex_number-Fits h =
      Fits-if (code c == b'-')
        (λ _. number_token-Fits std (c ∷ (span is_number_char r).0) _ (span-rest is_number_char r))
        (λ e.
          number_token-Fits std (span is_number_char (c ∷ r)).0 _
            (span_step is_number_char c r (ground arith)))

  lex_ident-Fits : is_ident_char std (code c) ≡ true → Fits (size r) (lex_ident std (c ∷ r))
  unfolding lex_ident
  lex_ident-Fits h = leaves (span_step (is_ident_char std) c r h)

  lex_word-Fits : Fits (size r) (lex_word std c r)
  unfolding lex_word
  lex_word-Fits =
      Fits-if (is_ascii_digit (code c) || (code c == b'-' && starts_digit r)) lex_number-Fits
        (λ _. Fits-if (is_ident_char std (code c)) lex_ident-Fits (λ _. wrong (ground arith)))

  one_char : {t : Option Token} → Fits (size r) (ok (t, r))
  one_char = leaves (omega arith)

  -- The errors of the three double characters are not the model's.
  no_and : Error.expected_and ≢ out_of_fuel
  no_and = λ e. cc

  no_or : Error.expected_or ≢ out_of_fuel
  no_or = λ e. cc

  no_eq : Error.expected_eq ≢ out_of_fuel
  no_eq = λ e. cc

  -- Every round of the lexer consumes its character at least.
  pub lex_one-Fits : Fits (size r) (lex_one std c r)
  unfolding lex_one
  lex_one-Fits =
      search
        (
          Fits-if, one_char, maybe_eq-Fits, double-Fits, no_and, no_or, no_eq, lex_string-Fits,
          lex_word-Fits,
        )
        depth 14

-- What a round leaves is all the fuel has to pay for.
lex_step :
    (x : Step) {n : ℕ} (k : Option Token × String → Result Error (List Token))
    → Fits n x
    → ((t : Option Token) (rest : String) → size rest ≤ n → k (t, rest) ≢ err out_of_fuel)
    → (x >>= k) ≢ err out_of_fuel
lex_step _ k (leaves {t} {rest} le) h = h t rest le
lex_step _ k (wrong ne) h = λ e. ne (ground arith)

bind_put :
    (t : Option Token) (x : Result Error (List Token))
    → x ≢ err out_of_fuel
    → (x >>= λ ts. ok (put t ts)) ≢ err out_of_fuel
bind_put t (ok ts) h = λ e. cc
bind_put t (err x) h = λ e. h (ground arith)

lex-ne-out_of_fuel : (std : Std) (f : ℕ) (s : String) → size s < f → lex std f s ≢ err out_of_fuel
unfolding lex
lex-ne-out_of_fuel std zero s h = absurd (omega arith)
lex-ne-out_of_fuel std (suc f) [] h = λ e. cc
lex-ne-out_of_fuel std (suc f) (c ∷ r) h =
    lex_step (lex_one std c r) _ (lex_one-Fits std c r)
      λ t rest le. bind_put t (lex std f rest) (lex-ne-out_of_fuel std f rest (omega arith))

-- The fuel that `tokenize` takes is enough for every input.
pub tokenize-ne-out_of_fuel : (std : Std) (s : String) → tokenize std s ≢ err out_of_fuel
unfolding tokenize
tokenize-ne-out_of_fuel std s = lex-ne-out_of_fuel std (suc (size s)) s (omega arith)
