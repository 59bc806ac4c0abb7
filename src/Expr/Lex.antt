-- ===== src/Expr/Lex.antt =====
-- `tokenize` of platform-services/janitor-bot/src/rules/expr.rs. A text is walked by its characters.
pub mod Progress
use Prim.Native.String.{[], ◌∷◌}
use mathlib.Core.Option
use inf_k8s.Prelude.{
  ℕ, zero, suc, ◌+◌, ◌-◌, ◌*◌, ◌^◌, ◌<◌, ◌≡◌, String, Char, code, Bool, false, ◌&&◌, ◌||◌, List,
  Option, none, some, leb, ◌==◌, str_eq, if◌then◌else◌, Result, ok, err, ◌>>=◌,
}
use inf_k8s.Prelude.Int.{ℤ, pos, neg_ℕ}
use inf_k8s.Prelude.Float.{F64}
use inf_k8s.Expr.Syntax.{
  Token, Error, unterminated_string, invalid_float, invalid_integer, unexpected_character,
  out_of_fuel,
}

unfoldable pub is_ascii_digit : ℕ → Bool
is_ascii_digit c = leb b'0' c && leb c b'9'

unfoldable pub is_ascii_letter : ℕ → Bool
is_ascii_letter c = leb b'a' c && leb c b'z' || leb b'A' c && leb c b'Z'

-- What the lexer takes from Rust's standard library and the model does not define: the Unicode
-- table of `char::is_alphanumeric`, of which it knows the part below 128, and `str::parse::<f64>`.
pub record Std : Type 0 where
  pub is_alphanumeric : ℕ → Bool
  pub parse_f64 : String → Option F64
  pub ascii : (c : ℕ) → c < 128 → is_alphanumeric c ≡ (is_ascii_digit c || is_ascii_letter c)

-- How many characters a text has.
abbrev pub size : String → ℕ
size [] = 0
size (c ∷ s) = suc (size s)

-- The characters up to the first that fails the test, and the rest.
unfoldable pub span : (ℕ → Bool) → String → String × String
span p [] = ([], [])
span p (c ∷ r) = let (a, b) = span p r in if p (code c) then (c ∷ a, b) else ([], c ∷ r)

unfoldable pub has_char : ℕ → String → Bool
has_char q [] = false
has_char q (c ∷ r) = code c == q || has_char q r

unfoldable pub digits_value : ℕ → String → Option ℕ
unfolding is_ascii_digit
digits_value acc [] = some acc
digits_value acc (c ∷ r) =
    let rest = digits_value (acc * 10 + (code c - b'0')) r in
    if is_ascii_digit (code c) then rest else none

unfoldable pub bounded : ℕ → (ℕ → ℤ) → String → Option ℤ
unfolding digits_value
bounded limit sign [] = none
bounded limit sign (c ∷ r) = elim (digits_value 0 (c ∷ r)) [
  | none ↦ none
  | some n ↦ if leb n limit then some (sign n) else none
]

-- `str::parse::<i64>`: an optional sign, one digit at least, and a value in range.
unfoldable pub parse_i64 : String → Option ℤ
unfolding bounded
parse_i64 [] = none
parse_i64 (c ∷ r) =
    if code c == b'-'
    then bounded (2 ^ 63) neg_ℕ r
    else if code c == b'+'
    then bounded (2 ^ 63 - 1) pos r
    else bounded (2 ^ 63 - 1) pos (c ∷ r)

-- What a round of the loop reads: at most one token, and the characters left.
abbrev pub Step : Type 0
Step = Result Error (Option Token × String)

abbrev push : Token → String → Step
push t rest = ok (some t, rest)

-- `&&`, `||` and `==`: the second character must follow.
unfoldable pub double : ℕ → Token → Error → String → Step
double q t e [] = err e
double q t e (c ∷ r) = if code c == q then push t r else err e

-- `!`, `<` and `>`, with or without `=`.
unfoldable pub maybe_eq : Token → Token → String → Step
maybe_eq long short [] = push short []
maybe_eq long short (c ∷ r) = if code c == b'=' then push long r else push short (c ∷ r)

-- The characters before the closing quote, and those behind it.
unfoldable pub quoted : ℕ → String → Option (String × String)
quoted q [] = none
quoted q (c ∷ r) =
    let rest = Option.map (λ (s, t). (c ∷ s, t)) (quoted q r) in
    if code c == q then some ([], r) else rest

unfoldable pub lex_string : ℕ → String → Step
unfolding quoted
lex_string q r = elim (quoted q r) [
  | none ↦ err unterminated_string
  | some (s, rest) ↦ push (Token.str s) rest
]

unfoldable pub is_number_char : ℕ → Bool
unfolding is_ascii_digit
is_number_char c = is_ascii_digit c || c == b'.'

unfoldable pub starts_digit : String → Bool
unfolding is_ascii_digit
starts_digit [] = false
starts_digit (c ∷ r) = is_ascii_digit (code c)

unfoldable pub keyword : String → Token
keyword s =
    if str_eq s "true" then Token.true else if str_eq s "false" then Token.false else Token.ident s

-- `tokens.push(t)`, in front of what the later rounds push.
abbrev pub put : Option Token → List Token → List Token
put none ts = ts
put (some t) ts = List.◌∷◌ t ts

module _ (std : Std) where
  unfoldable pub number_token : String → String → Step
  unfolding has_char parse_i64
  number_token num rest =
      if has_char b'.' num
      then elim (std.parse_f64 num) [
        | none ↦ err (invalid_float num)
        | some x ↦ push (Token.float x) rest
      ]
      else elim (parse_i64 num) [
        | none ↦ err (invalid_integer num)
        | some n ↦ push (Token.int n) rest
      ]

  -- The sign, if there is one, is `c`; the digits and dots follow.
  unfoldable pub lex_number : Char → String → Step
  unfolding span is_number_char number_token
  lex_number c r =
      if code c == b'-'
      then (let (num, rest) = span is_number_char r in number_token (c ∷ num) rest)
      else (let (num, rest) = span is_number_char (c ∷ r) in number_token num rest)

  unfoldable pub is_ident_char : ℕ → Bool
  is_ident_char c = std.is_alphanumeric c || c == b'_'

  unfoldable pub lex_ident : String → Step
  unfolding span is_ident_char keyword
  lex_ident s = let (ident, rest) = span is_ident_char s in push (keyword ident) rest

  -- The guarded cases behind the punctuation.
  unfoldable pub lex_word : Char → String → Step
  unfolding is_ascii_digit starts_digit lex_number lex_ident
  lex_word c r =
      if is_ascii_digit (code c) || (code c == b'-' && starts_digit r)
      then lex_number c r
      else if is_ident_char (code c)
      then lex_ident (c ∷ r)
      else err (unexpected_character c)

  abbrev is_space : ℕ → Bool
  is_space c = c == b' ' || c == b'\t' || c == b'\n' || c == b'\r'

  -- One round, at the character that `peek` shows.
  unfoldable pub lex_one : Char → String → Step
  unfolding double maybe_eq lex_string lex_word
  lex_one c r =
      if is_space (code c)
      then ok (none, r)
      else if code c == b'('
      then push Token.lparen r
      else if code c == b')'
      then push Token.rparen r
      else if code c == b'!'
      then maybe_eq Token.ne Token.not r
      else if code c == b'&'
      then double b'&' Token.and Error.expected_and r
      else if code c == b'|'
      then double b'|' Token.or Error.expected_or r
      else if code c == b'='
      then double b'=' Token.eq Error.expected_eq r
      else if code c == b'<'
      then maybe_eq Token.le Token.lt r
      else if code c == b'>'
      then maybe_eq Token.ge Token.gt r
      else if code c == b'\"' || code c == b'\''
      then lex_string (code c) r
      else lex_word c r

  -- The loop, a unit of fuel for each round.
  unfoldable pub lex : ℕ → String → Result Error (List Token)
  unfolding lex_one
  lex zero s = err out_of_fuel
  lex (suc f) [] = ok List.[]
  lex (suc f) (c ∷ r) = do (t, rest) ← lex_one c r; ts ← lex f rest; ok (put t ts)

  unfoldable pub tokenize : String → Result Error (List Token)
  unfolding lex
  tokenize s = lex (suc (size s)) s
