-- ===== src/Prelude/Text.antt =====
-- Operations of Rust's `str` that take a text apart or build one, on characters.
use Prim.Native.Nat.{ℕ, zero, suc, ◌+◌, ◌-◌, ◌/◌, ◌%◌}
use Prim.Native.Char.{Char, code}
use Prim.Native.String.{String, [], ◌∷◌, ◌++◌, count, slice}
use mathlib.Core.Path.{◌≡◌, refl}
use mathlib.Core.Bool.{Bool}
use mathlib.Core.Option.{Option, none, some}
use mathlib.Core.List.{List, [], ◌∷◌}
use inf_k8s.Prelude.Tests.{◌==◌, ltb, if◌then◌else◌}
use inf_k8s.Prelude.Strings.{starts_with}

abbrev in_front : Char → Option (String × String) → Option (String × String)
in_front c none = none
in_front c (some (before, after)) = some (c ∷ before, after)

-- `split_once(separator)`, at the first character of that code.
unfoldable pub split_once : ℕ → String → Option (String × String)
split_once separator [] = none
split_once separator (c ∷ rest) =
    let later = in_front c (split_once separator rest) in
    if code c == separator then some ([], rest) else later

-- `strip_prefix(prefix)`
unfoldable pub strip_prefix : String → String → Option String
strip_prefix [] s = some s
strip_prefix (p ∷ ps) [] = none
strip_prefix (p ∷ ps) (c ∷ s) =
    let rest = strip_prefix ps s in if code p == code c then rest else none

-- The characters that `skip` counts belong to an occurrence that has been replaced.
unfoldable pub replace_from : ℕ → String → String → String → String
replace_from skip [] pattern with = []
replace_from zero (c ∷ s) pattern with =
    let kept : String = c ∷ replace_from zero s pattern with in
    let dropped = with ++ replace_from (count pattern - 1) s pattern with in
    if starts_with (c ∷ s) pattern then dropped else kept
replace_from (suc skip) (c ∷ s) pattern with = replace_from skip s pattern with

-- `replace(pattern, with)`, for a pattern that is not empty.
abbrev pub replace : String → String → String → String
replace s pattern with = replace_from 0 s pattern with

unfoldable pub decimal_from : ℕ → ℕ → String → String
decimal_from zero n after = after
decimal_from (suc digits) n after =
    let text = slice "0123456789" (n % 10) (n % 10 + 1) ++ after in
    let longer = decimal_from digits (n / 10) text in if ltb n 10 then text else longer

-- `to_string()` of a `u64`, which has twenty digits at most.
abbrev pub decimal : ℕ → String
decimal n = decimal_from 20 n ""

-- `join(separator)`
unfoldable pub join : String → List String → String
join separator [] = ""
join separator (s ∷ []) = s
join separator (s ∷ t ∷ rest) = s ++ separator ++ join separator (t ∷ rest)

abbrev onto : Char → List String → List String
onto c [] = (c ∷ []) ∷ []
onto c (part ∷ parts) = (c ∷ part) ∷ parts

-- `split(separator)`, at every character of that code.
unfoldable pub split : ℕ → String → List String
split separator [] = "" ∷ []
split separator (c ∷ s) =
    let parts = split separator s in if code c == separator then "" ∷ parts else onto c parts

-- `trim_start_matches(p)` and `trim_end_matches(p)`
unfoldable pub trim_start : (ℕ → Bool) → String → String
trim_start p [] = []
trim_start p (c ∷ s) = let rest = trim_start p s in if p (code c) then rest else c ∷ s

abbrev kept_before : (ℕ → Bool) → Char → String → String
kept_before p c [] = if p (code c) then "" else c ∷ []
kept_before p c (d ∷ s) = c ∷ d ∷ s

unfoldable pub trim_end : (ℕ → Bool) → String → String
trim_end p [] = []
trim_end p (c ∷ s) = kept_before p c (trim_end p s)

-- The parts between characters of the kind, with empty ones where two stand side by side.
unfoldable pub fields : (ℕ → Bool) → String → List String
fields p [] = "" ∷ []
fields p (c ∷ s) = let parts = fields p s in if p (code c) then "" ∷ parts else onto c parts

abbrev if_word : String → List String → List String
if_word [] words = words
if_word (c ∷ word) words = (c ∷ word) ∷ words

abbrev only_words : List String → List String
only_words [] = []
only_words (part ∷ parts) = if_word part (only_words parts)

-- `split_whitespace()`, for the characters that are white space.
unfoldable pub split_whitespace : (ℕ → Bool) → String → List String
unfolding fields
split_whitespace p s = only_words (fields p s)

-- A line without the carriage return at its end.
unfoldable pub without_return : String → String
without_return [] = []
without_return (c ∷ []) = if code c == 13 then "" else c ∷ []
without_return (c ∷ d ∷ s) = c ∷ without_return (d ∷ s)

abbrev each_line : List String → List String
each_line [] = []
each_line ([] ∷ []) = []
each_line ((c ∷ s) ∷ []) = (c ∷ s) ∷ []
each_line (line ∷ next ∷ rest) = without_return line ∷ each_line (next ∷ rest)

-- `lines()`: the ends of the lines are left out, and so is an empty rest behind the last.
unfoldable pub lines : String → List String
unfolding split without_return
lines s = each_line (split 10 s)

replaced : replace "a {k} and {k}." "{k}" "value" ≡ "a value and value."
unfolding replace_from starts_with
replaced = refl

written : decimal 1206 ≡ "1206"
unfolding decimal_from
written = refl

parted : split_once b'/' "owner/repo/x" ≡ some ("owner", "repo/x")
unfolding split_once
parted = refl

comma_parts : split b',' "a,,b" ≡ "a" ∷ "" ∷ "b" ∷ []
unfolding split
comma_parts = refl

trimmed : trim_start (λ c. c == b' ') (trim_end (λ c. c == b' ') "  a b ") ≡ "a b"
unfolding trim_start trim_end
trimmed = refl

two_lines : lines "ab\r\ncd\n" ≡ "ab" ∷ "cd" ∷ []
unfolding lines
two_lines = refl

words_of : split_whitespace (λ c. c == b' ') "  run  rule x " ≡ "run" ∷ "rule" ∷ "x" ∷ []
unfolding split_whitespace
words_of = refl
