-- ===== src/Rules/Texts.antt =====
-- The tests of texts and paths that the matchers use:
-- platform-services/janitor-bot/src/rules/matchers/types.rs.
use Prim.Native.String.{[], ◌∷◌}
use inf_k8s.Prelude.{
  ℕ, ◌+◌, ◌≡◌, String, code, Bool, true, false, not, ◌&&◌, Option, none, some, str_eq, leb, ◌==◌,
  if◌then◌else◌,
}
use inf_k8s.Prelude.Strings.{contains, starts_with, ends_with}
use inf_k8s.Rules.Types.{StringMatchMode, FilePattern}

-- What the matchers take from other crates: the Unicode table of `str::to_lowercase`, and globs.
pub record Library : Type 0 where
  pub to_lowercase : String → String
  -- `globset::Glob::new(p)?.compile_matcher()`, with `is_match`; `none` where the glob is invalid.
  pub glob : String → Option (String → Bool)
  -- That of the empty glob, which is valid.
  pub empty_glob : String → Bool
  pub glob-empty : glob "" ≡ some empty_glob

unfoldable pub to_ascii_lowercase : ℕ → ℕ
to_ascii_lowercase c = if leb b'A' c && leb c b'Z' then c + 32 else c

-- `str::eq_ignore_ascii_case`
unfoldable pub eq_ignore_ascii_case : String → String → Bool
unfolding to_ascii_lowercase
eq_ignore_ascii_case [] [] = true
eq_ignore_ascii_case (c ∷ s) (d ∷ t) =
    to_ascii_lowercase (code c) == to_ascii_lowercase (code d) && eq_ignore_ascii_case s t
eq_ignore_ascii_case _ _ = false

module _ (lib : Library) where
  -- `StringMatchMode::matches`
  unfoldable pub mode_matches : StringMatchMode → String → String → Bool
  mode_matches StringMatchMode.contains haystack needle = contains haystack needle
  mode_matches StringMatchMode.contains_ignore_case haystack needle =
      contains (lib.to_lowercase haystack) (lib.to_lowercase needle)
  mode_matches StringMatchMode.equals haystack needle = str_eq haystack needle
  mode_matches StringMatchMode.equals_ignore_case haystack needle =
      eq_ignore_ascii_case haystack needle
  mode_matches StringMatchMode.starts_with haystack needle = starts_with haystack needle
  mode_matches StringMatchMode.ends_with haystack needle = ends_with haystack needle

  -- An invalid glob is read as the empty one.
  unfoldable pub compile : String → String → Bool
  compile pat = elim (lib.glob pat) [ some matcher ↦ matcher | none ↦ lib.empty_glob ]

  unfoldable pub pattern_matches_text : String → String → Bool
  unfolding compile
  pattern_matches_text [] path = compile [] path
  pattern_matches_text (c ∷ rest) path =
      let whole = compile (c ∷ rest) path in
      if code c == b'!' then not (compile rest path) else whole

  -- `FilePattern::matches`
  abbrev pub file_matches : FilePattern → String → Bool
  file_matches p path = pattern_matches_text p.pattern path
