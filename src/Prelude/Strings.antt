-- ===== src/Prelude/Strings.antt =====
-- `contains`, `starts_with` and `ends_with` of Rust's `str`, on characters.
use Prim.Native.String.{String, [], ◌∷◌}
use Prim.Native.Char.{code}
use mathlib.Core.Path.{◌≡◌, refl}
use mathlib.Core.Logic.{◌↔◌}
use text.Mathlib.TextEquality.{eq_iff}
use mathlib.Core.Bool.{Bool, true, false, false≢true, ◌&&◌, ◌||◌}
use text.Mathlib.Text.{◌==◌ as str_eq}
use inf_k8s.Prelude.Tests.{◌==◌}

unfoldable pub starts_with : String → String → Bool
starts_with s [] = true
starts_with [] (d ∷ t) = false
starts_with (c ∷ s) (d ∷ t) = code c == code d && starts_with s t

unfoldable pub contains : String → String → Bool
unfolding starts_with
contains [] t = starts_with [] t
contains (c ∷ s) t = starts_with (c ∷ s) t || contains s t

unfoldable pub ends_with : String → String → Bool
ends_with [] t = str_eq [] t
ends_with (c ∷ s) t = str_eq (c ∷ s) t || ends_with s t

in_the_middle : contains "feature" "atu" ≡ true
unfolding contains
in_the_middle = refl

at_the_end : ends_with "feature" "ure" ≡ true
unfolding ends_with
at_the_end = refl

unfoldable pub String_discrete : Discrete String
String_discrete s t = go (str_eq s t) (eq_iff s t)
  where
    go : (b : Bool) → ((b ≡ true) ↔ (s ≡ t)) → Dec (s ≡ t)
    go true same = yes (same.0 refl)
    go false same = no (λ e. false≢true (same.1 e))
