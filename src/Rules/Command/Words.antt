-- ===== src/Rules/Command/Words.antt =====
-- Comments of one line whose words stand apart by single blanks, and how they are read
-- (platform-services/janitor-bot/src/command.rs).
use Prim.Native.Char.{char}
use Prim.Native.String.append
use Prim.Native.String.{[], ◌∷◌, ◌++◌}
use mathlib.Core.List.{[], ◌∷◌}
use text.Mathlib.TextLemmas.{append-nil}
use inf_k8s.Prelude.{
  ◌≡◌, refl, sym, ap, subst, ◌∙◌, ℕ, Char, code, String, Bool, true, false, List, some, ◌==◌, arith,
}
use inf_k8s.Prelude.Text.{trim_start, trim_end, split, fields, split_whitespace, join}
use inf_k8s.Rules.Command.{command_words}

module _ (p : ℕ → Bool) where
  -- No character is white space.
  unfoldable pub IsClean : String → Type 0
  IsClean [] = Unit {0}
  IsClean (c ∷ s) = (p (code c) ≡ false) × IsClean s

  pub data IsWord : String → Type 0 where
    word : {c : Char} {s : String} → p (code c) ≡ false → IsClean s → IsWord (c ∷ s)

  pub data IsWords : List String → Type 0 where
    last : {w : String} → IsWord w → IsWords (w ∷ [])
    more : {w v : String} {ws : List String} → IsWord w → IsWords (v ∷ ws) → IsWords (w ∷ v ∷ ws)

abbrev blank_char : Char
blank_char = char 32 tt

blank-front : (t : String) → " " ++ t ≡ blank_char ∷ t
blank-front t = append.cons blank_char "" t ∙ ap (λ s. blank_char ∷ s) (append.nil t)

unfoldable front : String → String → String
front [] t = t
front (c ∷ s) t = c ∷ front s t

append_front : (s t : String) → s ++ t ≡ front s t
unfolding front
append_front [] t = append.nil t
append_front (c ∷ s) t = append.cons c s t ∙ ap (λ r. c ∷ r) (append_front s t)

module _ (p : ℕ → Bool) (blank : p b' ' ≡ true) (feed : p 10 ≡ true) where
  no_feed : (c : Char) → p (code c) ≡ false → (code c == 10) ≡ false
  no_feed c h = ground arith

  split-clean :
      (s t : String) → IsClean p s → split 10 t ≡ t ∷ [] → split 10 (s ++ t) ≡ (s ++ t) ∷ []
  unfolding IsClean split
  split-clean [] t h e = simp (append.nil t, e)
  split-clean (c ∷ s) t (h, hs) e = simp (append.cons c s t, no_feed c h, split-clean s t hs e)

  fields-clean : (s : String) → IsClean p s → fields p s ≡ s ∷ []
  unfolding IsClean fields
  fields-clean [] h = refl
  fields-clean (c ∷ s) (h, hs) = simp (h, fields-clean s hs)

  fields-blank : (s t : String) → IsClean p s → fields p (s ++ " " ++ t) ≡ s ∷ fields p t
  unfolding IsClean fields
  fields-blank [] t h = simp (blank-front t, append.nil (blank_char ∷ t), blank)
  fields-blank (c ∷ s) t (h, hs) = simp (append.cons c s (" " ++ t), h, fields-blank s t hs)

  trim_end-clean : (s : String) → IsClean p s → trim_end p s ≡ s
  unfolding IsClean trim_end
  trim_end-clean [] h = refl
  trim_end-clean (c ∷ []) (h, hs) = simp (h)
  trim_end-clean (c ∷ d ∷ s) (h, hs) = simp (trim_end-clean (d ∷ s) hs)

  -- What has a character at its end that is not white space stays as it is.
  pub data IsTight : String → Type 0 where
    tight : {c : Char} {s : String} → trim_end p (c ∷ s) ≡ c ∷ s → IsTight (c ∷ s)

  behind : (c : Char) {t : String} → IsTight t → IsTight (c ∷ t)
  unfolding trim_end
  behind c (tight e) = tight (simp (e))

  append-IsTight : (s t : String) → IsTight t → IsTight (s ++ t)
  append-IsTight [] t h = subst IsTight (sym (append.nil t)) h
  append-IsTight (c ∷ s) t h =
      subst IsTight (sym (append.cons c s t)) (behind c (append-IsTight s t h))

  word-IsTight : {w : String} → IsWord p w → IsTight w
  unfolding IsClean
  word-IsTight (word h hs) = tight (trim_end-clean _ (h, hs))

  word-IsClean : {w : String} → IsWord p w → IsClean p w
  unfolding IsClean
  word-IsClean (word h hs) = (h, hs)

  split_blank : (t : String) → split 10 t ≡ t ∷ [] → split 10 (" " ++ t) ≡ (" " ++ t) ∷ []
  unfolding split
  split_blank t e = simp (blank-front t, e)

  join-IsTight : {ws : List String} → IsWords p ws → IsTight (join " " ws)
  unfolding join
  join-IsTight (last h) = word-IsTight h
  join-IsTight (more {w = w} h hs) = append-IsTight w _ (append-IsTight " " _ (join-IsTight hs))

  split-join : {ws : List String} → IsWords p ws → split 10 (join " " ws) ≡ join " " ws ∷ []
  unfolding join split
  split-join (last {w = w} h) =
      subst (λ t. split 10 t ≡ t ∷ []) (append-nil w) (split-clean w "" (word-IsClean h) refl)
  split-join (more {w = w} h hs) = split-clean w _ (word-IsClean h) (split_blank _ (split-join hs))

  split_whitespace-join : {ws : List String} → IsWords p ws → split_whitespace p (join " " ws) ≡ ws
  unfolding join split_whitespace IsClean
  split_whitespace-join (last (word {c = c} {s = s} h hs)) =
      let clean : IsClean p (c ∷ s) = (h, hs) in simp (fields-clean (c ∷ s) clean)
  split_whitespace-join (more {v = v} {ws = ws} (word {c = c} {s = s} h hs) more_words) =
      let clean : IsClean p (c ∷ s) = (h, hs) in
      simp (fields-blank (c ∷ s) (join " " (v ∷ ws)) clean, split_whitespace-join more_words)

  trim_start-word : (t : String) {w : String} → IsWord p w → trim_start p (w ++ t) ≡ w ++ t
  unfolding trim_start
  trim_start-word t (word {c = c} {s = s} h hs) = simp (append.cons c s t, h)

  trim_start-join : {ws : List String} → IsWords p ws → trim_start p (join " " ws) ≡ join " " ws
  unfolding join
  trim_start-join (last {w = w} h) =
      subst (λ t. trim_start p t ≡ t) (append-nil w) (trim_start-word "" h)
  trim_start-join (more h hs) = trim_start-word _ h

  behind_name :
      (at : p b'@' ≡ false) (t : String)
      → split 10 t ≡ t ∷ []
      → trim_end p (blank_char ∷ t) ≡ blank_char ∷ t
      → trim_start p t ≡ t
      → command_words p (front "@janitor " t) ≡ some (split_whitespace p t)
  unfolding command_words front
  behind_name at t one_line end start = simp (one_line, at, end, blank, start)

  trim_end-tight : {t : String} → IsTight t → trim_end p t ≡ t
  trim_end-tight (tight e) = e

  -- A comment of one line that names the bot, and behind it words that stand apart by single
  -- blanks, gives these words.
  pub command_words-join :
      (at : p b'@' ≡ false)
      → {ws : List String} → IsWords p ws
      → command_words p ("@janitor " ++ join " " ws) ≡ some ws
  command_words-join at {ws = ws} h =
      subst (λ t. command_words p t ≡ some ws) (sym (append_front "@janitor " (join " " ws)))
        (behind_name at (join " " ws) (split-join h)
            (trim_end-tight (behind blank_char (join-IsTight h))) (trim_start-join h)
          ∙ ap some (split_whitespace-join h))
