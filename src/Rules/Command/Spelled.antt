-- ===== src/Rules/Command/Spelled.antt =====
-- How each command on a pull request is written, and that it is read so
-- (platform-services/janitor-bot/src/command.rs).
use Prim.Native.String.{◌++◌}
use inf_k8s.Prelude.{◌≡◌, refl, ℕ, String, Bool, true, false, List, Option, [], ◌∷◌, some, none}
use inf_k8s.Prelude.Maybe.{◌>>=◌}
use inf_k8s.Prelude.Text.{join}
use inf_k8s.Rules.Schema.Actions.{MergePullRequestOptionDo}
use inf_k8s.Rules.Command.{PrCommand, first_word, after_first, pr_command, parse_pr_command}
use inf_k8s.Rules.Command.Words.{IsWords, command_words-join}

-- The words that stand for a command.
pub data Spells : PrCommand → List String → Type 0 where
  approve : Spells PrCommand.approve ("approve" ∷ [])
  merge : Spells (PrCommand.merge MergePullRequestOptionDo.squash) ("merge" ∷ [])
  merge_squash : Spells (PrCommand.merge MergePullRequestOptionDo.squash) ("merge" ∷ "squash" ∷ [])
  merge_rebase : Spells (PrCommand.merge MergePullRequestOptionDo.rebase) ("merge" ∷ "rebase" ∷ [])
  merge_merge : Spells (PrCommand.merge MergePullRequestOptionDo.merge) ("merge" ∷ "merge" ∷ [])
  revert : Spells PrCommand.revert ("revert" ∷ [])
  recheck : Spells PrCommand.recheck ("recheck" ∷ [])
  close : Spells PrCommand.close ("close" ∷ [])
  reopen : Spells PrCommand.reopen ("reopen" ∷ [])
  ignore : Spells PrCommand.ignore ("ignore" ∷ [])
  explain : Spells PrCommand.explain ("explain" ∷ [])
  run_rule : {name : String} → Spells (PrCommand.run_rule name) ("run" ∷ "rule" ∷ name ∷ [])
  fix : Spells (PrCommand.fix none none) ("fix" ∷ [])
  fix_model : {model : String} → Spells (PrCommand.fix (some model) none) ("fix" ∷ model ∷ [])
  fix_instructions :
      {model word : String} {words : List String}
      → Spells
          (PrCommand.fix (some model) (some (join " " (word ∷ words))))
          ("fix" ∷ model ∷ word ∷ words)

-- The command that the words give, once they have been taken apart.
unfoldable command_of : List String → Option PrCommand
unfolding first_word after_first pr_command
command_of words = do word ← first_word words; pr_command word (after_first words)

command_of-Spells :
    {c : PrCommand} {words : List String} → Spells c words → command_of words ≡ some c
unfolding command_of join
command_of-Spells approve = refl
command_of-Spells merge = refl
command_of-Spells merge_squash = refl
command_of-Spells merge_rebase = refl
command_of-Spells merge_merge = refl
command_of-Spells revert = refl
command_of-Spells recheck = refl
command_of-Spells close = refl
command_of-Spells reopen = refl
command_of-Spells ignore = refl
command_of-Spells explain = refl
command_of-Spells run_rule = refl
command_of-Spells fix = refl
command_of-Spells fix_model = refl
command_of-Spells fix_instructions = refl

module _ (p : ℕ → Bool) (blank : p b' ' ≡ true) (feed : p 10 ≡ true) (at : p b'@' ≡ false) where
  -- Where the blank and the line feed are white space and @ is none: a comment of one line that
  -- names the bot, and behind it the words of a command, apart by single blanks and each a word
  -- without white space, is read as that command.
  pub parse_pr_command-join :
      {c : PrCommand} {words : List String}
      → Spells c words
      → IsWords p words
      → parse_pr_command p ("@janitor " ++ join " " words) ≡ some c
  unfolding parse_pr_command command_of
  parse_pr_command-join spelled h =
      simp (command_words-join p blank feed at h) (command_of-Spells spelled)
