-- ===== src/Rules/Command.antt =====
-- The commands that a comment may give the bot: platform-services/janitor-bot/src/command.rs.
pub mod Words
pub mod Spelled
mod Tests
use inf_k8s.Prelude.{
  ℕ, String, Bool, true, false, is_empty, find, List, [], ◌∷◌, Option, none, some, str_eq,
  if◌then◌else◌,
}
use inf_k8s.Prelude.Maybe.{◌>>=◌}
use inf_k8s.Prelude.Strings.{starts_with}
use inf_k8s.Prelude.Text.{strip_prefix, trim_start, trim_end, split_whitespace, lines, join}
use inf_k8s.Rules.Schema.Actions.{MergePullRequestOptionDo}

pub data PrCommand : Type 0 where
  approve : PrCommand
  merge : (strategy : MergePullRequestOptionDo) → PrCommand
  revert recheck close reopen ignore explain : PrCommand
  run_rule : (name : String) → PrCommand
  fix : (model instructions : Option String) → PrCommand

pub data IssueCommand : Type 0 where
  retry_workflow ack : IssueCommand

unfoldable pub first_word : List String → Option String
first_word [] = none
first_word (word ∷ words) = some word

unfoldable pub after_first : List String → List String
after_first [] = []
after_first (word ∷ words) = words

unfoldable pub strategy_of : Option String → Option MergePullRequestOptionDo
strategy_of none = some MergePullRequestOptionDo.squash
strategy_of (some word) =
    if str_eq word "rebase"
    then some MergePullRequestOptionDo.rebase
    else if str_eq word "merge"
    then some MergePullRequestOptionDo.merge
    else if str_eq word "squash"
    then some MergePullRequestOptionDo.squash
    else none

unfoldable pub fix_of : List String → PrCommand
unfolding first_word after_first join
fix_of words =
    let rest = after_first words in
    PrCommand.fix (first_word words) (if is_empty rest then none else some (join " " rest))

-- The name behind `run`.
unfoldable pub rule_named : List String → Option PrCommand
unfolding first_word
rule_named [] = none
rule_named (word ∷ words) =
    let named : Option PrCommand = (do name ← first_word words; some (PrCommand.run_rule name)) in
    if str_eq word "rule" then named else none

unfoldable pub pr_command : String → List String → Option PrCommand
unfolding strategy_of fix_of rule_named first_word
pr_command word words =
    let merged : Option PrCommand = (do
      strategy ← strategy_of (first_word words)
      some (PrCommand.merge strategy)) in
    let is = str_eq word in
    if is "approve"
    then some PrCommand.approve
    else if is "merge"
    then merged
    else if is "revert"
    then some PrCommand.revert
    else if is "recheck"
    then some PrCommand.recheck
    else if is "close"
    then some PrCommand.close
    else if is "reopen"
    then some PrCommand.reopen
    else if is "ignore"
    then some PrCommand.ignore
    else if is "explain"
    then some PrCommand.explain
    else if is "fix"
    then some (fix_of words)
    else if is "run"
    then rule_named words
    else none

unfoldable pub issue_command : String → Option IssueCommand
issue_command word =
    if str_eq word "retry-workflow"
    then some IssueCommand.retry_workflow
    else if str_eq word "ack"
    then some IssueCommand.ack
    else none

-- `char::is_whitespace` is the parameter.
module _ (is_whitespace : ℕ → Bool) where
  -- The words of the first line that speaks to the bot, behind its name.
  unfoldable pub command_words : String → Option (List String)
  unfolding starts_with trim_start strip_prefix trim_end lines split_whitespace
  command_words body = do
    line ← find (λ l. starts_with (trim_start is_whitespace l) "@janitor") (lines body)
    rest ← strip_prefix "@janitor" (trim_start is_whitespace line)
    some (split_whitespace is_whitespace (trim_start is_whitespace (trim_end is_whitespace rest)))

  unfoldable pub parse_pr_command : String → Option PrCommand
  unfolding command_words pr_command first_word after_first
  parse_pr_command body = do
    words ← command_words body
    word ← first_word words
    pr_command word (after_first words)

  unfoldable pub parse_issue_command : String → Option IssueCommand
  unfolding command_words issue_command first_word
  parse_issue_command body = do
    words ← command_words body
    word ← first_word words
    issue_command word
