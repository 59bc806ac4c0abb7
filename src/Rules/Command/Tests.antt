-- ===== src/Rules/Command/Tests.antt =====
-- Comments that speak to the bot (platform-services/janitor-bot/src/command.rs).
use inf_k8s.Prelude.{◌≡◌, refl, Bool, ℕ, ◌==◌, ◌||◌, some, none}
use inf_k8s.Prelude.Text.{join}
use inf_k8s.Rules.Schema.Actions.{MergePullRequestOptionDo}
use inf_k8s.Rules.Command.{PrCommand, IssueCommand, parse_pr_command, parse_issue_command}
use inf_k8s.Rules.Command.Words.{IsClean, IsWord, word, more, last}
use inf_k8s.Rules.Command.Spelled.{merge_rebase, parse_pr_command-join}

abbrev is_space : ℕ → Bool
is_space c = c == b' '

rebased :
    parse_pr_command is_space "please\n  @janitor  merge rebase now\n"
    ≡ some (PrCommand.merge MergePullRequestOptionDo.rebase)
unfolding parse_pr_command
rebased = refl

squashed :
    parse_pr_command is_space "@janitor merge"
    ≡ some (PrCommand.merge MergePullRequestOptionDo.squash)
unfolding parse_pr_command
squashed = refl

unknown_strategy : parse_pr_command is_space "@janitor merge fast" ≡ none
unfolding parse_pr_command
unknown_strategy = refl

fixed :
    parse_pr_command is_space "@janitor fix opus add  a test"
    ≡ some (PrCommand.fix (some "opus") (some "add a test"))
unfolding parse_pr_command
fixed = refl

ruled : parse_pr_command is_space "@janitor run rule tidy" ≡ some (PrCommand.run_rule "tidy")
unfolding parse_pr_command
ruled = refl

-- Only the first line that speaks to the bot counts.
first_line_only : parse_pr_command is_space "@janitor wait\n@janitor approve" ≡ none
unfolding parse_pr_command
first_line_only = refl

acknowledged : parse_issue_command is_space "@janitor ack" ≡ some IssueCommand.ack
unfolding parse_issue_command
acknowledged = refl

abbrev is_white : ℕ → Bool
is_white c = c == b' ' || c == 10

merge-IsWord : IsWord is_white "merge"
unfolding IsClean
merge-IsWord = word refl (refl, (refl, (refl, (refl, tt))))

rebase-IsWord : IsWord is_white "rebase"
unfolding IsClean
rebase-IsWord = word refl (refl, (refl, (refl, (refl, (refl, tt)))))

parse_pr_command-join_example :
    parse_pr_command is_white "@janitor merge rebase"
    ≡ some (PrCommand.merge MergePullRequestOptionDo.rebase)
unfolding join
parse_pr_command-join_example =
    parse_pr_command-join is_white refl refl refl merge_rebase
      (more merge-IsWord (last rebase-IsWord))
