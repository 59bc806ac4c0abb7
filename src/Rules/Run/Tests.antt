-- ===== src/Rules/Run/Tests.antt =====
-- Evaluations of a sample request (platform-services/janitor-bot/src/rules/mod.rs).
use inf_k8s.Prelude.{◌≡◌, refl, ℕ, suc, ◌≤◌, String, true, false, List, [], ◌∷◌, none, some, length}
use inf_k8s.Rules.Types.{LeafMatcher}
use inf_k8s.Rules.Event.Vars.{template_vars}
use inf_k8s.Rules.Schema.{RuleDef, is_disabled}
use inf_k8s.Rules.Schema.Actions.{to_action, action_kind}
use inf_k8s.Prelude.Strings.{String_discrete}
use inf_k8s.Rules.Clients.{Session}
use inf_k8s.Rules.Leaf.{eval_leaf}
use inf_k8s.Rules.Match.{matches, cached_leaf, cached_result}
use inf_k8s.Rules.Run.{Execute, MatchedRule, run_each_rule}
use inf_k8s.Rules.Run.Backed.{IsBacked, run_each_rule-IsBacked}
use inf_k8s.Rules.Run.DryRun.{run_each_rule-dry_run}
use inf_k8s.Rules.Run.Log.{eval_log_capacity, EvalLogEntry, record_each}
use inf_k8s.Rules.Run.Log.Newest.{newest, record_each-newest}
use inf_k8s.Rules.Samples.{outside, pr_event, by_author, rule, start}

abbrev clock : ℕ → ℕ × ℕ
clock n = (n, n)

-- Each action counts as one call.
abbrev execute : Execute ℕ
execute action event raw extra s = some (tt, record s { world = suc s.world })

abbrev idle : Execute ℕ
idle action event raw extra s = some (tt, s)

abbrev chain : List RuleDef
chain = rule "first" [] by_author ∷ rule "second" ("first" ∷ []) by_author ∷ []

abbrev entry : String → MatchedRule
entry name = record {
  name = name;
  dry_run = false;
  actions = record { action = "delete_branch"; ran = true } ∷ [];
}

abbrev done : Session ℕ
done = record {
  cache = record { matcher_results = (LeafMatcher.author "renovate", true) ∷ []; values = [] };
  world = 2;
}

ran_chain :
    run_each_rule outside clock execute [] chain pr_event none start
    ≡ some (entry "first" ∷ entry "second" ∷ [], done)
unfolding run_each_rule matches eval_leaf cached_leaf cached_result template_vars is_disabled
    String_discrete action_kind to_action
ran_chain = refl

-- A dependency that is not among the rules keeps its dependent from running.
missing :
    run_each_rule outside clock execute []
      (rule "second" ("first" ∷ []) by_author ∷ [])
      pr_event
      none
      start
    ≡ some ([], start)
unfolding run_each_rule is_disabled
missing = refl

run_each_rule-IsBacked_example : IsBacked chain [] (entry "first" ∷ entry "second" ∷ [])
run_each_rule-IsBacked_example =
    run_each_rule-IsBacked outside clock execute [] chain pr_event none start done
      (entry "first" ∷ entry "second" ∷ []) ran_chain

abbrev dry : List RuleDef
dry = record (rule "first" [] by_author) { dry_run = true } ∷ []

run_each_rule-dry_run_example :
    run_each_rule outside clock execute [] dry pr_event none start
    ≡ run_each_rule outside clock idle [] dry pr_event none start
run_each_rule-dry_run_example =
    run_each_rule-dry_run outside clock execute idle [] pr_event none dry start (refl, tt)

abbrev logged : EvalLogEntry
logged = record {
  timestamp = 1;
  event_kind = "pr";
  event_key = "org/app #7";
  matched_rules = entry "first" ∷ [];
  elapsed_ms = 3;
}

record_each-newest_example :
    (record_each [] (logged ∷ logged ∷ []) ≡ newest eval_log_capacity (logged ∷ logged ∷ []))
    × (length (record_each [] (logged ∷ logged ∷ [])) ≤ eval_log_capacity)
record_each-newest_example = record_each-newest (logged ∷ logged ∷ [])
