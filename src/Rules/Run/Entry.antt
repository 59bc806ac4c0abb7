-- ===== src/Rules/Run/Entry.antt =====
-- How events enter the evaluation: the rest of `RulesOrchestrator` in platform-services/janitor-bot/
-- src/rules/mod.rs. A lock is held by one evaluation at a time, and is not in the model.
pub mod Setup
use inf_k8s.Prelude.{
  ℕ, String, Bool, true, false, any, List, [], ◌∷◌, ◌++◌, find, str_eq, Option, none, some,
  if◌then◌else◌,
}
use inf_k8s.Prelude.Text.{split_once}
use inf_k8s.Rules.Types.{Resource, Matcher}
use inf_k8s.Rules.Requires.{requires}
use inf_k8s.Rules.Event.{
  PrEvent, CommitStatusEvent, ArgoSyncEvent, PushEvent, RawRequest, CheckRunEvent, WorkflowEvent,
  BotEvent, forgejo_pr, github_workflow, github_commit_status, github_check_run, github_push,
  argo_sync,
}
use inf_k8s.Rules.Event.Vars.{event_kind, event_key}
use inf_k8s.Rules.Schema.{is_disabled, ActionGroup, RuleDef, RulesFile}
use inf_k8s.Rules.Clients.{Outside, Session, new_cache, Eval, pure, call, lift, ◌>>=◌}
use inf_k8s.Rules.Cache.Prefetch.{prefetch}
use inf_k8s.Rules.Run.{
  MatchedRule, ExplainAction, Execute, execute_actions, explain_rules_with_cache, run_each_rule,
}
use inf_k8s.Rules.Run.Log.{EvalLogEntry, record_eval}

abbrev and_also : Option (List Resource) → Option (List Resource) → Option (List Resource)
and_also (some xs) (some ys) = some (xs ++ ys)
and_also _ _ = none

abbrev gate_resources : Option Matcher → Option (List Resource)
gate_resources none = some []
gate_resources (some when) = requires when

unfoldable pub group_resources : List ActionGroup → Option (List Resource)
group_resources [] = some []
group_resources (group ∷ groups) = and_also (gate_resources group.when) (group_resources groups)

-- `none` is the panic of `requires`.
unfoldable pub collect_resources : List RuleDef → Option (List Resource)
unfolding group_resources
collect_resources [] = some []
collect_resources (rule ∷ rules) =
    let rest = collect_resources rules in
    let here = and_also (requires rule.when) (group_resources rule.actions) in
    if is_disabled rule.disabled then rest else and_also here rest

-- The calls of GitHub.
pub record GitHub (W : Type 0) : Type 0 where
  -- The logs of the failed jobs.
  pub fetch_failed_jobs : String → W → String × W
  pub workflow_run_name : String → String → ℕ → W → Option String × W

-- The rules, the clock of the rules, and that of the log: the time, and how long it took.
pub record Orchestrator (W N Now : Type 0) : Type 0 where
  pub outside : Outside W N Now
  pub github : GitHub W
  pub file : RulesFile
  pub clock : W → Now × W
  pub stamp : W → (ℕ × ℕ) × W
  pub execute : Execute W

abbrev pub ignore_label : String
ignore_label = "janitor/ignore"

abbrev ignored : PrEvent → Bool
ignored event = any (λ l. str_eq l.name ignore_label) event.labels

-- The log after an evaluation.
abbrev Logged : Type 0 → Type 0
Logged W = List EvalLogEntry → Eval W (List EvalLogEntry)

module _ {W N Now : Type 0} (o : Orchestrator W N Now) where
  unfoldable pub run_rules_with_cache : BotEvent → Option RawRequest → Logged W
  unfolding run_each_rule record_eval
  run_rules_with_cache event raw log = do
    matched ← run_each_rule o.outside o.clock o.execute o.file.repos o.file.rules event raw
    (timestamp, elapsed) ← call o.stamp
    pure (
        record_eval log (record {
          timestamp = timestamp;
          event_kind = event_kind event;
          event_key = event_key event;
          matched_rules = matched;
          elapsed_ms = elapsed;
        }))

  -- `ResourceCache::new`, and what all rules need of it.
  unfoldable pub fresh_cache : BotEvent → Eval W (Unit {0})
  unfolding collect_resources prefetch
  fresh_cache event = do
    emptied ← (λ s. some (tt, record s { cache = new_cache }))
    resources ← lift (collect_resources o.file.rules)
    prefetch o.outside.clients event resources

  unfoldable pub run_rules : BotEvent → Option RawRequest → Logged W
  unfolding fresh_cache run_rules_with_cache
  run_rules event raw log = do ready ← fresh_cache event; run_rules_with_cache event raw log

  unfoldable pub explain_rules : BotEvent → Eval W (List MatchedRule)
  unfolding fresh_cache explain_rules_with_cache
  explain_rules event = do
    ready ← fresh_cache event
    explain_rules_with_cache o.outside o.clock o.file.rules event

  unfoldable pub explain_pr : PrEvent → Eval W (List MatchedRule)
  unfolding explain_rules
  explain_pr event = explain_rules (forgejo_pr event)

  unfoldable pub explain_and_evaluate_pr :
      PrEvent → List EvalLogEntry → Eval W (List MatchedRule × List EvalLogEntry)
  unfolding fresh_cache explain_rules_with_cache run_rules_with_cache
  explain_and_evaluate_pr event log =
      let evaluated : Eval W (List MatchedRule × List EvalLogEntry) = (do
        ready ← fresh_cache (forgejo_pr event)
        matched ← explain_rules_with_cache o.outside o.clock o.file.rules (forgejo_pr event)
        log' ← run_rules_with_cache (forgejo_pr event) none log
        pure (matched, log')) in
      if ignored event then pure ([], log) else evaluated

  unfoldable pub evaluate_pr : PrEvent → Logged W
  unfolding run_rules
  evaluate_pr event log =
      let evaluated = run_rules (forgejo_pr event) none log in
      if ignored event then pure log else evaluated

  unfoldable pub with_failed_logs : WorkflowEvent → Eval W WorkflowEvent
  with_failed_logs event =
      let fetched : Eval W WorkflowEvent = (do
        logs ← call (o.github.fetch_failed_jobs event.jobs_url)
        pure (record event { failed_jobs_logs = logs })) in
      if str_eq event.conclusion "failure" then fetched else pure event

  unfoldable pub explain_workflow : WorkflowEvent → Eval W (List MatchedRule)
  unfolding with_failed_logs explain_rules
  explain_workflow event = do
    event' ← with_failed_logs event
    explain_rules (github_workflow event')

  unfoldable pub evaluate_workflow : WorkflowEvent → Logged W
  unfolding with_failed_logs run_rules
  evaluate_workflow event log = do
    event' ← with_failed_logs event
    run_rules (github_workflow event') none log

  abbrev renamed : CheckRunEvent → Option String → CheckRunEvent
  renamed event none = event
  renamed event (some name) = record event { workflow_name = name }

  abbrev look_up_name : CheckRunEvent → Option ℕ → Option (String × String) → Eval W CheckRunEvent
  look_up_name event (some run_id) (some (owner, repo)) = do
    name ← call (o.github.workflow_run_name owner repo run_id)
    pure (renamed event name)
  look_up_name event _ _ = pure event

  unfoldable pub enrich_check_run : CheckRunEvent → Eval W CheckRunEvent
  enrich_check_run event = look_up_name event event.run_id (split_once b'/' event.repository)

  unfoldable pub explain_check_run : CheckRunEvent → Eval W (List MatchedRule)
  unfolding enrich_check_run explain_rules
  explain_check_run event = do
    event' ← enrich_check_run event
    explain_rules (github_check_run event')

  unfoldable pub evaluate_check_run : CheckRunEvent → Logged W
  unfolding enrich_check_run run_rules
  evaluate_check_run event log = do
    event' ← enrich_check_run event
    run_rules (github_check_run event') none log

  unfoldable pub explain_commit_status : CommitStatusEvent → Eval W (List MatchedRule)
  unfolding explain_rules
  explain_commit_status event = explain_rules (github_commit_status event)

  unfoldable pub explain_argocd_sync : ArgoSyncEvent → Eval W (List MatchedRule)
  unfolding explain_rules
  explain_argocd_sync event = explain_rules (argo_sync event)

  unfoldable pub explain_push : PushEvent → Eval W (List MatchedRule)
  unfolding explain_rules
  explain_push event = explain_rules (github_push event)

  unfoldable pub evaluate_commit_status : CommitStatusEvent → Logged W
  unfolding run_rules
  evaluate_commit_status event log = run_rules (github_commit_status event) none log

  unfoldable pub evaluate_argocd_sync : ArgoSyncEvent → Logged W
  unfolding run_rules
  evaluate_argocd_sync event log = run_rules (argo_sync event) none log

  unfoldable pub evaluate_push : PushEvent → RawRequest → Logged W
  unfolding run_rules
  evaluate_push event raw log = run_rules (github_push event) (some raw) log

  abbrev unconditionally : PrEvent → Option RuleDef → Eval W (Option (Unit {0}))
  unconditionally event none = pure none
  unconditionally event (some rule) = do
    ready ← fresh_cache (forgejo_pr event)
    actions ←
        execute_actions o.outside o.clock o.execute o.file.repos (forgejo_pr event) none rule false
    pure (some tt)

  -- `none` is the error that no rule has the name.
  unfoldable pub run_rule_by_name_unconditionally : PrEvent → String → Eval W (Option (Unit {0}))
  unfolding fresh_cache execute_actions
  run_rule_by_name_unconditionally event name =
      unconditionally event (find (λ (r : RuleDef). str_eq r.name name) o.file.rules)
