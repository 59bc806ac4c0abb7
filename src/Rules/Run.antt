-- ===== src/Rules/Run.antt =====
-- The evaluation of an event against all rules: `RulesOrchestrator` of platform-services/
-- janitor-bot/src/rules/mod.rs. One evaluation is modelled at a time; what others do while it waits
-- for a lock or a client is part of the world.
pub mod Log
pub mod Every
pub mod Backed
pub mod DryRun
pub mod Entry
mod Tests
use Prim.Native.String.{◌++◌ as join_text}
use inf_k8s.Prelude.{
  ℕ, String, Bool, true, false, not, ◌&&◌, ◌||◌, all, any, List, [], ◌∷◌, ◌++◌, map, Option, none,
  some, if◌then◌else◌, str_eq, find,
}
use inf_k8s.Prelude.Assoc.{Assoc, lookup}
use inf_k8s.Prelude.Text.{split_once}
use inf_k8s.Rules.Types.{Matcher}
use inf_k8s.Rules.Event.{BotEvent, RawRequest}
use inf_k8s.Rules.Event.Vars.{event_kind, event_key, template_vars, render_template}
use inf_k8s.Rules.Schema.{
  is_disabled, TemplateString, ActionDef, ActionGroup, RuleDef, RulesFile, RepoConfig,
}
use inf_k8s.Rules.Schema.Actions.{Action, to_action, action_kind}
use inf_k8s.Rules.Clients.{Outside, Session, new_cache, Eval, pure, call, lift, and_then, ◌>>=◌}
use inf_k8s.Rules.Match.{matches}
use inf_k8s.Rules.Resolve.{has}

pub record ExplainAction : Type 0 where
  pub action : String
  pub ran : Bool

pub record MatchedRule : Type 0 where
  pub name : String
  pub dry_run : Bool
  pub actions : List ExplainAction

-- A set of names is a list.
unfoldable pub dependencies_met : RuleDef → List String → Bool
dependencies_met rule executed = all (λ dep. has dep executed) rule.depends_on

abbrev pub any_ran : List ExplainAction → Bool
any_ran actions = any (λ (a : ExplainAction). a.ran) actions

abbrev pub log_action : Bool → ActionDef → ExplainAction
log_action ran def = record { action = action_kind (to_action def); ran = ran }

-- `push_skipped`, and what `explain_action_runs` adds for a group.
abbrev pub log_all : Bool → List ActionDef → List ExplainAction
log_all ran run = map (log_action ran) run

abbrev pub with_executed : RuleDef → List ExplainAction → List String → List String
with_executed rule actions executed = if any_ran actions then rule.name ∷ executed else executed

abbrev slug_of : Option RepoConfig → Option (String × String)
slug_of none = none
slug_of (some r) = split_once b'/' r.repo

abbrev mirrors : String → RepoConfig → Bool
mirrors github_repo r = elim r.github_repo [ none ↦ false | some name ↦ str_eq name github_repo ]

abbrev mirror_entries : Option (String × String) → Assoc String
mirror_entries none = []
mirror_entries (some (owner, repo)) = ("mirror.owner", owner) ∷ ("mirror.repo", repo) ∷ []

unfoldable pub mirror_vars_of : List RepoConfig → Option String → Assoc String
mirror_vars_of repos none = []
mirror_vars_of repos (some github_repo) =
    mirror_entries (slug_of (find (mirrors github_repo) repos))

-- `Action::execute` of rules/actions.rs, with the event, the request and the extra variables.
abbrev pub Execute : Type 0 → Type 0
Execute W = Action → BotEvent → Option RawRequest → Assoc String → Eval W (Unit {0})

module _ {W N Now : Type 0} (outside : Outside W N Now) (clock : W → Now × W) where
  unfoldable pub mirror_vars : List RepoConfig → BotEvent → Eval W (Assoc String)
  unfolding mirror_vars_of
  mirror_vars repos event = do
    vars ← lift (template_vars outside.templating event)
    pure (mirror_vars_of repos (lookup "repository" vars))

  unfoldable pub match_rule : RuleDef → BotEvent → Eval W Bool
  unfolding matches
  match_rule rule event = do now ← call clock; matches outside event rule now rule.when

  -- Whether the gate of a group is open; one that is absent is.
  unfoldable pub gate_at : RuleDef → BotEvent → Now → Option Matcher → Eval W Bool
  unfolding matches
  gate_at rule event now none = pure true
  gate_at rule event now (some when) = matches outside event rule now when

  unfoldable pub gate_ok : RuleDef → BotEvent → Option Matcher → Eval W Bool
  unfolding matches
  gate_ok rule event none = pure true
  gate_ok rule event (some when) = do now ← call clock; matches outside event rule now when

  unfoldable pub explain_groups :
      RuleDef → BotEvent → Now → List ActionGroup → Eval W (List ExplainAction)
  unfolding gate_at
  explain_groups rule event now [] = pure []
  explain_groups rule event now (group ∷ groups) = do
    ok ← gate_at rule event now group.when
    rest ← explain_groups rule event now groups
    pure (log_all ok group.run ++ rest)

  unfoldable pub explain_action_runs : RuleDef → BotEvent → Eval W (List ExplainAction)
  unfolding explain_groups
  explain_action_runs rule event = do now ← call clock; explain_groups rule event now rule.actions

  module _ (execute : Execute W) (repos : List RepoConfig) (event : BotEvent)
      (raw : Option RawRequest) where
    -- The action runs with the caches of the session.
    unfoldable pub dispatch_actions :
        (dry_run : Bool) → Assoc String → List ActionDef → Eval W (List ExplainAction)
    dispatch_actions dry_run extra [] = pure []
    dispatch_actions true extra (def ∷ run) = do
      rest ← dispatch_actions true extra run
      pure (log_action true def ∷ rest)
    dispatch_actions false extra (def ∷ run) = do
      done ← execute (to_action def) event raw extra
      rest ← dispatch_actions false extra run
      pure (log_action true def ∷ rest)

    -- A computation on fresh caches; the old ones are there again after it.
    unfoldable pub with_new_cache : {A : Type 0} → Eval W A → Eval W A
    with_new_cache m s =
        and_then (m (record s { cache = new_cache }))
          (λ a s'. some (a, record s' { cache = s.cache }))

    unfoldable pub recheck :
        RuleDef → (dry_run : Bool) → Assoc String → ActionGroup → Eval W (List ExplainAction)
    unfolding match_rule gate_ok dispatch_actions
    recheck rule dry_run extra group = do
      rule_ok ← match_rule rule event
      group_ok ← gate_ok rule event group.when
      let skipped : Eval W (List ExplainAction) = pure (log_all false group.run)
      if not rule_ok || not group_ok then skipped else dispatch_actions dry_run extra group.run

    -- A serial group renders the name of its lock, and is checked again once it has the lock.
    abbrev pub by_serial :
        Option TemplateString
        → (at_once rechecked : Eval W (List ExplainAction)) → Eval W (List ExplainAction)
    by_serial none at_once rechecked = at_once
    by_serial (some key) at_once rechecked = do
      vars ← lift (template_vars outside.templating event)
      rechecked

    unfoldable pub run_open_group :
        RuleDef → (dry_run : Bool) → Assoc String → ActionGroup → Eval W (List ExplainAction)
    unfolding dispatch_actions recheck with_new_cache
    run_open_group rule dry_run extra group =
        by_serial group.serial (dispatch_actions dry_run extra group.run)
          (with_new_cache (recheck rule dry_run extra group))

    unfoldable pub run_action_group :
        RuleDef → (dry_run : Bool) → Assoc String → ActionGroup → Eval W (List ExplainAction)
    unfolding gate_ok run_open_group
    run_action_group rule dry_run extra group = do
      ok ← gate_ok rule event group.when
      if not ok then pure (log_all false group.run) else run_open_group rule dry_run extra group

    unfoldable pub run_groups :
        RuleDef → (dry_run : Bool) → Assoc String → List ActionGroup → Eval W (List ExplainAction)
    unfolding run_action_group
    run_groups rule dry_run extra [] = pure []
    run_groups rule dry_run extra (group ∷ groups) = do
      here ← run_action_group rule dry_run extra group
      rest ← run_groups rule dry_run extra groups
      pure (here ++ rest)

    unfoldable pub execute_actions : RuleDef → (dry_run : Bool) → Eval W (List ExplainAction)
    unfolding mirror_vars run_groups
    execute_actions rule dry_run = do
      extra ← mirror_vars repos event
      run_groups rule dry_run extra rule.actions

  -- The loop over the rules, with what is done for a rule that matches.
  module _ (event : BotEvent) (carry_out : RuleDef → Eval W (List ExplainAction)) where
    unfoldable pub each_rule : List RuleDef → List String → Eval W (List MatchedRule)
    unfolding match_rule dependencies_met
    each_rule [] executed = pure []
    each_rule (rule ∷ rules) executed =
        let skip = each_rule rules executed in
        let matched : Eval W (List MatchedRule) = (do
          actions ← carry_out rule
          rest ← each_rule rules (with_executed rule actions executed)
          pure (record { name = rule.name; dry_run = rule.dry_run; actions = actions } ∷ rest)) in
        let tried : Eval W (List MatchedRule) = (do
          is_match ← match_rule rule event
          if is_match then matched else skip) in
        if is_disabled rule.disabled
        then skip
        else if not (dependencies_met rule executed)
        then skip
        else tried

  -- The loop of `explain_rules_with_cache`
  unfoldable pub explain_rules_with_cache : List RuleDef → BotEvent → Eval W (List MatchedRule)
  unfolding each_rule explain_action_runs
  explain_rules_with_cache rules event =
      each_rule event (λ rule. explain_action_runs rule event) rules []

  -- The loop of `run_rules_with_cache`
  unfoldable pub run_each_rule :
      Execute W
      → List RepoConfig
      → List RuleDef
      → BotEvent
      → Option RawRequest
      → Eval W (List MatchedRule)
  unfolding each_rule execute_actions
  run_each_rule execute repos rules event raw =
      each_rule event (λ rule. execute_actions execute repos event raw rule rule.dry_run) rules []
