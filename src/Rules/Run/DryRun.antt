-- ===== src/Rules/Run/DryRun.antt =====
-- What a dry run leaves undone: platform-services/janitor-bot/src/rules/mod.rs, `dispatch_actions`.
use inf_k8s.Prelude.{
  ◌≡◌, refl, sym, ap, subst, true, not, String, List, [], ◌∷◌, Option, All, if◌then◌else◌,
}
use inf_k8s.Prelude.Assoc.{Assoc}
use inf_k8s.Rules.Event.{BotEvent, RawRequest}
use inf_k8s.Rules.Schema.{is_disabled, ActionDef, ActionGroup, RuleDef, RepoConfig}
use inf_k8s.Rules.Clients.{Outside, Session, pure, ◌>>=◌}
use inf_k8s.Rules.Run.{
  Execute, log_action, dependencies_met, with_executed, match_rule, dispatch_actions, recheck,
  run_open_group, run_action_group, run_groups, mirror_vars, execute_actions, each_rule,
  run_each_rule,
}

module _ {W N Now : Type 0} (outside : Outside W N Now) (clock : W → Now × W)
    (execute execute' : Execute W) (repos : List RepoConfig) (event : BotEvent)
    (raw : Option RawRequest) where
  dispatch_same :
      (extra : Assoc String) (run : List ActionDef)
      → dispatch_actions outside clock execute repos event raw true extra run
        ≡ dispatch_actions outside clock execute' repos event raw true extra run
  unfolding dispatch_actions
  dispatch_same extra [] = refl
  dispatch_same extra (def ∷ run) =
      ap (λ m. m >>= λ rest. pure (log_action true def ∷ rest)) (dispatch_same extra run)

  recheck_same :
      (rule : RuleDef) (extra : Assoc String) (group : ActionGroup)
      → recheck outside clock execute repos event raw rule true extra group
        ≡ recheck outside clock execute' repos event raw rule true extra group
  unfolding recheck
  recheck_same rule extra group = rw (dispatch_same extra group.run) refl

  open_same :
      (rule : RuleDef) (extra : Assoc String) (group : ActionGroup)
      → run_open_group outside clock execute repos event raw rule true extra group
        ≡ run_open_group outside clock execute' repos event raw rule true extra group
  unfolding run_open_group
  open_same rule extra group =
      rw (dispatch_same extra group.run, recheck_same rule extra group) refl

  groups_same :
      (rule : RuleDef) (extra : Assoc String) (groups : List ActionGroup)
      → run_groups outside clock execute repos event raw rule true extra groups
        ≡ run_groups outside clock execute' repos event raw rule true extra groups
  unfolding run_groups run_action_group
  groups_same rule extra [] = refl
  groups_same rule extra (group ∷ groups) =
      rw (open_same rule extra group, groups_same rule extra groups) refl

  actions_same :
      (rule : RuleDef)
      → execute_actions outside clock execute repos event raw rule true
        ≡ execute_actions outside clock execute' repos event raw rule true
  unfolding execute_actions
  actions_same rule =
      λ i. mirror_vars outside clock repos event >>= λ extra. groups_same rule extra rule.actions i

  dry_same :
      (rule : RuleDef)
      → rule.dry_run ≡ true
      → execute_actions outside clock execute repos event raw rule rule.dry_run
        ≡ execute_actions outside clock execute' repos event raw rule rule.dry_run
  dry_same rule dry =
      subst
        (λ d.
          execute_actions outside clock execute repos event raw rule d
          ≡ execute_actions outside clock execute' repos event raw rule d)
        (sym dry) (actions_same rule)

  rules_same :
      (rules : List RuleDef) (executed : List String)
      → All (λ r. r.dry_run ≡ true) rules
      → each_rule outside clock event
          (λ rule. execute_actions outside clock execute repos event raw rule rule.dry_run)
          rules
          executed
        ≡ each_rule outside clock event
            (λ rule. execute_actions outside clock execute' repos event raw rule rule.dry_run)
            rules
            executed
  unfolding each_rule
  rules_same [] executed h = refl
  rules_same (rule ∷ rules) executed h = λ i.
      let skip = rules_same rules executed h.1 i in
      if is_disabled rule.disabled
      then skip
      else if not (dependencies_met rule executed)
      then skip
      else (match_rule outside clock rule event >>= λ is_match.
          if is_match
          then (dry_same rule h.0 i >>= λ actions.
              rules_same rules (with_executed rule actions executed) h.1 i >>= λ rest.
              pure (record { name = rule.name; dry_run = rule.dry_run; actions = actions } ∷ rest))
          else skip)

  -- Where every rule is marked as a dry run, an evaluation carries out no action: whatever the
  -- actions would do, its report and its effect on the world are the same.
  pub run_each_rule-dry_run :
      (rules : List RuleDef) (s : Session W)
      → All (λ r. r.dry_run ≡ true) rules
      → run_each_rule outside clock execute repos rules event raw s
        ≡ run_each_rule outside clock execute' repos rules event raw s
  unfolding run_each_rule
  run_each_rule-dry_run rules s h = λ i. rules_same rules [] h i s
