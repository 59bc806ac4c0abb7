-- ===== src/Rules/Leaf/Keeps.antt =====
-- The evaluation of a leaf leaves the results of other leaves alone:
-- platform-services/janitor-bot/src/rules/matchers/mod.rs.
use inf_k8s.Prelude.{String, Bool, false, List, Option, none, some}
use inf_k8s.Expr.Syntax.{Value}
use inf_k8s.Rules.Types.{LeafMatcher}
use inf_k8s.Rules.Event.{
  BotEvent, forgejo_pr, github_workflow, github_commit_status, github_check_run, github_push,
  argo_sync, PrEvent,
}
use inf_k8s.Rules.Event.Vars.{template_vars}
use inf_k8s.Rules.Schema.{RuleDef}
use inf_k8s.Rules.Clients.{Outside, PrCombinedStatus, Eval, pure, lift, ◌>>=◌}
use inf_k8s.Rules.Clients.Keeps.{Keeps, bind-Keeps, pure-Keeps, call-Keeps, lift-Keeps}
use inf_k8s.Rules.Cache.{get_pr_cached, get_changed_files_cached, combined_status_cached}
use inf_k8s.Rules.Cache.Keeps.{
  get_pr_cached-Keeps, get_reviews_cached-Keeps, get_changed_files_cached-Keeps,
  bot_comment_contains-Keeps, combined_status_cached-Keeps,
}
use inf_k8s.Rules.Cache.Latest.Keeps.{is_latest_published_image-Keeps, is_latest_by_metadata-Keeps}
use inf_k8s.Rules.Leaf.{
  on_pr, number_of, value_or, render_context, files_of, eval_leaf, eval_leaf_value,
}

module _ {W N Now : Type 0} (P : List (LeafMatcher × Bool) → Type 0)
    (outside : Outside W N Now) where
  on_pr-Keeps :
      (ev : BotEvent) (test : PrEvent → Eval W Bool)
      → ((pr : PrEvent) → Keeps P (test pr))
      → Keeps P (on_pr ev test)
  on_pr-Keeps (forgejo_pr pr) test h = h pr
  on_pr-Keeps (github_workflow _) test h = pure-Keeps P false
  on_pr-Keeps (github_commit_status _) test h = pure-Keeps P false
  on_pr-Keeps (github_check_run _) test h = pure-Keeps P false
  on_pr-Keeps (github_push _) test h = pure-Keeps P false
  on_pr-Keeps (argo_sync _) test h = pure-Keeps P false

  -- A test of what has been fetched.
  tested :
      {A : Type 0} (m : Eval W A) (test : A → Bool) → Keeps P m → Keeps P (m >>= λ a. pure (test a))
  tested m test h = bind-Keeps P m _ h λ a. pure-Keeps P (test a)

  files_of-Keeps : (ev : BotEvent) (test : List String → Bool) → Keeps P (files_of outside ev test)
  files_of-Keeps ev test = on_pr-Keeps ev _ λ pr.
      tested (get_changed_files_cached outside.clients pr) test
        (get_changed_files_cached-Keeps P outside.clients pr)

  statuses :
      (ev : BotEvent) (test : Option PrCombinedStatus → Bool)
      → Keeps P (on_pr ev λ pr. combined_status_cached outside.clients pr >>= λ s. pure (test s))
  statuses ev test = on_pr-Keeps ev _ λ pr.
      tested (combined_status_cached outside.clients pr) test
        (combined_status_cached-Keeps P outside.clients pr)

  module _ (ev : BotEvent) (rule : RuleDef) (now : Now) where
    pub eval_leaf-Keeps : (l : LeafMatcher) → Keeps P (eval_leaf outside ev l rule now)
    unfolding eval_leaf
    eval_leaf-Keeps (LeafMatcher.event kind source) = record { run = λ s h. h }
    eval_leaf-Keeps (LeafMatcher.app_changed_in_commit owner repo) = go ev
      where
        go :
            (ev : BotEvent)
            → Keeps P (eval_leaf outside ev (LeafMatcher.app_changed_in_commit owner repo) rule now)
        go (forgejo_pr _) = pure-Keeps P false
        go (github_workflow _) = pure-Keeps P false
        go (github_commit_status _) = pure-Keeps P false
        go (github_check_run _) = pure-Keeps P false
        go (github_push _) = pure-Keeps P false
        go (argo_sync sync) =
            call-Keeps P (outside.clients.check_app_changed_in_commit owner repo sync)
    eval_leaf-Keeps (LeafMatcher.action value) = on_pr-Keeps ev _ λ pr. record { run = λ s h. h }
    eval_leaf-Keeps (LeafMatcher.author value) = on_pr-Keeps ev _ λ pr. record { run = λ s h. h }
    eval_leaf-Keeps (LeafMatcher.title_matches value mode) = record { run = λ s h. h }
    eval_leaf-Keeps (LeafMatcher.has_label value) = on_pr-Keeps ev _ λ pr. record { run = λ s h. h }
    eval_leaf-Keeps LeafMatcher.has_conflicts =
        on_pr-Keeps ev _ λ pr.
          tested (get_pr_cached outside.clients pr) _ (get_pr_cached-Keeps P outside.clients pr)
    eval_leaf-Keeps LeafMatcher.is_open =
        on_pr-Keeps ev _ λ pr.
          tested (get_pr_cached outside.clients pr) _ (get_pr_cached-Keeps P outside.clients pr)
    eval_leaf-Keeps LeafMatcher.is_merged = on_pr-Keeps ev _ λ pr. pure-Keeps P pr.merged
    eval_leaf-Keeps LeafMatcher.bot_has_approved =
        on_pr-Keeps ev _ (get_reviews_cached-Keeps P outside.clients)
    eval_leaf-Keeps (LeafMatcher.bot_comment_contains marker value) =
        on_pr-Keeps ev _ λ pr. bot_comment_contains-Keeps P outside.clients pr marker value
    eval_leaf-Keeps LeafMatcher.has_changed_files = files_of-Keeps ev _
    eval_leaf-Keeps (LeafMatcher.changed_files_all_match patterns) = files_of-Keeps ev _
    eval_leaf-Keeps (LeafMatcher.changed_files_any_match patterns) = files_of-Keeps ev _
    eval_leaf-Keeps (LeafMatcher.changed_files_none_match patterns) = files_of-Keeps ev _
    eval_leaf-Keeps (LeafMatcher.feature_flag name default context) =
        bind-Keeps P (lift (template_vars outside.templating ev)) _
          (lift-Keeps P (template_vars outside.templating ev))
          λ vars.
            call-Keeps P (
              outside.clients.bool_flag name rule.name default
                (render_context outside vars context))
    eval_leaf-Keeps (LeafMatcher.time_of_day tz after before weekdays_only) = record {
      run = λ s h. h;
    }
    eval_leaf-Keeps (LeafMatcher.workflow_conclusion value) = go ev
      where
        go :
            (ev : BotEvent)
            → Keeps P (eval_leaf outside ev (LeafMatcher.workflow_conclusion value) rule now)
        go (forgejo_pr _) = pure-Keeps P false
        go (github_workflow wf) = record { run = λ s h. h }
        go (github_commit_status _) = pure-Keeps P false
        go (github_check_run _) = pure-Keeps P false
        go (github_push _) = pure-Keeps P false
        go (argo_sync sync) = pure-Keeps P false
    eval_leaf-Keeps (LeafMatcher.target_branch value) = record { run = λ s h. h }
    eval_leaf-Keeps (LeafMatcher.repository value) = record { run = λ s h. h }
    eval_leaf-Keeps LeafMatcher.workflow_run_attempt = record { run = λ s h. h }
    eval_leaf-Keeps LeafMatcher.has_status_checks = statuses ev _
    eval_leaf-Keeps LeafMatcher.all_status_checks_passed = statuses ev _
    eval_leaf-Keeps (LeafMatcher.status_checks names state) = statuses ev _
    eval_leaf-Keeps (LeafMatcher.is_latest_by_metadata fields order_field) =
        on_pr-Keeps ev _ λ pr. is_latest_by_metadata-Keeps P outside pr fields order_field
    eval_leaf-Keeps (LeafMatcher.is_latest_published_image images tag path) =
        on_pr-Keeps ev _ λ pr. is_latest_published_image-Keeps P outside pr images tag path

    pub eval_leaf_value-Keeps : (l : LeafMatcher) → Keeps P (eval_leaf_value outside ev l rule now)
    unfolding eval_leaf_value
    eval_leaf_value-Keeps l = go (number_of ev l)
      where
        go : (o : Option Value) → Keeps P (value_or o (eval_leaf outside ev l rule now))
        go (some number) = pure-Keeps P number
        go none =
            bind-Keeps P (eval_leaf outside ev l rule now) _ (eval_leaf-Keeps l)
              λ b. pure-Keeps P (Value.bool b)
