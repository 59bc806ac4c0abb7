-- ===== src/Rules/Leaf.antt =====
-- The evaluation of one condition of a rule, a leaf of its matcher: platform-services/janitor-bot/src/rules/matchers/mod.rs.
pub mod Keeps
use Prim.Native.String.{◌++◌}
use inf_k8s.Prelude.{
  ℕ, String, Bool, true, false, not, ◌&&◌, all, any, List, [], ◌∷◌, Option, none, some, str_eq,
  if◌then◌else◌, is_empty, leb, ltb,
}
use inf_k8s.Prelude.Int.{pos, as_i64, ltb_ℤ}
use inf_k8s.Prelude.Assoc.{Assoc}
use inf_k8s.Expr.Syntax.{Value}
use inf_k8s.Rules.Types.{
  EventKind, EventSource, same_kind, source_matches, StatusCheckState, state_matches, FilePattern,
  LeafMatcher,
}
use inf_k8s.Rules.Texts.{mode_matches, file_matches}
use inf_k8s.Rules.Event.{
  BotEvent, forgejo_pr, github_workflow, github_commit_status, github_check_run, github_push,
  argo_sync, PrEvent,
}
use inf_k8s.Rules.Event.Vars.{template_vars, render_template}
use inf_k8s.Rules.Schema.{RuleDef}
use inf_k8s.Rules.Clients.{
  Outside, StateType, opened, PrStatusEntry, PrCombinedStatus, Weekday, sat, sun, LocalTime, Eval,
  pure, call, lift, ◌>>=◌,
}
use inf_k8s.Rules.Cache.{
  get_changed_files_cached, get_pr_cached, get_reviews_cached, bot_comment_contains,
  combined_status_cached,
}
use inf_k8s.Rules.Cache.Latest.{is_latest_by_metadata, is_latest_published_image}

unfoldable pub event_kind_and_source : BotEvent → EventKind × EventSource
event_kind_and_source (forgejo_pr _) = (EventKind.pr, EventSource.forgejo)
event_kind_and_source (github_workflow _) = (EventKind.workflow, EventSource.github)
event_kind_and_source (github_commit_status _) = (EventKind.commit_status, EventSource.github)
event_kind_and_source (github_check_run _) = (EventKind.check_run, EventSource.github)
event_kind_and_source (github_push _) = (EventKind.push, EventSource.github)
event_kind_and_source (argo_sync _) = (EventKind.sync, EventSource.argocd)

-- `is_some_and`
abbrev pub is_some_and : {A : Type 0} → (A → Bool) → Option A → Bool
is_some_and p none = false
is_some_and p (some a) = p a

abbrev is_false : Option Bool → Bool
is_false none = false
is_false (some b) = not b

abbrev is_opened : Option StateType → Bool
is_opened (some opened) = true
is_opened _ = false

abbrev or_false : Option Bool → Bool
or_false none = false
or_false (some b) = b

abbrev is_weekend : Weekday → Bool
is_weekend sat = true
is_weekend sun = true
is_weekend _ = false

-- `match ev { BotEvent::ForgejoPr(pr) => .., _ => false }`
abbrev pub on_pr : {W : Type 0} → BotEvent → (PrEvent → Eval W Bool) → Eval W Bool
on_pr (forgejo_pr pr) test = test pr
on_pr _ test = pure false

unfoldable pub title_of : BotEvent → String
title_of (forgejo_pr pr) = pr.title
title_of (github_workflow wf) = wf.display_title
title_of (github_commit_status cs) = cs.context
title_of (github_check_run cr) = cr.workflow_name ++ " " ++ cr.name
title_of (github_push push) = push.branch
title_of (argo_sync sync) = sync.app_name

unfoldable pub targets_branch : BotEvent → String → Bool
targets_branch (forgejo_pr pr) value = str_eq pr.target_branch value
targets_branch (github_workflow wf) value = str_eq wf.branch value
targets_branch (github_push push) value = str_eq push.branch value
targets_branch _ value = false

unfoldable pub in_repository : BotEvent → String → Bool
in_repository (forgejo_pr pr) value = str_eq (pr.owner ++ "/" ++ pr.repo) value
in_repository (github_workflow wf) value = str_eq wf.repository value
in_repository (github_commit_status cs) value = str_eq cs.repository value
in_repository (github_check_run cr) value = str_eq cr.repository value
in_repository (github_push push) value = str_eq push.repository value
in_repository (argo_sync _) value = false

abbrev is_workflow : BotEvent → Bool
is_workflow (github_workflow _) = true
is_workflow _ = false

abbrev is_success : PrCombinedStatus → Bool
is_success s = state_matches StatusCheckState.success s.state

-- Each name has a status of that name and state.
unfoldable pub checks_met : List String → StatusCheckState → PrCombinedStatus → Bool
checks_met names state s =
    all
      (λ n.
        any (λ (st : PrStatusEntry). str_eq st.context n && state_matches state st.state)
          s.statuses)
      names

-- The leaf that has a number for its value.
abbrev pub number_of : BotEvent → LeafMatcher → Option Value
number_of (github_workflow wf) LeafMatcher.workflow_run_attempt =
    some (Value.i64 (as_i64 wf.run_attempt))
number_of _ LeafMatcher.workflow_run_attempt = some (Value.i64 (pos 0))
number_of _ _ = none

abbrev pub value_or : {W : Type 0} → Option Value → Eval W Bool → Eval W Value
value_or (some number) evaluate = pure number
value_or none evaluate = do b ← evaluate; pure (Value.bool b)

module _ {W N Now : Type 0} (outside : Outside W N Now) where
  abbrev pub any_pattern : List FilePattern → String → Bool
  any_pattern patterns f = any (λ p. file_matches outside.library p f) patterns

  abbrev pub files_of : BotEvent → (List String → Bool) → Eval W Bool
  files_of ev test =
      on_pr ev λ pr. do files ← get_changed_files_cached outside.clients pr; pure (test files)

  unfoldable pub render_context : Assoc String → Assoc String → Assoc String
  render_context vars [] = []
  render_context vars ((k, v) ∷ rest) =
      (k, render_template outside.templating v vars) ∷ render_context vars rest

  abbrev in_window : Bool → ℕ → ℕ → LocalTime → Bool
  in_window weekdays_only after before now =
      if weekdays_only && is_weekend now.weekday
      then false
      else leb after now.time && ltb now.time before

  unfoldable pub time_of_day : String → String → String → Bool → Now → Bool
  time_of_day tz after before weekdays_only now = elim (outside.chrono.with_timezone tz) [
    | none ↦ false
    | some local ↦ elim (outside.chrono.parse_hm after) [
      | none ↦ false
      | some after_t ↦ elim (outside.chrono.parse_hm before) [
        | none ↦ false
        | some before_t ↦ in_window weekdays_only after_t before_t (local now)
      ]
    ]
  ]

  module _ (ev : BotEvent) where
    unfoldable pub eval_leaf : LeafMatcher → RuleDef → Now → Eval W Bool
    unfolding time_of_day render_context
    eval_leaf (LeafMatcher.event kind source) rule now =
        let (ev_kind, ev_source) = event_kind_and_source ev in
        pure (same_kind ev_kind kind && source_matches source ev_source)
    eval_leaf (LeafMatcher.app_changed_in_commit owner repo) rule now = elim ev [
      | argo_sync sync ↦ call (outside.clients.check_app_changed_in_commit owner repo sync)
      | _ ↦ pure false
    ]
    eval_leaf (LeafMatcher.action value) rule now = on_pr ev λ pr. pure (str_eq pr.action value)
    eval_leaf (LeafMatcher.author value) rule now = on_pr ev λ pr. pure (str_eq pr.author value)
    eval_leaf (LeafMatcher.title_matches value mode) rule now =
        pure (mode_matches outside.library mode (title_of ev) value)
    eval_leaf (LeafMatcher.has_label value) rule now =
        on_pr ev λ pr. pure (any (λ l. str_eq l.name value) pr.labels)
    eval_leaf LeafMatcher.has_conflicts rule now = on_pr ev λ pr. do
      p ← get_pr_cached outside.clients pr
      pure (is_some_and (λ p. is_false p.mergeable) p)
    eval_leaf LeafMatcher.is_open rule now = on_pr ev λ pr. do
      p ← get_pr_cached outside.clients pr
      pure (is_some_and (λ p. is_opened p.state && not (or_false p.merged)) p)
    eval_leaf LeafMatcher.is_merged rule now = on_pr ev λ pr. pure pr.merged
    eval_leaf LeafMatcher.bot_has_approved rule now =
        on_pr ev λ pr. get_reviews_cached outside.clients pr
    eval_leaf (LeafMatcher.bot_comment_contains marker value) rule now =
        on_pr ev λ pr. bot_comment_contains outside.clients pr marker value
    eval_leaf LeafMatcher.has_changed_files rule now = files_of ev λ files. not (is_empty files)
    eval_leaf (LeafMatcher.changed_files_all_match patterns) rule now =
        files_of ev λ files. not (is_empty files) && all (any_pattern patterns) files
    eval_leaf (LeafMatcher.changed_files_any_match patterns) rule now =
        files_of ev (any (any_pattern patterns))
    eval_leaf (LeafMatcher.changed_files_none_match patterns) rule now =
        files_of ev (all (λ f. not (any_pattern patterns f)))
    eval_leaf (LeafMatcher.feature_flag name default context) rule now = do
      vars ← lift (template_vars outside.templating ev)
      call (outside.clients.bool_flag name rule.name default (render_context vars context))
    eval_leaf (LeafMatcher.time_of_day tz after before weekdays_only) rule now =
        pure (time_of_day tz after before weekdays_only now)
    eval_leaf (LeafMatcher.workflow_conclusion value) rule now = elim ev [
      | github_workflow wf ↦ pure (str_eq wf.conclusion value)
      | _ ↦ pure false
    ]
    eval_leaf (LeafMatcher.target_branch value) rule now = pure (targets_branch ev value)
    eval_leaf (LeafMatcher.repository value) rule now = pure (in_repository ev value)
    eval_leaf LeafMatcher.workflow_run_attempt rule now = pure (is_workflow ev)
    eval_leaf LeafMatcher.has_status_checks rule now = on_pr ev λ pr. do
      s ← combined_status_cached outside.clients pr
      pure (is_some_and (λ s. ltb_ℤ (pos 0) s.total_count) s)
    eval_leaf LeafMatcher.all_status_checks_passed rule now =
        on_pr ev
          λ pr. do s ← combined_status_cached outside.clients pr; pure (is_some_and is_success s)
    eval_leaf (LeafMatcher.status_checks names state) rule now = on_pr ev λ pr. do
      s ← combined_status_cached outside.clients pr
      pure (is_some_and (checks_met names state) s)
    eval_leaf (LeafMatcher.is_latest_by_metadata fields order_field) rule now =
        on_pr ev λ pr. is_latest_by_metadata outside pr fields order_field
    eval_leaf (LeafMatcher.is_latest_published_image images tag path) rule now =
        on_pr ev λ pr. is_latest_published_image outside pr images tag path

    unfoldable pub eval_leaf_value : LeafMatcher → RuleDef → Now → Eval W Value
    unfolding eval_leaf
    eval_leaf_value leaf rule now = value_or (number_of ev leaf) (eval_leaf leaf rule now)
