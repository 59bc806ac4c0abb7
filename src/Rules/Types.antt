-- ===== src/Rules/Types.antt =====
-- The matchers of a rule as the configuration writes them:
-- platform-services/janitor-bot/src/rules/matchers/types.rs.
use inf_k8s.Prelude.{String, Bool, true, false, List, Option, any as any_of}
use inf_k8s.Prelude.Assoc.{Assoc}
use inf_k8s.Prelude.Strings.{String_discrete}

pub data EventKind : Type 0 where
  pr workflow commit_status check_run push sync : EventKind

pub data EventSource : Type 0 where
  forgejo github argocd : EventSource

-- The derived `==`.
unfoldable pub same_kind : EventKind → EventKind → Bool
same_kind EventKind.pr EventKind.pr = true
same_kind EventKind.workflow EventKind.workflow = true
same_kind EventKind.commit_status EventKind.commit_status = true
same_kind EventKind.check_run EventKind.check_run = true
same_kind EventKind.push EventKind.push = true
same_kind EventKind.sync EventKind.sync = true
same_kind _ _ = false

unfoldable pub same_source : EventSource → EventSource → Bool
same_source EventSource.forgejo EventSource.forgejo = true
same_source EventSource.github EventSource.github = true
same_source EventSource.argocd EventSource.argocd = true
same_source _ _ = false

pub data EventSourceSpec : Type 0 where
  one : EventSource → EventSourceSpec
  many : List EventSource → EventSourceSpec

-- `EventSourceSpec::matches`
unfoldable pub source_matches : EventSourceSpec → EventSource → Bool
unfolding same_source
source_matches (EventSourceSpec.one s) source = same_source s source
source_matches (EventSourceSpec.many ss) source = any_of (λ s. same_source s source) ss

pub data Resource : Type 0 where
  pull_request pull_request_changed_files reviews combined_status open_prs : Resource

pub data StatusCheckState : Type 0 where
  pending success error failure warning : StatusCheckState

-- `forgejo_api::structs::CommitStatusState`, as `StatusCheckState::matches` reads it.
pub data CommitStatusState : Type 0 where
  pending success error failure warning : CommitStatusState

-- `StatusCheckState::matches`
unfoldable pub state_matches : StatusCheckState → CommitStatusState → Bool
state_matches StatusCheckState.pending CommitStatusState.pending = true
state_matches StatusCheckState.success CommitStatusState.success = true
state_matches StatusCheckState.error CommitStatusState.error = true
state_matches StatusCheckState.failure CommitStatusState.failure = true
state_matches StatusCheckState.warning CommitStatusState.warning = true
state_matches _ _ = false

pub data StringMatchMode : Type 0 where
  contains contains_ignore_case equals equals_ignore_case starts_with ends_with : StringMatchMode

-- `FilePattern`, a glob that a leading `!` negates.
pub record FilePattern : Type 0 where
  pub pattern : String

pub data LeafMatcher : Type 0 where
  event : (kind : EventKind) (source : EventSourceSpec) → LeafMatcher
  app_changed_in_commit : (owner repo : String) → LeafMatcher
  action author : (value : String) → LeafMatcher
  title_matches : (value : String) (mode : StringMatchMode) → LeafMatcher
  has_label : (value : String) → LeafMatcher
  has_changed_files : LeafMatcher
  changed_files_all_match : (patterns : List FilePattern) → LeafMatcher
  changed_files_any_match : (patterns : List FilePattern) → LeafMatcher
  changed_files_none_match : (patterns : List FilePattern) → LeafMatcher
  is_open is_merged has_conflicts bot_has_approved : LeafMatcher
  bot_comment_contains : (marker value : String) → LeafMatcher
  feature_flag : (name : String) (default : Bool) (context : Assoc String) → LeafMatcher
  time_of_day : (tz after before : String) (weekdays_only : Bool) → LeafMatcher
  workflow_conclusion target_branch repository : (value : String) → LeafMatcher
  workflow_run_attempt has_status_checks all_status_checks_passed : LeafMatcher
  status_checks : (names : List String) (state : StatusCheckState) → LeafMatcher
  is_latest_by_metadata :
      (match_metadata_fields : List String) (order_by_metadata_field : Option String) → LeafMatcher
  is_latest_published_image :
      (images_metadata_field tag_metadata_field path_metadata_field : String) → LeafMatcher

-- The derived `==`.
unfoldable pub LeafMatcher-discrete : Discrete LeafMatcher
LeafMatcher-discrete = hlevel (String_discrete)

-- `expr` is the text of a condition over `value`.
pub record LeafExprMatcher : Type 0 where
  pub matcher : LeafMatcher
  pub expr : String

pub record MatcherRef : Type 0 where
  pub name : String

mutual
  pub data Matcher : Type 0 where
    combinator : Combinator → Matcher
    leaf_expr : LeafExprMatcher → Matcher
    ref : MatcherRef → Matcher
    leaf : LeafMatcher → Matcher

  pub data Combinator : Type 0 where
    all any : Matchers → Combinator
    not : Matcher → Combinator

  -- `Vec<Matcher>`
  pub data Matchers : Type 0 where
    nil : Matchers
    cons : Matcher → Matchers → Matchers

-- `LeafMatcher::kind`
unfoldable pub kind : LeafMatcher → String
kind (LeafMatcher.event _ _) = "event"
kind (LeafMatcher.app_changed_in_commit _ _) = "app_changed_in_commit"
kind (LeafMatcher.action _) = "action"
kind (LeafMatcher.author _) = "author"
kind (LeafMatcher.title_matches _ _) = "title_matches"
kind (LeafMatcher.has_label _) = "has_label"
kind LeafMatcher.has_changed_files = "has_changed_files"
kind (LeafMatcher.changed_files_all_match _) = "changed_files_all_match"
kind (LeafMatcher.changed_files_any_match _) = "changed_files_any_match"
kind (LeafMatcher.changed_files_none_match _) = "changed_files_none_match"
kind LeafMatcher.is_open = "is_open"
kind LeafMatcher.is_merged = "is_merged"
kind LeafMatcher.has_conflicts = "has_conflicts"
kind LeafMatcher.bot_has_approved = "bot.has_approved"
kind (LeafMatcher.bot_comment_contains _ _) = "bot.comment_contains"
kind (LeafMatcher.feature_flag _ _ _) = "feature_flag"
kind (LeafMatcher.time_of_day _ _ _ _) = "time_of_day"
kind (LeafMatcher.workflow_conclusion _) = "workflow_conclusion"
kind (LeafMatcher.target_branch _) = "target_branch"
kind (LeafMatcher.repository _) = "repository"
kind LeafMatcher.workflow_run_attempt = "workflow_run_attempt"
kind LeafMatcher.has_status_checks = "has_status_checks"
kind LeafMatcher.all_status_checks_passed = "all_status_checks_passed"
kind (LeafMatcher.status_checks _ _) = "status_checks"
kind (LeafMatcher.is_latest_by_metadata _ _) = "is_latest_by_metadata"
kind (LeafMatcher.is_latest_published_image _ _ _) = "is_latest_published_image"
