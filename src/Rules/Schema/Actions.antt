-- ===== src/Rules/Schema/Actions.antt =====
-- The actions that a rule carries out: platform-services/janitor-bot/src/rules/schema.rs
-- (`to_action`) and platform-services/janitor-bot/src/rules/actions.rs.
use inf_k8s.Prelude.{ℕ, String, Bool, List, Option, none, some}
use inf_k8s.Rules.Schema.{
  TemplateString, LabelSpec, IssueTarget, CloseOtherPrsCriteria, RetryWorkflowTargetDef,
  ProxyServiceDef, MergeStrategy, ActionDef,
}

pub data RetryWorkflowTarget : Type 0 where
  github : RetryWorkflowTarget

pub data ProxyService : Type 0 where
  argocd : ProxyService

-- `forgejo_api::structs::MergePullRequestOptionDo`, as far as a strategy names it.
pub data MergePullRequestOptionDo : Type 0 where
  merge squash rebase : MergePullRequestOptionDo

pub data Action : Type 0 where
  approve : (comment : Option TemplateString) → Action
  merge : (strategy : MergePullRequestOptionDo) (delete_branch : Bool) → Action
  comment : (comment : TemplateString) → Action
  add_labels : (labels : List LabelSpec) (target_owner target_repo : Option String) → Action
  remove_labels : (labels prefixes : List String) → Action
  create_issue :
      (target_owner target_repo : String) (deduplicate_by_title : Bool)
      (title body : TemplateString) (on_duplicate_comment : Option TemplateString)
      (labels : List LabelSpec)
      → Action
  close_issue :
      (target_owner target_repo : String) (title : TemplateString) (comment : Option TemplateString)
      → Action
  delete_branch argo_cd_diff : Action
  retry_workflow : (target : RetryWorkflowTarget) (repository id : TemplateString) → Action
  set_commit_status :
      (target_owner target_repo : String)
      (sha state context description target_url : TemplateString)
      → Action
  wait_for_github_sync :
      (target_owner target_repo : String) (sha : TemplateString) (timeout_secs : ℕ) → Action
  proxy_pass : (service : ProxyService) → Action
  close : (comment : Option TemplateString) (delete_branch : Bool) → Action
  close_other_prs :
      (author : String) (criteria : CloseOtherPrsCriteria) (match_metadata_fields : List String)
      (order_by_metadata_field : Option String) (images_metadata_field tag_metadata_field : String)
      (delete_branch : Bool) (comment : Option TemplateString)
      → Action

unfoldable pub proxy_service : ProxyServiceDef → ProxyService
proxy_service ProxyServiceDef.argocd = ProxyService.argocd

unfoldable pub retry_target : RetryWorkflowTargetDef → RetryWorkflowTarget
retry_target RetryWorkflowTargetDef.github = RetryWorkflowTarget.github

unfoldable pub merge_option : MergeStrategy → MergePullRequestOptionDo
merge_option MergeStrategy.merge = MergePullRequestOptionDo.merge
merge_option MergeStrategy.squash = MergePullRequestOptionDo.squash
merge_option MergeStrategy.rebase = MergePullRequestOptionDo.rebase

abbrev target_field : (IssueTarget → String) → Option IssueTarget → Option String
target_field f none = none
target_field f (some t) = some (f t)

-- `ActionDef::to_action`
unfoldable pub to_action : ActionDef → Action
unfolding merge_option retry_target proxy_service
to_action (ActionDef.approve text) = Action.approve text
to_action (ActionDef.merge strategy delete) = Action.merge (merge_option strategy) delete
to_action (ActionDef.comment text) = Action.comment text
to_action (ActionDef.add_labels labels target) =
    Action.add_labels labels (target_field (λ t. t.owner) target)
      (target_field (λ t. t.repo) target)
to_action (ActionDef.remove_labels labels prefixes) = Action.remove_labels labels prefixes
to_action (ActionDef.create_issue target dedup title body on_duplicate labels) =
    Action.create_issue target.owner target.repo dedup title body on_duplicate labels
to_action (ActionDef.close_issue target title text) =
    Action.close_issue target.owner target.repo title text
to_action ActionDef.delete_branch = Action.delete_branch
to_action ActionDef.argo_cd_diff = Action.argo_cd_diff
to_action (ActionDef.retry_workflow target repository id) =
    Action.retry_workflow (retry_target target) repository id
to_action (ActionDef.set_commit_status target sha state context description url) =
    Action.set_commit_status target.owner target.repo sha state context description url
to_action (ActionDef.wait_for_github_sync target sha timeout) =
    Action.wait_for_github_sync target.owner target.repo sha timeout
to_action (ActionDef.proxy_pass service) = Action.proxy_pass (proxy_service service)
to_action (ActionDef.close text delete) = Action.close text delete
to_action (ActionDef.close_other_prs author criteria fields order images tag delete text) =
    Action.close_other_prs author criteria fields order images tag delete text

-- `Action::kind`
unfoldable pub action_kind : Action → String
action_kind (Action.approve _) = "approve"
action_kind (Action.merge _ _) = "merge"
action_kind (Action.comment _) = "comment"
action_kind (Action.add_labels _ _ _) = "add_labels"
action_kind (Action.remove_labels _ _) = "remove_labels"
action_kind (Action.create_issue _ _ _ _ _ _ _) = "create_issue"
action_kind (Action.close_issue _ _ _ _) = "close_issue"
action_kind Action.delete_branch = "delete_branch"
action_kind Action.argo_cd_diff = "argocd_diff"
action_kind (Action.retry_workflow _ _ _) = "retry_workflow"
action_kind (Action.set_commit_status _ _ _ _ _ _ _) = "set_commit_status"
action_kind (Action.wait_for_github_sync _ _ _ _) = "wait_for_github_sync"
action_kind (Action.proxy_pass _) = "proxy_pass"
action_kind (Action.close _ _) = "close"
action_kind (Action.close_other_prs _ _ _ _ _ _ _ _) = "close_other_prs"
