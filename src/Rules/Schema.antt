-- ===== src/Rules/Schema.antt =====
-- The rules file: platform-services/janitor-bot/src/rules/schema.rs.
pub mod Actions
use inf_k8s.Prelude.{ℕ, String, Bool, true, List, Option, none, some}
use inf_k8s.Prelude.Int.{ℤ}
use inf_k8s.Prelude.Assoc.{Assoc}
use inf_k8s.Rules.Types.{Matcher}

-- The text of a template.
pub record TemplateString : Type 0 where
  pub text : String

pub record RepoConfig : Type 0 where
  pub repo : String
  pub watched : Bool
  pub github_repo : Option String

pub data Disabled : Type 0 where
  bool : Bool → Disabled
  reason : String → Disabled

-- `Disabled::is_disabled`
unfoldable pub is_disabled : Disabled → Bool
is_disabled (Disabled.bool b) = b
is_disabled (Disabled.reason _) = true

pub data LabelSpec : Type 0 where
  name : String → LabelSpec
  with_color : (name color : String) → LabelSpec

-- `LabelSpec::name`
unfoldable pub label_name : LabelSpec → String
label_name (LabelSpec.name n) = n
label_name (LabelSpec.with_color n _) = n

-- `LabelSpec::color`
unfoldable pub label_color : LabelSpec → Option String
label_color (LabelSpec.name _) = none
label_color (LabelSpec.with_color _ color) = some color

pub record IssueTarget : Type 0 where
  pub owner : String
  pub repo : String

pub data CloseOtherPrsCriteria : Type 0 where
  older older_published_image : CloseOtherPrsCriteria

pub data RetryWorkflowTargetDef : Type 0 where
  github : RetryWorkflowTargetDef

pub data ProxyServiceDef : Type 0 where
  argocd : ProxyServiceDef

pub data MergeStrategy : Type 0 where
  merge squash rebase : MergeStrategy

pub data ActionDef : Type 0 where
  approve : (comment : Option TemplateString) → ActionDef
  merge : (strategy : MergeStrategy) (delete_branch : Bool) → ActionDef
  comment : (comment : TemplateString) → ActionDef
  add_labels : (labels : List LabelSpec) (target : Option IssueTarget) → ActionDef
  remove_labels : (labels prefixes : List String) → ActionDef
  create_issue :
      (target : IssueTarget) (deduplicate_by_title : Bool) (title body : TemplateString)
      (on_duplicate_comment : Option TemplateString) (labels : List LabelSpec)
      → ActionDef
  close_issue :
      (target : IssueTarget) (title : TemplateString) (comment : Option TemplateString) → ActionDef
  delete_branch argo_cd_diff : ActionDef
  retry_workflow : (target : RetryWorkflowTargetDef) (repository id : TemplateString) → ActionDef
  set_commit_status :
      (target : IssueTarget) (sha state context description target_url : TemplateString) → ActionDef
  wait_for_github_sync :
      (target : IssueTarget) (sha : TemplateString) (timeout_secs : ℕ) → ActionDef
  proxy_pass : (service : ProxyServiceDef) → ActionDef
  close : (comment : Option TemplateString) (delete_branch : Bool) → ActionDef
  close_other_prs :
      (author : String) (criteria : CloseOtherPrsCriteria) (match_metadata_fields : List String)
      (order_by_metadata_field : Option String) (images_metadata_field tag_metadata_field : String)
      (delete_branch : Bool) (comment : Option TemplateString)
      → ActionDef

pub record ActionGroup : Type 0 where
  pub when : Option Matcher
  pub serial : Option TemplateString
  pub run : List ActionDef

-- The priority is an `i32`.
pub record RuleDef : Type 0 where
  pub name : String
  pub disabled : Disabled
  pub dry_run : Bool
  pub priority : ℤ
  pub depends_on : List String
  pub checks : Assoc Matcher
  pub when : Matcher
  pub actions : List ActionGroup

pub record RulesFile : Type 0 where
  pub version : ℕ
  pub repos : List RepoConfig
  pub checks : Assoc Matcher
  pub label_colors : Assoc String
  pub rules : List RuleDef
