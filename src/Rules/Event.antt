-- ===== src/Rules/Event.antt =====
-- The events that the bot handles: platform-services/janitor-bot/src/event/types.rs. A number is a
-- `u64`, and a comment's id an `i64`.
pub mod Webhook
pub mod Vars
use inf_k8s.Prelude.{ℕ, String, Bool, List, Option}
use inf_k8s.Prelude.Int.{ℤ}

pub record PrBase : Type 0 where
  pub ref : Option String

pub record Label : Type 0 where
  pub id : ℕ
  pub name : String

pub record PullRequest : Type 0 where
  pub number : ℕ
  pub title : String
  pub body : String
  pub labels : List Label
  pub base : Option PrBase
  pub head : Option PrBase
  pub merged : Bool
  pub merge_commit_sha : Option String

pub record User : Type 0 where
  pub login : String

pub record Repository : Type 0 where
  pub full_name : String

pub record Comment : Type 0 where
  pub id : ℤ
  pub body : String

-- `pull_request` is a JSON value that is not read here.
pub record IssueRef : Type 0 where
  pub number : ℕ
  pub body : Option String
  pub labels : List Label

pub record WebhookEvent : Type 0 where
  pub action : String
  pub pull_request : Option PullRequest
  pub issue : Option IssueRef
  pub comment : Option (Comment)
  pub sender : Option User
  pub repository : Option Repository

pub record CommentEvent : Type 0 where
  pub owner : String
  pub repo : String
  pub pr_number : ℕ
  pub comment_id : ℤ
  pub author : String
  pub body : String

pub record IssueCommentEvent : Type 0 where
  pub owner : String
  pub repo : String
  pub issue_number : ℕ
  pub comment_id : ℤ
  pub author : String
  pub comment_body : String
  pub issue_body : String
  pub issue_labels : List String

pub record PrEvent : Type 0 where
  pub action : String
  pub author : String
  pub owner : String
  pub repo : String
  pub pr_number : ℕ
  pub title : String
  pub body : String
  pub target_branch : String
  pub source_branch : String
  pub labels : List Label
  pub merged : Bool
  pub merge_commit_sha : Option String

pub record CommitStatusEvent : Type 0 where
  pub repository : String
  pub sha : String
  pub state : String
  pub context : String
  pub description : String
  pub target_url : String

pub record ArgoSyncEvent : Type 0 where
  pub app_name : String
  pub sha : String
  pub sync_status : String
  pub health_status : String
  pub phase : String
  pub message : String

pub record PushEvent : Type 0 where
  pub repository : String
  pub branch : String

-- The request as it came in; `body` is a list of bytes.
pub record RawRequest : Type 0 where
  pub body : List ℕ
  pub headers : List (String × String)

pub record CheckRunEvent : Type 0 where
  pub repository : String
  pub sha : String
  pub name : String
  pub status : String
  pub conclusion : String
  pub details_url : String
  pub app_name : String
  pub run_id : Option ℕ
  pub workflow_name : String

pub record WorkflowEvent : Type 0 where
  pub run_id : ℕ
  pub workflow_name : String
  pub conclusion : String
  pub run_url : String
  pub repository : String
  pub branch : String
  pub head_sha : String
  pub commit_message : String
  pub commit_author : String
  pub actor : String
  pub run_number : ℕ
  pub run_attempt : ℕ
  pub jobs_url : String
  pub display_title : String
  pub failed_jobs_logs : String
  pub created_at : String
  pub updated_at : String

pub data BotEvent : Type 0 where
  forgejo_pr : PrEvent → BotEvent
  github_workflow : WorkflowEvent → BotEvent
  github_commit_status : CommitStatusEvent → BotEvent
  github_check_run : CheckRunEvent → BotEvent
  github_push : PushEvent → BotEvent
  argo_sync : ArgoSyncEvent → BotEvent
