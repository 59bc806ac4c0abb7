-- ===== src/Rules/Event/Webhook.antt =====
-- What a webhook of the forge becomes: platform-services/janitor-bot/src/event/mod.rs.
use inf_k8s.Prelude.{String, map, Option, none, some}
use inf_k8s.Prelude.Maybe.{◌>>=◌}
use inf_k8s.Prelude.Text.{split_once}
use inf_k8s.Rules.Event.{WebhookEvent, CommentEvent, IssueCommentEvent, PrEvent}

-- `unwrap_or_default()` of a text.
abbrev pub or_empty : Option String → String
or_empty none = ""
or_empty (some s) = s

unfoldable pub into_issue_comment_event : WebhookEvent → Option (IssueCommentEvent)
into_issue_comment_event event = do
  comment ← event.comment
  issue ← event.issue
  sender ← event.sender
  repository ← event.repository
  (owner, repo) ← split_once b'/' repository.full_name
  some (record {
    owner = owner;
    repo = repo;
    issue_number = issue.number;
    comment_id = comment.id;
    author = sender.login;
    comment_body = comment.body;
    issue_body = or_empty issue.body;
    issue_labels = map (λ l. l.name) issue.labels;
  })

unfoldable pub into_comment_event : WebhookEvent → Option (CommentEvent)
into_comment_event event = do
  comment ← event.comment
  issue ← event.issue
  sender ← event.sender
  repository ← event.repository
  (owner, repo) ← split_once b'/' repository.full_name
  some (record {
    owner = owner;
    repo = repo;
    pr_number = issue.number;
    comment_id = comment.id;
    author = sender.login;
    body = comment.body;
  })

unfoldable pub into_pr_event : WebhookEvent → Option PrEvent
into_pr_event event = do
  pr ← event.pull_request
  sender ← event.sender
  repository ← event.repository
  (owner, repo) ← split_once b'/' repository.full_name
  some (record {
    action = event.action;
    author = sender.login;
    owner = owner;
    repo = repo;
    pr_number = pr.number;
    title = pr.title;
    body = pr.body;
    target_branch = or_empty (do b ← pr.base; b.ref);
    source_branch = or_empty (do h ← pr.head; h.ref);
    labels = pr.labels;
    merged = pr.merged;
    merge_commit_sha = pr.merge_commit_sha;
  })
