-- ===== src/Rules/Event/Vars.antt =====
-- The variables that a template may use, and their replacement:
-- platform-services/janitor-bot/src/event/mod.rs. `none` is a panic.
use Prim.Native.String.{◌++◌, len, slice}
use inf_k8s.Prelude.{
  ℕ, String, List, [], ◌∷◌, Option, none, some, leb, ◌==◌, str_eq, if◌then◌else◌, ◌||◌,
}
use inf_k8s.Prelude.Maybe.{◌>>=◌}
use inf_k8s.Prelude.Assoc.{Assoc, insert}
use inf_k8s.Prelude.Text.{replace, decimal, join}
use inf_k8s.Flags.Json.{Json}
use inf_k8s.Rules.Event.{
  BotEvent, forgejo_pr, github_workflow, github_commit_status, github_check_run, github_push,
  argo_sync, ArgoSyncEvent, CheckRunEvent, WorkflowEvent,
}

-- What the templates take from other crates: `regex`, `serde_json`, and the order in which a
-- `HashMap` is walked.
pub record Templating (N : Type 0) : Type 0 where
  -- The first group of `<!-- metadata:(\{.*?\}) -->` where the text matches.
  pub metadata_capture : String → Option String
  -- `serde_json::from_str` into an object.
  pub parse_object : String → Option (Assoc (Json N))
  -- `to_string()` of a value, and of an object with these members.
  pub json_text : Json N → String
  pub object_text : Assoc (Json N) → String
  -- A number of JSON from a `u64`.
  pub from_u64 : ℕ → N
  pub walk : Assoc String → Assoc String

unfoldable pub event_kind : BotEvent → String
event_kind (forgejo_pr _) = "pr"
event_kind (github_workflow _) = "workflow"
event_kind (github_commit_status _) = "commit_status"
event_kind (github_check_run _) = "check_run"
event_kind (github_push _) = "push"
event_kind (argo_sync _) = "argocd_sync"

unfoldable pub event_key : BotEvent → String
event_key (forgejo_pr pr) = pr.owner ++ "/" ++ pr.repo ++ " #" ++ decimal pr.pr_number
event_key (github_workflow wf) = wf.workflow_name ++ " (" ++ wf.conclusion ++ ")"
event_key (github_commit_status cs) = cs.repository ++ " " ++ cs.context ++ " (" ++ cs.state ++ ")"
event_key (github_check_run cr) = cr.repository ++ " " ++ cr.name ++ " (" ++ cr.conclusion ++ ")"
event_key (github_push p) = p.repository ++ " (" ++ p.branch ++ ")"
event_key (argo_sync s) = s.app_name ++ " (" ++ s.phase ++ ")"

-- `&sha[..7]` panics where a character lies across the seventh byte.
unfoldable pub short_sha : String → Option String
short_sha sha =
    let seven = slice sha 0 7 in
    if leb 7 (len sha) then (if len seven == 7 then some seven else none) else some sha

-- `match` on the phase of a synchronisation, and on its health.
unfoldable pub sync_state : ArgoSyncEvent → String
sync_state sync =
    if str_eq sync.phase "Succeeded"
    then if str_eq sync.health_status "Healthy"
      then "success"
      else if str_eq sync.health_status "Degraded"
      then "failure"
      else "pending"
    else if str_eq sync.phase "Failed" || str_eq sync.phase "Error"
    then "failure"
    else if str_eq sync.phase "Running"
    then "pending"
    else "pending"

-- `match` on the conclusion of a check run.
unfoldable pub check_run_state : CheckRunEvent → String
check_run_state cr =
    let is = str_eq cr.conclusion in
    if is "success"
    then "success"
    else if is "failure" || is "timed_out" || is "action_required"
    then "failure"
    else if is "cancelled" || is "skipped" || is "stale"
    then "error"
    else if is "neutral"
    then "success"
    else if str_eq cr.status "in_progress" || str_eq cr.status "queued"
    then "pending"
    else "pending"

unfoldable pub without_empty : List String → List String
without_empty [] = []
without_empty (s ∷ rest) = let kept = without_empty rest in if str_eq s "" then kept else s ∷ kept

unfoldable pub check_run_context : CheckRunEvent → String
unfolding without_empty
check_run_context cr = join " / " (without_empty (cr.app_name ∷ cr.workflow_name ∷ cr.name ∷ []))

unfoldable pub insert_all : Assoc String → Assoc String → Assoc String
insert_all [] vars = vars
insert_all ((key, value) ∷ rest) vars = insert_all rest (insert key value vars)

module _ {N : Type 0} (tpl : Templating N) where
  unfoldable pub workflow_json : WorkflowEvent → String
  workflow_json wf = tpl.object_text (
      ("run_id", Json.number (tpl.from_u64 wf.run_id))
      ∷ ("workflow", Json.string wf.workflow_name)
      ∷ ("conclusion", Json.string wf.conclusion)
      ∷ ("branch", Json.string wf.branch)
      ∷ ("commit_sha", Json.string wf.head_sha)
      ∷ ("created_at", Json.string wf.created_at)
      ∷ ("updated_at", Json.string wf.updated_at)
      ∷ ("html_url", Json.string wf.run_url)
      ∷ ("logs_url", Json.string (wf.run_url ++ "/logs"))
      ∷ [])

  -- `event_vars`, as the entries that each arm inserts, in the source's order.
  unfoldable pub event_entries : BotEvent → Option (Assoc String)
  event_entries (forgejo_pr pr) =
      let sha : Assoc String = elim pr.merge_commit_sha [
        | none ↦ []
        | some sha ↦ ("forgejo_pr.merge_commit_sha", sha) ∷ []
      ] in
      some (
        ("repository", pr.owner ++ "/" ++ pr.repo)
        ∷ ("forgejo_pr.action", pr.action)
        ∷ ("forgejo_pr.author", pr.author)
        ∷ ("forgejo_pr.owner", pr.owner)
        ∷ ("forgejo_pr.repo", pr.repo)
        ∷ ("forgejo_pr.pr_number", decimal pr.pr_number)
        ∷ ("forgejo_pr.title", pr.title)
        ∷ ("forgejo_pr.target_branch", pr.target_branch)
        ∷ sha)
  event_entries (github_commit_status cs) = do
    short ← short_sha cs.sha
    some (
        ("repository", cs.repository)
        ∷ ("sha", cs.sha)
        ∷ ("state", cs.state)
        ∷ ("context", cs.context)
        ∷ ("description", cs.description)
        ∷ ("target_url", cs.target_url)
        ∷ ("short_sha", short)
        ∷ [])
  event_entries (argo_sync sync) = do
    short ← short_sha sync.sha
    some (
        ("argocd_sync.app_name", sync.app_name)
        ∷ ("sha", sync.sha)
        ∷ ("argocd_sync.sync_status", sync.sync_status)
        ∷ ("argocd_sync.health_status", sync.health_status)
        ∷ ("argocd_sync.phase", sync.phase)
        ∷ ("argocd_sync.message", sync.message)
        ∷ ("state", sync_state sync)
        ∷ ("context", "ArgoCD / sync / " ++ sync.app_name)
        ∷ ("description", sync.phase ++ " - " ++ sync.health_status)
        ∷ ("target_url", "")
        ∷ ("short_sha", short)
        ∷ [])
  event_entries (github_push push) = some (
      ("repository", push.repository)
      ∷ ("github_push.repository", push.repository)
      ∷ ("github_push.branch", push.branch)
      ∷ [])
  event_entries (github_check_run cr) = do
    short ← short_sha cr.sha
    some (
        ("repository", cr.repository)
        ∷ ("sha", cr.sha)
        ∷ ("github_check_run.name", cr.name)
        ∷ ("github_check_run.status", cr.status)
        ∷ ("github_check_run.conclusion", cr.conclusion)
        ∷ ("github_check_run.details_url", cr.details_url)
        ∷ ("github_check_run.app_name", cr.app_name)
        ∷ ("github_check_run.workflow_name", cr.workflow_name)
        ∷ ("state", check_run_state cr)
        ∷ ("context", check_run_context cr)
        ∷ ("description", cr.conclusion)
        ∷ ("target_url", cr.details_url)
        ∷ ("short_sha", short)
        ∷ [])
  event_entries (github_workflow wf) = do
    short ← short_sha wf.head_sha
    some (
        ("repository", wf.repository)
        ∷ ("sha", wf.head_sha)
        ∷ ("short_sha", short)
        ∷ ("github_workflow.run_id", decimal wf.run_id)
        ∷ ("github_workflow.workflow_name", wf.workflow_name)
        ∷ ("github_workflow.conclusion", wf.conclusion)
        ∷ ("github_workflow.run_url", wf.run_url)
        ∷ ("github_workflow.branch", wf.branch)
        ∷ ("github_workflow.head_sha", wf.head_sha)
        ∷ ("github_workflow.commit_message", wf.commit_message)
        ∷ ("github_workflow.commit_author", wf.commit_author)
        ∷ ("github_workflow.actor", wf.actor)
        ∷ ("github_workflow.run_number", decimal wf.run_number)
        ∷ ("github_workflow.run_attempt", decimal wf.run_attempt)
        ∷ ("github_workflow.display_title", wf.display_title)
        ∷ ("github_workflow.failed_jobs_logs", wf.failed_jobs_logs)
        ∷ ("github_workflow.created_at", wf.created_at)
        ∷ ("github_workflow.updated_at", wf.updated_at)
        ∷ ("github_workflow.logs_url", wf.run_url ++ "/logs")
        ∷ ("github_workflow.metadata_json", workflow_json wf)
        ∷ [])

  unfoldable pub event_vars : BotEvent → Option (Assoc String)
  unfolding event_entries insert_all
  event_vars event = do entries ← event_entries event; some (insert_all entries [])

  -- `matchers::parse_pr_metadata`
  unfoldable pub parse_pr_metadata : String → Option (Assoc (Json N))
  parse_pr_metadata body = do text ← tpl.metadata_capture body; tpl.parse_object text

  abbrev metadata_text : Json N → String
  metadata_text (Json.string s) = s
  metadata_text other = tpl.json_text other

  unfoldable pub insert_metadata : Assoc (Json N) → Assoc String → Assoc String
  insert_metadata [] vars = vars
  insert_metadata ((k, v) ∷ rest) vars =
      insert_metadata rest (insert ("forgejo_pr.metadata." ++ k) (metadata_text v) vars)

  unfoldable pub with_metadata : BotEvent → Assoc String → Assoc String
  unfolding insert_metadata parse_pr_metadata
  with_metadata (forgejo_pr pr) vars = elim (parse_pr_metadata pr.body) [
    | none ↦ vars
    | some meta ↦ insert_metadata meta vars
  ]
  with_metadata _ vars = vars

  unfoldable pub template_vars : BotEvent → Option (Assoc String)
  unfolding event_vars with_metadata
  template_vars event = do vars ← event_vars event; some (with_metadata event vars)

  unfoldable pub render_from : Assoc String → String → String
  render_from [] result = result
  render_from ((key, value) ∷ rest) result =
      render_from rest (replace result ("{" ++ key ++ "}") value)

  -- `render_template`
  abbrev pub render_template : String → Assoc String → String
  render_template template vars = render_from (tpl.walk vars) template
