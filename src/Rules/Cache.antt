-- ===== src/Rules/Cache.antt =====
-- What the matchers fetch, each at most once in an evaluation:
-- platform-services/janitor-bot/src/rules/matchers/cache.rs.
pub mod Latest
pub mod Keeps
pub mod Prefetch
use Prim.Native.String.{◌++◌}
use inf_k8s.Prelude.{ℕ, String, Bool, true, false, List, [], ◌∷◌, Option, none, some}
use inf_k8s.Prelude.Int.{ℤ, as_i64}
use inf_k8s.Prelude.Assoc.{lookup, insert}
use inf_k8s.Prelude.Strings.{contains}
use inf_k8s.Prelude.Text.{decimal}
use inf_k8s.Rules.Event.{PrEvent}
use inf_k8s.Rules.Clients.{
  Clients, ApiPullRequest, PrCombinedStatus, Cached, Session, Eval, pure, call, ◌>>=◌,
}

-- `downcast_ref`
abbrev pub as_pull_request : Cached → Option (Option ApiPullRequest)
as_pull_request (Cached.pull_request p) = some p
as_pull_request _ = none

abbrev pub as_reviews : Cached → Option Bool
as_reviews (Cached.reviews b) = some b
as_reviews _ = none

abbrev pub as_changed_files : Cached → Option (List String)
as_changed_files (Cached.changed_files files) = some files
as_changed_files _ = none

abbrev pub as_comment_body : Cached → Option (Option String)
as_comment_body (Cached.comment_body body) = some body
as_comment_body _ = none

abbrev pub as_combined_status : Cached → Option (Option PrCombinedStatus)
as_combined_status (Cached.combined_status s) = some s
as_combined_status _ = none

abbrev pub as_committed_at : Cached → Option (Option ℤ)
as_committed_at (Cached.committed_at t) = some t
as_committed_at _ = none

abbrev pub as_open_prs : Cached → Option (Option (List ApiPullRequest))
as_open_prs (Cached.open_prs prs) = some prs
as_open_prs _ = none

module _ {W : Type 0} where
  -- `values.get(key)`, of the type that is asked for.
  unfoldable pub cached_value : {T : Type 0} → (Cached → Option T) → String → Session W → Option T
  cached_value downcast key s = elim (lookup key s.cache.values) [
    | none ↦ none
    | some v ↦ downcast v
  ]

  abbrev pub store_value : Cached → String → Session W → Session W
  store_value v key s = record s { cache = record s.cache { values = insert key v s.cache.values } }

  abbrev pub or_compute : {T : Type 0} → Option T → Eval W T → Eval W T
  or_compute (some t) compute = pure t
  or_compute none compute = compute

  -- `get_or_compute`
  unfoldable pub get_or_compute :
      {T : Type 0} → (T → Cached) → (Cached → Option T) → String → Eval W T → Eval W T
  unfolding cached_value
  get_or_compute wrap downcast key compute s =
      or_compute (cached_value downcast key s)
        (do computed ← compute; λ s'. some (computed, store_value (wrap computed) key s')) s

abbrev pub pr_key : String → PrEvent → String
pr_key kind pr = kind ++ pr.owner ++ "/" ++ pr.repo ++ ":" ++ decimal pr.pr_number

-- `unwrap_or_default()` of a list.
abbrev pub or_none : {A : Type 0} → Option (List A) → List A
or_none none = []
or_none (some xs) = xs

abbrev pub flatten : {A : Type 0} → Option (Option A) → Option A
flatten none = none
flatten (some o) = o

module _ {W : Type 0} (clients : Clients W) where
  unfoldable pub get_changed_files_cached : PrEvent → Eval W (List String)
  unfolding get_or_compute
  get_changed_files_cached pr =
      get_or_compute Cached.changed_files as_changed_files (pr_key "changed_files:" pr) do
        files ← call (clients.get_pr_changed_files pr.owner pr.repo (as_i64 pr.pr_number))
        pure (or_none files)

  unfoldable pub get_pr_cached : PrEvent → Eval W (Option ApiPullRequest)
  unfolding get_or_compute
  get_pr_cached pr =
      get_or_compute Cached.pull_request as_pull_request (pr_key "pr:" pr)
        (call (clients.get_pr pr.owner pr.repo (as_i64 pr.pr_number)))

  unfoldable pub get_reviews_cached : PrEvent → Eval W Bool
  unfolding get_or_compute
  get_reviews_cached pr =
      get_or_compute Cached.reviews as_reviews (pr_key "reviews:" pr)
        (call (clients.is_pr_approved_by_bot pr.owner pr.repo (as_i64 pr.pr_number)))

  abbrev pub body_contains : String → Option String → Bool
  body_contains value none = false
  body_contains value (some b) = contains b value

  unfoldable pub bot_comment_contains : PrEvent → String → String → Eval W Bool
  unfolding get_or_compute
  bot_comment_contains pr marker value = do
    body ←
        get_or_compute Cached.comment_body as_comment_body
          (pr_key "bot_comment:" pr ++ ":" ++ marker)
          (do
            found ← call (clients.find_bot_comment pr.owner pr.repo (as_i64 pr.pr_number) marker)
            pure (flatten found))
    pure (body_contains value body)

  -- The status of the commit, where the request is there and has one.
  unfoldable pub status_of : PrEvent → Option ApiPullRequest → Eval W (Option PrCombinedStatus)
  status_of pr none = pure none
  status_of pr (some p) = elim p.head_sha [
    | none ↦ pure none
    | some sha ↦ call (clients.get_combined_status_by_ref pr.owner pr.repo sha)
  ]

  unfoldable pub combined_status_cached : PrEvent → Eval W (Option PrCombinedStatus)
  unfolding get_or_compute status_of get_pr_cached
  combined_status_cached pr =
      get_or_compute Cached.combined_status as_combined_status (pr_key "combined_status:" pr)
        do p ← get_pr_cached pr; status_of pr p

  unfoldable pub image_committed_at_cached : String → String → Eval W (Option ℤ)
  unfolding get_or_compute
  image_committed_at_cached image tag =
      get_or_compute Cached.committed_at as_committed_at
        ("img_committed_at:" ++ image ++ ":" ++ tag) (call (clients.committed_at image tag))

  -- `fetch_open_prs`, and the listing in `is_latest_by_metadata`
  unfoldable pub open_prs_cached : PrEvent → Eval W (Option (List ApiPullRequest))
  unfolding get_or_compute
  open_prs_cached pr =
      get_or_compute Cached.open_prs as_open_prs ("open_prs:" ++ pr.owner ++ "/" ++ pr.repo)
        (call (clients.list_open_prs pr.owner pr.repo))
