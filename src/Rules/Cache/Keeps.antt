-- ===== src/Rules/Cache/Keeps.antt =====
-- What the matchers fetch leaves the results of leaves alone:
-- platform-services/janitor-bot/src/rules/matchers/cache.rs.
use inf_k8s.Prelude.{String, Bool, List, Option, none, some}
use inf_k8s.Prelude.Int.{ℤ, as_i64}
use inf_k8s.Rules.Types.{LeafMatcher}
use inf_k8s.Rules.Event.{PrEvent}
use inf_k8s.Rules.Clients.{
  Clients, ApiPullRequest, PrCombinedStatus, Cached, pure, Eval, call, ◌>>=◌,
}
use inf_k8s.Rules.Clients.Keeps.{Keeps, bind-Keeps, pure-Keeps, call-Keeps}
use inf_k8s.Rules.Cache.{
  cached_value, store_value, or_none, flatten, body_contains, as_comment_body, or_compute,
  get_or_compute, get_changed_files_cached, get_pr_cached, get_reviews_cached, bot_comment_contains,
  status_of, combined_status_cached, image_committed_at_cached, open_prs_cached,
}

module _ {W : Type 0} (P : List (LeafMatcher × Bool) → Type 0) where
  or_compute-Keeps :
      {T : Type 0} (found : Option T) (compute : Eval W T)
      → Keeps P compute
      → Keeps P (or_compute found compute)
  or_compute-Keeps (some t) compute k = pure-Keeps P t
  or_compute-Keeps none compute k = k

  pub get_or_compute-Keeps :
      {T : Type 0} (wrap : T → Cached) (downcast : Cached → Option T) (key : String)
      (compute : Eval W T)
      → Keeps P compute
      → Keeps P (get_or_compute wrap downcast key compute)
  unfolding get_or_compute
  get_or_compute-Keeps {T} wrap downcast key compute k = record {
    run = λ s h. (or_compute-Keeps (cached_value downcast key s) _ stored).run s h;
  }
    where
      store : T → Eval W T
      store computed s = some (computed, store_value (wrap computed) key s)

      stored : Keeps P (compute >>= store)
      stored = bind-Keeps P compute store k λ computed. record { run = λ s h. h }

  module _ (clients : Clients W) (pr : PrEvent) where
    abbrev number : ℤ
    number = as_i64 pr.pr_number

    pub get_pr_cached-Keeps : Keeps P (get_pr_cached clients pr)
    unfolding get_pr_cached
    get_pr_cached-Keeps =
        get_or_compute-Keeps Cached.pull_request _ _ _
          (call-Keeps P (clients.get_pr pr.owner pr.repo number))

    pub get_reviews_cached-Keeps : Keeps P (get_reviews_cached clients pr)
    unfolding get_reviews_cached
    get_reviews_cached-Keeps =
        get_or_compute-Keeps Cached.reviews _ _ _
          (call-Keeps P (clients.is_pr_approved_by_bot pr.owner pr.repo number))

    pub get_changed_files_cached-Keeps : Keeps P (get_changed_files_cached clients pr)
    unfolding get_changed_files_cached
    get_changed_files_cached-Keeps = get_or_compute-Keeps Cached.changed_files _ _ _ (
        bind-Keeps P _ (λ files. pure (or_none files))
          (call-Keeps P (clients.get_pr_changed_files pr.owner pr.repo number))
          λ files. pure-Keeps P (or_none files))

    comment-Keeps :
        (marker : String)
        → Keeps P (do
          found ← call (clients.find_bot_comment pr.owner pr.repo number marker)
          pure (flatten found))
    comment-Keeps marker =
        bind-Keeps P _ (λ found. pure (flatten found))
          (call-Keeps P (clients.find_bot_comment pr.owner pr.repo number marker))
          λ found. pure-Keeps P (flatten found)

    pub bot_comment_contains-Keeps :
        (marker value : String) → Keeps P (bot_comment_contains clients pr marker value)
    unfolding bot_comment_contains
    bot_comment_contains-Keeps marker value =
        bind-Keeps P _ (λ body. pure (body_contains clients value body))
          (get_or_compute-Keeps Cached.comment_body as_comment_body _ _ (comment-Keeps marker))
          λ body. pure-Keeps P (body_contains clients value body)

    status_of-Keeps : (p : Option ApiPullRequest) → Keeps P (status_of clients pr p)
    unfolding status_of
    status_of-Keeps none = pure-Keeps P none
    status_of-Keeps (some p) = go p.head_sha
      where
        go :
            (o : Option String)
            → Keeps P (elim o as (λ _. Eval W (Option PrCombinedStatus)) [
              | none ↦ pure none
              | some sha ↦ call (clients.get_combined_status_by_ref pr.owner pr.repo sha)
            ])
        go none = pure-Keeps P none
        go (some sha) = call-Keeps P (clients.get_combined_status_by_ref pr.owner pr.repo sha)

    pub combined_status_cached-Keeps : Keeps P (combined_status_cached clients pr)
    unfolding combined_status_cached
    combined_status_cached-Keeps = get_or_compute-Keeps Cached.combined_status _ _ _ (
        bind-Keeps P (get_pr_cached clients pr) (status_of clients pr) get_pr_cached-Keeps
          status_of-Keeps)

    pub open_prs_cached-Keeps : Keeps P (open_prs_cached clients pr)
    unfolding open_prs_cached
    open_prs_cached-Keeps =
        get_or_compute-Keeps Cached.open_prs _ _ _
          (call-Keeps P (clients.list_open_prs pr.owner pr.repo))

  pub image_committed_at_cached-Keeps :
      (clients : Clients W) (image tag : String)
      → Keeps P (image_committed_at_cached clients image tag)
  unfolding image_committed_at_cached
  image_committed_at_cached-Keeps clients image tag =
      get_or_compute-Keeps Cached.committed_at _ _ _ (call-Keeps P (clients.committed_at image tag))
