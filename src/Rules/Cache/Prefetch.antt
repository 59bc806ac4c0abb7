-- ===== src/Rules/Cache/Prefetch.antt =====
-- `prefetch` of platform-services/janitor-bot/src/rules/matchers/cache.rs.
use inf_k8s.Prelude.{Bool, true, false, ◌||◌, any, List}
use inf_k8s.Rules.Types.{
  Resource, pull_request, pull_request_changed_files, reviews, combined_status, open_prs,
}
use inf_k8s.Rules.Event.{BotEvent, forgejo_pr}
use inf_k8s.Rules.Clients.{Clients, Eval, pure, ◌>>=◌}
use inf_k8s.Rules.Cache.{
  get_changed_files_cached, get_pr_cached, get_reviews_cached, combined_status_cached,
  open_prs_cached,
}

unfoldable pub same_resource : Resource → Resource → Bool
same_resource pull_request pull_request = true
same_resource pull_request_changed_files pull_request_changed_files = true
same_resource reviews reviews = true
same_resource combined_status combined_status = true
same_resource open_prs open_prs = true
same_resource _ _ = false

abbrev contains : List Resource → Resource → Bool
contains resources r = any (λ r'. same_resource r' r) resources

module _ {W : Type 0} where
  -- `if needed { fetch.await; }`
  abbrev fetch_if : {A : Type 0} → Bool → Eval W A → Eval W (Unit {0})
  fetch_if false fetch = pure tt
  fetch_if true fetch = do fetched ← fetch; pure tt

  unfoldable pub prefetch : Clients W → BotEvent → List Resource → Eval W (Unit {0})
  unfolding same_resource
  prefetch clients (forgejo_pr pr) resources = do
    files ←
        fetch_if (contains resources pull_request_changed_files)
          (get_changed_files_cached clients pr)
    request ←
        fetch_if (contains resources pull_request || contains resources combined_status)
          (get_pr_cached clients pr)
    approved ← fetch_if (contains resources reviews) (get_reviews_cached clients pr)
    prs ← fetch_if (contains resources open_prs) (open_prs_cached clients pr)
    fetch_if (contains resources combined_status) (combined_status_cached clients pr)
  prefetch clients _ resources = pure tt
