-- ===== src/Rules/Requires.antt =====
-- What a matcher has fetched before it is evaluated: `requires` of
-- platform-services/janitor-bot/src/rules/matchers/types.rs. A set of resources is a list.
use inf_k8s.Prelude.{List, [], ◌∷◌, ◌++◌, Option, none, some}
use inf_k8s.Prelude.Maybe.{◌>>=◌}
use inf_k8s.Rules.Types.{
  Resource, LeafMatcher, Matcher, Combinator, Matchers, nil, cons, pull_request,
  pull_request_changed_files, reviews, combined_status, open_prs,
}

-- `LeafMatcher::requires`
unfoldable pub leaf_requires : LeafMatcher → List Resource
leaf_requires LeafMatcher.is_open = pull_request ∷ []
leaf_requires LeafMatcher.has_conflicts = pull_request ∷ []
leaf_requires LeafMatcher.bot_has_approved = reviews ∷ []
leaf_requires LeafMatcher.has_status_checks = pull_request ∷ combined_status ∷ []
leaf_requires LeafMatcher.all_status_checks_passed = pull_request ∷ combined_status ∷ []
leaf_requires (LeafMatcher.status_checks _ _) = pull_request ∷ combined_status ∷ []
leaf_requires (LeafMatcher.is_latest_by_metadata _ _) = pull_request ∷ open_prs ∷ []
leaf_requires (LeafMatcher.is_latest_published_image _ _ _) = pull_request ∷ []
leaf_requires LeafMatcher.has_changed_files = pull_request_changed_files ∷ []
leaf_requires (LeafMatcher.changed_files_all_match _) = pull_request_changed_files ∷ []
leaf_requires (LeafMatcher.changed_files_any_match _) = pull_request_changed_files ∷ []
leaf_requires (LeafMatcher.changed_files_none_match _) = pull_request_changed_files ∷ []
leaf_requires _ = []

-- `Matcher::requires`; `none` is the panic on a reference that is not resolved.
unfoldable mutual
  pub requires : Matcher → Option (List Resource)
  requires (Matcher.leaf l) = some (leaf_requires l)
  requires (Matcher.leaf_expr e) = some (leaf_requires e.matcher)
  requires (Matcher.combinator (Combinator.all ms)) = requires_each ms
  requires (Matcher.combinator (Combinator.any ms)) = requires_each ms
  requires (Matcher.combinator (Combinator.not m)) = requires m
  requires (Matcher.ref r) = none

  -- `flat_map`
  pub requires_each : Matchers → Option (List Resource)
  requires_each nil = some []
  requires_each (cons m ms) = do
    these ← requires m
    others ← requires_each ms
    some (these ++ others)
