-- ===== src/Rules/Cache/Latest/Keeps.antt =====
-- The tests for the latest request leave the results of leaves alone:
-- platform-services/janitor-bot/src/rules/matchers/cache.rs.
use Prim.Native.String.{◌++◌}
use inf_k8s.Prelude.{
  length, String, Bool, true, false, not, ◌==◌, List, [], ◌∷◌, Option, none, some,
}
use inf_k8s.Prelude.Text.{trim_end}
use inf_k8s.Rules.Event.Webhook.{or_empty}
use inf_k8s.Rules.Event.Vars.{parse_pr_metadata}
use inf_k8s.Prelude.Assoc.{Assoc, lookup}
use inf_k8s.Rules.Types.{LeafMatcher}
use inf_k8s.Rules.Event.{PrEvent}
use inf_k8s.Rules.Clients.{Outside}
use inf_k8s.Rules.Clients.Keeps.{Keeps, bind-Keeps, pure-Keeps, call-Keeps, if-Keeps, option-Keeps}
use inf_k8s.Rules.Cache.{image_committed_at_cached, get_pr_cached, open_prs_cached}
use inf_k8s.Rules.Cache.Keeps.{
  get_pr_cached-Keeps, open_prs_cached-Keeps, image_committed_at_cached-Keeps,
}
use inf_k8s.Rules.Cache.Latest.{
  all_three, text_field, field_values, check_images, compare_deployed, is_latest_published_image,
  is_latest_by_metadata,
}

module _ {W N Now : Type 0} (P : List (LeafMatcher × Bool) → Type 0)
    (outside : Outside W N Now) where
  check_images-Keeps :
      (deployed : Assoc String) (tag : String) (images : List String)
      → Keeps P (check_images outside deployed tag images)
  unfolding check_images
  check_images-Keeps deployed tag [] = pure-Keeps P true
  check_images-Keeps deployed tag (image ∷ images) =
      option-Keeps P (lookup image deployed) _ _ (check_images-Keeps deployed tag images)
        λ deployed_tag. if-Keeps P _ _ _ (check_images-Keeps deployed tag images) (
          bind-Keeps P (image_committed_at_cached outside.clients image tag) _
            (image_committed_at_cached-Keeps P outside.clients image tag)
            λ pr_ts.
              bind-Keeps P (image_committed_at_cached outside.clients image deployed_tag) _
                (image_committed_at_cached-Keeps P outside.clients image deployed_tag)
                λ deployed_ts.
                  if-Keeps P _ _ _ (pure-Keeps P false) (check_images-Keeps deployed tag images))

  compare_deployed-Keeps :
      (images tag : String) (raw : Option String)
      → Keeps P (compare_deployed outside images tag raw)
  unfolding compare_deployed
  compare_deployed-Keeps images tag none = pure-Keeps P true
  compare_deployed-Keeps images tag (some raw) =
      option-Keeps P (outside.parse_kustomization raw) _ _ (pure-Keeps P true)
        λ deployed. check_images-Keeps _ tag _

  pub is_latest_published_image-Keeps :
      (pr : PrEvent) (images_field tag_field path_field : String)
      → Keeps P (is_latest_published_image outside pr images_field tag_field path_field)
  unfolding is_latest_published_image
  is_latest_published_image-Keeps pr images_field tag_field path_field =
      bind-Keeps P (get_pr_cached outside.clients pr) _ (get_pr_cached-Keeps P outside.clients pr)
        λ current. option-Keeps P current _ _ (pure-Keeps P true) λ p.
          option-Keeps P (parse_pr_metadata outside.templating (or_empty p.body)) _ _
            (pure-Keeps P true)
            λ meta.
              option-Keeps P
                (all_three outside (text_field meta images_field) (text_field meta tag_field)
                  (text_field meta path_field))
                _ _ (pure-Keeps P true)
                λ (images, tag, path).
                  bind-Keeps P _ (compare_deployed outside images tag)
                    (call-Keeps P (
                      outside.clients.get_raw_file pr.owner pr.repo
                        (trim_end (λ c. c == b'/') path ++ "/kustomization.yaml") pr.target_branch))
                    (compare_deployed-Keeps images tag)

  pub is_latest_by_metadata-Keeps :
      (pr : PrEvent) (fields : List String) (order_field : Option String)
      → Keeps P (is_latest_by_metadata outside pr fields order_field)
  unfolding is_latest_by_metadata
  is_latest_by_metadata-Keeps pr fields order_field =
      bind-Keeps P (get_pr_cached outside.clients pr) _ (get_pr_cached-Keeps P outside.clients pr)
        λ current. option-Keeps P current _ _ (pure-Keeps P true) λ p.
          option-Keeps P (parse_pr_metadata outside.templating (or_empty p.body)) _ _
            (pure-Keeps P true)
            λ meta.
              if-Keeps P (not (length (field_values outside meta fields) == length fields)) _ _
                (pure-Keeps P true)
                (bind-Keeps P (open_prs_cached outside.clients pr) _
                  (open_prs_cached-Keeps P outside.clients pr)
                  λ prs.
                    option-Keeps P prs _ _ (pure-Keeps P true) λ prs. record { run = λ s h. h })
