-- ===== src/Rules/Cache/Latest.antt =====
-- Whether a pull request is the latest of its kind: platform-services/janitor-bot/src/rules/
-- matchers/cache.rs (`is_latest_published_image`, `is_latest_by_metadata`) and matchers/mod.rs.
pub mod Keeps
use Prim.Native.String.{◌++◌}
use inf_k8s.Prelude.{
  ℕ, String, Bool, true, false, not, all, any, List, [], ◌∷◌, map, Option, none, some, ◌==◌, str_eq,
  if◌then◌else◌, length,
}
use inf_k8s.Prelude.Int.{ℤ, ltb_ℤ, as_u64}
use inf_k8s.Prelude.Assoc.{Assoc, lookup, insert}
use inf_k8s.Prelude.Text.{split, trim_start, trim_end}
use inf_k8s.Expr.Lex.{parse_i64}
use inf_k8s.Flags.Json.{Json, as_str, as_i64}
use inf_k8s.Rules.Event.{PrEvent}
use inf_k8s.Rules.Event.Webhook.{or_empty}
use inf_k8s.Rules.Event.Vars.{parse_pr_metadata}
use inf_k8s.Rules.Clients.{Outside, ApiPullRequest, KustomizeImage, Eval, pure, call, ◌>>=◌}
use inf_k8s.Rules.Cache.{get_pr_cached, image_committed_at_cached, open_prs_cached}

-- `<` on `Option<i64>`: `None` comes first.
abbrev pub option_lt : Option ℤ → Option ℤ → Bool
option_lt none none = false
option_lt none (some b) = true
option_lt (some a) none = false
option_lt (some a) (some b) = ltb_ℤ a b

-- `meta.get(field).and_then(|v| v.as_str())`
abbrev pub text_field : {N : Type 0} → Assoc (Json N) → String → Option String
text_field meta field = elim (lookup field meta) [ none ↦ none | some v ↦ as_str v ]

module _ {W N Now : Type 0} (outside : Outside W N Now) where
  abbrev trim : String → String
  trim s = trim_start outside.is_whitespace (trim_end outside.is_whitespace s)

  abbrev present : List String → List String
  present [] = []
  present (s ∷ rest) = let kept = present rest in if str_eq s "" then kept else s ∷ kept

  -- `split(',').map(str::trim).filter(|s| !s.is_empty())`
  unfoldable pub image_names : String → List String
  image_names images = present (map trim (split b',' images))

  abbrev number_or_text : Option ℤ → Option String → Option ℤ
  number_or_text (some i) text = some i
  number_or_text none none = none
  number_or_text none (some s) = parse_i64 s

  unfoldable pub metadata_order_key : Assoc (Json N) → String → Option ℤ
  metadata_order_key meta field = elim (lookup field meta) [
    | none ↦ none
    | some v ↦ number_or_text (as_i64 outside.numbers v) (as_str v)
  ]

  unfoldable pub deployed_tags : List KustomizeImage → Assoc String → Assoc String
  deployed_tags [] tags = tags
  deployed_tags (i ∷ images) tags = elim i.new_tag [
    | none ↦ deployed_tags images tags
    | some tag ↦ deployed_tags images (insert i.name tag tags)
  ]

  -- Whether the image of the request is older than the one that is deployed.
  abbrev rolls_back : Option ℤ → Option ℤ → Bool
  rolls_back (some pr_ts) (some deployed_ts) = ltb_ℤ pr_ts deployed_ts
  rolls_back _ _ = false

  unfoldable pub check_images : Assoc String → String → List String → Eval W Bool
  check_images deployed tag [] = pure true
  check_images deployed tag (image ∷ images) = elim (lookup image deployed) [
    | none ↦ check_images deployed tag images
    | some deployed_tag ↦ if str_eq deployed_tag tag then check_images deployed tag images else do
      pr_ts ← image_committed_at_cached outside.clients image tag
      deployed_ts ← image_committed_at_cached outside.clients image deployed_tag
      if rolls_back pr_ts deployed_ts then pure false else check_images deployed tag images
  ]

  unfoldable pub compare_deployed : String → String → Option String → Eval W Bool
  unfolding image_names deployed_tags check_images
  compare_deployed images tag none = pure true
  compare_deployed images tag (some raw) = elim (outside.parse_kustomization raw) [
    | none ↦ pure true
    | some deployed ↦ check_images (deployed_tags deployed []) tag (image_names images)
  ]

  abbrev pub all_three :
      Option String → Option String → Option String → Option (String × String × String)
  all_three (some a) (some b) (some c) = some (a, b, c)
  all_three _ _ _ = none

  unfoldable pub is_latest_published_image :
      PrEvent → (images_field tag_field path_field : String) → Eval W Bool
  unfolding compare_deployed
  is_latest_published_image pr images_field tag_field path_field = do
    current ← get_pr_cached outside.clients pr
    elim current [
      | none ↦ pure true
      | some p ↦ elim (parse_pr_metadata outside.templating (or_empty p.body)) [
        | none ↦ pure true
        | some meta ↦
            elim (all_three (text_field meta images_field) (text_field meta tag_field)
              (text_field meta path_field)) [
                | none ↦ pure true
                | some (images, tag, path) ↦ do
                  let file = trim_end (λ c. c == b'/') path ++ "/kustomization.yaml"
                  raw ← call (outside.clients.get_raw_file pr.owner pr.repo file pr.target_branch)
                  compare_deployed images tag raw
              ]
      ]
    ]

  -- The values of the fields that are texts, with their names.
  unfoldable pub field_values : Assoc (Json N) → List String → Assoc String
  field_values meta [] = []
  field_values meta (f ∷ fields) = elim (text_field meta f) [
    | none ↦ field_values meta fields
    | some s ↦ (f, s) ∷ field_values meta fields
  ]

  abbrev has_text : String → Option String → Bool
  has_text value none = false
  has_text value (some s) = str_eq s value

  unfoldable pub all_fields_match : Assoc (Json N) → Assoc String → Bool
  all_fields_match other values =
      all (λ (field, value). has_text value (text_field other field)) values

  -- By the key where both have one, and by the time of creation otherwise.
  abbrev later_key : Option ℤ → Option ℤ → Bool → Bool
  later_key (some cur_key) (some other_key) by_time = ltb_ℤ cur_key other_key
  later_key _ _ by_time = by_time

  unfoldable pub is_newer :
      Option String → Option ℤ → Option ℤ → ApiPullRequest → Assoc (Json N) → Bool
  unfolding metadata_order_key
  is_newer order_field current_key current_created other other_meta =
      let by_time = option_lt current_created other.created_at in
      elim order_field [
        | none ↦ by_time
        | some f ↦ later_key current_key (metadata_order_key other_meta f) by_time
      ]

  abbrev number_or_zero : Option ℤ → ℕ
  number_or_zero none = 0
  number_or_zero (some n) = as_u64 n

  -- Whether one of the open requests takes the place of the one at hand.
  unfoldable pub supersedes :
      PrEvent → Assoc String → Option String → Option ℤ → Option ℤ → ApiPullRequest → Bool
  unfolding all_fields_match is_newer
  supersedes pr values order_field current_key current_created other =
      if number_or_zero other.number == pr.pr_number
      then false
      else if not (str_eq (or_empty other.user_login) pr.author)
      then false
      else elim (parse_pr_metadata outside.templating (or_empty other.body)) [
        | none ↦ false
        | some other_meta ↦
            if not (all_fields_match other_meta values)
            then false
            else is_newer order_field current_key current_created other other_meta
      ]

  abbrev order_key : Assoc (Json N) → Option String → Option ℤ
  order_key meta none = none
  order_key meta (some f) = metadata_order_key meta f

  unfoldable pub is_latest_by_metadata : PrEvent → List String → Option String → Eval W Bool
  unfolding field_values supersedes
  is_latest_by_metadata pr fields order_field = do
    current ← get_pr_cached outside.clients pr
    elim current [
      | none ↦ pure true
      | some p ↦ elim (parse_pr_metadata outside.templating (or_empty p.body)) [
        | none ↦ pure true
        | some meta ↦
            let values = field_values meta fields in
            if not (length values == length fields) then pure true else do
              open_prs ← open_prs_cached outside.clients pr
              elim open_prs [
                | none ↦ pure true
                | some prs ↦ pure (
                    not (
                      any
                        (supersedes pr values order_field (order_key meta order_field) p.created_at)
                        prs))
              ]
      ]
    ]
