-- ===== src/Flags/Plan.antt =====
-- The changes that lead to a desired configuration: `diff_config` and what it calls, in
-- platform-services/feature-flags/src/store/mod.rs. The details are objects in the order of their
-- keys, as `serde_json::Map` keeps them.
pub mod InPlace
use Prim.Native.Nat.{Ordering}
use Prim.Native.String.{compare}
use inf_k8s.Prelude.{
  String, Bool, true, false, not, ◌&&◌, List, [], ◌∷◌, ◌++◌, Option, none, some, any, is_empty,
  length, ◌==◌, str_eq, bool_eq, if◌then◌else◌,
}
use inf_k8s.Prelude.Assoc.{Assoc, lookup}
use inf_k8s.Flags.Json.{Json, Items, Fields, Numbers, json_eq}
use inf_k8s.Flags.Model.{Variant, Rule, Segment, Flag, Snapshot}
use inf_k8s.Flags.Equal.{list_eq, value_type_eq, variant_eq, constraint_eq, rule_eq}
use inf_k8s.Flags.Names.{value_type_to_str}

pub data ChangeOp : Type 0 where
  create update delete : ChangeOp

pub record ConfigChange (N : Type 0) : Type 0 where
  pub target_kind : String
  pub target_key : String
  pub op : ChangeOp
  pub detail : Json N

-- The action that the audit log records for a change.
unfoldable pub audit_action : String → ChangeOp → String
audit_action kind ChangeOp.create = if str_eq kind "flag" then "create_flag" else "upsert_segment"
audit_action kind ChangeOp.update = if str_eq kind "flag" then "update_flag" else "upsert_segment"
audit_action kind ChangeOp.delete =
    if str_eq kind "flag"
    then "delete_flag"
    else if str_eq kind "segment"
    then "delete_segment"
    else "upsert_segment"

-- `a.iter().zip(b).all(p)`, which ends with the shorter list.
abbrev pub zip_all : {A : Type 0} → (A → A → Bool) → List A → List A → Bool
zip_all p (x ∷ xs) (y ∷ ys) = p x y && zip_all p xs ys
zip_all p _ _ = true

-- A push that a test guards.
abbrev pub push_if : Bool → String → List String
push_if true field = field ∷ []
push_if false field = []

abbrev pub names_json : {N : Type 0} → List String → Items N
names_json [] = Items.nil
names_json (s ∷ names) = Items.cons (Json.string s) (names_json names)

-- `json!({ "fields": fields })`
abbrev pub fields_detail : {N : Type 0} → List String → Json N
fields_detail names = Json.object (Fields.field "fields" (Json.array (names_json names)) Fields.end)

module _ {N : Type 0} where
  -- `sort_by` on the keys, which is stable.
  unfoldable pub insert_variant : Variant N → List (Variant N) → List (Variant N)
  insert_variant v [] = v ∷ []
  insert_variant v (w ∷ ws) =
      let rest = insert_variant v ws in
      elim (compare v.key w.key) [ Ordering.gt ↦ w ∷ rest | _ ↦ v ∷ w ∷ ws ]

  unfoldable pub sort_variants : List (Variant N) → List (Variant N)
  unfolding insert_variant
  sort_variants [] = []
  sort_variants (v ∷ vs) = insert_variant v (sort_variants vs)

  -- `Rule { rank: 0, ..rule }`
  unfoldable pub unranked : Rule N → Rule N
  unranked rule = record {
    rank = 0;
    segment_key = rule.segment_key;
    variant_key = rule.variant_key;
    distributions = rule.distributions;
    constraint_groups = rule.constraint_groups;
    bucket_salt = rule.bucket_salt;
  }

  abbrev pub change : String → String → ChangeOp → Json N → ConfigChange N
  change kind key op detail = record {
    target_kind = kind;
    target_key = key;
    op = op;
    detail = detail;
  }

  unfoldable pub flag_created : Flag N → Json N
  unfolding value_type_to_str
  flag_created flag = Json.object (
      Fields.field "default_variant_key" (Json.string flag.default_variant_key) (
        Fields.field "enabled" (Json.bool flag.enabled)
          (Fields.field "value_type" (Json.string (value_type_to_str flag.value_type)) Fields.end)))

  -- The loops over the keys in place: those that are not desired are deleted.
  unfoldable pub deletions :
      {V : Type 0} → String → (String → Bool) → Assoc V → List (ConfigChange N)
  deletions kind desired [] = []
  deletions kind desired ((key, v) ∷ m) =
      let rest = deletions kind desired m in
      if not (desired key) then change kind key ChangeOp.delete Json.null ∷ rest else rest

  abbrev pub is_desired_segment : List (Segment N) → String → Bool
  is_desired_segment segments key = any (λ (s : Segment N). str_eq s.key key) segments

  abbrev pub is_desired_flag : List (Flag N) → String → Bool
  is_desired_flag flags key = any (λ (f : Flag N). str_eq f.key key) flags

module _ {N : Type 0} (num : Numbers N) where
  unfoldable pub variants_equal : List (Variant N) → List (Variant N) → Bool
  unfolding sort_variants variant_eq
  variants_equal a b =
      if not (length a == length b)
      then false
      else list_eq (variant_eq num) (sort_variants a) (sort_variants b)

  unfoldable pub rules_equal : List (Rule N) → List (Rule N) → Bool
  unfolding rule_eq unranked
  rules_equal a b =
      if not (length a == length b)
      then false
      else zip_all (λ x y. rule_eq num (unranked x) (unranked y)) a b

  unfoldable pub flag_diff_fields : Flag N → Flag N → List String
  unfolding value_type_eq variants_equal rules_equal
  flag_diff_fields live desired =
      push_if (not (value_type_eq live.value_type desired.value_type)) "value_type"
      ++ push_if (not (bool_eq live.enabled desired.enabled)) "enabled"
      ++ push_if (not (str_eq live.default_variant_key desired.default_variant_key))
          "default_variant_key"
      ++ push_if (not (bool_eq live.archived desired.archived)) "archived"
      ++ push_if (not (variants_equal live.variants desired.variants)) "variants"
      ++ push_if (not (rules_equal live.rules desired.rules)) "rules"

  unfoldable pub segment_diff_fields : Segment N → Segment N → List String
  unfolding constraint_eq
  segment_diff_fields live desired =
      push_if (not (str_eq live.name desired.name)) "name"
      ++ push_if (not (list_eq (constraint_eq num) live.constraints desired.constraints))
          "constraints"

  unfoldable pub segments_equal : Segment N → Segment N → Bool
  unfolding segment_diff_fields
  segments_equal live desired = is_empty (segment_diff_fields live desired)

  -- The change for a desired segment, next to the one in place under its key.
  unfoldable pub segment_change : Segment N → Option (Segment N) → List (ConfigChange N)
  unfolding segments_equal
  segment_change segment none =
      change "segment" segment.key ChangeOp.create
        (Json.object (Fields.field "name" (Json.string segment.name) Fields.end))
      ∷ []
  segment_change segment (some live) =
      if not (segments_equal live segment)
      then change "segment" segment.key ChangeOp.update
          (fields_detail (segment_diff_fields live segment))
        ∷ []
      else []

  -- The change for a desired flag, next to the one in place under its key.
  unfoldable pub flag_change : Flag N → Option (Flag N) → List (ConfigChange N)
  unfolding flag_diff_fields flag_created
  flag_change flag none = change "flag" flag.key ChangeOp.create (flag_created flag) ∷ []
  flag_change flag (some live) =
      let fields = flag_diff_fields live flag in
      if not (is_empty fields)
      then change "flag" flag.key ChangeOp.update (fields_detail fields) ∷ []
      else []

  unfoldable pub segment_changes : Snapshot N → List (Segment N) → List (ConfigChange N)
  unfolding segment_change
  segment_changes current [] = []
  segment_changes current (s ∷ ss) =
      segment_change s (lookup s.key current.segments) ++ segment_changes current ss

  unfoldable pub flag_changes : Snapshot N → List (Flag N) → List (ConfigChange N)
  unfolding flag_change
  flag_changes current [] = []
  flag_changes current (f ∷ fs) =
      flag_change f (lookup f.key current.flags) ++ flag_changes current fs

  unfoldable pub diff_config : Snapshot N → List (Flag N) → List (Segment N) → List (ConfigChange N)
  unfolding segment_changes flag_changes deletions
  diff_config current flags segments =
      segment_changes current segments
      ++ deletions "segment" (is_desired_segment segments) current.segments
      ++ flag_changes current flags
      ++ deletions "flag" (is_desired_flag flags) current.flags
