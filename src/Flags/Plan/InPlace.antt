-- ===== src/Flags/Plan/InPlace.antt =====
-- A configuration that is in place needs no change:
-- platform-services/feature-flags/src/store/mod.rs.
use inf_k8s.Prelude.{
  ◌≡◌, refl, ap, ◌∙◌, arith, eq_refl, ℕ, String, Bool, true, false, not, ◌&&◌, ◌==◌, length, List,
  [], ◌∷◌, ◌++◌, Option, none, some, All, bool_eq, str_eq, is_empty, if◌then◌else◌,
}
use inf_k8s.Prelude.Assoc.{Assoc, lookup}
use inf_k8s.Flags.Json.{Json, Items, Fields, Numbers, json_eq, items_eq, fields_eq}
use inf_k8s.Flags.Model.{
  ValueType, Operator, Variant, Constraint, ConstraintGroup, Distribution, Rule, Segment, Flag,
  Snapshot,
}
use inf_k8s.Flags.Equal.{
  list_eq, option_eq, value_type_eq, operator_eq, distribution_eq, variant_eq, constraint_eq,
  group_eq, rule_eq,
}
use inf_k8s.Flags.Plan.{
  zip_all, push_if, unranked, sort_variants, variants_equal, rules_equal, flag_diff_fields,
  segment_diff_fields, segments_equal, segment_change, flag_change, deletions, is_desired_segment,
  is_desired_flag, segment_changes, flag_changes, diff_config, change, ChangeOp, fields_detail,
}

and_true : (a b : Bool) → a ≡ true → b ≡ true → (a && b) ≡ true
and_true a b h k = ground (arith, h, k)

same_number : (n : ℕ) → (n == n) ≡ true
same_number n = ground arith

same_bool : (b : Bool) → bool_eq b b ≡ true
same_bool b = ground arith

list_same :
    {A : Type 0} (eq : A → A → Bool)
    → ((a : A) → eq a a ≡ true)
    → (xs : List A) → list_eq eq xs xs ≡ true
list_same eq h [] = refl
list_same eq h (x ∷ xs) = and_true _ _ (h x) (list_same eq h xs)

option_same :
    {A : Type 0} (eq : A → A → Bool)
    → ((a : A) → eq a a ≡ true)
    → (o : Option A) → option_eq eq o o ≡ true
option_same eq h none = refl
option_same eq h (some a) = h a

zip_same :
    {A : Type 0} (p : A → A → Bool)
    → ((a : A) → p a a ≡ true)
    → (xs : List A) → zip_all p xs xs ≡ true
zip_same p h [] = refl
zip_same p h (x ∷ xs) = and_true _ _ (h x) (zip_same p h xs)

value_type_same : (t : ValueType) → value_type_eq t t ≡ true
unfolding value_type_eq
value_type_same t = same_number _

operator_same : (op : Operator) → operator_eq op op ≡ true
unfolding operator_eq
operator_same op = same_number _

distribution_same : (d : Distribution) → distribution_eq d d ≡ true
unfolding distribution_eq
distribution_same d = and_true _ _ (eq_refl d.variant_key) (same_number d.weight)

-- A guard on lengths that are the same.
length_guard :
    {A : Type 0} (xs : List A) (b : Bool)
    → b ≡ true
    → (if not (length xs == length xs) then false else b) ≡ true
length_guard xs b h = ap (λ t. if not t then false else b) (same_number (length xs)) ∙ h

unpushed : (b : Bool) (field : String) → b ≡ true → push_if (not b) field ≡ []
unpushed b field h = ap (λ t. push_if (not t) field) h

both_empty : {A : Type 0} {xs ys : List A} → xs ≡ [] → ys ≡ [] → (xs ++ ys) ≡ []
both_empty {ys = ys} h k = ap (λ l. l ++ ys) h ∙ k

module _ {N : Type 0} (num : Numbers N) (num_refl : (n : N) → num.num_eq n n ≡ true) where
  mutual
    unfolding json_eq

    json_same : (j : Json N) → json_eq num j j ≡ true
    json_same Json.null = refl
    json_same (Json.bool b) = same_bool b
    json_same (Json.number n) = num_refl n
    json_same (Json.string s) = eq_refl s
    json_same (Json.array a) = items_same a
    json_same (Json.object o) = fields_same o

    items_same : (a : Items N) → items_eq num a a ≡ true
    items_same Items.nil = refl
    items_same (Items.cons j js) = and_true _ _ (json_same j) (items_same js)

    fields_same : (o : Fields N) → fields_eq num o o ≡ true
    fields_same Fields.end = refl
    fields_same (Fields.field k j o) =
        and_true _ _ (and_true _ _ (eq_refl k) (json_same j)) (fields_same o)

  variant_same : (v : Variant N) → variant_eq num v v ≡ true
  unfolding variant_eq
  variant_same v = and_true _ _ (eq_refl v.key) (json_same v.value)

  constraint_same : (c : Constraint N) → constraint_eq num c c ≡ true
  unfolding constraint_eq
  constraint_same c =
      and_true _ _ (and_true _ _ (eq_refl c.attribute) (operator_same c.operator))
        (list_same (json_eq num) json_same c.values)

  group_same : (g : ConstraintGroup N) → group_eq num g g ≡ true
  unfolding group_eq
  group_same g = list_same (constraint_eq num) constraint_same g.constraints

  rule_same : (r : Rule N) → rule_eq num r r ≡ true
  unfolding rule_eq
  rule_same r =
      and_true _ _
        (and_true _ _
          (and_true _ _
            (and_true _ _
              (and_true _ _ (same_number r.rank) (option_same str_eq eq_refl r.segment_key))
              (option_same str_eq eq_refl r.variant_key))
            (list_same distribution_eq distribution_same r.distributions))
          (list_same (group_eq num) group_same r.constraint_groups))
        (eq_refl r.bucket_salt)

  no_flag_fields : (f : Flag N) → flag_diff_fields num f f ≡ []
  unfolding flag_diff_fields variants_equal rules_equal
  no_flag_fields f =
      both_empty
        (both_empty
          (both_empty
            (both_empty
              (both_empty (unpushed _ "value_type" (value_type_same f.value_type))
                (unpushed _ "enabled" (same_bool f.enabled)))
              (unpushed _ "default_variant_key" (eq_refl f.default_variant_key)))
            (unpushed _ "archived" (same_bool f.archived)))
          (unpushed _ "variants" (
            length_guard f.variants _
              (list_same (variant_eq num) variant_same (sort_variants f.variants)))))
        (unpushed _ "rules" (
          length_guard f.rules _ (
            zip_same (λ x y. rule_eq num (unranked x) (unranked y)) (λ r. rule_same (unranked r))
              f.rules)))

  no_segment_fields : (s : Segment N) → segment_diff_fields num s s ≡ []
  unfolding segment_diff_fields
  no_segment_fields s =
      both_empty (unpushed _ "name" (eq_refl s.name))
        (unpushed _ "constraints" (list_same (constraint_eq num) constraint_same s.constraints))

  in_place_segment :
      (s : Segment N) (o : Option (Segment N)) → o ≡ some s → segment_change num s o ≡ []
  unfolding segment_change segments_equal
  in_place_segment s o h = ap (segment_change num s) h ∙ unchanged
    where
      unchanged : segment_change num s (some s) ≡ []
      unchanged =
          ap
            (λ fields.
              if not (is_empty fields)
              then change "segment" s.key ChangeOp.update (fields_detail fields) ∷ []
              else [])
            (no_segment_fields s)

  in_place_flag : (f : Flag N) (o : Option (Flag N)) → o ≡ some f → flag_change num f o ≡ []
  unfolding flag_change
  in_place_flag f o h = ap (flag_change num f) h ∙ unchanged
    where
      unchanged : flag_change num f (some f) ≡ []
      unchanged =
          ap
            (λ fields.
              if not (is_empty fields)
              then change "flag" f.key ChangeOp.update (fields_detail fields) ∷ []
              else [])
            (no_flag_fields f)

  segments_in_place :
      (current : Snapshot N) (segments : List (Segment N))
      → All (λ (s : Segment N). lookup s.key current.segments ≡ some s) segments
      → segment_changes num current segments ≡ []
  unfolding segment_changes
  segments_in_place current [] h = refl
  segments_in_place current (s ∷ ss) h =
      both_empty (in_place_segment s _ h.0) (segments_in_place current ss h.1)

  flags_in_place :
      (current : Snapshot N) (flags : List (Flag N))
      → All (λ (f : Flag N). lookup f.key current.flags ≡ some f) flags
      → flag_changes num current flags ≡ []
  unfolding flag_changes
  flags_in_place current [] h = refl
  flags_in_place current (f ∷ fs) h =
      both_empty (in_place_flag f _ h.0) (flags_in_place current fs h.1)

  none_deleted :
      {V : Type 0} (kind : String) (desired : String → Bool) (m : Assoc V)
      → All (λ (e : String × V). desired e.0 ≡ true) m
      → deletions {N = N} kind desired m ≡ []
  unfolding deletions
  none_deleted kind desired [] h = refl
  none_deleted kind desired ((key, v) ∷ m) h =
      ap
        (λ b.
          if not b
          then change kind key ChangeOp.delete Json.null ∷ deletions kind desired m
          else deletions kind desired m)
        h.0
      ∙ none_deleted kind desired m h.1

  -- A desired configuration whose segments and flags are those in place under their keys, and that
  -- has every segment and flag in place, plans no change. It is assumed that every number is `==` to
  -- itself.
  pub diff_config-in_place :
      (current : Snapshot N) (flags : List (Flag N)) (segments : List (Segment N))
      → All (λ (s : Segment N). lookup s.key current.segments ≡ some s) segments
      → All (λ (f : Flag N). lookup f.key current.flags ≡ some f) flags
      → All (λ (e : String × Segment N). is_desired_segment segments e.0 ≡ true) current.segments
      → All (λ (e : String × Flag N). is_desired_flag flags e.0 ≡ true) current.flags
      → diff_config num current flags segments ≡ []
  unfolding diff_config
  diff_config-in_place current flags segments hs hf ds df =
      both_empty
        (both_empty
          (both_empty (segments_in_place current segments hs)
            (none_deleted "segment" (is_desired_segment segments) current.segments ds))
          (flags_in_place current flags hf))
        (none_deleted "flag" (is_desired_flag flags) current.flags df)
