-- ===== src/Flags/Convert/RoundTrip.antt =====
-- What was decoded is encoded without loss: crates/feature-flag/feature-flag-engine/src/convert.
use inf_k8s.Prelude.{
  ◌≡◌, refl, ap, ◌∙◌, String, List, [], ◌∷◌, map, Option, none, some, Option-cases, inl, inr,
  Bool-cases, str_eq, if◌then◌else◌, Result, ok, collect, >>=-eq-ok, then_ok, subst,
}
use inf_k8s.Prelude.Float.{F64}
use inf_k8s.Flags.Json.{Json, Numbers}
use inf_k8s.Flags.Model.{ValueType, Operator, Constraint, ConstraintGroup, Rule, Segment, Flag}
use inf_k8s.Flags.Wire
use inf_k8s.Flags.Wire.{
  ProstValue, ProstItems, ProstFields, value_type_number, value_type_of, operator_number,
  operator_of,
}
use inf_k8s.Flags.Convert.{
  ConversionError, json_to_prost_value, json_object_to_struct, items_to_prost, prost_value_to_json,
  prost_to_items, struct_to_object, number_or_null, value_type_to_wire, value_type_from_wire,
  operator_to_wire, operator_from_wire, key_to_wire, key_from_wire, distribution_to_wire,
  distribution_from_wire, value_or_null, variant_to_wire, variant_from_wire, constraint_to_wire,
  constraint_from_wire, constraints_from_wire, group_to_wire, group_from_wire, rule_to_wire,
  rule_from_wire, segment_to_wire, segment_from_wire, flag_to_wire, flag_from_wire,
}

operator_back :
    (o : Operator) → operator_from_wire (operator_of (operator_number (operator_to_wire o))) ≡ ok o
unfolding operator_from_wire operator_to_wire
operator_back Operator.eq = refl
operator_back Operator.neq = refl
operator_back Operator.in_list = refl
operator_back Operator.not_in = refl
operator_back Operator.contains = refl
operator_back Operator.starts_with = refl
operator_back Operator.ends_with = refl
operator_back Operator.gt = refl
operator_back Operator.gte = refl
operator_back Operator.lt = refl
operator_back Operator.lte = refl
operator_back Operator.exists = refl
operator_back Operator.regex = refl
operator_back Operator.flag_matches = refl

value_type_back :
    (t : ValueType)
    → value_type_from_wire (value_type_of (value_type_number (value_type_to_wire t))) ≡ ok t
unfolding value_type_from_wire value_type_to_wire
value_type_back ValueType.boolean = refl
value_type_back ValueType.string = refl
value_type_back ValueType.integer = refl
value_type_back ValueType.float = refl
value_type_back ValueType.object = refl

key_back : (k : String) → key_from_wire (key_to_wire (key_from_wire k)) ≡ key_from_wire k
key_back k = elim (Bool-cases (str_eq k "")) [
  | inl e ↦ rw e
  | inr e ↦ rw (e, ap (λ t. if t then none else some k) e)
]

ok_inj : {A : Type 0} {a b : A} → ◌≡◌ {A = Result ConversionError A} (ok a) (ok b) → a ≡ b
ok_inj e = cc

map_back :
    {A B : Type 0} (to : A → B) (from : B → A)
    → ((b : B) → from (to (from b)) ≡ from b)
    → (bs : List B) → map from (map to (map from bs)) ≡ map from bs
map_back to from h [] = refl
map_back to from h (b ∷ bs) = rw (h b, map_back to from h bs)

collect_nil :
    {A B : Type 0} (from : B → Result ConversionError A) (to : A → B) {xs : List A}
    → ◌≡◌ {A = Result ConversionError (List A)} (ok []) (ok xs)
    → collect from (map to xs) ≡ ok xs
collect_nil from to e = subst (λ ys. collect from (map to ys) ≡ ok ys) (ok_inj e) refl

collect_back :
    {A B : Type 0} (to : A → B) (from : B → Result ConversionError A)
    → ((b : B) (a : A) → from b ≡ ok a → from (to a) ≡ ok a)
    → (bs : List B) {xs : List A} → collect from bs ≡ ok xs
    → collect from (map to xs) ≡ ok xs
collect_back to from h [] e = collect_nil from to e
collect_back to from h (b ∷ bs) {xs} e =
    let (a, first, rest) = >>=-eq-ok (from b) _ e in
    let (later, others, whole) = >>=-eq-ok (collect from bs) _ rest in
    subst (λ ys. collect from (map to ys) ≡ ok ys) (ok_inj whole)
      (then_ok (h b a first) _ ∙ then_ok (collect_back to from h bs others) _)

distributions_back :
    (ds : List Wire.Distribution)
    → map distribution_from_wire (map distribution_to_wire (map distribution_from_wire ds))
      ≡ map distribution_from_wire ds
unfolding distribution_from_wire distribution_to_wire
distributions_back = map_back distribution_to_wire distribution_from_wire λ d. refl

module _ {N : Type 0} (num : Numbers N) where
  number_back :
      (x : F64)
      → prost_value_to_json num (json_to_prost_value num (number_or_null (num.from_f64 x)))
        ≡ number_or_null (num.from_f64 x)
  unfolding prost_value_to_json json_to_prost_value
  number_back x = elim (Option-cases (num.from_f64 x)) [
    | inl e ↦ rw e
    | inr (n, e) ↦ rw (e, num.as_f64-from_f64 x n e, e)
  ]

  mutual
    unfolding prost_value_to_json json_to_prost_value

    value_back :
        (v : ProstValue)
        → prost_value_to_json num (json_to_prost_value num (prost_value_to_json num v))
          ≡ prost_value_to_json num v
    value_back ProstValue.unset = refl
    value_back (ProstValue.null_value i) = refl
    value_back (ProstValue.bool_value b) = refl
    value_back (ProstValue.number_value x) = number_back x
    value_back (ProstValue.string_value s) = refl
    value_back (ProstValue.list_value l) = ap Json.array (items_back l)
    value_back (ProstValue.struct_value s) = ap Json.object (fields_back s)

    items_back :
        (l : ProstItems)
        → prost_to_items num (items_to_prost num (prost_to_items num l)) ≡ prost_to_items num l
    items_back ProstItems.nil = refl
    items_back (ProstItems.cons v vs) = rw (value_back v, items_back vs)

    fields_back :
        (s : ProstFields)
        → struct_to_object num (json_object_to_struct num (struct_to_object num s))
          ≡ struct_to_object num s
    fields_back ProstFields.end = refl
    fields_back (ProstFields.field k v s) = rw (value_back v, fields_back s)

  content_back :
      (o : Option ProstValue)
      → prost_value_to_json num (json_to_prost_value num (value_or_null num o))
        ≡ value_or_null num o
  unfolding prost_value_to_json json_to_prost_value
  content_back none = refl
  content_back (some w) = value_back w

  variant_back :
      (v : Wire.Variant)
      → variant_from_wire num (variant_to_wire num (variant_from_wire num v))
        ≡ variant_from_wire num v
  unfolding variant_from_wire variant_to_wire
  variant_back v = ap (λ j. record { key = v.key; value = j }) (content_back v.value)

  constraint_back :
      (w : Wire.Constraint) (c : Constraint N)
      → constraint_from_wire num w ≡ ok c
      → constraint_from_wire num (constraint_to_wire num c) ≡ ok c
  unfolding constraint_from_wire constraint_to_wire
  constraint_back w c e =
      let (operator, known, whole) = >>=-eq-ok (operator_from_wire (operator_of w.operator)) _ e in
      subst (λ d. constraint_from_wire num (constraint_to_wire num d) ≡ ok d) (ok_inj whole)
        (then_ok (operator_back operator) _
          ∙ ap (λ vs. ok (record { attribute = w.attribute; operator = operator; values = vs }))
              (map_back (json_to_prost_value num) (prost_value_to_json num) value_back w.values))

  constraints_back :
      (ws : List Wire.Constraint) {cs : List (Constraint N)}
      → constraints_from_wire num ws ≡ ok cs
      → constraints_from_wire num (map (constraint_to_wire num) cs) ≡ ok cs
  unfolding constraints_from_wire
  constraints_back =
      collect_back (constraint_to_wire num) (constraint_from_wire num) constraint_back

  group_back :
      (w : Wire.ConstraintGroup) (g : ConstraintGroup N)
      → group_from_wire num w ≡ ok g
      → group_from_wire num (group_to_wire num g) ≡ ok g
  unfolding group_from_wire group_to_wire
  group_back w g e =
      let (cs, decoded, whole) = >>=-eq-ok (constraints_from_wire num w.constraints) _ e in
      subst (λ h. group_from_wire num (group_to_wire num h) ≡ ok h) (ok_inj whole)
        (then_ok (constraints_back w.constraints decoded) _)

  rule_back :
      (w : Wire.Rule) (r : Rule N)
      → rule_from_wire num w ≡ ok r
      → rule_from_wire num (rule_to_wire num r) ≡ ok r
  unfolding rule_from_wire rule_to_wire
  rule_back w r e =
      let (groups, decoded, whole) =
        >>=-eq-ok (collect (group_from_wire num) w.constraint_groups) _ e in
      subst (λ h. rule_from_wire num (rule_to_wire num h) ≡ ok h) (ok_inj whole)
        (then_ok
            (collect_back (group_to_wire num) (group_from_wire num) group_back w.constraint_groups
              decoded)
            _
          ∙ rw (key_back w.segment_key, key_back w.variant_key, distributions_back w.distributions))

  -- A segment that was decoded from a message is the same after it is encoded and decoded again.
  pub segment_from_wire-segment_to_wire :
      (w : Wire.Segment) {s : Segment N}
      → segment_from_wire num w ≡ ok s
      → segment_from_wire num (segment_to_wire num s) ≡ ok s
  unfolding segment_from_wire segment_to_wire
  segment_from_wire-segment_to_wire w {s} e =
      let (cs, decoded, whole) = >>=-eq-ok (constraints_from_wire num w.constraints) _ e in
      subst (λ h. segment_from_wire num (segment_to_wire num h) ≡ ok h) (ok_inj whole)
        (then_ok (constraints_back w.constraints decoded) _)

  -- A flag that was decoded from a message is the same after it is encoded and decoded again: its
  -- values, rules, groups, rollouts and optional keys included.
  pub flag_from_wire-flag_to_wire :
      (w : Wire.Flag) {flag : Flag N}
      → flag_from_wire num w ≡ ok flag
      → flag_from_wire num (flag_to_wire num flag) ≡ ok flag
  unfolding flag_from_wire flag_to_wire
  flag_from_wire-flag_to_wire w {flag} e =
      let (t, known, later) = >>=-eq-ok (value_type_from_wire (value_type_of w.value_type)) _ e in
      let (rules, decoded, whole) = >>=-eq-ok (collect (rule_from_wire num) w.rules) _ later in
      subst (λ h. flag_from_wire num (flag_to_wire num h) ≡ ok h) (ok_inj whole)
        (then_ok (value_type_back t) _
          ∙ (then_ok
                (collect_back (rule_to_wire num) (rule_from_wire num) rule_back w.rules decoded) _
              ∙ rw
                  (map_back (variant_to_wire num) (variant_from_wire num) variant_back w.variants)))
