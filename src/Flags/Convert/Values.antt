-- ===== src/Flags/Convert/Values.antt =====
-- `serde_json` values to `prost_types` values and back:
-- crates/feature-flag/feature-flag-engine/src/convert/mod.rs.
use inf_k8s.Prelude.{Option, none, some, [], ◌∷◌}
use inf_k8s.Prelude.Assoc.{Assoc}
use inf_k8s.Prelude.Int.{pos}
use inf_k8s.Prelude.Float.{F64}
use inf_k8s.Flags.Json.{Json, Items, Fields, Numbers}
use inf_k8s.Flags.Wire.{ProstValue, ProstItems, ProstFields}

-- `unwrap_or(0.0)`
abbrev pub or_zero : Option F64 → F64
or_zero none = 0
or_zero (some x) = x

-- `map(Json::Number).unwrap_or(Json::Null)`
abbrev pub number_or_null : {N : Type 0} → Option N → Json N
number_or_null none = Json.null
number_or_null (some n) = Json.number n

module _ {N : Type 0} (num : Numbers N) where
  unfoldable mutual
    pub json_to_prost_value : Json N → ProstValue
    json_to_prost_value Json.null = ProstValue.null_value (pos 0)
    json_to_prost_value (Json.bool b) = ProstValue.bool_value b
    json_to_prost_value (Json.number n) = ProstValue.number_value (or_zero (num.as_f64 n))
    json_to_prost_value (Json.string s) = ProstValue.string_value s
    json_to_prost_value (Json.array a) = ProstValue.list_value (items_to_prost a)
    json_to_prost_value (Json.object o) = ProstValue.struct_value (json_object_to_struct o)

    pub items_to_prost : Items N → ProstItems
    items_to_prost Items.nil = ProstItems.nil
    items_to_prost (Items.cons j js) = ProstItems.cons (json_to_prost_value j) (items_to_prost js)

    pub json_object_to_struct : Fields N → ProstFields
    json_object_to_struct Fields.end = ProstFields.end
    json_object_to_struct (Fields.field k j o) =
        ProstFields.field k (json_to_prost_value j) (json_object_to_struct o)

  unfoldable mutual
    pub prost_value_to_json : ProstValue → Json N
    prost_value_to_json ProstValue.unset = Json.null
    prost_value_to_json (ProstValue.null_value i) = Json.null
    prost_value_to_json (ProstValue.bool_value b) = Json.bool b
    prost_value_to_json (ProstValue.number_value x) = number_or_null (num.from_f64 x)
    prost_value_to_json (ProstValue.string_value s) = Json.string s
    prost_value_to_json (ProstValue.list_value l) = Json.array (prost_to_items l)
    prost_value_to_json (ProstValue.struct_value s) = Json.object (struct_to_object s)

    pub prost_to_items : ProstItems → Items N
    prost_to_items ProstItems.nil = Items.nil
    prost_to_items (ProstItems.cons v vs) = Items.cons (prost_value_to_json v) (prost_to_items vs)

    pub struct_to_object : ProstFields → Fields N
    struct_to_object ProstFields.end = Fields.end
    struct_to_object (ProstFields.field k v s) =
        Fields.field k (prost_value_to_json v) (struct_to_object s)

  unfoldable pub json_to_struct : Json N → ProstFields
  unfolding json_to_prost_value
  json_to_struct (Json.object o) = json_object_to_struct o
  json_to_struct _ = ProstFields.end

  -- The entries of a struct, decoded.
  unfoldable pub attributes_of : ProstFields → Assoc (Json N)
  unfolding prost_value_to_json
  attributes_of ProstFields.end = []
  attributes_of (ProstFields.field k v s) = (k, prost_value_to_json v) ∷ attributes_of s
