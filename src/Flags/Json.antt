-- ===== src/Flags/Json.antt =====
-- `serde_json::Value` as crates/feature-flag uses it. An object's fields stand in the order of the
-- map. Numbers are the library's own: an abstract type with the operations that the code calls.
use inf_k8s.Prelude.{String, Bool, true, false, ◌&&◌, Option, none, some, ◌≡◌, str_eq, bool_eq}
use inf_k8s.Prelude.Int.{ℤ}
use inf_k8s.Prelude.Float.{F64, is_finite}

-- `serde_json::Number`, by what its documentation says of the calls in the source.
pub record Numbers (N : Type 0) : Type 0 where
  -- `==`
  pub num_eq : N → N → Bool
  pub as_f64 : N → Option F64
  -- `None` for a number written as a float, such as `256.0`.
  pub as_i64 : N → Option ℤ
  -- `None` for what is not finite.
  pub from_f64 : F64 → Option N
  pub from_f64_finite : (x : F64) → is_finite x ≡ true → (n : N) × (from_f64 x ≡ some n)
  pub as_f64-from_f64 : (x : F64) (n : N) → from_f64 x ≡ some n → as_f64 n ≡ some x
  pub as_i64-from_f64 : (x : F64) (n : N) → from_f64 x ≡ some n → as_i64 n ≡ none

mutual
  pub data Json (N : Type 0) : Type 0 where
    null : Json N
    bool : Bool → Json N
    number : N → Json N
    string : String → Json N
    array : Items N → Json N
    object : Fields N → Json N

  pub data Items (N : Type 0) : Type 0 where
    nil : Items N
    cons : Json N → Items N → Items N

  pub data Fields (N : Type 0) : Type 0 where
    end : Fields N
    field : String → Json N → Fields N → Fields N

module _ {N : Type 0} where
  abbrev pub as_str : Json N → Option String
  as_str (Json.string s) = some s
  as_str _ = none

  abbrev pub as_bool : Json N → Option Bool
  as_bool (Json.bool b) = some b
  as_bool _ = none

  abbrev pub as_object : Json N → Option (Fields N)
  as_object (Json.object o) = some o
  as_object _ = none

module _ {N : Type 0} (num : Numbers N) where
  abbrev pub as_i64 : Json N → Option ℤ
  as_i64 (Json.number n) = num.as_i64 n
  as_i64 _ = none

  abbrev pub as_f64 : Json N → Option F64
  as_f64 (Json.number n) = num.as_f64 n
  as_f64 _ = none

  -- `==` on values.
  unfoldable mutual
    pub json_eq : Json N → Json N → Bool
    json_eq Json.null Json.null = true
    json_eq (Json.bool a) (Json.bool b) = bool_eq a b
    json_eq (Json.number a) (Json.number b) = num.num_eq a b
    json_eq (Json.string a) (Json.string b) = str_eq a b
    json_eq (Json.array a) (Json.array b) = items_eq a b
    json_eq (Json.object a) (Json.object b) = fields_eq a b
    json_eq _ _ = false

    pub items_eq : Items N → Items N → Bool
    items_eq nil nil = true
    items_eq (cons x xs) (cons y ys) = json_eq x y && items_eq xs ys
    items_eq _ _ = false

    pub fields_eq : Fields N → Fields N → Bool
    fields_eq end end = true
    fields_eq (field j v m) (field k w n) = str_eq j k && json_eq v w && fields_eq m n
    fields_eq _ _ = false
