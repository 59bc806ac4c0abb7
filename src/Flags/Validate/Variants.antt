-- ===== src/Flags/Validate/Variants.antt =====
-- The variants that the store accepts have the type of their flag:
-- platform-services/feature-flags/src/store/mod.rs.
use inf_k8s.Prelude.{
  ◌≡◌, refl, ap, sym, ◌∙◌, String, Bool, true, false, List, [], ◌∷◌, Option, none, some, str_eq,
  if◌then◌else◌, find, All, Result, ok, err, >>=-eq-ok, Option-cases, inl, inr,
}
use inf_k8s.Prelude.Float.{F64}
use inf_k8s.Flags.Json.{Numbers, Json, Fields}
use inf_k8s.Flags.Model.{ValueType, Variant}
use inf_k8s.Flags.Engine.{is_some_and}
use inf_k8s.Flags.Validate.{Invalid, is_whole, has_type, check_variant_type, check_variants}

-- A test that leads to success.
pub guarded :
    {A : Type 0} (b : Bool) (e : Invalid) {m : Result Invalid A} {a : A}
    → (if b then m else err e) ≡ ok a
    → (b ≡ true) × (m ≡ ok a)
guarded true e h = (refl, h)
guarded false e h = cc

module _ {N : Type 0} where
  pub found_typed :
      (num : Numbers N) (t : ValueType) (k : String) (vs : List (Variant N)) {v : Variant N}
      → check_variants num t vs ≡ ok tt
      → find (λ (v : Variant N). str_eq v.key k) vs ≡ some v
      → has_type num t v.value ≡ true
  unfolding check_variants check_variant_type
  found_typed num t k [] h f = cc
  found_typed num t k (w ∷ vs) {v} h f =
      let (u, first, rest) = >>=-eq-ok (check_variant_type num t w) _ h in
      go (str_eq w.key k) (guarded (has_type num t w.value) _ first).0 (found_typed num t k vs rest)
        f
    where
      go :
          (b : Bool)
          → has_type num t w.value ≡ true
          → (find (λ (v : Variant N). str_eq v.key k) vs ≡ some v → has_type num t v.value ≡ true)
          → (if b then some w else find (λ (v : Variant N). str_eq v.key k) vs) ≡ some v
          → has_type num t v.value ≡ true
      go true typed later f =
          ap (λ o. is_some_and (λ (x : Variant N). has_type num t x.value) o) (sym f) ∙ typed
      go false typed later f = later f

-- A value of the type. An integer may be written as a float, if it has no fraction.
pub data IsOfType {N : Type 0} (num : Numbers N) : ValueType → Json N → Type 0 where
  boolean : {b : Bool} → IsOfType num ValueType.boolean (Json.bool b)
  string : {s : String} → IsOfType num ValueType.string (Json.string s)
  integer :
      {n : N} {x : F64}
      → num.as_f64 n ≡ some x
      → is_whole x ≡ true
      → IsOfType num ValueType.integer (Json.number n)
  float : {n : N} → IsOfType num ValueType.float (Json.number n)
  object : {o : Fields N} → IsOfType num ValueType.object (Json.object o)

module _ {N : Type 0} (num : Numbers N) where
  missing :
      (o : Option F64) {value : Json N}
      → o ≡ none
      → is_some_and is_whole o ≡ true
      → IsOfType num ValueType.integer value
  missing none e h = cc
  missing (some x) e h = cc

  has_type-IsOfType :
      (t : ValueType) (value : Json N) → has_type num t value ≡ true → IsOfType num t value
  unfolding has_type
  has_type-IsOfType ValueType.boolean (Json.bool b) h = boolean
  has_type-IsOfType ValueType.string (Json.string s) h = string
  has_type-IsOfType ValueType.integer (Json.number n) h = elim (Option-cases (num.as_f64 n)) [
    | inl absent ↦ missing _ absent h
    | inr (x, found) ↦ integer found (sym (ap (is_some_and is_whole) found) ∙ h)
  ]
  has_type-IsOfType ValueType.float (Json.number n) h = float
  has_type-IsOfType ValueType.object (Json.object o) h = object
  has_type-IsOfType _ _ h = cc

  pub variants_typed :
      (t : ValueType) (vs : List (Variant N))
      → check_variants num t vs ≡ ok tt
      → All (λ (v : Variant N). IsOfType num t v.value) vs
  unfolding check_variants check_variant_type
  variants_typed t [] h = tt
  variants_typed t (v ∷ vs) h =
      let (u, first, rest) = >>=-eq-ok (check_variant_type num t v) _ h in
      (
        has_type-IsOfType t v.value (guarded (has_type num t v.value) _ first).0,
        variants_typed t vs rest,
      )
