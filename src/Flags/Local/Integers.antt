-- ===== src/Flags/Local/Integers.antt =====
-- Integers in snapshots from the wire, which holds every number as a float
-- (crates/feature-flag/feature-flag-client/src/local.rs).
use inf_k8s.Prelude.{
  ◌≡◌, refl, ap, sym, ◌∙◌, subst, String, Bool, true, false, List, [], ◌∷◌, map, find, str_eq,
  if◌then◌else◌, Option, none, some, Option-cases, inl, inr, All, Result, ok, err, >>=-eq-ok,
  collect,
}
use inf_k8s.Prelude.Assoc.{Assoc, lookup, insert, lookup-insert}
use inf_k8s.Prelude.Maybe.{◌>>=◌}
use inf_k8s.Prelude.Int.{ℤ, pos}
use inf_k8s.Flags.Json.{Numbers, as_i64}
use inf_k8s.Flags.Model.{variant, Variant, Flag, Snapshot, EvalError, EvalContext}
use inf_k8s.Flags.Wire
use inf_k8s.Flags.Wire.{ProstValue, value_type_of}
use inf_k8s.Flags.Engine.{Libraries, Resolved, evaluate, evaluate_inner, resolve_flag}
use inf_k8s.Flags.Engine.Total.{evaluate_total}
use inf_k8s.Flags.Engine.Origin.{Resolves, from_variant, unknown, evaluate-Resolves}
use inf_k8s.Flags.Convert.{
  ConversionError, number_or_null, prost_value_to_json, value_or_null, value_type_from_wire,
  rule_from_wire, variant_from_wire, flag_from_wire, add_flags, add_segments, snapshot_from_wire,
  context_from_wire,
}
use inf_k8s.Flags.Local.{Answer, answer, extracted, error_resolution, resolve, resolve_int}

some_inj : {A : Type 0} {a b : A} → some a ≡ some b → a ≡ b
some_inj e = cc

converted : {A : Type 0} {a b : A} → ◌≡◌ {A = Result ConversionError A} (ok a) (ok b) → a ≡ b
converted e = cc

module _ {N : Type 0} (num : Numbers N) where
  -- No variant's value reads as an integer.
  abbrev NoIntegers : Flag N → Type 0
  NoIntegers flag = All (λ (v : Variant N). as_i64 num v.value ≡ none) flag.variants

  abbrev NoneHas : Assoc (Flag N) → Type 0
  NoneHas flags = (k : String) (flag : Flag N) → lookup k flags ≡ some flag → NoIntegers flag

  decoded_value : (o : Option ProstValue) → as_i64 num (value_or_null num o) ≡ none
  unfolding prost_value_to_json
  decoded_value none = refl
  decoded_value (some ProstValue.unset) = refl
  decoded_value (some (ProstValue.null_value i)) = refl
  decoded_value (some (ProstValue.bool_value b)) = refl
  decoded_value (some (ProstValue.number_value x)) = elim (Option-cases (num.from_f64 x)) [
    | inl e ↦ ap (λ o. as_i64 num (number_or_null o)) e
    | inr (n, e) ↦ ap (λ o. as_i64 num (number_or_null o)) e ∙ num.as_i64-from_f64 x n e
  ]
  decoded_value (some (ProstValue.string_value s)) = refl
  decoded_value (some (ProstValue.list_value l)) = refl
  decoded_value (some (ProstValue.struct_value s)) = refl

  decoded_variants :
      (ws : List Wire.Variant)
      → All (λ (v : Variant N). as_i64 num v.value ≡ none) (map (variant_from_wire num) ws)
  unfolding variant_from_wire
  decoded_variants [] = tt
  decoded_variants (w ∷ ws) = (decoded_value w.value, decoded_variants ws)

  decoded_flag : (w : Wire.Flag) {flag : Flag N} → flag_from_wire num w ≡ ok flag → NoIntegers flag
  unfolding flag_from_wire
  decoded_flag w h =
      let (t, known, h1) = >>=-eq-ok (value_type_from_wire (value_type_of w.value_type)) _ h in
      let (rules, decoded, whole) = >>=-eq-ok (collect (rule_from_wire num) w.rules) _ h1 in
      subst NoIntegers (converted whole) (decoded_variants w.variants)

  inserted :
      (flag : Flag N) (flags : Assoc (Flag N))
      → NoIntegers flag
      → NoneHas flags
      → NoneHas (insert flag.key flag flags)
  inserted flag flags h hs k f e =
      go (str_eq flag.key k) (sym (lookup-insert flag.key k flag flags) ∙ e)
    where
      go : (b : Bool) → (if b then some flag else lookup k flags) ≡ some f → NoIntegers f
      go true e = subst NoIntegers (some_inj e) h
      go false e = hs k f e

  added :
      (ws : List Wire.Flag) (flags : Assoc (Flag N)) {flags' : Assoc (Flag N)}
      → NoneHas flags
      → add_flags num ws flags ≡ ok flags'
      → NoneHas flags'
  unfolding add_flags
  added [] flags h e = subst NoneHas (converted e) h
  added (w ∷ ws) flags h e =
      let (flag, decoded, rest) = >>=-eq-ok (flag_from_wire num w) _ e in
      added ws (insert flag.key flag flags) (inserted flag flags (decoded_flag w decoded) h) rest

  decoded_snapshot :
      (message : Wire.SnapshotResponse) {s : Snapshot N}
      → snapshot_from_wire num message ≡ ok s
      → NoneHas s.flags
  unfolding snapshot_from_wire lookup
  decoded_snapshot message h =
      let (flags, e, h1) = >>=-eq-ok (add_flags num message.flags []) _ h in
      let (segments, f, whole) = >>=-eq-ok (add_segments num message.segments []) _ h1 in
      subst (λ (s : Snapshot N). NoneHas s.flags) (converted whole)
        (added message.flags [] (λ k flag e. cc) e)

  found_none :
      (vs : List (Variant N)) (k : String) {v : Variant N}
      → All (λ (v : Variant N). as_i64 num v.value ≡ none) vs
      → find (λ (v : Variant N). str_eq v.key k) vs ≡ some v
      → as_i64 num v.value ≡ none
  found_none [] k h e = cc
  found_none (w ∷ vs) k {v} h e = go (str_eq w.key k) (found_none vs k h.1) e
    where
      go :
          (b : Bool)
          → (find (λ (v : Variant N). str_eq v.key k) vs ≡ some v → as_i64 num v.value ≡ none)
          → (if b then some w else find (λ (v : Variant N). str_eq v.key k) vs) ≡ some v
          → as_i64 num v.value ≡ none
      go true later e = subst (λ (x : Variant N). as_i64 num x.value ≡ none) (some_inj e) h.0
      go false later e = later e

  -- An error, with zero for a value.
  abbrev IsError : Answer ℤ → Type 0
  IsError a = (code : String) × (a ≡ error_resolution (pos 0) code)

  answer-IsError :
      (flag : Flag N) (r : Resolved N)
      → NoIntegers flag
      → Resolves flag r
      → IsError (answer (pos 0) (as_i64 num) r)
  unfolding answer extracted variant
  answer-IsError flag _ h (from_variant key reason v found same) = (
    "TYPE_MISMATCH",
    ap (extracted (pos 0) (record { value = v.value; variant = v.key; reason = reason }))
        (found_none flag.variants key h found),
  )
  answer-IsError flag _ h (unknown key missing) = (_, refl)

module _ {N : Type 0} (lib : Libraries N) where
  evaluate_missing :
      (s : Snapshot N) (key : String) (ctx : EvalContext N)
      → lookup key s.flags ≡ none
      → evaluate lib s key ctx ≡ some (err (EvalError.missing_flag key))
  unfolding evaluate evaluate_inner resolve_flag
  evaluate_missing s key ctx e = ap (resolve_flag lib (evaluate_inner lib _ s ctx) s ctx [] key) e

  answered :
      (s : Snapshot N) (key : String) (ctx : Wire.EvaluationContext) (r : Resolved N)
      → evaluate lib s key (context_from_wire lib.numbers ctx) ≡ some r
      → resolve_int lib s key ctx ≡ some (answer (pos 0) (as_i64 lib.numbers) r)
  unfolding resolve_int resolve
  answered s key ctx r e = ap (λ o. o >>= λ r. some (answer (pos 0) (as_i64 lib.numbers) r)) e

  -- In a snapshot that was decoded from a message, which is every snapshot that the client evaluates,
  -- the resolution of an integer always answers with an error and zero, for every flag and context,
  -- also for a flag of the type integer.
  pub resolve_int-snapshot_from_wire :
      (message : Wire.SnapshotResponse) {s : Snapshot N}
      → snapshot_from_wire lib.numbers message ≡ ok s
      → (key : String) (ctx : Wire.EvaluationContext)
      → (code : String) × (resolve_int lib s key ctx ≡ some (error_resolution (pos 0) code))
  unfolding answer
  resolve_int-snapshot_from_wire message {s} h key ctx = elim (Option-cases (lookup key s.flags)) [
    | inl missing ↦ (_, answered s key ctx _ (evaluate_missing s key _ missing))
    | inr (flag, found) ↦
        let context = context_from_wire lib.numbers ctx in
        let (r, e) = evaluate_total lib context s key in
        let (code, f) =
          answer-IsError lib.numbers flag r (decoded_snapshot lib.numbers message h key flag found)
            (evaluate-Resolves lib s key context found r e) in
        (code, answered s key ctx r e ∙ ap some f)
  ]
