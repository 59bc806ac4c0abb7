-- ===== src/Flags/Engine.antt =====
-- The evaluation engine: crates/feature-flag/feature-flag-engine/src/engine/mod.rs. A computation
-- that recurs into other flags is an `Option`: `none` says that the fuel ran out.
pub mod Total
pub mod Origin
pub mod Shares
use Prim.Native.String.{◌++◌ as append}
use inf_k8s.Prelude.{
  ℕ, zero, suc, ◌+◌, ◌%◌, ◌^◌, String, Bool, true, false, not, ◌||◌, List, [], ◌∷◌, ◌++◌, Option,
  none, some, ltb, str_eq, if◌then◌else◌, any, all, first, is_empty, length, Result, ok, err,
}
use inf_k8s.Prelude.Assoc.{lookup}
use inf_k8s.Prelude.Maybe.{◌>>=◌, any_m, all_m}
use inf_k8s.Prelude.Float.{F64, f64_lt, f64_le}
use inf_k8s.Prelude.Strings
use inf_k8s.Flags.Json.{Json, Numbers, as_str, as_f64, json_eq}
use inf_k8s.Flags.Model.{
  Operator, Constraint, Segment, ConstraintGroup, Distribution, Rule, Flag, variant, Snapshot,
  Reason, Resolution, EvalError, EvalContext,
}

-- The libraries that the engine calls: numbers of JSON, the crate `regex` (the matcher of a pattern
-- that compiles within the size limits), and the first eight bytes of SHA-256 of a text, as a
-- big-endian number.
pub record Libraries (N : Type 0) : Type 0 where
  pub numbers : Numbers N
  pub build_regex : String → Option (String → Bool)
  pub sha256_u64 : String → ℕ

abbrev pub Resolved : Type 0 → Type 0
Resolved N = Result EvalError (Resolution N)

abbrev pub is_some {ℓ} : {A : Type ℓ} → Option A → Bool
is_some none = false
is_some (some a) = true

-- `is_some_and`, and `is_none_or`.
abbrev pub is_some_and {ℓ} : {A : Type ℓ} → (A → Bool) → Option A → Bool
is_some_and p none = false
is_some_and p (some a) = p a

abbrev pub is_none_or {ℓ} : {A : Type ℓ} → (A → Bool) → Option A → Bool
is_none_or p none = true
is_none_or p (some a) = p a

unfoldable pub is_flag_matches : Operator → Bool
is_flag_matches Operator.flag_matches = true
is_flag_matches _ = false

abbrev pub and_then {ℓ κ} : {A : Type ℓ} {B : Type κ} → (A → Option B) → Option A → Option B
and_then f none = none
and_then f (some a) = f a

abbrev both {ℓ} : {A : Type ℓ} → (A → A → Bool) → Option A → Option A → Bool
both f (some a) (some b) = f a b
both f _ _ = false

module _ {N : Type 0} where
  unfoldable pub resolve_variant : Flag N → String → Reason → Resolved N
  resolve_variant flag key reason = elim (variant flag key) [
    | none ↦ err (EvalError.unknown_variant flag.key key)
    | some v ↦ ok (record { value = v.value; variant = v.key; reason = reason })
  ]

  unfoldable pub string_op : Option (Json N) → Option (Json N) → (String → String → Bool) → Bool
  string_op attr operand f = both f (and_then as_str attr) (and_then as_str operand)

-- The loop over the cumulative weights, which are `u32` and wrap around.
unfoldable pub walk : ℕ → ℕ → List Distribution → Option String
walk bucket cumulative [] = none
walk bucket cumulative (d ∷ ds) =
    let next = (cumulative + d.weight) % 2 ^ 32 in
    if ltb bucket next then some d.variant_key else walk bucket next ds

-- `distributions[len - 1].variant_key`; the caller has checked that there is one.
unfoldable pub last_key : List Distribution → String
last_key [] = ""
last_key (d ∷ []) = d.variant_key
last_key (d ∷ e ∷ ds) = last_key (e ∷ ds)

unfoldable pub pick : ℕ → List Distribution → String
unfolding walk last_key
pick bucket ds = elim (walk bucket 0 ds) [ none ↦ last_key ds | some key ↦ key ]

module _ {N : Type 0} (lib : Libraries N) where
  unfoldable pub number_op : Option (Json N) → Option (Json N) → (F64 → F64 → Bool) → Bool
  number_op attr operand f =
      both f (and_then (as_f64 lib.numbers) attr) (and_then (as_f64 lib.numbers) operand)

  -- A pattern that does not compile never matches; the memo of compiled patterns changes no answer.
  unfoldable pub regex_match : String → String → Bool
  regex_match haystack pattern = is_some_and (λ re. re haystack) (lib.build_regex pattern)

  unfoldable pub bucket_of : String → String → String → ℕ
  bucket_of flag_key salt targeting_key =
      let salted = if str_eq salt "" then "" else append ":" salt in
      lib.sha256_u64 (append flag_key (append salted (append ":" targeting_key))) % 100

  unfoldable pub pick_distribution : String → Rule N → EvalContext N → String
  unfolding bucket_of pick
  pick_distribution flag_key rule ctx =
      pick (bucket_of flag_key rule.bucket_salt ctx.targeting_key) rule.distributions

  -- `first == Some(a)`
  abbrev is_first : Option (Json N) → Json N → Bool
  is_first none a = false
  is_first (some f) a = json_eq lib.numbers f a

  unfoldable pub attr_matches : Operator → List (Json N) → Option (Json N) → Bool
  unfolding string_op number_op regex_match
  attr_matches Operator.exists values attr = is_some attr
  attr_matches Operator.eq values attr = is_some_and (is_first (first values)) attr
  attr_matches Operator.neq values attr = is_none_or (λ a. not (is_first (first values) a)) attr
  attr_matches Operator.in_list values attr =
      is_some_and (λ a. any (λ v. json_eq lib.numbers v a) values) attr
  attr_matches Operator.not_in values attr =
      is_none_or (λ a. not (any (λ v. json_eq lib.numbers v a) values)) attr
  attr_matches Operator.contains values attr = string_op attr (first values) Strings.contains
  attr_matches Operator.starts_with values attr = string_op attr (first values) Strings.starts_with
  attr_matches Operator.ends_with values attr = string_op attr (first values) Strings.ends_with
  attr_matches Operator.regex values attr = string_op attr (first values) regex_match
  attr_matches Operator.gt values attr = number_op attr (first values) (λ a b. f64_lt b a)
  attr_matches Operator.gte values attr = number_op attr (first values) (λ a b. f64_le b a)
  attr_matches Operator.lt values attr = number_op attr (first values) f64_lt
  attr_matches Operator.lte values attr = number_op attr (first values) f64_le
  attr_matches Operator.flag_matches values attr = false

  unfoldable pub attr_constraint_matches : Constraint N → EvalContext N → Bool
  unfolding attr_matches
  attr_constraint_matches c ctx =
      attr_matches c.operator c.values (lookup c.attribute ctx.attributes)

  unfoldable pub segment_matches : Segment N → EvalContext N → Bool
  unfolding attr_constraint_matches
  segment_matches segment ctx = all (λ c. attr_constraint_matches c ctx) segment.constraints

  -- The variant that a flag resolved to is among the values; an error matches nothing.
  unfoldable pub served : List (Json N) → Resolved N → Bool
  served values (err e) = false
  served values (ok res) = any (λ v. is_some_and (λ s. str_eq s res.variant) (as_str v)) values

  -- A rule that names a segment which is not there never matches.
  unfoldable pub segment_ok : EvalContext N → Snapshot N → Option String → Bool
  unfolding segment_matches
  segment_ok ctx snapshot none = true
  segment_ok ctx snapshot (some key) =
      is_some_and (λ segment. segment_matches segment ctx) (lookup key snapshot.segments)

  unfoldable pub serve_fixed : Flag N → Option String → Option (Resolved N) → Option (Resolved N)
  unfolding resolve_variant
  serve_fixed flag none later = later
  serve_fixed flag (some key) later = some (resolve_variant flag key Reason.targeting_match)

  -- What a rule that matches serves, or what comes after it.
  unfoldable pub serve :
      EvalContext N → Flag N → String → Rule N → Option (Resolved N) → Option (Resolved N)
  unfolding resolve_variant pick_distribution serve_fixed
  serve ctx flag flag_key rule later =
      if not (is_empty rule.distributions)
      then some (resolve_variant flag (pick_distribution flag_key rule ctx) Reason.split)
      else serve_fixed flag rule.variant_key later

  -- The functions below take the resolution of another flag, `dep`, from `evaluate_inner`.
  module _ (dep : String → Option (Resolved N)) (ctx : EvalContext N) where
    unfoldable pub constraint_matches : Constraint N → Option Bool
    unfolding is_flag_matches served attr_constraint_matches
    constraint_matches c =
        if is_flag_matches c.operator
        then (do result ← dep c.attribute; some (served c.values result))
        else some (attr_constraint_matches c ctx)

    unfoldable pub group_matches : ConstraintGroup N → Option Bool
    unfolding constraint_matches
    group_matches group =
        if is_empty group.constraints then some true else any_m constraint_matches group.constraints

    unfoldable pub rule_matches : Snapshot N → Rule N → Option Bool
    unfolding segment_ok group_matches
    rule_matches snapshot rule =
        if segment_ok ctx snapshot rule.segment_key
        then all_m group_matches rule.constraint_groups
        else some false

    unfoldable pub resolve_rules :
        Snapshot N → Flag N → String → List (Rule N) → Option (Resolved N)
    unfolding rule_matches serve
    resolve_rules snapshot flag flag_key [] =
        some (resolve_variant flag flag.default_variant_key Reason.default)
    resolve_rules snapshot flag flag_key (rule ∷ rules) = do
      matched ← rule_matches snapshot rule
      let later = resolve_rules snapshot flag flag_key rules
      if matched then serve ctx flag flag_key rule later else later

  -- The body of `evaluate_inner` behind the test for a cycle.
  unfoldable pub resolve_flag :
      (List String → String → Option (Resolved N))
      → Snapshot N
      → EvalContext N
      → List String
      → String
      → Option (Flag N)
      → Option (Resolved N)
  unfolding resolve_rules resolve_variant
  resolve_flag rec snapshot ctx stack key none = some (err (EvalError.missing_flag key))
  resolve_flag rec snapshot ctx stack key (some flag) =
      if flag.archived || not flag.enabled
      then some (resolve_variant flag flag.default_variant_key Reason.disabled)
      else resolve_rules (rec (stack ++ key ∷ [])) ctx snapshot flag key flag.rules

  -- The stack lists the flags whose rules are being evaluated.
  unfoldable pub evaluate_inner :
      ℕ → Snapshot N → EvalContext N → List String → String → Option (Resolved N)
  unfolding resolve_flag
  evaluate_inner zero snapshot ctx stack key = none
  evaluate_inner (suc f) snapshot ctx stack key =
      if any (λ k. str_eq k key) stack
      then some (err (EvalError.dependency_cycle key))
      else resolve_flag (evaluate_inner f snapshot ctx) snapshot ctx stack key
          (lookup key snapshot.flags)

  -- One unit of fuel for each flag of the snapshot, and one more.
  unfoldable pub evaluate : Snapshot N → String → EvalContext N → Option (Resolved N)
  unfolding evaluate_inner
  evaluate snapshot key ctx = evaluate_inner (suc (length snapshot.flags)) snapshot ctx [] key
