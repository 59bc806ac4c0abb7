-- ===== src/Flags/Engine/Origin.antt =====
-- Where the resolution of a flag comes from
-- (crates/feature-flag/feature-flag-engine/src/engine/mod.rs).
use inf_k8s.Prelude.{
  ℕ, ◌≡◌, refl, ap, sym, ◌∙◌, subst, ◌+◌, ◌%◌, ◌^◌, ltb, length, String, Bool, true, false, List,
  [], ◌∷◌, ◌||◌, Option, none, some, arith, if◌then◌else◌, not, is_empty, ok, err, All,
}
use inf_k8s.Prelude.Assoc.{lookup}
use inf_k8s.Prelude.Maybe.{◌>>=◌}
use inf_k8s.Flags.Engine.Total.{evaluate_total}
use inf_k8s.Flags.Model.{
  Distribution, Variant, Rule, Flag, variant, Snapshot, Reason, Resolution, EvalContext, EvalError,
}
use inf_k8s.Flags.Engine.{
  pick, walk, last_key, Libraries, Resolved, rule_matches, serve, serve_fixed, resolve_rules,
  resolve_flag, resolve_variant, pick_distribution, evaluate_inner, evaluate,
}

-- What a computation returns, if it returns, has the property.
abbrev Yields {ℓ κ} : {A : Type ℓ} → (A → Type κ) → Option A → Type (ℓ ⊔ κ)
Yields P o = (a : _) → o ≡ some a → P a

Yields-some {ℓ κ} : {A : Type ℓ} (P : A → Type κ) {a : A} → P a → Yields P (some a)
Yields-some P h b e = subst P (cc) h

Yields-bind {ℓ κ μ} :
    {A : Type ℓ} {B : Type κ} (P : B → Type μ) (m : Option A) (f : A → Option B)
    → ((a : A) → Yields P (f a))
    → Yields P (m >>= f)
Yields-bind P none f h b e = cc
Yields-bind P (some a) f h b e = h a b e

Yields-if {ℓ κ} :
    {A : Type ℓ} (P : A → Type κ) (b : Bool) {x y : Option A}
    → (b ≡ true → Yields P x)
    → (b ≡ false → Yields P y)
    → Yields P (if b then x else y)
Yields-if P true hx hy = hx refl
Yields-if P false hx hy = hy refl

-- An archived flag and one that is not enabled are inactive.
abbrev pub inactive : {N : Type 0} → Flag N → Bool
inactive flag = flag.archived || not flag.enabled

abbrev pub is_disabled : Reason → Bool
is_disabled Reason.disabled = true
is_disabled _ = false

module _ {N : Type 0} (lib : Libraries N) (ctx : EvalContext N) (snapshot : Snapshot N)
    (flag : Flag N) (P : Resolved N → Type 0) where
  -- What the rule can serve has the property.
  record Serves (key : String) (rule : Rule N) : Type 0 where
    split :
        is_empty rule.distributions ≡ false
        → P (resolve_variant flag (pick_distribution lib key rule ctx) Reason.split)
    fixed :
        (k : String) → rule.variant_key ≡ some k → P (resolve_variant flag k Reason.targeting_match)

  fixed-Yields :
      (o : Option String) {later : Option (Resolved N)}
      → ((k : String) → o ≡ some k → P (resolve_variant flag k Reason.targeting_match))
      → Yields P later
      → Yields P (serve_fixed lib flag o later)
  unfolding serve_fixed
  fixed-Yields none h l = l
  fixed-Yields (some k) h l = Yields-some P (h k refl)

  serve-Yields :
      (key : String) (rule : Rule N) {later : Option (Resolved N)}
      → Serves key rule
      → Yields P later
      → Yields P (serve lib ctx flag key rule later)
  unfolding serve
  serve-Yields key rule h l =
      Yields-if P (not (is_empty rule.distributions)) (λ e. Yields-some P (h.split (ground arith)))
        (λ e. fixed-Yields rule.variant_key h.fixed l)

  rules_yield :
      (dep : String → Option (Resolved N)) (key : String) (rules : List (Rule N))
      → All (Serves key) rules
      → P (resolve_variant flag flag.default_variant_key Reason.default)
      → Yields P (resolve_rules lib dep ctx snapshot flag key rules)
  unfolding resolve_rules
  rules_yield dep key [] h d = Yields-some P d
  rules_yield dep key (rule ∷ rules) h d =
      Yields-bind P (rule_matches lib dep ctx snapshot rule) _ λ b.
        Yields-if P b (λ _. serve-Yields key rule h.0 (rules_yield dep key rules h.1 d))
          (λ _. rules_yield dep key rules h.1 d)

  -- A flag that is found, at the top of the stack.
  evaluate-Yields :
      (key : String)
      → lookup key snapshot.flags ≡ some flag
      → (inactive flag ≡ true → P (resolve_variant flag flag.default_variant_key Reason.disabled))
      → (inactive flag ≡ false → All (Serves key) flag.rules)
      → (inactive flag ≡ false → P (resolve_variant flag flag.default_variant_key Reason.default))
      → Yields P (evaluate lib snapshot key ctx)
  unfolding evaluate resolve_flag
  evaluate-Yields key found off on d = rw found (
      Yields-if P (inactive flag) (λ e. Yields-some P (off e))
        (λ e.
          rules_yield (λ k. evaluate_inner lib (length snapshot.flags) snapshot ctx (key ∷ []) k)
            key flag.rules (on e) (d e)))

module _ {N : Type 0} where
  -- A success has the value and the key of a variant of the flag, and the reason `disabled` exactly
  -- if the flag is inactive; an error names a variant that the flag does not have.
  pub data Resolves (flag : Flag N) : Resolved N → Type 0 where
    from_variant :
        (key : String) (reason : Reason) (v : Variant N)
        → variant flag key ≡ some v
        → is_disabled reason ≡ inactive flag
        → Resolves flag (ok (record { value = v.value; variant = v.key; reason = reason }))
    unknown :
        (key : String)
        → variant flag key ≡ none
        → Resolves flag (err (EvalError.unknown_variant flag.key key))

  variant-Resolves :
      (flag : Flag N) (key : String) (reason : Reason)
      → is_disabled reason ≡ inactive flag
      → Resolves flag (resolve_variant flag key reason)
  unfolding resolve_variant
  variant-Resolves flag key reason h = go (variant flag key) refl
    where
      go :
          (o : Option (Variant N))
          → variant flag key ≡ o
          → Resolves flag (elim o [
            | none ↦ err (EvalError.unknown_variant flag.key key)
            | some v ↦ ok (record { value = v.value; variant = v.key; reason = reason })
          ])
      go none e = unknown key e
      go (some v) e = from_variant key reason v e h

  -- The flag has a variant of that key.
  abbrev pub IsVariant : Flag N → String → Type 0
  IsVariant flag key = (v : Variant N) × (variant flag key ≡ some v)

  pub record RuleIsWellFormed (flag : Flag N) (rule : Rule N) : Type 0 where
    pub shares : All (λ (d : Distribution). IsVariant flag d.variant_key) rule.distributions
    pub fixed : (k : String) → rule.variant_key ≡ some k → IsVariant flag k

  -- The default, the rules and their rollouts name variants that the flag has.
  pub record FlagIsWellFormed (flag : Flag N) : Type 0 where
    pub default : IsVariant flag flag.default_variant_key
    pub rules : All (RuleIsWellFormed flag) flag.rules

  variant_succeeds :
      (flag : Flag N) (key : String) (reason : Reason)
      → IsVariant flag key
      → (res : Resolution N) × (resolve_variant flag key reason ≡ ok res)
  unfolding resolve_variant
  variant_succeeds flag key reason (v, e) =
      (record { value = v.value; variant = v.key; reason = reason }, rw (e, resolve_variant))

module _ (K : String → Type 0) where
  abbrev Known : List Distribution → Type 0
  Known = All (λ (d : Distribution). K d.variant_key)

  walk-Known : (bucket c : ℕ) (ds : List Distribution) → Known ds → Yields K (walk bucket c ds)
  unfolding walk
  walk-Known bucket c [] h = λ k e. cc
  walk-Known bucket c (d ∷ ds) h =
      Yields-if K (ltb bucket ((c + d.weight) % 2 ^ 32)) (λ _. Yields-some K h.0)
        (λ _. walk-Known bucket ((c + d.weight) % 2 ^ 32) ds h.1)

  last_key_known : (ds : List Distribution) → is_empty ds ≡ false → Known ds → K (last_key ds)
  unfolding last_key
  last_key_known [] e h = cc
  last_key_known (d ∷ []) e h = h.0
  last_key_known (d ∷ d' ∷ ds) e h = last_key_known (d' ∷ ds) refl h.1

  pick_known :
      (bucket : ℕ) (ds : List Distribution) → is_empty ds ≡ false → Known ds → K (pick bucket ds)
  unfolding pick
  pick_known bucket ds e h = go (walk bucket 0 ds) (walk-Known bucket 0 ds h)
    where
      go : (o : Option String) → Yields K o → K (elim o [ none ↦ last_key ds | some key ↦ key ])
      go none y = last_key_known ds e h
      go (some key) y = y key refl

module _ {N : Type 0} (lib : Libraries N) (snapshot : Snapshot N) (key : String)
    (ctx : EvalContext N) {flag : Flag N} (found : lookup key snapshot.flags ≡ some flag) where
  -- A rule's results, for a flag that is active.
  rules_resolve :
      inactive flag ≡ false
      → (rules : List (Rule N)) → All (Serves lib ctx snapshot flag (Resolves flag) key) rules
  rules_resolve e [] = tt
  rules_resolve e (rule ∷ rules) = (
    record {
      split = λ _. variant-Resolves flag _ Reason.split (sym e);
      fixed = λ k _. variant-Resolves flag k Reason.targeting_match (sym e);
    },
    rules_resolve e rules,
  )

  -- What the evaluation of a flag that the snapshot has returns comes from the flag's variants, and
  -- its reason is `disabled` exactly if the flag is archived or not enabled.
  pub evaluate-Resolves :
      (r : Resolved N) → evaluate lib snapshot key ctx ≡ some r → Resolves flag r
  evaluate-Resolves =
      evaluate-Yields lib ctx snapshot flag (Resolves flag) key found
        (λ e. variant-Resolves flag _ Reason.disabled (sym e)) (λ e. rules_resolve e flag.rules)
        (λ e. variant-Resolves flag _ Reason.default (sym e))

  rules_succeed :
      (rules : List (Rule N))
      → All (RuleIsWellFormed flag) rules
      → All (Serves lib ctx snapshot flag (λ r. (res : Resolution N) × (r ≡ ok res)) key) rules
  unfolding pick_distribution
  rules_succeed [] h = tt
  rules_succeed (rule ∷ rules) h = (
    record {
      split = λ e.
          variant_succeeds flag _ Reason.split
            (pick_known (IsVariant flag) _ rule.distributions e h.0.shares);
      fixed = λ k e. variant_succeeds flag k Reason.targeting_match (h.0.fixed k e);
    },
    rules_succeed rules h.1,
  )

  -- A flag that the snapshot has, all of whose variant keys are keys of its variants, resolves
  -- without an error in every context, whatever the other flags are.
  pub evaluate-FlagIsWellFormed :
      FlagIsWellFormed flag → (res : Resolution N) × (evaluate lib snapshot key ctx ≡ some (ok res))
  evaluate-FlagIsWellFormed wf =
      let (r, returned) = evaluate_total lib ctx snapshot key in
      let (res, succeeded) =
        evaluate-Yields lib ctx snapshot flag (λ r. (res : Resolution N) × (r ≡ ok res)) key found
          (λ e. variant_succeeds flag _ Reason.disabled wf.default)
          (λ e. rules_succeed flag.rules wf.rules)
          (λ e. variant_succeeds flag _ Reason.default wf.default) r returned in
      (res, returned ∙ ap some succeeded)
