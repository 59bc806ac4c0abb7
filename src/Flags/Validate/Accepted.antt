-- ===== src/Flags/Validate/Accepted.antt =====
-- A flag that the store accepts is well formed:
-- platform-services/feature-flags/src/store/mod.rs.
use inf_k8s.Prelude.{
  ℕ, suc, ◌+◌, ◌==◌, subst, ◌%◌, ◌^◌, ◌≡◌, refl, ap, sym, ◌∙◌, String, Bool, true, false, not, ◌||◌,
  List, [], ◌∷◌, map, Option, none, some, arith, ==_iff, str_eq, if◌then◌else◌, all, find, is_empty,
  All, Result, ok, err, >>=-eq-ok,
}
use inf_k8s.Flags.Json.{Numbers}
use inf_k8s.Flags.Model.{variant, Variant, Distribution, Rule, Flag}
use inf_k8s.Flags.Engine.Origin.{IsVariant, RuleIsWellFormed, FlagIsWellFormed}
use inf_k8s.Flags.Engine.Shares.{total_weight}
use inf_k8s.Flags.Validate.Variants.{guarded, IsOfType, variants_typed}
use inf_k8s.Flags.Validate.{
  Invalid, Checked, has_key, check_variants, sum_weights, check_target, check_total, check_split,
  check_rules, validate_rules, check_default, validate_flag,
}

some_inj : {A : Type 0} {a b : A} → some a ≡ some b → a ≡ b
some_inj e = cc

-- A property that follows from another, of every element.
All-map :
    {A : Type 0} {P Q : A → Type 0} → ((a : A) → P a → Q a) → (xs : List A) → All P xs → All Q xs
All-map f [] h = tt
All-map f (x ∷ xs) h = (f x h.0, All-map f xs h.1)

ok_inj : {A : Type 0} {a b : A} → ◌≡◌ {A = Result Invalid A} (ok a) (ok b) → a ≡ b
ok_inj e = cc

module _ {N : Type 0} where
  abbrev keys : List (Variant N) → List String
  keys = map (λ (v : Variant N). v.key)

  known_found :
      (k : String) (vs : List (Variant N))
      → has_key k (keys vs) ≡ true
      → (v : Variant N) × (find (λ (v : Variant N). str_eq v.key k) vs ≡ some v)
  known_found k [] h = cc
  known_found k (v ∷ vs) h = go (str_eq v.key k) (known_found k vs) h
    where
      go :
          (b : Bool)
          → (has_key k (keys vs) ≡ true
              → (w : Variant N) × (find (λ (v : Variant N). str_eq v.key k) vs ≡ some w))
          → (b || has_key k (keys vs)) ≡ true
          → (w : Variant N) × ((if b then some v else find (λ (v : Variant N). str_eq v.key k) vs)
              ≡ some w)
      go true later h = (v, refl)
      go false later h = later h

  known_IsVariant :
      (flag : Flag N) (k : String) → has_key k (keys flag.variants) ≡ true → IsVariant flag k
  unfolding variant
  known_IsVariant flag k h = known_found k flag.variants h

  default_known :
      (k : String) (vs : List (Variant N))
      → all (λ (v : Variant N). not (str_eq v.key k)) vs ≡ false
      → has_key k (keys vs) ≡ true
  default_known k [] h = cc
  default_known k (v ∷ vs) h = ground (arith, default_known k vs)

-- The keys of an accepted rollout are known, and its weights add up to a hundred.
sum_weights-eq-ok :
    (key : String) (known : List String) (start : ℕ) (ds : List Distribution) {total : ℕ}
    → sum_weights key known start ds ≡ ok total
    → All (λ (d : Distribution). has_key d.variant_key known ≡ true) ds
      × (total % 2 ^ 32 ≡ (start + total_weight ds) % 2 ^ 32)
unfolding sum_weights
sum_weights-eq-ok key known start [] h = (tt, ap (λ n. n % 2 ^ 32) (sym (ok_inj h)) ∙ omega arith)
sum_weights-eq-ok key known start (d ∷ ds) h =
    let (here, rest) = guarded (has_key d.variant_key known) _ h in
    let (later, sum) = sum_weights-eq-ok key known ((start + d.weight) % 2 ^ 32) ds rest in
    ((here, later), omega (arith, sum))

abbrev accepted : Checked
accepted = ok tt

-- A rollout that serves everything: there is none, or its weights add up to a hundred, as a `u32`.
abbrev pub IsFullSplit : List Distribution → Type 0
IsFullSplit ds = is_empty ds ≡ false → total_weight ds % 2 ^ 32 ≡ 100

module _ {N : Type 0} (num : Numbers N) (flag : Flag N) where
  split_accepted :
      (rank : ℕ) (ds : List Distribution)
      → check_split flag.key (keys flag.variants) rank ds ≡ ok tt
      → All (λ (d : Distribution). IsVariant flag d.variant_key) ds × IsFullSplit ds
  unfolding check_split check_total
  split_accepted rank [] h = (tt, λ e. cc)
  split_accepted rank (d ∷ ds) h =
      let (total, summed, checked) =
        >>=-eq-ok (sum_weights flag.key (keys flag.variants) 0 (d ∷ ds)) _ h in
      let (known, sum) = sum_weights-eq-ok flag.key (keys flag.variants) 0 (d ∷ ds) summed in
      let hundred = (==_iff total 100).0 (guarded (total == 100) _ checked).0 in
      (
        All-map (λ (d : Distribution). known_IsVariant flag d.variant_key) (d ∷ ds) known,
        λ e. omega (arith, sum, hundred),
      )

  target_accepted :
      (o : Option String)
      → check_target flag.key (keys flag.variants) o ≡ ok tt
      → (k : String) → o ≡ some k
      → IsVariant flag k
  unfolding check_target
  target_accepted none h k e = cc
  target_accepted (some j) h k e =
      subst (IsVariant flag) (some_inj e)
        (known_IsVariant flag j (guarded (has_key j (keys flag.variants)) _ h).0)

  rules_accepted :
      (rank : ℕ) (rules : List (Rule N))
      → check_rules flag.key (keys flag.variants) rank rules ≡ ok tt
      → All (RuleIsWellFormed flag) rules × All (λ (r : Rule N). IsFullSplit r.distributions) rules
  unfolding check_rules
  rules_accepted rank [] h = (tt, tt)
  rules_accepted rank (rule ∷ rules) h =
      let (u, target, h1) =
        >>=-eq-ok (check_target flag.key (keys flag.variants) rule.variant_key) _ h in
      let (v, split, h2) =
        >>=-eq-ok (check_split flag.key (keys flag.variants) rank rule.distributions) _ h1 in
      let (known, full) = split_accepted rank rule.distributions split in
      let (formed, fulls) = rules_accepted (suc rank) rules h2 in
      (
        (record { shares = known; fixed = target_accepted rule.variant_key target }, formed),
        (full, fulls),
      )

  default_accepted : check_default num flag ≡ ok tt → IsVariant flag flag.default_variant_key
  unfolding check_default
  default_accepted h =
      known_IsVariant flag flag.default_variant_key
        (default_known flag.default_variant_key flag.variants (not_all _ _ h))
    where
      not_all : (b : Bool) (e : Invalid) → (if b then err e else ok tt) ≡ accepted → b ≡ false
      not_all true e h = cc
      not_all false e h = refl

  pub checked_parts :
      validate_flag num flag ≡ ok tt
      → FlagIsWellFormed flag
        × All (λ (r : Rule N). IsFullSplit r.distributions) flag.rules
        × (check_variants num flag.value_type flag.variants ≡ ok tt)
  unfolding validate_flag validate_rules
  checked_parts h =
      let (u, default, h1) = >>=-eq-ok (check_default num flag) _ h in
      let (v, typed, h2) = >>=-eq-ok (check_variants num flag.value_type flag.variants) _ h1 in
      let (formed, full) = rules_accepted 0 flag.rules h2 in
      (record { default = default_accepted default; rules = formed }, full, typed)

  -- What the store accepts of a flag: its default, rules and rollouts name variants that it has, every
  -- rollout's weights add up to a hundred (as a `u32`), and the value of each variant has its type.
  pub validate_flag-eq-ok :
      validate_flag num flag ≡ ok tt
      → FlagIsWellFormed flag
        × All (λ (r : Rule N). IsFullSplit r.distributions) flag.rules
        × All (λ (v : Variant N). IsOfType num flag.value_type v.value) flag.variants
  validate_flag-eq-ok h =
      let (formed, full, typed) = checked_parts h in
      (formed, full, variants_typed num flag.value_type flag.variants typed)
