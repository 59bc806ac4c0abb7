-- ===== src/Flags/Engine/Total.antt =====
-- The evaluation ends: each nested call adds a flag of the snapshot to the stack, and a flag that is
-- on the stack is not entered again (crates/feature-flag/feature-flag-engine/src/engine/mod.rs).
use inf_k8s.Prelude.{
  ℕ, zero, suc, ◌≤◌, ◌<◌, ◌≡◌, refl, ap, String, Bool, true, false, List, [], ◌∷◌, ◌++◌, ◌||◌,
  Option, none, some, arith, str_eq, eq_iff, if◌then◌else◌, any, is_empty, length, not,
}
use inf_k8s.Prelude.Assoc.{Assoc, lookup}
use inf_k8s.Prelude.Maybe.{
  Returns, Returns-bind, Returns-if, Returns-if_known, Returns-any_m, Returns-all_m,
}
use inf_k8s.Flags.Model.{Constraint, ConstraintGroup, Rule, Flag, Snapshot, EvalContext}
use inf_k8s.Flags.Engine.{
  Libraries, Resolved, is_flag_matches, constraint_matches, group_matches, rule_matches, segment_ok,
  serve, serve_fixed, resolve_rules, resolve_flag, evaluate_inner, evaluate,
}

-- `stack.iter().any(|k| k == key)`
abbrev pub on_stack : String → List String → Bool
on_stack key stack = any (λ k. str_eq k key) stack

-- How many entries of the map are not on the stack.
unfoldable pub unvisited : {V : Type 0} → List String → Assoc V → ℕ
unvisited stack [] = 0
unvisited stack ((k, v) ∷ m) =
    if on_stack k stack then unvisited stack m else suc (unvisited stack m)

on_stack-append :
    (key k : String) (stack : List String)
    → on_stack k (stack ++ key ∷ []) ≡ (on_stack k stack || str_eq key k)
on_stack-append key k [] = ground arith
on_stack-append key k (j ∷ stack) = ground (arith, on_stack-append key k stack)

unvisited-push :
    {V : Type 0} (key : String) (stack : List String) (m : Assoc V)
    → unvisited (stack ++ key ∷ []) m ≤ unvisited stack m
unfolding unvisited
unvisited-push key stack [] = omega arith
unvisited-push key stack ((k, v) ∷ m) =
    ground (arith, unvisited-push key stack m, on_stack-append key k stack)

unvisited-push_lt :
    {V : Type 0} (key : String) (stack : List String) (m : Assoc V) (v : V)
    → lookup key m ≡ some v
    → on_stack key stack ≡ false
    → unvisited (stack ++ key ∷ []) m < unvisited stack m
unfolding unvisited lookup
unvisited-push_lt key stack [] v h n = cc
unvisited-push_lt key stack ((k, w) ∷ m) v h n = ground (
  arith,
  unvisited-push_lt key stack m v,
  unvisited-push key stack m,
  on_stack-append key k stack,
  eq_iff key k,
  eq_iff k key,
)

unvisited-nil : {V : Type 0} (m : Assoc V) → unvisited [] m ≡ length m
unfolding unvisited
unvisited-nil [] = refl
unvisited-nil (e ∷ m) = ap suc (unvisited-nil m)

module _ {N : Type 0} (lib : Libraries N) (ctx : EvalContext N) (snapshot : Snapshot N) where
  fixed-Returns :
      (flag : Flag N) (o : Option String) {later : Option (Resolved N)}
      → Returns later
      → Returns (serve_fixed lib flag o later)
  unfolding serve_fixed
  fixed-Returns flag none h = h
  fixed-Returns flag (some key) h = (_, refl)

  serve-Returns :
      (flag : Flag N) (key : String) (r : Rule N) {later : Option (Resolved N)}
      → Returns later
      → Returns (serve lib ctx flag key r later)
  unfolding serve
  serve-Returns flag key r h =
      Returns-if (not (is_empty r.distributions)) (_, refl) (fixed-Returns flag r.variant_key h)

  module _ (dep : String → Option (Resolved N)) (total : (key : String) → Returns (dep key)) where
    constraint-Returns : (c : Constraint N) → Returns (constraint_matches lib dep ctx c)
    unfolding constraint_matches
    constraint-Returns c =
        Returns-if (is_flag_matches c.operator) (Returns-bind (total c.attribute) _ λ r. (_, refl))
          (_, refl)

    group-Returns : (g : ConstraintGroup N) → Returns (group_matches lib dep ctx g)
    unfolding group_matches
    group-Returns g =
        Returns-if _ (true, refl)
          (Returns-any_m (constraint_matches lib dep ctx) constraint-Returns g.constraints)

    rule-Returns : (r : Rule N) → Returns (rule_matches lib dep ctx snapshot r)
    unfolding rule_matches
    rule-Returns r =
        Returns-if (segment_ok lib ctx snapshot r.segment_key)
          (Returns-all_m (group_matches lib dep ctx) group-Returns r.constraint_groups)
          (false, refl)

    rules_return :
        (flag : Flag N) (key : String) (rules : List (Rule N))
        → Returns (resolve_rules lib dep ctx snapshot flag key rules)
    unfolding resolve_rules
    rules_return flag key [] = (_, refl)
    rules_return flag key (r ∷ rules) = Returns-bind (rule-Returns r) _ λ b.
        Returns-if b (serve-Returns flag key r (rules_return flag key rules))
          (rules_return flag key rules)

  flag-Returns :
      (rec : List String → String → Option (Resolved N)) (stack : List String) (key : String)
      (o : Option (Flag N))
      → ((flag : Flag N) → o ≡ some flag → (k : String) → Returns (rec (stack ++ key ∷ []) k))
      → Returns (resolve_flag lib rec snapshot ctx stack key o)
  unfolding resolve_flag
  flag-Returns rec stack key none h = (_, refl)
  flag-Returns rec stack key (some flag) h =
      Returns-if (flag.archived || not flag.enabled) (_, refl)
        (rules_return (rec (stack ++ key ∷ [])) (h flag refl) flag key flag.rules)

  -- With more fuel than the flags that are not on the stack, the evaluation gives a result.
  inner-Returns :
      (f : ℕ) (stack : List String) (key : String)
      → unvisited stack snapshot.flags < f
      → Returns (evaluate_inner lib f snapshot ctx stack key)
  unfolding evaluate_inner
  inner-Returns zero stack key h = absurd (omega arith)
  inner-Returns (suc f) stack key h =
      Returns-if_known (on_stack key stack) (λ seen. (_, refl))
        (λ new.
          flag-Returns (evaluate_inner lib f snapshot ctx) stack key (lookup key snapshot.flags)
            λ flag found k.
              inner-Returns f (stack ++ key ∷ []) k
                (omega (arith, unvisited-push_lt key stack snapshot.flags flag found new)))

  -- Every evaluation gives a resolution or an error: the fuel of `evaluate`, one unit for each flag
  -- and one more, is enough for every snapshot, key and context, also where flags depend on one
  -- another in a cycle.
  pub evaluate_total : (key : String) → Returns (evaluate lib snapshot key ctx)
  unfolding evaluate
  evaluate_total key =
      inner-Returns (suc (length snapshot.flags)) [] key
        (omega (arith, unvisited-nil snapshot.flags))
