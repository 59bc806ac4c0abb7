-- ===== src/Expr/Eval/Vars.antt =====
-- The variables that `referenced_vars` lists are all that `eval` reads
-- (platform-services/janitor-bot/src/rules/expr.rs).
use inf_k8s.Prelude.{◌≡◌, refl, ap, sym, String, List, [], ◌∷◌, ◌++◌, append_assoc, append-nil, All}
use inf_k8s.Prelude.Assoc.{Assoc, lookup}
use inf_k8s.Expr.Syntax.{Value, Expr}
use inf_k8s.Expr.Eval.{eval, or_undefined, collect_vars, referenced_vars}

-- The variables of an expression, from left to right, without the accumulator.
abbrev pub vars_of : Expr → List String
vars_of (Expr.var name) = name ∷ []
vars_of (Expr.lit v) = []
vars_of (Expr.not e) = vars_of e
vars_of (Expr.and a b) = vars_of a ++ vars_of b
vars_of (Expr.or a b) = vars_of a ++ vars_of b
vars_of (Expr.cmp a op b) = vars_of a ++ vars_of b

collect_vars-append : (e : Expr) (vars : List String) → collect_vars e vars ≡ vars ++ vars_of e
unfolding collect_vars
collect_vars-append (Expr.var name) vars = refl
collect_vars-append (Expr.lit v) vars = sym (append-nil vars)
collect_vars-append (Expr.not e) vars = collect_vars-append e vars
collect_vars-append (Expr.and a b) vars =
    simp (collect_vars-append a, collect_vars-append b, append_assoc)
collect_vars-append (Expr.or a b) vars =
    simp (collect_vars-append a, collect_vars-append b, append_assoc)
collect_vars-append (Expr.cmp a op b) vars =
    simp (collect_vars-append a, collect_vars-append b, append_assoc)

pub referenced_vars_lem : (e : Expr) → referenced_vars e ≡ vars_of e
unfolding referenced_vars
referenced_vars_lem e = collect_vars-append e []

-- The two environments agree at a name.
abbrev Same : Assoc Value → Assoc Value → String → Type 0
Same vars vars' name = lookup name vars ≡ lookup name vars'

module _ (vars vars' : Assoc Value) where
  left_part : (xs ys : List String) → All (Same vars vars') (xs ++ ys) → All (Same vars vars') xs
  left_part [] ys h = tt
  left_part (x ∷ xs) ys h = (h.0, left_part xs ys h.1)

  right_part : (xs ys : List String) → All (Same vars vars') (xs ++ ys) → All (Same vars vars') ys
  right_part [] ys h = h
  right_part (x ∷ xs) ys h = right_part xs ys h.1

  eval-Same : (e : Expr) → All (Same vars vars') (vars_of e) → eval e vars ≡ eval e vars'
  unfolding eval
  eval-Same (Expr.var name) h = ap (or_undefined name) h.0
  eval-Same (Expr.lit v) h = refl
  eval-Same (Expr.not e) h = rw (eval-Same e h)
  eval-Same (Expr.and a b) h = rw (
    eval-Same a (left_part (vars_of a) (vars_of b) h),
    eval-Same b (right_part (vars_of a) (vars_of b) h),
  )
  eval-Same (Expr.or a b) h = rw (
    eval-Same a (left_part (vars_of a) (vars_of b) h),
    eval-Same b (right_part (vars_of a) (vars_of b) h),
  )
  eval-Same (Expr.cmp a op b) h = rw (
    eval-Same a (left_part (vars_of a) (vars_of b) h),
    eval-Same b (right_part (vars_of a) (vars_of b) h),
  )

-- Two environments that agree at every name that `referenced_vars` lists give the same result, or
-- the same error.
pub eval-referenced_vars :
    (e : Expr) (vars vars' : Assoc Value)
    → All (λ name. lookup name vars ≡ lookup name vars') (referenced_vars e)
    → eval e vars ≡ eval e vars'
eval-referenced_vars e vars vars' h = eval-Same vars vars' e (rw referenced_vars_lem at h)
