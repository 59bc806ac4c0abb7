-- ===== src/Expr/Eval/Laws.antt =====
-- Laws of comparison and of the connectives
-- (platform-services/janitor-bot/src/rules/expr.rs).
use inf_k8s.Prelude.{◌≡◌, refl, ap, sym, ◌∙◌, String, Bool, not, str_eq, eq_iff, arith, ok}
use inf_k8s.Prelude.Assoc.{Assoc}
use inf_k8s.Prelude.Int.{ℤ, eqb_ℤ}
use inf_k8s.Prelude.Float.{F64, f64_eq_comm, of_ℤ}
use inf_k8s.Expr.Syntax.{Value, CmpOp, Expr}
use inf_k8s.Expr.Eval.{cmp_i64, cmp_f64, cmp_string, cmp_bool, flip, cmp_values, eval}

eqb_ℤ_comm : (a b : ℤ) → eqb_ℤ a b ≡ eqb_ℤ b a
eqb_ℤ_comm a b = ground arith

str_eq_comm : (a b : String) → str_eq a b ≡ str_eq b a
str_eq_comm a b = ground (arith, eq_iff a b, eq_iff b a)

cmp_i64-flip : (a b : ℤ) (op : CmpOp) → cmp_i64 a op b ≡ cmp_i64 b (flip op) a
unfolding cmp_i64 flip
cmp_i64-flip a b CmpOp.eq = eqb_ℤ_comm a b
cmp_i64-flip a b CmpOp.ne = ap not (eqb_ℤ_comm a b)
cmp_i64-flip a b op = refl

cmp_f64-flip : (a b : F64) (op : CmpOp) → cmp_f64 a op b ≡ cmp_f64 b (flip op) a
unfolding cmp_f64 flip
cmp_f64-flip a b CmpOp.eq = f64_eq_comm a b
cmp_f64-flip a b CmpOp.ne = ap not (f64_eq_comm a b)
cmp_f64-flip a b op = refl

cmp_string-flip : (a b : String) (op : CmpOp) → cmp_string a op b ≡ cmp_string b (flip op) a
unfolding cmp_string flip
cmp_string-flip a b CmpOp.eq = str_eq_comm a b
cmp_string-flip a b CmpOp.ne = ap not (str_eq_comm a b)
cmp_string-flip a b op = refl

flip-flip : (op : CmpOp) → flip (flip op) ≡ op
unfolding flip
flip-flip CmpOp.eq = refl
flip-flip op = refl

cmp_bool-flip :
    (a : Bool) (op : CmpOp) (b : Bool) {c : Bool}
    → cmp_bool a op b ≡ ok c
    → cmp_bool b (flip op) a ≡ ok c
unfolding cmp_bool flip
cmp_bool-flip a CmpOp.eq b h = ground arith
cmp_bool-flip a CmpOp.ne b h = ground arith
cmp_bool-flip a op b h = cc

-- A comparison that succeeds gives the same answer with its operands exchanged and its operator
-- flipped, also between an integer and a float.
pub cmp_values-flip :
    (l : Value) (op : CmpOp) (r : Value) {b : Bool}
    → cmp_values l op r ≡ ok b
    → cmp_values r (flip op) l ≡ ok b
unfolding cmp_values
cmp_values-flip (Value.i64 a) op (Value.i64 b) h = ap ok (sym (cmp_i64-flip a b op)) ∙ h
cmp_values-flip (Value.f64 a) op (Value.f64 b) h = ap ok (sym (cmp_f64-flip a b op)) ∙ h
cmp_values-flip (Value.i64 a) op (Value.f64 b) h =
    ap (λ o. ok (cmp_f64 (of_ℤ a) o b)) (flip-flip op) ∙ h
cmp_values-flip (Value.f64 a) op (Value.i64 b) h = h
cmp_values-flip (Value.string a) op (Value.string b) h = ap ok (sym (cmp_string-flip a b op)) ∙ h
cmp_values-flip (Value.bool a) op (Value.bool b) h = cmp_bool-flip a op b h
cmp_values-flip _ op _ h = cc

-- A negated conjunction is the disjunction of the negations, errors included: both stop at the same
-- operand.
pub eval-not_and :
    (a b : Expr) (vars : Assoc Value)
    → eval (Expr.not (Expr.and a b)) vars ≡ eval (Expr.or (Expr.not a) (Expr.not b)) vars
unfolding eval
eval-not_and a b vars = ground arith

-- A negated disjunction is the conjunction of the negations, errors included.
pub eval-not_or :
    (a b : Expr) (vars : Assoc Value)
    → eval (Expr.not (Expr.or a b)) vars ≡ eval (Expr.and (Expr.not a) (Expr.not b)) vars
unfolding eval
eval-not_or a b vars = ground arith
