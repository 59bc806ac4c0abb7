-- ===== src/Expr/Eval/Typing.antt =====
-- A static reading of conditions under which `eval` cannot fail
-- (platform-services/janitor-bot/src/rules/expr.rs).
use inf_k8s.Prelude.{
  ◌≡◌, refl, ap, String, Bool, Option, none, some, true, false, ◌∙◌, arith, if◌then◌else◌, Result,
  ok, ◌>>=◌,
}
use inf_k8s.Prelude.Assoc.{Assoc, lookup}
use inf_k8s.Expr.Syntax.{Value, CmpOp, Expr, Error}
use inf_k8s.Expr.Eval.{eval, or_undefined, as_bool, cmp_values}

-- Integers and floats compare with one another.
pub data Kind : Type 0 where
  truth number text : Kind

abbrev pub kind_of : Value → Kind
kind_of (Value.bool b) = Kind.truth
kind_of (Value.i64 n) = Kind.number
kind_of (Value.f64 x) = Kind.number
kind_of (Value.string s) = Kind.text

-- The kinds that an operator compares: Booleans only for equality.
pub data Compares : CmpOp → Kind → Type 0 where
  numbers : (op : CmpOp) → Compares op Kind.number
  texts : (op : CmpOp) → Compares op Kind.text
  truths_eq : Compares CmpOp.eq Kind.truth
  truths_ne : Compares CmpOp.ne Kind.truth

-- The variable is there, with a value of the kind.
pub record Has (vars : Assoc Value) (name : String) (k : Kind) : Type 0 where
  pub value : Value
  pub found : lookup name vars ≡ some value
  pub of_kind : kind_of value ≡ k

pub data HasKind (vars : Assoc Value) : Expr → Kind → Type 0 where
  var : {name : String} {k : Kind} → Has vars name k → HasKind vars (Expr.var name) k
  lit : (v : Value) → HasKind vars (Expr.lit v) (kind_of v)
  not : {e : Expr} → HasKind vars e Kind.truth → HasKind vars (Expr.not e) Kind.truth
  and :
      {a b : Expr}
      → HasKind vars a Kind.truth
      → HasKind vars b Kind.truth
      → HasKind vars (Expr.and a b) Kind.truth
  or :
      {a b : Expr}
      → HasKind vars a Kind.truth
      → HasKind vars b Kind.truth
      → HasKind vars (Expr.or a b) Kind.truth
  cmp :
      {a b : Expr} {op : CmpOp} {k : Kind}
      → HasKind vars a k
      → HasKind vars b k
      → Compares op k
      → HasKind vars (Expr.cmp a op b) Kind.truth

-- A result that is no error, and of the kind.
pub data Good (k : Kind) : Result Error Value → Type 0 where
  good : (v : Value) → kind_of v ≡ k → Good k (ok v)

Good-bool :
    {x : Result Error Value}
    → Good Kind.truth x
    → {k : Kind} (f : Bool → Result Error Value) → ((b : Bool) → Good k (f b))
    → Good k (x >>= λ v. as_bool v >>= f)
unfolding as_bool
Good-bool (good (Value.bool b) p) f h = h b
Good-bool (good (Value.i64 n) p) f h = absurd (ground arith)
Good-bool (good (Value.f64 x) p) f h = absurd (ground arith)
Good-bool (good (Value.string s) p) f h = absurd (ground arith)

Good-if :
    (b : Bool) {k : Kind} {x y : Result Error Value}
    → Good k x
    → Good k y
    → Good k (if b then x else y)
Good-if true hx hy = hx
Good-if false hx hy = hy

or_undefined-Good :
    (name : String) {o : Option Value} {k : Kind} {v : Value}
    → o ≡ some v
    → kind_of v ≡ k
    → Good k (or_undefined name o)
unfolding or_undefined
or_undefined-Good name {o = none} p q = cc
or_undefined-Good name {o = some w} {v} p q = let e : w ≡ v = cc in good w (ap kind_of e ∙ q)

-- Values of kinds that an operator compares are compared with no error.
cmp_values-total :
    (l r : Value) (op : CmpOp) {k : Kind}
    → Compares op k
    → kind_of l ≡ k
    → kind_of r ≡ k
    → (b : Bool) × (cmp_values l op r ≡ ok b)
unfolding cmp_values
cmp_values-total (Value.i64 a) (Value.i64 b) op c p q = (_, refl)
cmp_values-total (Value.i64 a) (Value.f64 b) op c p q = (_, refl)
cmp_values-total (Value.f64 a) (Value.i64 b) op c p q = (_, refl)
cmp_values-total (Value.f64 a) (Value.f64 b) op c p q = (_, refl)
cmp_values-total (Value.string a) (Value.string b) op c p q = (_, refl)
cmp_values-total (Value.bool a) (Value.bool b) op truths_eq p q = (_, refl)
cmp_values-total (Value.bool a) (Value.bool b) op truths_ne p q = (_, refl)
cmp_values-total (Value.bool a) (Value.bool b) op (numbers o) p q = absurd (ground arith)
cmp_values-total (Value.bool a) (Value.bool b) op (texts o) p q = absurd (ground arith)
cmp_values-total _ _ op c p q = absurd (ground arith)

compared-Good :
    (op : CmpOp) {k : Kind} {x y : Result Error Value}
    → Good k x
    → Good k y
    → Compares op k
    → Good Kind.truth (x >>= λ l. y >>= λ r. cmp_values l op r >>= λ b. ok (Value.bool b))
compared-Good op (good l p) (good r q) c =
    let (b, done) = cmp_values-total l r op c p q in rw done (good (Value.bool b) refl)

-- An expression of a kind, under variables of the kinds that it is read with, evaluates to a value
-- of that kind.
pub eval-Good : (vars : Assoc Value) (e : Expr) (k : Kind) → HasKind vars e k → Good k (eval e vars)
unfolding eval
eval-Good vars _ _ (var h) = or_undefined-Good _ h.found h.of_kind
eval-Good vars _ _ (lit v) = good v refl
eval-Good vars _ _ (HasKind.not d) = Good-bool (eval-Good vars _ _ d) _ λ b. good _ refl
eval-Good vars _ _ (and c d) =
    Good-bool (eval-Good vars _ _ c) _
      λ b. Good-if b (Good-bool (eval-Good vars _ _ d) _ λ b'. good _ refl) (good _ refl)
eval-Good vars _ _ (or c d) =
    Good-bool (eval-Good vars _ _ c) _
      λ b. Good-if b (good _ refl) (Good-bool (eval-Good vars _ _ d) _ λ b'. good _ refl)
eval-Good vars _ _ (cmp {op} c d h) =
    compared-Good op (eval-Good vars _ _ c) (eval-Good vars _ _ d) h
