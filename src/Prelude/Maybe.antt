-- ===== src/Prelude/Maybe.antt =====
-- `Option` as a monad, with the loops over a list that may give up.
use mathlib.Core.Path.{◌≡◌, refl, ap, ◌∙◌}
use mathlib.Core.Bool.{Bool, true, false}
use mathlib.Core.Option.{Option, none, some}
use mathlib.Core.List.{List, [], ◌∷◌}
use inf_k8s.Prelude.Tests.{if◌then◌else◌}

infixl 5 ◌>>=◌
abbrev pub ◌>>=◌ {ℓ κ} : {A : Type ℓ} {B : Type κ} → Option A → (A → Option B) → Option B
none >>= f = none
some a >>= f = f a

module _ {ℓ} {A : Type ℓ} where
  -- `iter().any(p)`, with a test that may give up.
  abbrev pub any_m : (A → Option Bool) → List A → Option Bool
  any_m p [] = some false
  any_m p (x ∷ xs) = do b ← p x; let rest = any_m p xs; if b then some true else rest

  -- `iter().all(p)`, with a test that may give up.
  abbrev pub all_m : (A → Option Bool) → List A → Option Bool
  all_m p [] = some true
  all_m p (x ∷ xs) = do b ← p x; let rest = all_m p xs; if b then rest else some false

  -- A computation that gives a result.
  abbrev pub Returns : Option A → Type ℓ
  Returns m = (a : A) × (m ≡ some a)

pub Returns-bind {ℓ κ} :
    {A : Type ℓ} {B : Type κ} {m : Option A}
    → Returns m
    → (f : A → Option B) → ((a : A) → Returns (f a))
    → Returns (m >>= f)
Returns-bind (a, e) f k = ((k a).0, ap (λ o. o >>= f) e ∙ (k a).1)

pub Returns-if {ℓ} :
    {A : Type ℓ} (b : Bool) {x y : Option A} → Returns x → Returns y → Returns (if b then x else y)
Returns-if true hx hy = hx
Returns-if false hx hy = hy

module _ {ℓ} {A : Type ℓ} (p : A → Option Bool) (h : (x : A) → Returns (p x)) where
  pub Returns-any_m : (xs : List A) → Returns (any_m p xs)
  Returns-any_m [] = (false, refl)
  Returns-any_m (x ∷ xs) = Returns-bind (h x) _ λ b. Returns-if b (true, refl) (Returns-any_m xs)

  pub Returns-all_m : (xs : List A) → Returns (all_m p xs)
  Returns-all_m [] = (true, refl)
  Returns-all_m (x ∷ xs) = Returns-bind (h x) _ λ b. Returns-if b (Returns-all_m xs) (false, refl)

-- The branches may use the outcome of the test.
pub Returns-if_known {ℓ} :
    {A : Type ℓ} (b : Bool) {x y : Option A}
    → (b ≡ true → Returns x)
    → (b ≡ false → Returns y)
    → Returns (if b then x else y)
Returns-if_known true hx hy = hx refl
Returns-if_known false hx hy = hy refl
