-- ===== src/Prelude/Results.antt =====
-- Fallible code: `Result E A` is the source's `Result<A, E>`, and `>>=` its `?`.
use mathlib.Core.Path.{◌≡◌, refl, ap}
use mathlib.Core.List.{List, [], ◌∷◌}

pub data Result {ℓ κ} (E : Type ℓ) (A : Type κ) : Type (ℓ ⊔ κ) where
  ok : A → Result E A
  err : E → Result E A

infixl 5 ◌>>=◌
abbrev pub ◌>>=◌ {ℓ κ μ} :
    {E : Type ℓ} {A : Type κ} {B : Type μ} → Result E A → (A → Result E B) → Result E B
ok a >>= f = f a
err e >>= f = err e

-- `iter().map(f).collect::<Result<Vec<_>, _>>()`, which stops at the first error.
abbrev pub collect {ℓ κ μ} :
    {E : Type ℓ} {A : Type κ} {B : Type μ} → (A → Result E B) → List A → Result E (List B)
collect f [] = ok []
collect f (x ∷ xs) = do y ← f x; ys ← collect f xs; ok (y ∷ ys)

-- Where a chain succeeds, its first step did, and so did the next one on its value.
module _ {ℓ κ μ} {E : Type ℓ} {A : Type κ} {B : Type μ} where
  pub >>=-eq-ok :
      (first : Result E A) (next : A → Result E B) {end : B}
      → (first >>= next) ≡ ok end
      → (a : A) × (first ≡ ok a) × (next a ≡ ok end)
  >>=-eq-ok (ok value) next same = (value, refl, same)
  >>=-eq-ok (err failure) next same = cc

-- What follows a success.
pub then_ok {ℓ κ μ} :
    {E : Type ℓ} {A : Type κ} {B : Type μ} {m : Result E A} {a : A}
    → m ≡ ok a
    → (k : A → Result E B) → (m >>= k) ≡ k a
then_ok h k = ap (λ r. r >>= k) h
