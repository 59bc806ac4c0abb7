-- ===== src/Rules/Sort/Sums.antt =====
-- Sums over lists of indices and over all indices below a bound, for the degrees in `topo_sort`
-- (platform-services/janitor-bot/src/rules/mod.rs).
use inf_k8s.Prelude.{
  ℕ, zero, suc, ◌+◌, ◌≤◌, ◌<◌, ◌≡◌, refl, ap, ltb, Bool, true, false, any, ◌==◌, ==_iff,
  if◌then◌else◌, List, [], ◌∷◌, All, arith, Bool-cases, inl, inr,
}

abbrev pub one_if : Bool → ℕ
one_if true = 1
one_if false = 0

abbrev pub count : ℕ → List ℕ → ℕ
count i [] = 0
count i (j ∷ js) = one_if (i == j) + count i js

abbrev pub sum : (ℕ → ℕ) → List ℕ → ℕ
sum f [] = 0
sum f (x ∷ xs) = f x + sum f xs

-- The sum over the indices below a bound.
abbrev pub below : (ℕ → ℕ) → ℕ → ℕ
below f zero = 0
below f (suc n) = f n + below f n

abbrev pub elem : ℕ → List ℕ → Bool
elem i xs = any (λ j. i == j) xs

abbrev pub Distinct : List ℕ → Type 0
Distinct [] = Unit
Distinct (x ∷ xs) = (elem x xs ≡ false) × Distinct xs

abbrev pub AllBelow : ℕ → List ℕ → Type 0
AllBelow n xs = All (λ x. x < n) xs

abbrev without : ℕ → List ℕ → List ℕ
without n [] = []
without n (x ∷ xs) = let rest = without n xs in if n == x then rest else x ∷ rest

without-absent :
    (f : ℕ → ℕ) (n : ℕ) (xs : List ℕ) → elem n xs ≡ false → sum f (without n xs) ≡ sum f xs
without-absent f n [] h = refl
without-absent f n (x ∷ xs) h = ground (arith, without-absent f n xs)

sum-without-le : (f : ℕ → ℕ) (n : ℕ) (xs : List ℕ) → sum f (without n xs) ≤ sum f xs
sum-without-le f n [] = omega arith
sum-without-le f n (x ∷ xs) = ground (arith, sum-without-le f n xs)

elem-without : (n i : ℕ) (xs : List ℕ) → elem i xs ≡ false → elem i (without n xs) ≡ false
elem-without n i [] h = h
elem-without n i (x ∷ xs) h = ground (arith, elem-without n i xs)

elem-without-other :
    (n i : ℕ) (xs : List ℕ) → i < n → elem i xs ≡ true → elem i (without n xs) ≡ true
elem-without-other n i [] less h = h
elem-without-other n i (x ∷ xs) less h = ground (arith, elem-without-other n i xs less)

Distinct-without : (n : ℕ) (xs : List ℕ) → Distinct xs → Distinct (without n xs)
Distinct-without n [] h = tt
Distinct-without n (x ∷ xs) h = elim (Bool-cases (n == x)) [
  | inl same ↦ rw same (Distinct-without n xs h.1)
  | inr other ↦ rw other (elem-without n x xs h.0, Distinct-without n xs h.1)
]

AllBelow-without : (n : ℕ) (xs : List ℕ) → AllBelow (suc n) xs → AllBelow n (without n xs)
AllBelow-without n [] h = tt
AllBelow-without n (x ∷ xs) h = elim (Bool-cases (n == x)) [
  | inl same ↦ rw same (AllBelow-without n xs h.1)
  | inr other ↦ rw other (ground arith, AllBelow-without n xs h.1)
]

sum-le-without :
    (f : ℕ → ℕ) (n : ℕ) (xs : List ℕ) → Distinct xs → sum f xs ≤ f n + sum f (without n xs)
sum-le-without f n [] h = omega arith
sum-le-without f n (x ∷ xs) h = elim (Bool-cases (n == x)) [
  | inl same ↦
      let eq = (==_iff n x).0 same in
      let absent = without-absent f n xs (rw eq h.0) in rw same (omega (arith, ap f eq, absent))
  | inr other ↦ rw other (omega (arith, sum-le-without f n xs h.1))
]

without-le-sum :
    (f : ℕ → ℕ) (n : ℕ) (xs : List ℕ) → elem n xs ≡ true → f n + sum f (without n xs) ≤ sum f xs
without-le-sum f n [] h = absurd (ground arith)
without-le-sum f n (x ∷ xs) h = elim (Bool-cases (n == x)) [
  | inl same ↦ rw same (omega (arith, ap f ((==_iff n x).0 same), sum-without-le f n xs))
  | inr other ↦ rw other (omega (arith, without-le-sum f n xs (rw other at h)))
]

-- Distinct indices below the bound give no more than all of them do.
pub sum-le-below :
    (f : ℕ → ℕ) (n : ℕ) (xs : List ℕ) → Distinct xs → AllBelow n xs → sum f xs ≤ below f n
sum-le-below f zero [] d h = omega arith
sum-le-below f zero (x ∷ xs) d h = absurd (omega (arith, h.0))
sum-le-below f (suc n) xs d h = omega (
  arith,
  sum-le-without f n xs d,
  sum-le-below f n (without n xs) (Distinct-without n xs d) (AllBelow-without n xs h),
)

-- Indices that include each one with something to give are enough.
pub below-le-sum :
    (f : ℕ → ℕ) (n : ℕ) (xs : List ℕ)
    → ((x : ℕ) → x < n → 0 < f x → elem x xs ≡ true)
    → below f n ≤ sum f xs
below-le-sum f zero xs h = omega arith
below-le-sum f (suc n) xs h =
    let rest =
      below-le-sum f n (without n xs)
        (λ x less some. elem-without-other n x xs less (h x (omega arith) some)) in
    elim (Bool-cases (elem n xs)) [
      | inl present ↦ omega (arith, rest, without-le-sum f n xs present)
      | inr absent ↦ elim (Bool-cases (ltb 0 (f n))) [
        | inl some ↦ absurd (ground (arith, h n (omega arith)))
        | inr nothing ↦ ground (arith, rest, sum-without-le f n xs)
      ]
    ]
