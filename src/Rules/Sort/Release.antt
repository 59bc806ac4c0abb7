-- ===== src/Rules/Sort/Release.antt =====
-- The release of the dependents of an index in the loop of `topo_sort`
-- (platform-services/janitor-bot/src/rules/mod.rs).
use inf_k8s.Prelude.{
  ℕ, zero, suc, ◌+◌, ◌-◌, ◌≤◌, ◌<◌, ◌≡◌, refl, sym, ap, subst, ◌∙◌, Bool, true, false, ◌||◌, ◌==◌,
  ==_iff, if◌then◌else◌, List, [], ◌∷◌, ◌++◌, append_assoc, arith, Bool-cases, inl, inr, length,
  All-append,
}
use inf_k8s.Rules.Sort.{set, release}
use inf_k8s.Rules.Sort.Sums.{one_if, count, sum, below, elem, Distinct, AllBelow}

pub elem-append-or : (i : ℕ) (xs ys : List ℕ) → elem i (xs ++ ys) ≡ (elem i xs || elem i ys)
elem-append-or i [] ys = refl
elem-append-or i (x ∷ xs) ys = ground (arith, elem-append-or i xs ys)

Distinct-snoc : (x : ℕ) (xs : List ℕ) → Distinct xs → elem x xs ≡ false → Distinct (xs ++ x ∷ [])
Distinct-snoc x [] d h = (refl, tt)
Distinct-snoc x (y ∷ ys) d h =
    (ground (arith, elem-append-or y ys (x ∷ []), d.0), Distinct-snoc x ys d.1 (ground arith))

pub Distinct-front : (xs ys : List ℕ) → Distinct (xs ++ ys) → Distinct xs
Distinct-front [] ys d = tt
Distinct-front (x ∷ xs) ys d =
    (ground (arith, elem-append-or x xs ys, d.0), Distinct-front xs ys d.1)

pub AllBelow-front : (n : ℕ) (xs ys : List ℕ) → AllBelow n (xs ++ ys) → AllBelow n xs
AllBelow-front n [] ys h = tt
AllBelow-front n (x ∷ xs) ys h = (h.0, AllBelow-front n xs ys h.1)

pub AllBelow-at : (n : ℕ) (xs : List ℕ) (x : ℕ) (ys : List ℕ) → AllBelow n (xs ++ x ∷ ys) → x < n
AllBelow-at n [] x ys h = h.0
AllBelow-at n (y ∷ xs) x ys h = AllBelow-at n xs x ys h.1

pub length-eq-sum : (xs : List ℕ) → sum (λ _. 1) xs ≡ length xs
length-eq-sum [] = refl
length-eq-sum (x ∷ xs) = omega (arith, length-eq-sum xs)

pub below-one : (n : ℕ) → below (λ _. 1) n ≡ n
below-one zero = refl
below-one (suc n) = omega (arith, below-one n)

pub sum-snoc : (f : ℕ → ℕ) (x : ℕ) (xs : List ℕ) → sum f (xs ++ x ∷ []) ≡ sum f xs + f x
sum-snoc f x [] = omega arith
sum-snoc f x (y ∷ ys) = omega (arith, sum-snoc f x ys)

pub count-elem : (i : ℕ) (xs : List ℕ) → elem i xs ≡ true → 0 < count i xs
count-elem i [] h = absurd (ground arith)
count-elem i (x ∷ xs) h = ground (arith, count-elem i xs)

pub elem-count : (i : ℕ) (xs : List ℕ) → 0 < count i xs → elem i xs ≡ true
elem-count i [] h = absurd (omega arith)
elem-count i (x ∷ xs) h = ground (arith, elem-count i xs)

module _ (n : ℕ) (ds : ℕ → List ℕ) (total : ℕ → ℕ) where
  -- How many edges into an index come from the indices that are placed.
  abbrev pub used : List ℕ → ℕ → ℕ
  used placed i = sum (λ x. count i (ds x)) placed

  -- While the dependents of the last index that was placed are released: those that are left have
  -- been counted as placed, and their degrees do not show it yet.
  pub record IsReleasing (placed is queue : List ℕ) (degree : ℕ → ℕ) : Type 0 where
    pub left : (i : ℕ) → count i is ≤ degree i
    pub exact : (i : ℕ) → degree i + used placed i ≡ total i + count i is
    pub zeros : (i : ℕ) → i < n → elem i (placed ++ queue) ≡ (degree i == 0)
    pub distinct : Distinct (placed ++ queue)
    pub bounded : AllBelow n (placed ++ queue)
    pub targets : AllBelow n is

  module _ (placed is queue : List ℕ) (i : ℕ) (degree : ℕ → ℕ)
      (r : IsReleasing placed (i ∷ is) queue degree) where
    abbrev lower : ℕ → ℕ
    lower = set i (degree i - 1) degree

    lower-at : (j : ℕ) → lower j ≡ degree j - one_if (j == i)
    lower-at j = elim (Bool-cases (i == j)) [
      | inl same ↦ let eq = (==_iff i j).0 same in rw same (ground (arith, ap degree eq))
      | inr other ↦ rw other (ground arith)
    ]

    lower-left : (j : ℕ) → count j is ≤ lower j
    lower-left j = omega (arith, r.left j, lower-at j)

    lower-exact : (j : ℕ) → lower j + used placed j ≡ total j + count j is
    lower-exact j = omega (arith, r.left j, r.exact j, lower-at j)

    absent : elem i (placed ++ queue) ≡ false
    absent = ground (arith, r.zeros i r.targets.0, r.left i)

    pushed : (j : ℕ) → elem j (placed ++ (queue ++ i ∷ [])) ≡ (elem j (placed ++ queue) || (j == i))
    pushed j =
        ap (elem j) (sym (append_assoc placed queue (i ∷ [])))
        ∙ elem-append-or j (placed ++ queue) (i ∷ [])
        ∙ ground arith

    release_last : (lower i == 0) ≡ true → IsReleasing placed is (queue ++ i ∷ []) lower
    release_last last = record {
      left = lower-left;
      exact = lower-exact;
      zeros = λ j less. elim (Bool-cases (j == i)) [
        | inl same ↦
            let here : lower j ≡ lower i = ap lower ((==_iff j i).0 same) in
            ground (arith, pushed j)
        | inr other ↦ ground (arith, pushed j, lower-at j, r.zeros j less)
      ];
      distinct =
          subst Distinct (append_assoc placed queue (i ∷ []))
            (Distinct-snoc i (placed ++ queue) r.distinct absent);
      bounded =
          subst (AllBelow n) (append_assoc placed queue (i ∷ []))
            (All-append (λ x. x < n) (placed ++ queue) (i ∷ []) r.bounded (r.targets.0, tt));
      targets = r.targets.1;
    }

    release_more : (lower i == 0) ≡ false → IsReleasing placed is queue lower
    release_more more = record {
      left = lower-left;
      exact = lower-exact;
      zeros = λ j less. elim (Bool-cases (j == i)) [
        | inl same ↦
            let here : lower j ≡ lower i = ap lower ((==_iff j i).0 same) in
            let gone : elem j (placed ++ queue) ≡ elem i (placed ++ queue) =
              ap (λ x. elem x (placed ++ queue)) ((==_iff j i).0 same) in
            ground (arith, absent)
        | inr other ↦ ground (arith, lower-at j, r.zeros j less)
      ];
      distinct = r.distinct;
      bounded = r.bounded;
      targets = r.targets.1;
    }

    release_one :
        (b : Bool)
        → (lower i == 0) ≡ b
        → IsReleasing placed is (if b then queue ++ i ∷ [] else queue) lower
    release_one true e = release_last e
    release_one false e = release_more e

  pub release-IsReleasing :
      (placed is queue : List ℕ) (degree : ℕ → ℕ)
      → IsReleasing placed is queue degree
      → IsReleasing placed [] (release is degree queue).1 (release is degree queue).0
  unfolding release
  release-IsReleasing placed [] queue degree r = r
  release-IsReleasing placed (i ∷ is) queue degree r =
      release-IsReleasing placed is _ (set i (degree i - 1) degree)
        (release_one placed is queue i degree r _ refl)
