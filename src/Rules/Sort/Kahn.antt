-- ===== src/Rules/Sort/Kahn.antt =====
-- The loop of `topo_sort` (platform-services/janitor-bot/src/rules/mod.rs): what its queue and its
-- degrees say of the order so far.
use inf_k8s.Prelude.{
  ℕ, zero, suc, ◌+◌, ◌≤◌, ◌<◌, ◌≡◌, refl, sym, ap, subst, ◌∙◌, true, ◌==◌, List, [], ◌∷◌, ◌++◌,
  append_assoc, append-nil, some, arith, Bool-cases, inl, inr, length, length-append,
}
use inf_k8s.Rules.Sort.{release, kahn}
use inf_k8s.Rules.Sort.Sums.{count, below, elem, Distinct, AllBelow, sum-le-below, below-le-sum}
use inf_k8s.Rules.Sort.Release.{
  elem-append-or, Distinct-front, AllBelow-front, AllBelow-at, length-eq-sum, below-one, sum-snoc,
  count-elem, elem-count, used, IsReleasing, release-IsReleasing,
}

module _ (n : ℕ) (ds : ℕ → List ℕ) (total : ℕ → ℕ) where
  -- Every index with an edge into this one is among those before it.
  abbrev pub IsReady : List ℕ → ℕ → Type 0
  IsReady before x = (d : ℕ) → d < n → elem x (ds d) ≡ true → elem d before ≡ true

  abbrev pub IsOrdered : List ℕ → List ℕ → Type 0
  IsOrdered before [] = Unit
  IsOrdered before (x ∷ xs) = IsReady before x × IsOrdered (before ++ x ∷ []) xs

  IsOrdered-snoc :
      (before xs : List ℕ) (x : ℕ)
      → IsOrdered before xs
      → IsReady (before ++ xs) x
      → IsOrdered before (xs ++ x ∷ [])
  IsOrdered-snoc before [] x h ready = (subst (λ l. IsReady l x) (append-nil before) ready, tt)
  IsOrdered-snoc before (y ∷ ys) x h ready = (
    h.0,
    IsOrdered-snoc (before ++ y ∷ []) ys x h.1
        (subst (λ l. IsReady l x) (sym (append_assoc before (y ∷ []) ys)) ready),
  )

  -- Between two rounds of the loop.
  pub record IsPlacing (queue order : List ℕ) (degree : ℕ → ℕ) : Type 0 where
    pub exact : (i : ℕ) → degree i + used n ds total order i ≡ total i
    pub zeros : (i : ℕ) → i < n → elem i (order ++ queue) ≡ (degree i == 0)
    pub distinct : Distinct (order ++ queue)
    pub bounded : AllBelow n (order ++ queue)
    pub ordered : IsOrdered [] order

  module _ (totals : (i : ℕ) → total i ≡ below (λ x. count i (ds x)) n)
      (targets : (x : ℕ) → AllBelow n (ds x)) where
    used-le-total :
        (placed : List ℕ) (i : ℕ)
        → Distinct placed
        → AllBelow n placed
        → used n ds total placed i ≤ total i
    used-le-total placed i d b =
        omega (arith, totals i, sum-le-below (λ x. count i (ds x)) n placed d b)

    module _ (x : ℕ) (queue order : List ℕ) (degree : ℕ → ℕ)
        (p : IsPlacing (x ∷ queue) order degree) where
      abbrev placed : List ℕ
      placed = order ++ x ∷ []

      moved : order ++ x ∷ queue ≡ placed ++ queue
      moved = sym (append_assoc order (x ∷ []) queue)

      distinct : Distinct (placed ++ queue)
      distinct = subst Distinct moved p.distinct

      bounded : AllBelow n (placed ++ queue)
      bounded = subst (AllBelow n) moved p.bounded

      used-placed : (i : ℕ) → used n ds total placed i ≡ used n ds total order i + count i (ds x)
      used-placed i = sum-snoc (λ d. count i (ds d)) x order

      starting : IsReleasing n ds total placed (ds x) queue degree
      starting = record {
        left = λ i. omega (
          arith,
          p.exact i,
          used-placed i,
          used-le-total placed i (Distinct-front placed queue distinct)
              (AllBelow-front n placed queue bounded),
        );
        exact = λ i. omega (arith, p.exact i, used-placed i);
        zeros = λ i less. ap (elem i) (sym moved) ∙ p.zeros i less;
        distinct = distinct;
        bounded = bounded;
        targets = targets x;
      }

      ready : IsReady order x
      ready d less edge = elim (Bool-cases (elem d order)) [
        | inl present ↦ present
        | inr missing ↦
            let here = AllBelow-at n order x queue p.bounded in
            let zero : degree x ≡ 0 =
              ground (arith, p.zeros x here, elem-append-or x order (x ∷ queue)) in
            let enough =
              used-le-total (d ∷ order) x (missing, Distinct-front order (x ∷ queue) p.distinct)
                (less, AllBelow-front n order (x ∷ queue) p.bounded) in
            absurd (omega (arith, p.exact x, count-elem x (ds d) edge))
      ]

      placed_next :
          (queue' : List ℕ) (degree' : ℕ → ℕ)
          → IsReleasing n ds total placed [] queue' degree'
          → IsPlacing queue' placed degree'
      placed_next queue' degree' r = record {
        exact = λ i. omega (arith, r.exact i);
        zeros = r.zeros;
        distinct = r.distinct;
        bounded = r.bounded;
        ordered = IsOrdered-snoc [] order x p.ordered ready;
      }

    length-placed : (placed : List ℕ) → Distinct placed → AllBelow n placed → length placed ≤ n
    length-placed placed d b =
        omega (arith, length-eq-sum placed, below-one n, sum-le-below (λ _. 1) n placed d b)

    -- The loop ends with a round that finds its queue empty.
    pub kahn-IsPlacing :
        (fuel : ℕ) (degree : ℕ → ℕ) (queue order : List ℕ)
        → n ≤ fuel + length order
        → IsPlacing queue order degree
        → (final : List ℕ) × (degree' : ℕ → ℕ) × (kahn ds fuel degree queue order ≡ some final)
          × IsPlacing [] final degree'
    unfolding kahn
    kahn-IsPlacing zero degree [] order enough p = (order, degree, refl, p)
    kahn-IsPlacing zero degree (x ∷ queue) order enough p = absurd (
        omega (
          arith,
          length-placed (order ++ x ∷ queue) p.distinct p.bounded,
          length-append order (x ∷ queue),
        ))
    kahn-IsPlacing (suc fuel) degree [] order enough p = (order, degree, refl, p)
    kahn-IsPlacing (suc fuel) degree (x ∷ queue) order enough p =
        kahn-IsPlacing fuel (release (ds x) degree queue).0 (release (ds x) degree queue).1
          (order ++ x ∷ []) (omega (arith, length-append order (x ∷ [])))
          (placed_next x queue order degree p _ _ (
            release-IsReleasing n ds total (order ++ x ∷ []) (ds x) queue degree
              (starting x queue order degree p)))

    -- Where the edges lead to higher ranks, no index is left out.
    all_placed :
        (rank : ℕ → ℕ) (order : List ℕ) (degree : ℕ → ℕ)
        → ((d i : ℕ) → d < n → elem i (ds d) ≡ true → rank d < rank i)
        → IsPlacing [] order degree
        → (bound i : ℕ) → i < n
        → rank i < bound
        → elem i order ≡ true
    all_placed rank order degree ascends p zero i less low = absurd (omega arith)
    all_placed rank order degree ascends p (suc bound) i less low =
        let enough =
          below-le-sum (λ d. count i (ds d)) n order
            λ d d_less some.
              let edge = elem-count i (ds d) some in
              all_placed rank order degree ascends p bound d d_less
                (omega (arith, ascends d i d_less edge)) in
        let zero : degree i ≡ 0 = omega (arith, p.exact i, totals i) in
        ground (arith, p.zeros i less, elem-append-or i order [])

    pub kahn_complete :
        (rank : ℕ → ℕ) (order : List ℕ) (degree : ℕ → ℕ)
        → ((d i : ℕ) → d < n → elem i (ds d) ≡ true → rank d < rank i)
        → IsPlacing [] order degree
        → (i : ℕ) → i < n
        → elem i order ≡ true
    kahn_complete rank order degree ascends p i less =
        all_placed rank order degree ascends p (suc (rank i)) i less (omega arith)
