-- ===== src/Rules/Sort/Degrees.antt =====
-- The graph that `topo_sort` builds (platform-services/janitor-bot/src/rules/mod.rs).
use inf_k8s.Prelude.{
  ℕ, zero, suc, ◌+◌, ◌≤◌, ◌<◌, ◌≡◌, refl, sym, ap, subst, ◌∙◌, String, Bool, true, false, ◌==◌,
  ==_iff, str_eq, eq_iff, List, [], ◌∷◌, ◌++◌, Option, none, some, arith, Bool-cases, inl, inr,
  length, All-append,
}
use inf_k8s.Rules.Schema.{RuleDef}
use inf_k8s.Rules.Resolve.{has}
use inf_k8s.Rules.Sort.{
  or_here, index_from, set, Graph, add_edge, add_dependency, add_dependencies, add_rules,
  empty_graph, graph_of,
}
use inf_k8s.Rules.Sort.Sums.{one_if, count, below, elem, AllBelow}

or_here-lt :
    (o : Option ℕ) (here : Bool) (k j bound : ℕ)
    → or_here o here k ≡ some j
    → (o ≡ some j → j < bound)
    → k < bound
    → j < bound
or_here-lt (some x) here k j bound h later now = later h
or_here-lt none true k j bound h later now = ground arith
or_here-lt none false k j bound h later now = cc

index_from-lt :
    (k : ℕ) (name : String) (rules : List RuleDef) (j : ℕ)
    → index_from k name rules ≡ some j
    → j < k + length rules
unfolding index_from
index_from-lt k name [] j h = cc
index_from-lt k name (r ∷ rules) j h =
    or_here-lt (index_from (suc k) name rules) _ k j _ h
      (λ later. omega (arith, index_from-lt (suc k) name rules j later)) (omega arith)

count-snoc : (i y : ℕ) (xs : List ℕ) → count i (xs ++ y ∷ []) ≡ count i xs + one_if (i == y)
count-snoc i y [] = omega arith
count-snoc i y (x ∷ xs) = omega (arith, count-snoc i y xs)

elem-append : (i : ℕ) (xs ys : List ℕ) → elem i xs ≡ true → elem i (xs ++ ys) ≡ true
elem-append i [] ys h = ground arith
elem-append i (x ∷ xs) ys h = ground (arith, elem-append i xs ys)

elem-snoc : (i : ℕ) (xs : List ℕ) → elem i (xs ++ i ∷ []) ≡ true
elem-snoc i [] = ground arith
elem-snoc i (x ∷ xs) = ground (arith, elem-snoc i xs)

module _ (d : ℕ → List ℕ) (from to i : ℕ) where
  below-set-out :
      (n : ℕ)
      → n ≤ from
      → below (λ x. count i (set from (d from ++ to ∷ []) d x)) n ≡ below (λ x. count i (d x)) n
  below-set-out zero h = refl
  below-set-out (suc n) h = ground (arith, below-set-out n)

  below-set-in :
      (n : ℕ)
      → from < n
      → below (λ x. count i (set from (d from ++ to ∷ []) d x)) n
        ≡ below (λ x. count i (d x)) n + one_if (i == to)
  below-set-in zero h = absurd (omega arith)
  below-set-in (suc n) h = elim (Bool-cases (from == n)) [
    | inl same ↦
        let eq = (==_iff from n).0 same in
        let outside = below-set-out n (omega arith) in
        rw same (omega (arith, count-snoc i to (d from), ap (λ x. count i (d x)) eq, outside))
    | inr other ↦ rw other (omega (arith, below-set-in n (ground arith)))
  ]

-- The degree of each index is the number of edges into it, and every edge ends below the bound.
pub record IsBalanced (n : ℕ) (g : Graph) : Type 0 where
  pub degrees : (i : ℕ) → g.in_degree i ≡ below (λ x. count i (g.dependents x)) n
  pub targets : (x : ℕ) → AllBelow n (g.dependents x)

abbrev pub rule_at : ℕ → List RuleDef → Option RuleDef
rule_at i [] = none
rule_at zero (r ∷ rules) = some r
rule_at (suc i) (r ∷ rules) = rule_at i rules

module _ (n : ℕ) where
  IsBalanced-add_edge :
      (g : Graph) (from to : ℕ)
      → from < n
      → to < n
      → IsBalanced n g
      → IsBalanced n (add_edge g from to)
  IsBalanced-add_edge g from to from_less to_less b = record {
    degrees = λ i. elim (Bool-cases (to == i)) [
      | inl same ↦
          let eq = (==_iff to i).0 same in
          rw same (
            ground (
              arith,
              below-set-in g.dependents from to i n from_less,
              b.degrees i,
              ap g.in_degree eq,
            ))
      | inr other ↦
          rw other (ground (arith, below-set-in g.dependents from to i n from_less, b.degrees i))
    ];
    targets = λ x. elim (Bool-cases (from == x)) [
      | inl same ↦
          rw same
            (All-append (λ y. y < n) (g.dependents from) (to ∷ []) (b.targets from) (to_less, tt))
      | inr other ↦ rw other (b.targets x)
    ];
  }

  -- The graph has the edge.
  abbrev pub HasEdge : Graph → ℕ → ℕ → Type 0
  HasEdge g from to = elem to (g.dependents from) ≡ true

  HasEdge-add_edge :
      (g : Graph) (from to x y : ℕ) → HasEdge g x y → HasEdge (add_edge g from to) x y
  HasEdge-add_edge g from to x y h = elim (Bool-cases (from == x)) [
    | inl same ↦
        rw same (elem-append y (g.dependents from) (to ∷ []) (rw ((==_iff from x).0 same) h))
    | inr other ↦ rw other h
  ]

  HasEdge-added : (g : Graph) (from to : ℕ) → HasEdge (add_edge g from to) from to
  HasEdge-added g from to = rw ((==_iff from from).1 refl) (elem-snoc to (g.dependents from))

  module _ (all : List RuleDef) (size : length all ≡ n) where
    add_dependencies-IsBalanced :
        (g : Graph) (i : ℕ) (deps : List String)
        → i < n
        → IsBalanced n g
        → IsBalanced n (add_dependencies all g i deps)
    unfolding add_dependencies
    add_dependencies-IsBalanced g i [] less b = b
    add_dependencies-IsBalanced g i (dep ∷ deps) less b =
        add_dependencies-IsBalanced (add_dependency g i (index_from 0 dep all)) i deps less
          (go (index_from 0 dep all) refl)
      where
        go : (o : Option ℕ) → index_from 0 dep all ≡ o → IsBalanced n (add_dependency g i o)
        go none e = b
        go (some from) e =
            IsBalanced-add_edge g from i (omega (arith, index_from-lt 0 dep all from e)) less b

    add_rules-IsBalanced :
        (g : Graph) (i : ℕ) (rules : List RuleDef)
        → i + length rules ≤ n
        → IsBalanced n g
        → IsBalanced n (add_rules all g i rules)
    unfolding add_rules
    add_rules-IsBalanced g i [] fits b = b
    add_rules-IsBalanced g i (r ∷ rules) fits b =
        add_rules-IsBalanced (add_dependencies all g i r.depends_on) (suc i) rules (omega arith)
          (add_dependencies-IsBalanced g i r.depends_on (omega arith) b)

    HasEdge-add_dependency :
        (g : Graph) (i : ℕ) (o : Option ℕ) (x y : ℕ)
        → HasEdge g x y
        → HasEdge (add_dependency g i o) x y
    HasEdge-add_dependency g i none x y h = h
    HasEdge-add_dependency g i (some from) x y h = HasEdge-add_edge g from i x y h

    HasEdge-add_dependencies :
        (g : Graph) (i : ℕ) (deps : List String) (x y : ℕ)
        → HasEdge g x y
        → HasEdge (add_dependencies all g i deps) x y
    unfolding add_dependencies
    HasEdge-add_dependencies g i [] x y h = h
    HasEdge-add_dependencies g i (dep ∷ deps) x y h =
        HasEdge-add_dependencies (add_dependency g i (index_from 0 dep all)) i deps x y
          (HasEdge-add_dependency g i _ x y h)

    HasEdge-add_rules :
        (g : Graph) (i : ℕ) (rules : List RuleDef) (x y : ℕ)
        → HasEdge g x y
        → HasEdge (add_rules all g i rules) x y
    unfolding add_rules
    HasEdge-add_rules g i [] x y h = h
    HasEdge-add_rules g i (r ∷ rules) x y h =
        HasEdge-add_rules (add_dependencies all g i r.depends_on) (suc i) rules x y
          (HasEdge-add_dependencies g i r.depends_on x y h)

    -- What a rule depends on has an edge to it.
    HasEdge-depends_on :
        (g : Graph) (i : ℕ) (deps : List String) (dep : String) (from : ℕ)
        → has dep deps ≡ true
        → index_from 0 dep all ≡ some from
        → HasEdge (add_dependencies all g i deps) from i
    unfolding add_dependencies
    HasEdge-depends_on g i [] dep from h e = absurd (ground arith)
    HasEdge-depends_on g i (d ∷ deps) dep from h e = elim (Bool-cases (str_eq dep d)) [
      | inl same ↦ HasEdge-add_dependencies _ i deps from i (
          rw (ap (λ name. index_from 0 name all) (sym ((eq_iff dep d).0 same)) ∙ e)
            (HasEdge-added g from i))
      | inr other ↦
          HasEdge-depends_on (add_dependency g i (index_from 0 d all)) i deps dep from
            (rw other at h) e
    ]

    HasEdge-rule :
        (g : Graph) (k i at : ℕ) (rules : List RuleDef) (r : RuleDef) (dep : String) (from : ℕ)
        → k + i ≡ at
        → rule_at i rules ≡ some r
        → has dep r.depends_on ≡ true
        → index_from 0 dep all ≡ some from
        → HasEdge (add_rules all g k rules) from at
    unfolding add_rules
    HasEdge-rule g k i at [] r dep from p found h e = cc
    HasEdge-rule g k zero at (q ∷ rules) r dep from p found h e =
        let same : q ≡ r = cc in
        let edge =
          HasEdge-depends_on g k q.depends_on dep from
            (subst (λ (x : RuleDef). has dep x.depends_on ≡ true) (sym same) h) e in
        let here : k ≡ at = omega arith in
        HasEdge-add_rules (add_dependencies all g k q.depends_on) (suc k) rules from at
          (subst (λ x. HasEdge (add_dependencies all g k q.depends_on) from x) here edge)
    HasEdge-rule g k (suc i) at (q ∷ rules) r dep from p found h e =
        HasEdge-rule (add_dependencies all g k q.depends_on) (suc k) i at rules r dep from
          (omega arith) found h e

zero-below : (n : ℕ) → below (λ _. 0) n ≡ 0
zero-below zero = refl
zero-below (suc n) = omega (arith, zero-below n)

pub graph_of-IsBalanced : (rules : List RuleDef) → IsBalanced (length rules) (graph_of rules)
graph_of-IsBalanced rules =
    add_rules-IsBalanced (length rules) rules refl empty_graph 0 rules (omega arith)
      (record { degrees = λ i. sym (zero-below (length rules)); targets = λ x. tt })

-- Each rule has an edge from every rule that it depends on.
pub graph_of-HasEdge :
    (rules : List RuleDef) (i : ℕ) (r : RuleDef) (dep : String) (from : ℕ)
    → rule_at i rules ≡ some r
    → has dep r.depends_on ≡ true
    → index_from 0 dep rules ≡ some from
    → (from < length rules) × HasEdge (length rules) (graph_of rules) from i
graph_of-HasEdge rules i r dep from found h e = (
  omega (arith, index_from-lt 0 dep rules from e),
  HasEdge-rule (length rules) rules refl empty_graph 0 i i rules r dep from (omega arith) found h e,
)
