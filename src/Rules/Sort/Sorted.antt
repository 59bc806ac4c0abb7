-- ===== src/Rules/Sort/Sorted.antt =====
-- `topo_sort` as a whole (platform-services/janitor-bot/src/rules/mod.rs).
use inf_k8s.Prelude.{
  ℕ, suc, ◌<◌, ◌≡◌, refl, ap, subst, String, true, ◌==◌, ==_iff, List, [], ◌∷◌, ◌++◌, append-nil,
  Option, none, some, arith, Bool-cases, inl, inr, length, eq_refl,
}
use inf_k8s.Rules.Schema.{RuleDef}
use inf_k8s.Rules.Resolve.{has}
use inf_k8s.Rules.Sort.{
  by_priority, index_from, Graph, add_edge, add_dependency, add_dependencies, add_rules,
  empty_graph, graph_of, order_of, topo_sort, all_some,
}
use inf_k8s.Rules.Sort.Sums.{elem, Distinct, AllBelow}
use inf_k8s.Rules.Sort.Degrees.{graph_of-IsBalanced}
use inf_k8s.Rules.Sort.Kahn.{kahn_complete}
use inf_k8s.Rules.Sort.Release.{elem-append-or}
use inf_k8s.Rules.Sort.Order.{
  AreAt, IsBehind, order_of-IsPlacing, IsBehind-ordered, take_each-full, all_some-slot,
}

elem-below : (n i : ℕ) (xs : List ℕ) → AllBelow n xs → elem i xs ≡ true → i < n
elem-below n i [] h e = absurd (ground arith)
elem-below n i (x ∷ xs) h e = ground (arith, h.0, elem-below n i xs h.1)

-- topo_sort returns for every list of rules, without a panic: its result has the rules at distinct
-- places of the list that is sorted by priority, and each of them stands after the rule that each of
-- its dependencies names, where there is one.
pub topo_sort-IsBehind :
    (rules : List RuleDef)
    → (out : List RuleDef) × (order : List ℕ) × (topo_sort rules ≡ some out)
      × AreAt (by_priority rules) order out
      × Distinct order
      × IsBehind (by_priority rules) [] order
unfolding topo_sort
topo_sort-IsBehind rules =
    let sorted = by_priority rules in
    let (order, degree, ordered, p) = order_of-IsPlacing sorted in
    let distinct = subst Distinct (append-nil order) p.distinct in
    let bounded = subst (AllBelow (length sorted)) (append-nil order) p.bounded in
    let (out, taken, at) =
      take_each-full sorted order (all_some sorted) distinct
        λ i present. all_some-slot sorted i (elem-below (length sorted) i order bounded present) in
    (out, order, rw (ordered, taken) refl, at, distinct, IsBehind-ordered sorted [] order p.ordered)

module _ (all : List RuleDef) (rank : ℕ → ℕ) where
  -- Each edge of the graph leads to a higher rank.
  abbrev Ascends : Graph → Type 0
  Ascends g = (d i : ℕ) → elem i (g.dependents d) ≡ true → rank d < rank i

  -- Each dependency that names a rule names one of a lower rank.
  abbrev pub IsRanked : List RuleDef → ℕ → Type 0
  IsRanked [] i = Unit
  IsRanked (r ∷ rules) i =
      ((dep : String) (d : ℕ)
        → has dep r.depends_on ≡ true
        → index_from 0 dep all ≡ some d
        → rank d < rank i)
      × IsRanked rules (suc i)

  Ascends-add_edge :
      (g : Graph) (from to : ℕ) → rank from < rank to → Ascends g → Ascends (add_edge g from to)
  Ascends-add_edge g from to less h d i e = elim (Bool-cases (from == d)) [
    | inl same ↦
        let from_d = ap rank ((==_iff from d).0 same) in
        let added : elem i (g.dependents from ++ to ∷ []) ≡ true = rw same at e in
        elim (Bool-cases (elem i (g.dependents from))) [
          | inl old ↦ omega (arith, from_d, h from i old)
          | inr fresh ↦
              let last : (i == to) ≡ true =
                ground (arith, elem-append-or i (g.dependents from) (to ∷ [])) in
              omega (arith, from_d, ap rank ((==_iff i to).0 last))
        ]
    | inr other ↦ h d i (rw other at e)
  ]

  Ascends-add_dependencies :
      (g : Graph) (i : ℕ) (deps : List String)
      → ((dep : String) (d : ℕ)
          → has dep deps ≡ true
          → index_from 0 dep all ≡ some d
          → rank d < rank i)
      → Ascends g
      → Ascends (add_dependencies all g i deps)
  unfolding add_dependencies
  Ascends-add_dependencies g i [] low h = h
  Ascends-add_dependencies g i (dep ∷ deps) low h =
      Ascends-add_dependencies (add_dependency g i (index_from 0 dep all)) i deps
        (λ name d named e. low name d (ground arith) e) (go (index_from 0 dep all) refl)
    where
      go : (o : Option ℕ) → index_from 0 dep all ≡ o → Ascends (add_dependency g i o)
      go none e = h
      go (some d) e = Ascends-add_edge g d i (low dep d (ground (arith, eq_refl dep)) e) h

  Ascends-add_rules :
      (g : Graph) (i : ℕ) (rules : List RuleDef)
      → IsRanked rules i
      → Ascends g
      → Ascends (add_rules all g i rules)
  unfolding add_rules
  Ascends-add_rules g i [] ranked h = h
  Ascends-add_rules g i (r ∷ rules) ranked h =
      Ascends-add_rules (add_dependencies all g i r.depends_on) (suc i) rules ranked.1
        (Ascends-add_dependencies g i r.depends_on ranked.0 h)

-- Where the dependencies of the rules lead to lower ranks, as they do if they have no cycle, the
-- order that topo_sort takes has the place of every rule: none is left out.
pub order_of_complete :
    (rules : List RuleDef) (rank : ℕ → ℕ)
    → IsRanked (by_priority rules) rank (by_priority rules) 0
    → (order : List ℕ) × (order_of (by_priority rules) ≡ some order)
      × ((i : ℕ) → i < length (by_priority rules) → elem i order ≡ true)
order_of_complete rules rank ranked =
    let sorted = by_priority rules in
    let (order, degree, ordered, p) = order_of-IsPlacing sorted in
    let balanced = graph_of-IsBalanced sorted in
    let ascends =
      Ascends-add_rules sorted rank empty_graph 0 sorted ranked λ d i e. absurd (ground arith) in
    (
      order,
      ordered,
      kahn_complete (length sorted) (graph_of sorted).dependents (graph_of sorted).in_degree
          balanced.degrees balanced.targets rank order degree (λ d i _ e. ascends d i e) p,
    )
