-- ===== src/Rules/Sort/Order.antt =====
-- What `topo_sort` returns (platform-services/janitor-bot/src/rules/mod.rs).
use inf_k8s.Prelude.{
  ℕ, zero, suc, ◌+◌, ◌≤◌, ◌<◌, ◌≡◌, refl, ap, ◌∙◌, String, true, false, ◌==◌, ==_iff, List, [], ◌∷◌,
  ◌++◌, Option, none, some, arith, Bool-cases, inl, inr, length,
}
use inf_k8s.Rules.Schema.{RuleDef}
use inf_k8s.Rules.Resolve.{has}
use inf_k8s.Rules.Sort.{
  index_from, Graph, graph_of, roots_from, take_at, take_each, all_some, order_of,
}
use inf_k8s.Rules.Sort.Sums.{elem, Distinct, AllBelow}
use inf_k8s.Rules.Sort.Degrees.{rule_at, graph_of-IsBalanced, graph_of-HasEdge}
use inf_k8s.Rules.Sort.Kahn.{IsPlacing, IsOrdered, kahn-IsPlacing}

module _ (degree : ℕ → ℕ) where
  roots-below : (k m i : ℕ) → i < k → elem i (roots_from degree k m) ≡ false
  unfolding roots_from
  roots-below k zero i h = refl
  roots-below k (suc m) i h = ground (arith, roots-below (suc k) m i)

  roots-zero : (k m i : ℕ) → k ≤ i → i < k + m → elem i (roots_from degree k m) ≡ (degree i == 0)
  unfolding roots_from
  roots-zero k zero i low high = absurd (omega arith)
  roots-zero k (suc m) i low high = elim (Bool-cases (i == k)) [
    | inl same ↦ ground (
      arith,
      ap degree ((==_iff i k).0 same),
      roots-below (suc k) m i (omega (arith, (==_iff i k).0 same)),
    )
    | inr other ↦ ground (arith, roots-zero (suc k) m i (ground arith) (omega arith))
  ]

  Distinct-roots : (k m : ℕ) → Distinct (roots_from degree k m)
  unfolding roots_from
  Distinct-roots k zero = tt
  Distinct-roots k (suc m) = elim (Bool-cases (degree k == 0)) [
    | inl root ↦ rw root (roots-below (suc k) m k (omega arith), Distinct-roots (suc k) m)
    | inr other ↦ rw other (Distinct-roots (suc k) m)
  ]

  AllBelow-roots : (n k m : ℕ) → k + m ≤ n → AllBelow n (roots_from degree k m)
  unfolding roots_from
  AllBelow-roots n k zero h = tt
  AllBelow-roots n k (suc m) h = elim (Bool-cases (degree k == 0)) [
    | inl root ↦ rw root (omega arith, AllBelow-roots n (suc k) m (omega arith))
    | inr other ↦ rw other (AllBelow-roots n (suc k) m (omega arith))
  ]

-- The rules at the places, in that order.
abbrev pub AreAt : List RuleDef → List ℕ → List RuleDef → Type 0
AreAt rules [] [] = Unit
AreAt rules (i ∷ order) (r ∷ out) = (rule_at i rules ≡ some r) × AreAt rules order out
AreAt rules _ _ = ⊥

-- Each place stands after the place of the rule that each of its dependencies names.
abbrev pub IsBehind : List RuleDef → List ℕ → List ℕ → Type 0
IsBehind rules before [] = Unit
IsBehind rules before (i ∷ order) =
    ((r : RuleDef) (dep : String) (d : ℕ)
      → rule_at i rules ≡ some r
      → has dep r.depends_on ≡ true
      → index_from 0 dep rules ≡ some d
      → elem d before ≡ true)
    × IsBehind rules (before ++ i ∷ []) order

abbrev slot_at : ℕ → List (Option RuleDef) → Option (Option RuleDef)
slot_at i [] = none
slot_at zero (o ∷ slots) = some o
slot_at (suc i) (o ∷ slots) = slot_at i slots

take_at-full :
    (i : ℕ) (slots : List (Option RuleDef)) (r : RuleDef)
    → slot_at i slots ≡ some (some r)
    → (slots' : List (Option RuleDef)) × (take_at i slots ≡ some (r, slots'))
      × ((j : ℕ) → (j == i) ≡ false → slot_at j slots' ≡ slot_at j slots)
unfolding take_at
take_at-full i [] r h = absurd (ground arith)
take_at-full zero (none ∷ slots) r h = absurd (ground arith)
take_at-full zero (some q ∷ slots) r h = (none ∷ slots, cc, others)
  where
    others : (j : ℕ) → (j == 0) ≡ false → slot_at j (none ∷ slots) ≡ slot_at j (some q ∷ slots)
    others zero e = absurd (ground arith)
    others (suc j) e = refl
take_at-full (suc i) (o ∷ slots) r h =
    let (slots', taken, others) = take_at-full i slots r h in
    (o ∷ slots', rw taken refl, more slots' others)
  where
    more :
        (slots' : List (Option RuleDef))
        → ((j : ℕ) → (j == i) ≡ false → slot_at j slots' ≡ slot_at j slots)
        → (j : ℕ) → (j == suc i) ≡ false
        → slot_at j (o ∷ slots') ≡ slot_at j (o ∷ slots)
    more slots' others zero e = refl
    more slots' others (suc j) e = others j (ground arith)

pub all_some-slot :
    (rules : List RuleDef) (i : ℕ)
    → i < length rules
    → (r : RuleDef) × (rule_at i rules ≡ some r) × (slot_at i (all_some rules) ≡ some (some r))
all_some-slot [] i h = absurd (omega arith)
all_some-slot (r ∷ rules) zero h = (r, refl, refl)
all_some-slot (q ∷ rules) (suc i) h = all_some-slot rules i (omega arith)

-- Where each place has its rule in its slot, all can be taken.
pub take_each-full :
    (rules : List RuleDef) (order : List ℕ) (slots : List (Option RuleDef))
    → Distinct order
    → ((i : ℕ)
        → elem i order ≡ true
        → (r : RuleDef) × (rule_at i rules ≡ some r) × (slot_at i slots ≡ some (some r)))
    → (out : List RuleDef) × (take_each order slots ≡ some out) × AreAt rules order out
unfolding take_each
take_each-full rules [] slots d full = ([], refl, tt)
take_each-full rules (i ∷ order) slots d full =
    let (r, found, slot) = full i (ground arith) in
    let (slots', taken, others) = take_at-full i slots r slot in
    let (out, rest, at) = take_each-full rules order slots' d.1 λ j present.
      let (q, q_found, q_slot) = full j (ground arith) in
      (q, q_found, others j (apart j present) ∙ q_slot) in
    (r ∷ out, rw (taken, rest) refl, (found, at))
  where
    apart : (j : ℕ) → elem j order ≡ true → (j == i) ≡ false
    apart j present = elim (Bool-cases (j == i)) [
      | inl same ↦ absurd (ground (arith, ap (λ x. elem x order) ((==_iff j i).0 same), d.0))
      | inr other ↦ other
    ]

module _ (rules : List RuleDef) where
  abbrev graph : Graph
  graph = graph_of rules

  starting_state :
      IsPlacing
        (length rules)
        graph.dependents
        graph.in_degree
        (roots_from graph.in_degree 0 (length rules))
        []
        graph.in_degree
  starting_state = record {
    exact = λ i. omega arith;
    zeros = λ i less. roots-zero graph.in_degree 0 (length rules) i (omega arith) (omega arith);
    distinct = Distinct-roots graph.in_degree 0 (length rules);
    bounded = AllBelow-roots graph.in_degree (length rules) 0 (length rules) (omega arith);
    ordered = tt;
  }

  pub order_of-IsPlacing :
      (order : List ℕ) × (degree : ℕ → ℕ) × (order_of rules ≡ some order)
      × IsPlacing (length rules) graph.dependents graph.in_degree [] order degree
  unfolding order_of
  order_of-IsPlacing =
      let balanced = graph_of-IsBalanced rules in
      kahn-IsPlacing (length rules) graph.dependents graph.in_degree balanced.degrees
        balanced.targets (length rules) graph.in_degree _ [] (omega arith) starting_state

  pub IsBehind-ordered :
      (before order : List ℕ)
      → IsOrdered (length rules) graph.dependents graph.in_degree before order
      → IsBehind rules before order
  IsBehind-ordered before [] h = tt
  IsBehind-ordered before (i ∷ order) h = (
    λ r dep d found named e.
        let edge = graph_of-HasEdge rules i r dep d found named e in h.0 d edge.0 edge.1,
    IsBehind-ordered (before ++ i ∷ []) order h.1,
  )
