-- ===== src/Rules/Sort.antt =====
-- The order of the rules: `topo_sort` of platform-services/janitor-bot/src/rules/mod.rs.
-- A vector is a function of its index where the program only reads and writes indices of rules.
pub mod Sums
pub mod Degrees
pub mod Release
pub mod Kahn
pub mod Order
pub mod Sorted
mod Tests
use inf_k8s.Prelude.{
  ℕ, zero, suc, ◌+◌, ◌-◌, String, Bool, true, false, ◌==◌, ltb, if◌then◌else◌, str_eq, List, [],
  ◌∷◌, ◌++◌, Option, none, some, length,
}
use inf_k8s.Prelude.Int.{ltb_ℤ}
use inf_k8s.Prelude.Maybe.{◌>>=◌}
use inf_k8s.Rules.Schema.{RuleDef}

-- `sort_by_key(|r| Reverse(r.priority))`, a stable sort.
unfoldable pub insert_rule : RuleDef → List RuleDef → List RuleDef
insert_rule r [] = r ∷ []
insert_rule r (q ∷ rules) =
    let later = q ∷ insert_rule r rules in
    if ltb_ℤ r.priority q.priority then later else r ∷ q ∷ rules

unfoldable pub by_priority : List RuleDef → List RuleDef
unfolding insert_rule
by_priority [] = []
by_priority (r ∷ rules) = insert_rule r (by_priority rules)

abbrev or_here : Option ℕ → Bool → ℕ → Option ℕ
or_here (some j) here i = some j
or_here none here i = if here then some i else none

-- `name_to_idx.get(name)`: the last rule of a name has it.
unfoldable pub index_from : ℕ → String → List RuleDef → Option ℕ
index_from i name [] = none
index_from i name (r ∷ rules) = or_here (index_from (suc i) name rules) (str_eq r.name name) i

abbrev pub set {ℓ} : {A : Type ℓ} → ℕ → A → (ℕ → A) → ℕ → A
set i a f j = if i == j then a else f j

-- `in_degree` and `dependents`
pub record Graph : Type 0 where
  pub in_degree : ℕ → ℕ
  pub dependents : ℕ → List ℕ

abbrev pub add_edge : Graph → ℕ → ℕ → Graph
add_edge g from to = record {
  in_degree = set to (suc (g.in_degree to)) g.in_degree;
  dependents = set from (g.dependents from ++ to ∷ []) g.dependents;
}

abbrev pub add_dependency : Graph → ℕ → Option ℕ → Graph
add_dependency g i none = g
add_dependency g i (some dep_idx) = add_edge g dep_idx i

-- `for dep in &rule.depends_on`
unfoldable pub add_dependencies : List RuleDef → Graph → ℕ → List String → Graph
unfolding index_from
add_dependencies all g i [] = g
add_dependencies all g i (dep ∷ deps) =
    add_dependencies all (add_dependency g i (index_from 0 dep all)) i deps

-- `for (i, rule) in rules.iter().enumerate()`
unfoldable pub add_rules : List RuleDef → Graph → ℕ → List RuleDef → Graph
unfolding add_dependencies
add_rules all g i [] = g
add_rules all g i (r ∷ rules) = add_rules all (add_dependencies all g i r.depends_on) (suc i) rules

abbrev pub empty_graph : Graph
empty_graph = record { in_degree = λ _. 0; dependents = λ _. [] }

abbrev pub graph_of : List RuleDef → Graph
graph_of rules = add_rules rules empty_graph 0 rules

-- `(0..n).filter(|&i| in_degree[i] == 0)`
unfoldable pub roots_from : (ℕ → ℕ) → ℕ → ℕ → List ℕ
roots_from degree i zero = []
roots_from degree i (suc n) =
    let rest = roots_from degree (suc i) n in if degree i == 0 then i ∷ rest else rest

-- `for &dep_idx in &dependents[idx]`
unfoldable pub release : List ℕ → (ℕ → ℕ) → List ℕ → (ℕ → ℕ) × List ℕ
release [] degree queue = (degree, queue)
release (i ∷ is) degree queue =
    let lower = set i (degree i - 1) degree in
    release is lower (if lower i == 0 then queue ++ i ∷ [] else queue)

-- The `while` loop; `none` is the end of the fuel.
unfoldable pub kahn : (ℕ → List ℕ) → ℕ → (ℕ → ℕ) → List ℕ → List ℕ → Option (List ℕ)
unfolding release
kahn dependents zero degree [] order = some order
kahn dependents zero degree (idx ∷ queue) order = none
kahn dependents (suc fuel) degree [] order = some order
kahn dependents (suc fuel) degree (idx ∷ queue) order =
    let (degree', queue') = release (dependents idx) degree queue in
    kahn dependents fuel degree' queue' (order ++ idx ∷ [])

-- `sorted[i].take().unwrap()`, which panics where there is nothing.
unfoldable pub take_at : ℕ → List (Option RuleDef) → Option (RuleDef × List (Option RuleDef))
take_at i [] = none
take_at zero (none ∷ rest) = none
take_at zero (some r ∷ rest) = some (r, none ∷ rest)
take_at (suc i) (o ∷ rest) = do (r, rest') ← take_at i rest; some (r, o ∷ rest')

unfoldable pub take_each : List ℕ → List (Option RuleDef) → Option (List RuleDef)
unfolding take_at
take_each [] sorted = some []
take_each (i ∷ order) sorted = do
  (r, sorted') ← take_at i sorted
  rules ← take_each order sorted'
  some (r ∷ rules)

abbrev all_some : List RuleDef → List (Option RuleDef)
all_some [] = []
all_some (r ∷ rules) = some r ∷ all_some rules

unfoldable pub order_of : List RuleDef → Option (List ℕ)
unfolding add_rules roots_from kahn
order_of rules =
    let g = graph_of rules in
    kahn g.dependents (length rules) g.in_degree (roots_from g.in_degree 0 (length rules)) []

unfoldable pub topo_sort : List RuleDef → Option (List RuleDef)
unfolding by_priority order_of take_each
topo_sort rules = do
  order ← order_of (by_priority rules)
  take_each order (all_some (by_priority rules))
