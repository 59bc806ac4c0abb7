-- ===== src/Rules/Sort/Tests.antt =====
-- The order of sample rules (platform-services/janitor-bot/src/rules/mod.rs).
use inf_k8s.Prelude.{
  ℕ, zero, suc, ◌<◌, ◌≡◌, refl, ap, sym, subst, ◌∙◌, String, true, List, [], ◌∷◌, some, eq_iff,
  arith, length,
}
use inf_k8s.Prelude.Int.{pos}
use inf_k8s.Rules.Schema.{RuleDef}
use inf_k8s.Rules.Resolve.{has}
use inf_k8s.Rules.Sort.{by_priority, index_from, order_of, topo_sort}
use inf_k8s.Rules.Sort.Sums.{elem, Distinct}
use inf_k8s.Rules.Sort.Order.{AreAt, IsBehind}
use inf_k8s.Rules.Sort.Sorted.{IsRanked, topo_sort-IsBehind, order_of_complete}
use inf_k8s.Rules.Samples.{by_author, rule}

abbrev first : RuleDef
first = rule "first" [] by_author

abbrev second : RuleDef
second = record (rule "second" ("first" ∷ []) by_author) { priority = pos 9 }

-- The priority puts "second" in front; its dependency puts it behind.
abbrev chain : List RuleDef
chain = first ∷ second ∷ []

sorted_chain : topo_sort chain ≡ some (first ∷ second ∷ [])
unfolding topo_sort
sorted_chain = refl

-- Rules in a circle are left out.
in_a_circle :
    topo_sort (rule "a" ("b" ∷ []) by_author ∷ rule "b" ("a" ∷ []) by_author ∷ first ∷ [])
    ≡ some (first ∷ [])
unfolding topo_sort
in_a_circle = refl

topo_sort-IsBehind_example :
    (out : List RuleDef) × (order : List ℕ) × (topo_sort chain ≡ some out)
    × AreAt (by_priority chain) order out
    × Distinct order
    × IsBehind (by_priority chain) [] order
topo_sort-IsBehind_example = topo_sort-IsBehind chain

-- The later place of the sorted list, that of "first", has the lower rank.
abbrev rank : ℕ → ℕ
rank zero = 1
rank (suc i) = 0

ranked : IsRanked (by_priority chain) rank (by_priority chain) 0
unfolding by_priority index_from
ranked = (low, (λ dep d h e. absurd (ground arith), tt))
  where
    low :
        (dep : String) (d : ℕ)
        → has dep ("first" ∷ []) ≡ true
        → index_from 0 dep (by_priority chain) ≡ some d
        → rank d < 1
    low dep d h e =
        let named : dep ≡ "first" = (eq_iff dep "first").0 (ground arith) in
        let found : some 1 ≡ some d =
          ap (λ name. index_from 0 name (by_priority chain)) (sym named) ∙ e in
        let here : 1 ≡ d = cc in subst (λ i. rank i < 1) here (omega arith)

order_of_complete_example :
    (order : List ℕ) × (order_of (by_priority chain) ≡ some order)
    × ((i : ℕ) → i < length (by_priority chain) → elem i order ≡ true)
order_of_complete_example = order_of_complete chain rank ranked
