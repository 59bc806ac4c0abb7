-- ===== src/Rules/Match/Keeps.antt =====
-- The evaluation of a matcher keeps the results of leaves that the cache has:
-- platform-services/janitor-bot/src/rules/matchers/mod.rs.
use inf_k8s.Prelude.{
  ◌≡◌, ◌≢◌, sym, ap, ◌∙◌, Bool, true, false, not, List, ◌∷◌, Option, none, some, Option-cases, inl,
  inr,
}
use inf_k8s.Rules.Types.{
  LeafMatcher, LeafMatcher-discrete, Matcher, Combinator, Matchers, nil, cons,
}
use inf_k8s.Rules.Event.{BotEvent}
use inf_k8s.Rules.Schema.{RuleDef}
use inf_k8s.Rules.Clients.{Outside, Session, Eval, and_then}
use inf_k8s.Rules.Clients.Keeps.{Kept, Keeps, bind-Keeps, pure-Keeps, if-Keeps}
use inf_k8s.Rules.Leaf.{eval_leaf, eval_leaf_value}
use inf_k8s.Rules.Leaf.Keeps.{eval_leaf-Keeps, eval_leaf_value-Keeps}
use inf_k8s.Rules.Match.{
  cached_result, cached_leaf, store_result, expr_holds, matches, match_all, match_any,
}

none-ne-some : {b : Bool} → none ≢ some b
none-ne-some e = cc

-- The cache has a result for the leaf.
abbrev pub Has : LeafMatcher → Bool → List (LeafMatcher × Bool) → Type 0
Has l b results = cached_result l results ≡ some b

module _ {W N Now : Type 0} (outside : Outside W N Now) where
  Has-cons :
      (l l' : LeafMatcher) (b b' : Bool) (results : List (LeafMatcher × Bool))
      → Has l b results
      → cached_result l' results ≡ none
      → Has l b ((l', b') ∷ results)
  unfolding cached_result
  Has-cons l l' b b' results known absent = go (LeafMatcher-discrete l' l)
    where
      go :
          (d : Dec (l' ≡ l))
          → elim d as (λ _. Option Bool) [ yes _ ↦ some b' | no _ ↦ cached_result l results ]
            ≡ some b
      go (yes same) =
          absurd (none-ne-some (sym absent ∙ ap (λ x. cached_result x results) same ∙ known))
      go (no _) = known

  module _ (l : LeafMatcher) (b : Bool) where
    cached_leaf-Keeps :
        (l' : LeafMatcher) (evaluate : Eval W Bool)
        → ((P : List (LeafMatcher × Bool) → Type 0) → Keeps P evaluate)
        → Keeps (Has l b) (cached_leaf outside l' evaluate)
    unfolding cached_leaf
    cached_leaf-Keeps l' evaluate keeps = record {
      run = λ s h. elim (Option-cases (cached_result l' s.cache.matcher_results)) [
        | inl absent ↦ rw absent (stored (evaluate s) ((keeps Both).run s (h, absent)))
        | inr (b', found) ↦ rw found h
      ];
    }
      where
        Both : List (LeafMatcher × Bool) → Type 0
        Both results = Has l b results × (cached_result l' results ≡ none)

        stored :
            (made : Option (Bool × Session W))
            → Kept Both made
            → Kept (Has l b) (and_then made (λ r s. some (r, store_result outside l' r s)))
        stored none h = tt
        stored (some (r, s)) h = Has-cons l l' b r s.cache.matcher_results h.0 h.1

    module _ (ev : BotEvent) (rule : RuleDef) (now : Now) where
      mutual
        unfolding matches

        pub matches-Keeps : (m : Matcher) → Keeps (Has l b) (matches outside ev rule now m)
        matches-Keeps (Matcher.combinator (Combinator.all ms)) = match_all-Keeps ms
        matches-Keeps (Matcher.combinator (Combinator.any ms)) = match_any-Keeps ms
        matches-Keeps (Matcher.combinator (Combinator.not m)) =
            bind-Keeps (Has l b) (matches outside ev rule now m) _ (matches-Keeps m)
              λ r. pure-Keeps (Has l b) (not r)
        matches-Keeps (Matcher.leaf_expr e) =
            bind-Keeps (Has l b) (eval_leaf_value outside ev e.matcher rule now) _
              (eval_leaf_value-Keeps (Has l b) outside ev rule now e.matcher)
              λ v. pure-Keeps (Has l b) (expr_holds outside e.expr v)
        matches-Keeps (Matcher.ref r) = record { run = λ s h. tt }
        matches-Keeps (Matcher.leaf l') =
            cached_leaf-Keeps l' (eval_leaf outside ev l' rule now)
              λ P. eval_leaf-Keeps P outside ev rule now l'

        match_all-Keeps : (ms : Matchers) → Keeps (Has l b) (match_all outside ev rule now ms)
        match_all-Keeps nil = pure-Keeps (Has l b) true
        match_all-Keeps (cons m ms) =
            bind-Keeps (Has l b) (matches outside ev rule now m) _ (matches-Keeps m)
              λ r. if-Keeps (Has l b) r _ _ (match_all-Keeps ms) (pure-Keeps (Has l b) false)

        match_any-Keeps : (ms : Matchers) → Keeps (Has l b) (match_any outside ev rule now ms)
        match_any-Keeps nil = pure-Keeps (Has l b) false
        match_any-Keeps (cons m ms) =
            bind-Keeps (Has l b) (matches outside ev rule now m) _ (matches-Keeps m)
              λ r. if-Keeps (Has l b) r _ _ (pure-Keeps (Has l b) true) (match_any-Keeps ms)
