-- ===== src/Rules/Match.antt =====
-- The evaluation of matchers, with the results of their leaves in a cache:
-- platform-services/janitor-bot/src/rules/matchers/mod.rs.
pub mod Reference
pub mod Keeps
pub mod Shared
mod Tests
use inf_k8s.Prelude.{
  String, Bool, true, false, not, List, [], ◌∷◌, Option, none, some, if◌then◌else◌, Result, ok, err,
}
use inf_k8s.Prelude.Assoc.{insert}
use inf_k8s.Expr.Syntax.{Value}
use inf_k8s.Expr.Parse.{parse}
use inf_k8s.Expr.Eval.{as_bool, eval}
use inf_k8s.Rules.Types.{
  LeafMatcher, LeafMatcher-discrete, LeafExprMatcher, Matcher, Combinator, Matchers, nil, cons,
}
use inf_k8s.Rules.Event.{BotEvent}
use inf_k8s.Rules.Schema.{RuleDef}
use inf_k8s.Rules.Clients.{Outside, Session, Eval, pure, panic, ◌>>=◌}
use inf_k8s.Rules.Leaf.{eval_leaf, eval_leaf_value}

-- `matcher_results.get(leaf)`
unfoldable pub cached_result : LeafMatcher → List (LeafMatcher × Bool) → Option Bool
unfolding LeafMatcher-discrete
cached_result l [] = none
cached_result l ((l', b) ∷ rest) = elim (LeafMatcher-discrete l' l) [
  | yes _ ↦ some b
  | no _ ↦ cached_result l rest
]

module _ {W N Now : Type 0} (outside : Outside W N Now) where
  -- The outcome of an expression over `value`; an error counts as false.
  unfoldable pub expr_holds : String → Value → Bool
  expr_holds text value = elim (parse outside.std text) [
    | err _ ↦ false
    | ok parsed ↦ elim (eval parsed (insert "value" value [])) [
      | err _ ↦ false
      | ok v ↦ elim (as_bool v) [ err _ ↦ false | ok b ↦ b ]
    ]
  ]

  abbrev store_result : LeafMatcher → Bool → Session W → Session W
  store_result l b s = record s {
    cache = record s.cache { matcher_results = (l, b) ∷ s.cache.matcher_results };
  }

  abbrev or_evaluate : LeafMatcher → Option Bool → Eval W Bool → Eval W Bool
  or_evaluate l (some cached) evaluate = pure cached
  or_evaluate l none evaluate = do result ← evaluate; λ s. some (result, store_result l result s)

  -- A leaf that has been evaluated has its result in the cache.
  unfoldable pub cached_leaf : LeafMatcher → Eval W Bool → Eval W Bool
  unfolding cached_result
  cached_leaf l evaluate s = or_evaluate l (cached_result l s.cache.matcher_results) evaluate s

  module _ (ev : BotEvent) (rule : RuleDef) (now : Now) where
    -- `Matcher::matches`
    unfoldable mutual
      unfolding eval_leaf eval_leaf_value expr_holds cached_leaf

      pub matches : Matcher → Eval W Bool
      matches (Matcher.combinator (Combinator.all ms)) = match_all ms
      matches (Matcher.combinator (Combinator.any ms)) = match_any ms
      matches (Matcher.combinator (Combinator.not m)) = do b ← matches m; pure (not b)
      matches (Matcher.leaf_expr e) = do
        value ← eval_leaf_value outside ev e.matcher rule now
        pure (expr_holds e.expr value)
      matches (Matcher.ref r) = panic
      matches (Matcher.leaf l) = cached_leaf l (eval_leaf outside ev l rule now)

      pub match_all : Matchers → Eval W Bool
      match_all nil = pure true
      match_all (cons m ms) = do b ← matches m; if b then match_all ms else pure false

      pub match_any : Matchers → Eval W Bool
      match_any nil = pure false
      match_any (cons m ms) = do b ← matches m; if b then pure true else match_any ms
