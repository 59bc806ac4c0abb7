-- ===== src/Rules/Match/Shared.antt =====
-- The results that the rules of one evaluation share: platform-services/janitor-bot/src/rules/
-- matchers/mod.rs, `Matcher::matches` on a leaf.
use inf_k8s.Prelude.{◌≡◌, refl, Bool, List, ◌∷◌, Option, some}
use inf_k8s.Rules.Types.{LeafMatcher, LeafMatcher-discrete, Matcher}
use inf_k8s.Rules.Event.{BotEvent}
use inf_k8s.Rules.Schema.{RuleDef}
use inf_k8s.Rules.Clients.{Outside, Session}
use inf_k8s.Rules.Match.{cached_result, matches}

pub cached_result-cons :
    (l : LeafMatcher) (b : Bool) (rest : List (LeafMatcher × Bool))
    → cached_result l ((l, b) ∷ rest) ≡ some b
unfolding cached_result
cached_result-cons l b rest = go (LeafMatcher-discrete l l)
  where
    go :
        (d : Dec (l ≡ l))
        → elim d as (λ _. Option Bool) [ yes _ ↦ some b | no _ ↦ cached_result l rest ] ≡ some b
    go (yes _) = refl
    go (no other) = absurd (other refl)

module _ {W N Now : Type 0} (outside : Outside W N Now) where
  -- The sessions of one evaluation, from one on: rules evaluate matchers, and what else is done, such
  -- as an action, leaves the results of leaves alone.
  pub data Later (ev : BotEvent) : Session W → Session W → Type 0 where
    here : {s : Session W} → Later ev s s
    asked :
        {s s' s'' : Session W} {b : Bool} (rule : RuleDef) (time : Now) (m : Matcher)
        → matches outside ev rule time m s ≡ some (b, s')
        → Later ev s' s''
        → Later ev s s''
    other :
        {s s' s'' : Session W}
        → s'.cache.matcher_results ≡ s.cache.matcher_results
        → Later ev s' s''
        → Later ev s s''
