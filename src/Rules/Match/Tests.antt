-- ===== src/Rules/Match/Tests.antt =====
-- Matchers on a sample request (platform-services/janitor-bot/src/rules/matchers/mod.rs).
use inf_k8s.Prelude.{
  ◌≡◌, refl, ℕ, String, Bool, true, false, any, [], ◌∷◌, Option, none, some, str_eq,
}
use inf_k8s.Rules.Types.{LeafMatcher}
use inf_k8s.Rules.Clients.{Session}
use inf_k8s.Rules.Leaf.{eval_leaf}
use inf_k8s.Rules.Match.{matches, cached_leaf, cached_result}
use inf_k8s.Rules.Event.Vars.{template_vars}
use inf_k8s.Rules.Match.Reference.{IsStable, Gives, Agrees, holds, matches-holds}
use inf_k8s.Rules.Samples.{outside, pr, pr_event, flagged, open_and_labelled, rule, start}

data Plain : LeafMatcher → Type 0 where
  author : (v : String) → Plain (LeafMatcher.author v)
  has_label : (v : String) → Plain (LeafMatcher.has_label v)

abbrev answer : LeafMatcher → Bool
answer (LeafMatcher.author v) = str_eq "renovate" v
answer (LeafMatcher.has_label v) = any (λ l. str_eq l.name v) pr.labels
answer _ = false

Plain-answers :
    (l : LeafMatcher) (s : Session ℕ)
    → Plain l
    → Unit {0}
    → Gives outside pr_event
        (rule "first" [] flagged)
        0
        (λ s'. Unit {0} × (s'.cache.matcher_results ≡ s.cache.matcher_results))
        (answer l)
        (eval_leaf outside pr_event l (rule "first" [] flagged) 0 s)
unfolding eval_leaf
Plain-answers _ s (Plain.author v) u = (refl, (tt, refl))
Plain-answers _ s (Plain.has_label v) u = (refl, (tt, refl))

stable : IsStable outside pr_event (rule "first" [] flagged) 0 (λ _. Unit {0}) Plain answer
stable = record { answers = Plain-answers; kept = λ _ _ _ _. tt }

matches-holds_example :
    (s' : Session ℕ) × (matches outside pr_event (rule "first" [] flagged) 0 open_and_labelled start
      ≡ some (holds outside pr_event answer open_and_labelled, s'))
    × (Unit {0}
        × Agrees outside pr_event (rule "first" [] flagged) 0 answer s'.cache.matcher_results)
matches-holds_example =
    matches-holds outside pr_event (rule "first" [] flagged) 0 (λ _. Unit {0}) Plain answer stable
      open_and_labelled start (Plain.author "renovate", (Plain.has_label "wip", tt)) (tt, tt)

-- The flag is on for the rule "first" and off for "second".
abbrev after : Session ℕ
after = record {
  cache = record {
    matcher_results = (LeafMatcher.feature_flag "enabled" false [], true) ∷ [];
    values = [];
  };
  world = 1;
}

abbrev alone : Option (Bool × Session ℕ) → Option Bool
alone none = none
alone (some (b, s)) = some b

asked_alone :
    alone (matches outside pr_event (rule "second" [] flagged) 0 flagged start) ≡ some false
unfolding matches eval_leaf cached_leaf cached_result template_vars
asked_alone = refl

-- In between, the second rule asks for another leaf.
abbrev further : Session ℕ
further = record {
  cache = record {
    matcher_results =
        (LeafMatcher.author "renovate", true)
        ∷ (LeafMatcher.feature_flag "enabled" false [], true)
        ∷ [];
    values = [];
  };
  world = 1;
}
