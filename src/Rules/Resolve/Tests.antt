-- ===== src/Rules/Resolve/Tests.antt =====
-- Named checks of a sample file (platform-services/janitor-bot/src/rules/mod.rs).
use inf_k8s.Prelude.{◌≡◌, refl, String, [], ◌∷◌, ok, err}
use inf_k8s.Prelude.Assoc.{lookup}
use inf_k8s.Prelude.Text.{strip_prefix}
use inf_k8s.Rules.Types.{Matcher, Combinator}
use inf_k8s.Rules.Schema.{RulesFile}
use inf_k8s.Rules.Resolve.{cycle, resolve_checks, resolve_in_matcher}
use inf_k8s.Rules.Resolve.Checks.{FileOutcome, rules_of, resolve_checks-FileOutcome}
use inf_k8s.Rules.Samples.{by_author, rule}

abbrev named : String → Matcher
named name = Matcher.ref (record { name = name })

abbrev file : RulesFile
file = record {
  version = 1;
  repos = [];
  checks = ("bot", by_author) ∷ [];
  label_colors = [];
  rules =
      record (rule "first" [] (named "mine")) {
        checks = ("mine", Matcher.combinator (Combinator.not (named "global.bot"))) ∷ [];
      }
      ∷ [];
}

resolves :
    resolve_in_matcher
      (("mine", Matcher.combinator (Combinator.not (named "global.bot"))) ∷ [])
      (("bot", by_author) ∷ [])
      3
      []
      (named "mine")
    ≡ ok (Matcher.combinator (Combinator.not by_author), [])
unfolding resolve_in_matcher lookup strip_prefix
resolves = refl

in_a_circle :
    resolve_in_matcher (("a", named "b") ∷ ("b", named "a") ∷ []) [] 3 [] (named "a")
    ≡ err (cycle "a")
unfolding resolve_in_matcher lookup strip_prefix
in_a_circle = refl

resolve_checks-FileOutcome_example :
    FileOutcome file.checks file.rules (rules_of (resolve_checks file))
resolve_checks-FileOutcome_example = resolve_checks-FileOutcome file
