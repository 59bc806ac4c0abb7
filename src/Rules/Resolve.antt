-- ===== src/Rules/Resolve.antt =====
-- Named checks put in place of their references: `resolve_in_matcher` and `resolve_checks` of
-- platform-services/janitor-bot/src/rules/mod.rs. A set of names is a list without repetition.
pub mod Names
pub mod Settles
pub mod Checks
mod Tests
use inf_k8s.Prelude.{
  ℕ, zero, suc, ◌+◌, String, Bool, true, false, any, str_eq, if◌then◌else◌, List, [], ◌∷◌, map,
  Option, none, some, Result, ok, err, ◌>>=◌, length, collect,
}
use inf_k8s.Prelude.Assoc.{Assoc, lookup}
use inf_k8s.Prelude.Text.{strip_prefix}
use inf_k8s.Rules.Types.{Matcher, Combinator, Matchers, nil, cons}
use inf_k8s.Rules.Schema.{ActionGroup, RuleDef, RulesFile}

-- `out_of_fuel` is the model's.
pub data Error : Type 0 where
  cycle unknown_global unknown : (name : String) → Error
  out_of_fuel : Error

-- `HashSet::contains`
abbrev pub has : String → List String → Bool
has name names = any (str_eq name) names

-- `HashSet::remove`
unfoldable pub remove : String → List String → List String
remove name [] = []
remove name (n ∷ names) = let rest = remove name names in if str_eq name n then rest else n ∷ rest

abbrev pub Resolved : Type 0
Resolved = Result Error (Matcher × List String)

-- What a reference resolves to, where the set holds the names that are being resolved.
abbrev pub Jump : Type 0
Jump = List String → String → Resolved

module _ (jump : Jump) where
  unfoldable mutual
    pub resolve_walk : List String → Matcher → Resolved
    resolve_walk visiting (Matcher.ref r) = jump visiting r.name
    resolve_walk visiting (Matcher.combinator c) = do
      (c', visiting') ← resolve_combinator visiting c
      ok (Matcher.combinator c', visiting')
    resolve_walk visiting (Matcher.leaf l) = ok (Matcher.leaf l, visiting)
    resolve_walk visiting (Matcher.leaf_expr e) = ok (Matcher.leaf_expr e, visiting)

    pub resolve_combinator : List String → Combinator → Result Error (Combinator × List String)
    resolve_combinator visiting (Combinator.all ms) = do
      (ms', visiting') ← resolve_each visiting ms
      ok (Combinator.all ms', visiting')
    resolve_combinator visiting (Combinator.any ms) = do
      (ms', visiting') ← resolve_each visiting ms
      ok (Combinator.any ms', visiting')
    resolve_combinator visiting (Combinator.not m) = do
      (m', visiting') ← resolve_walk visiting m
      ok (Combinator.not m', visiting')

    -- `for child in ms`
    pub resolve_each : List String → Matchers → Result Error (Matchers × List String)
    resolve_each visiting nil = ok (nil, visiting)
    resolve_each visiting (cons m ms) = do
      (m', visiting') ← resolve_walk visiting m
      (ms', visiting'') ← resolve_each visiting' ms
      ok (cons m' ms', visiting'')

abbrev pub or_unknown : Error → Option Matcher → Result Error Matcher
or_unknown e none = err e
or_unknown e (some m) = ok m

module _ (locals globals : Assoc Matcher) where
  unfoldable pub find_check : String → Result Error Matcher
  find_check name = elim (strip_prefix "global." name) [
    | some global ↦ or_unknown (unknown_global global) (lookup global globals)
    | none ↦ or_unknown (unknown name) (lookup name locals)
  ]

  -- What is left to do when a name turns out not to be among those being resolved.
  unfoldable pub enter : (List String → Matcher → Resolved) → Jump
  unfolding find_check remove
  enter resolve visiting name = do
    check ← find_check name
    (resolved, visiting') ← resolve (name ∷ visiting) check
    ok (resolved, remove name visiting')

  unfoldable pub jump_with : (List String → Matcher → Resolved) → Jump
  unfolding enter
  jump_with resolve visiting name =
      let entered = enter resolve visiting name in
      if has name visiting then err (cycle name) else entered

  -- `resolve_in_matcher`; the fuel bounds how deep checks refer to checks.
  unfoldable pub resolve_in_matcher : ℕ → List String → Matcher → Resolved
  unfolding resolve_walk jump_with
  resolve_in_matcher zero visiting m = err out_of_fuel
  resolve_in_matcher (suc fuel) visiting m =
      resolve_walk (jump_with (λ v check. resolve_in_matcher fuel v check)) visiting m

  abbrev pub fuel_for : ℕ
  fuel_for = suc (length locals + length globals)

  unfoldable pub resolve_group :
      List String → ActionGroup → Option Matcher → Result Error (ActionGroup × List String)
  resolve_group visiting group none = ok (group, visiting)
  resolve_group visiting group (some when) = do
    (when', visiting') ← resolve_in_matcher fuel_for visiting when
    ok (record group { when = some when' }, visiting')

  -- `for group in &mut rule.actions`
  unfoldable pub resolve_groups :
      List String → List ActionGroup → Result Error (List ActionGroup × List String)
  unfolding resolve_group
  resolve_groups visiting [] = ok ([], visiting)
  resolve_groups visiting (group ∷ groups) = do
    (group', visiting') ← resolve_group visiting group group.when
    (groups', visiting'') ← resolve_groups visiting' groups
    ok (group' ∷ groups', visiting'')

  unfoldable pub resolve_parts : RuleDef → Result Error RuleDef
  unfolding resolve_in_matcher resolve_groups
  resolve_parts rule = do
    (when, visiting) ← resolve_in_matcher fuel_for [] rule.when
    (groups, visiting') ← resolve_groups visiting rule.actions
    ok (record rule { when = when; actions = groups })

-- The message names the rule.
abbrev pub in_rule : String → Result Error RuleDef → Result (String × Error) RuleDef
in_rule name (ok rule) = ok rule
in_rule name (err e) = err (name, e)

unfoldable pub resolve_rule : Assoc Matcher → RuleDef → Result (String × Error) RuleDef
unfolding resolve_parts
resolve_rule globals rule = in_rule rule.name (resolve_parts rule.checks globals rule)

-- `resolve_checks`
unfoldable pub resolve_checks : RulesFile → Result (String × Error) RulesFile
unfolding resolve_rule
resolve_checks file = do
  rules ← collect (resolve_rule file.checks) file.rules
  ok (record file { rules = rules })
