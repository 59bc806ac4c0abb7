-- ===== src/Rules/Resolve/Checks.antt =====
-- `resolve_checks` of platform-services/janitor-bot/src/rules/mod.rs: all rules of a file.
use inf_k8s.Prelude.{
  ◌≡◌, ◌≢◌, refl, sym, subst, map, true, String, List, [], ◌∷◌, Option, none, some, Result, ok, err,
  ◌>>=◌, collect, arith, eq_refl,
}
use inf_k8s.Prelude.Assoc.{Assoc}
use inf_k8s.Rules.Types.{Matcher}
use inf_k8s.Rules.Schema.{ActionGroup, RuleDef, RulesFile}
use inf_k8s.Rules.Resolve.{
  Error, out_of_fuel, has, in_rule, resolve_in_matcher, resolve_group, resolve_groups,
  resolve_parts, resolve_rule, resolve_checks, fuel_for,
}
use inf_k8s.Rules.Resolve.Names.{free-names-lt}
use inf_k8s.Rules.Resolve.Settles.{Unfolds, Settles, Settles-bind, resolve_in_matcher-Settles}

-- The lists have the same length, and the relation holds at each place.
abbrev pub Pointwise : {A : Type 0} → (A → A → Type 0) → List A → List A → Type 0
Pointwise R [] [] = Unit
Pointwise R (x ∷ xs) (y ∷ ys) = R x y × Pointwise R xs ys
Pointwise R _ _ = ⊥

module _ (locals globals : Assoc Matcher) where
  -- The gate is unfolded, and there is one afterwards where there was one before.
  abbrev pub GateUnfolds : Option Matcher → Option Matcher → Type 0
  GateUnfolds none none = Unit
  GateUnfolds (some m) (some m') = Unfolds locals globals m m'
  GateUnfolds _ _ = ⊥

  abbrev pub GroupUnfolds : ActionGroup → ActionGroup → Type 0
  GroupUnfolds group group' =
      (group' ≡ record group { when = group'.when }) × GateUnfolds group.when group'.when

  group-Settles :
      (group : ActionGroup) (gate : Option Matcher)
      → group.when ≡ gate
      → Settles (GroupUnfolds group) [] (resolve_group locals globals [] group gate)
  unfolding resolve_group
  group-Settles group none e = ((refl, rw e tt), refl)
  group-Settles group (some when) e =
      Settles-bind (Unfolds locals globals when) (GroupUnfolds group) []
        (resolve_in_matcher locals globals (fuel_for locals globals) [] when) _
        (resolve_in_matcher-Settles locals globals _ [] when (free-names-lt locals globals []))
        λ when' u. ((refl, rw e u), refl)

  groups-Settles :
      (groups : List ActionGroup)
      → Settles (Pointwise GroupUnfolds groups) [] (resolve_groups locals globals [] groups)
  unfolding resolve_groups
  groups-Settles [] = (tt, refl)
  groups-Settles (group ∷ groups) =
      Settles-bind (GroupUnfolds group) (Pointwise GroupUnfolds (group ∷ groups)) []
        (resolve_group locals globals [] group group.when) _ (group-Settles group group.when refl)
        λ group' h.
          Settles-bind (Pointwise GroupUnfolds groups) (Pointwise GroupUnfolds (group ∷ groups)) []
            (resolve_groups locals globals [] groups) _ (groups-Settles groups)
            λ groups' hs. ((h, hs), refl)

-- The rule with its conditions unfolded, and nothing else changed.
abbrev pub RuleUnfolds : Assoc Matcher → RuleDef → RuleDef → Type 0
RuleUnfolds globals rule rule' =
    (rule' ≡ record rule { when = rule'.when; actions = rule'.actions })
    × Unfolds rule.checks globals rule.when rule'.when
    × Pointwise (GroupUnfolds rule.checks globals) rule.actions rule'.actions

abbrev RuleOutcome : Assoc Matcher → RuleDef → Result (String × Error) RuleDef → Type 0
RuleOutcome globals rule (ok rule') = RuleUnfolds globals rule rule'
RuleOutcome globals rule (err (name, e)) = (e ≢ out_of_fuel) × (name ≡ rule.name)

rule_outcome :
    (globals : Assoc Matcher) (rule : RuleDef)
    → RuleOutcome globals rule (resolve_rule globals rule)
unfolding resolve_rule resolve_parts
rule_outcome globals rule =
    finish (resolve_in_matcher rule.checks globals (fuel_for rule.checks globals) [] rule.when) (
      resolve_in_matcher-Settles rule.checks globals _ [] rule.when
        (free-names-lt rule.checks globals []))
  where
    rest :
        (when : Matcher) (groups : Result Error (List ActionGroup × List String))
        → Unfolds rule.checks globals rule.when when
        → Settles (Pointwise (GroupUnfolds rule.checks globals) rule.actions) [] groups
        → RuleOutcome globals rule (
            in_rule rule.name
              (groups >>= λ (groups', _). ok (record rule { when = when; actions = groups' })))
    rest when (ok (groups', _)) u h = (refl, u, h.0)
    rest when (err e) u h = (h, refl)

    finish :
        (first : Result Error (Matcher × List String))
        → Settles (Unfolds rule.checks globals rule.when) [] first
        → RuleOutcome globals rule (
            in_rule rule.name (
              first >>= λ (when, visiting).
              resolve_groups rule.checks globals visiting rule.actions >>= λ (groups', _).
              ok (record rule { when = when; actions = groups' })))
    finish (ok (when, visiting)) h =
        rest when (resolve_groups rule.checks globals visiting rule.actions) h.0 (
          subst
            (λ v.
              Settles (Pointwise (GroupUnfolds rule.checks globals) rule.actions) []
                (resolve_groups rule.checks globals v rule.actions))
            (sym h.1) (groups-Settles rule.checks globals rule.actions))
    finish (err e) h = (h, refl)

-- A file that resolves has each of its rules with the conditions unfolded; one that does not is
-- refused with the name of one of its rules.
abbrev pub FileOutcome :
    Assoc Matcher → List RuleDef → Result (String × Error) (List RuleDef) → Type 0
FileOutcome globals rules (ok rules') = Pointwise (RuleUnfolds globals) rules rules'
FileOutcome globals rules (err (name, e)) =
    (e ≢ out_of_fuel) × (has name (map (λ r. r.name) rules) ≡ true)

rules_outcome :
    (globals : Assoc Matcher) (rules : List RuleDef)
    → FileOutcome globals rules (collect (resolve_rule globals) rules)
rules_outcome globals [] = tt
rules_outcome globals (rule ∷ rules) =
    both (resolve_rule globals rule) (collect (resolve_rule globals) rules)
      (rule_outcome globals rule) (rules_outcome globals rules)
  where
    both :
        (here : Result (String × Error) RuleDef) (there : Result (String × Error) (List RuleDef))
        → RuleOutcome globals rule here
        → FileOutcome globals rules there
        → FileOutcome globals (rule ∷ rules) (here >>= λ r. there >>= λ rs. ok (r ∷ rs))
    both (ok r) (ok rs) h k = (h, k)
    both (ok r) (err (name, e)) h k = (k.0, ground (arith, k.1))
    both (err (name, e)) there h k = (h.0, ground (arith, h.1, eq_refl rule.name))

-- The rules of the file that `resolve_checks` returns.
abbrev pub rules_of : Result (String × Error) RulesFile → Result (String × Error) (List RuleDef)
rules_of (ok file) = ok file.rules
rules_of (err e) = err e

-- resolve_checks comes to an end for every file: it returns the rules of the file in their order,
-- with each reference in a condition replaced by the check that it names, and nothing else changed;
-- or it fails with the name of a rule of the file, and not for want of fuel.
pub resolve_checks-FileOutcome :
    (file : RulesFile) → FileOutcome file.checks file.rules (rules_of (resolve_checks file))
unfolding resolve_checks
resolve_checks-FileOutcome file =
    same (collect (resolve_rule file.checks) file.rules) (rules_outcome file.checks file.rules)
  where
    same :
        (rs : Result (String × Error) (List RuleDef))
        → FileOutcome file.checks file.rules rs
        → FileOutcome file.checks file.rules (rules_of (rs >>= λ r. ok (record file { rules = r })))
    same (ok rs) h = h
    same (err e) h = h
