-- ===== src/Rules/Run/Entry/Setup.antt =====
-- How a rules file becomes the orchestrator's, and what it is asked for: platform-services/
-- janitor-bot/src/rules/mod.rs.
use inf_k8s.Prelude.{
  ℕ, String, not, is_empty, List, [], ◌∷◌, map, Option, none, some, if◌then◌else◌, ok, err, ◌==◌,
}
use inf_k8s.Prelude.Int.{ℤ}
use inf_k8s.Prelude.Assoc.{Assoc, lookup}
use inf_k8s.Prelude.Text.{split_once}
use inf_k8s.Rules.Schema.{
  is_disabled, LabelSpec, ActionDef, ActionGroup, RuleDef, RulesFile, RepoConfig,
}
use inf_k8s.Rules.Resolve.{resolve_checks}
use inf_k8s.Rules.Sort.{topo_sort}

abbrev or_plain : String → Option String → LabelSpec
or_plain name none = LabelSpec.name name
or_plain name (some color) = LabelSpec.with_color name color

unfoldable pub upgrade : Assoc String → LabelSpec → LabelSpec
upgrade registry (LabelSpec.name name) = or_plain name (lookup name registry)
upgrade registry (LabelSpec.with_color name color) = LabelSpec.with_color name color

unfoldable pub upgrade_action : Assoc String → ActionDef → ActionDef
unfolding upgrade
upgrade_action registry (ActionDef.add_labels labels target) =
    ActionDef.add_labels (map (upgrade registry) labels) target
upgrade_action registry (ActionDef.create_issue target dedup title body on_duplicate labels) =
    ActionDef.create_issue target dedup title body on_duplicate (map (upgrade registry) labels)
upgrade_action registry action = action

abbrev upgrade_group : Assoc String → ActionGroup → ActionGroup
upgrade_group registry group = record group { run = map (upgrade_action registry) group.run }

abbrev upgrade_rule : Assoc String → RuleDef → RuleDef
upgrade_rule registry rule = record rule { actions = map (upgrade_group registry) rule.actions }

unfoldable pub apply_label_colors : RulesFile → RulesFile
unfolding upgrade_action
apply_label_colors file =
    let upgraded = record file { rules = map (upgrade_rule file.label_colors) file.rules } in
    if is_empty file.label_colors then file else upgraded

abbrev sorted : RulesFile → Option (List RuleDef) → Option RulesFile
sorted file none = none
sorted file (some rules) = some (record file { rules = rules })

-- The rules of `from_rules`; `none` is a panic.
unfoldable pub from_rules : RulesFile → Option RulesFile
unfolding resolve_checks apply_label_colors topo_sort
from_rules file = elim (resolve_checks file) [
  | err _ ↦ none
  | ok resolved ↦
      let coloured = apply_label_colors resolved in sorted coloured (topo_sort coloured.rules)
]

abbrev pub rules_schema_version : ℕ
rules_schema_version = 1

-- `load_rules`, on the file that the path names, where there is a path.
unfoldable pub load_rules : Option RulesFile → RulesFile → RulesFile
load_rules none baked_in = baked_in
load_rules (some file) baked_in =
    if not (file.version == rules_schema_version) then baked_in else file

abbrev slug_onto : Option (String × String) → List (String × String) → List (String × String)
slug_onto none slugs = slugs
slug_onto (some slug) slugs = slug ∷ slugs

unfoldable pub watch_repos : List RepoConfig → List (String × String)
watch_repos [] = []
watch_repos (r ∷ repos) =
    let rest = watch_repos repos in
    let found = slug_onto (split_once b'/' r.repo) rest in if r.watched then found else rest

pub record RuleSummary : Type 0 where
  pub name : String
  pub enabled : String
  pub priority : ℤ
  pub depends_on : List String

unfoldable pub rule_summary : RuleDef → RuleSummary
rule_summary r = record {
  name = r.name;
  enabled =
      if r.dry_run then "dry_run" else if not (is_disabled r.disabled) then "true" else "false";
  priority = r.priority;
  depends_on = r.depends_on;
}

abbrev pub rules_summary : RulesFile → List RuleSummary
rules_summary file = map rule_summary file.rules
