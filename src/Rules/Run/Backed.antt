-- ===== src/Rules/Run/Backed.antt =====
-- Which rules an evaluation reports: the loops of platform-services/janitor-bot/src/rules/mod.rs.
use inf_k8s.Prelude.{
  all, All, Bool-cases, inl, inr, arith, &&-true, eq_iff, str_eq, ◌≡◌, refl, sym, subst, ◌∙◌,
  String, Bool, true, false, not, List, [], ◌∷◌, Option, some, if◌then◌else◌,
}
use mathlib.Core.List.{Memᴰ}
use inf_k8s.Rules.Event.{BotEvent, RawRequest}
use inf_k8s.Rules.Schema.{is_disabled, RuleDef, RepoConfig}
use inf_k8s.Rules.Clients.{Outside, Session, Eval}
use inf_k8s.Rules.Resolve.{has}
use inf_k8s.Rules.Run.Every.{Every, Always, Every-weaken, Every-bind, Every-map, Always-if}
use inf_k8s.Rules.Run.{
  ExplainAction, MatchedRule, any_ran, dependencies_met, with_executed, Execute, match_rule,
  each_rule, run_each_rule, execute_actions,
}

-- An entry of the log names the rule, and one of its actions ran.
pub record HasRun (log : List MatchedRule) (name : String) : Type 0 where
  pub entry : MatchedRule
  pub logged : Memᴰ entry log
  pub named : entry.name ≡ name
  pub action : ExplainAction
  pub taken : Memᴰ action entry.actions
  pub ran : action.ran ≡ true

-- The rule that an entry comes from: one of the rules, not disabled, that gave the entry its name and
-- its mark, and all of whose dependencies have run by the earlier entries.
pub record IsRule (rules : List RuleDef) (earlier : List MatchedRule) (entry : MatchedRule)
    : Type 0 where
  pub rule : RuleDef
  pub listed : Memᴰ rule rules
  pub named : rule.name ≡ entry.name
  pub marked : rule.dry_run ≡ entry.dry_run
  pub enabled : is_disabled rule.disabled ≡ false
  pub met : All (HasRun earlier) rule.depends_on

-- Each entry of the log comes from a rule whose dependencies have run by the entries before it; those
-- before the log are in reverse.
abbrev pub IsBacked : List RuleDef → List MatchedRule → List MatchedRule → Type 0
IsBacked rules earlier [] = Unit
IsBacked rules earlier (entry ∷ log) =
    IsRule rules earlier entry × IsBacked rules (entry ∷ earlier) log

-- The names that the loop carries are those of rules that have run.
abbrev AreRun : List String → List MatchedRule → Type 0
AreRun executed earlier = (name : String) → has name executed ≡ true → HasRun earlier name

HasRun-cons :
    (entry : MatchedRule) (earlier : List MatchedRule) (name : String)
    → HasRun earlier name
    → HasRun (entry ∷ earlier) name
HasRun-cons entry earlier name h = record {
  entry = h.entry;
  logged = Memᴰ.tail h.logged;
  named = h.named;
  action = h.action;
  taken = h.taken;
  ran = h.ran;
}

any_ran-action :
    (actions : List ExplainAction)
    → any_ran actions ≡ true
    → (a : ExplainAction) × Memᴰ a actions × (a.ran ≡ true)
any_ran-action [] h = cc
any_ran-action (a ∷ actions) h = elim (Bool-cases a.ran) [
  | inl ran ↦ (a, Memᴰ.head refl, ran)
  | inr not_ran ↦
      let (b, taken, ran) = any_ran-action actions (ground (arith, not_ran, h)) in
      (b, Memᴰ.tail taken, ran)
]

AreRun-after :
    (rule : RuleDef) (entry : MatchedRule) (executed : List String) (earlier : List MatchedRule)
    → rule.name ≡ entry.name
    → AreRun executed earlier
    → AreRun (with_executed rule entry.actions executed) (entry ∷ earlier)
AreRun-after rule entry executed earlier same known =
    go (any_ran entry.actions) (any_ran-action entry.actions)
  where
    go :
        (b : Bool)
        → (b ≡ true → (a : ExplainAction) × Memᴰ a entry.actions × (a.ran ≡ true))
        → AreRun (if b then rule.name ∷ executed else executed) (entry ∷ earlier)
    go false found name h = HasRun-cons entry earlier name (known name h)
    go true found name h = elim (Bool-cases (str_eq name rule.name)) [
      | inl equal ↦
          let (a, taken, ran) = found refl in
          record {
            entry = entry;
            logged = Memᴰ.head refl;
            named = sym same ∙ sym ((eq_iff name rule.name).0 equal);
            action = a;
            taken = taken;
            ran = ran;
          }
      | inr other ↦ HasRun-cons entry earlier name (known name (ground (arith, other, h)))
    ]

met-HasRun :
    (deps executed : List String) (earlier : List MatchedRule)
    → AreRun executed earlier
    → all (λ dep. has dep executed) deps ≡ true
    → All (HasRun earlier) deps
met-HasRun [] executed earlier known h = tt
met-HasRun (dep ∷ deps) executed earlier known h =
    let (here, rest) = &&-true (has dep executed) (all (λ dep. has dep executed) deps) h in
    (known dep here, met-HasRun deps executed earlier known rest)

IsRule-cons :
    (r : RuleDef) (rules : List RuleDef) (earlier : List MatchedRule) (entry : MatchedRule)
    → IsRule rules earlier entry
    → IsRule (r ∷ rules) earlier entry
IsRule-cons r rules earlier entry b = record {
  rule = b.rule;
  listed = Memᴰ.tail b.listed;
  named = b.named;
  marked = b.marked;
  enabled = b.enabled;
  met = b.met;
}

IsBacked-cons :
    (r : RuleDef) (rules : List RuleDef) (earlier : List MatchedRule) (log : List MatchedRule)
    → IsBacked rules earlier log
    → IsBacked (r ∷ rules) earlier log
IsBacked-cons r rules earlier [] h = tt
IsBacked-cons r rules earlier (entry ∷ log) h =
    (IsRule-cons r rules earlier entry h.0, IsBacked-cons r rules (entry ∷ earlier) log h.1)

not-false : (b : Bool) → not b ≡ false → b ≡ true
not-false true h = refl
not-false false h = sym h

module _ {W N Now : Type 0} (outside : Outside W N Now) (clock : W → Now × W) (event : BotEvent)
    (carry_out : RuleDef → Eval W (List ExplainAction)) where
  -- The loop behind a rule is backed, whatever it carries.
  abbrev IsBackedLoop : List RuleDef → Type 0
  IsBackedLoop rules =
      (executed : List String) (earlier : List MatchedRule)
      → AreRun executed earlier
      → Always (IsBacked rules earlier) (each_rule outside clock event carry_out rules executed)

  rule-IsBacked :
      (rule : RuleDef) (rules : List RuleDef) → IsBackedLoop rules → IsBackedLoop (rule ∷ rules)
  unfolding each_rule dependencies_met
  rule-IsBacked rule rules later executed earlier known =
      Always-if Fine (is_disabled rule.disabled) _ _ (λ _. skip)
        λ enabled.
          Always-if Fine (not (dependencies_met rule executed)) _ _ (λ _. skip)
            λ met s. Every-bind Fine (match_rule outside clock rule event s) _ λ is_match.
              Always-if Fine is_match _ _
                (λ _ s'. Every-bind Fine (carry_out rule s') _ λ actions s''.
                  Every-map Fine (IsBacked rules (reported actions ∷ earlier)) _ _
                    (later (with_executed rule actions executed) (reported actions ∷ earlier)
                      (AreRun-after rule (reported actions) executed earlier refl known) s'')
                    λ log h. (
                      record {
                        rule = rule;
                        listed = Memᴰ.head refl;
                        named = refl;
                        marked = refl;
                        enabled = enabled;
                        met =
                            met-HasRun rule.depends_on executed earlier known
                              (not-false (dependencies_met rule executed) met);
                      },
                      IsBacked-cons rule rules (reported actions ∷ earlier) log h,
                    ))
                (λ _. skip)
    where
      Fine : List MatchedRule → Type 0
      Fine = IsBacked (rule ∷ rules) earlier

      reported : List ExplainAction → MatchedRule
      reported actions = record { name = rule.name; dry_run = rule.dry_run; actions = actions }

      skip : Always Fine (each_rule outside clock event carry_out rules executed)
      skip s =
          Every-weaken Fine (IsBacked rules earlier) _ (λ log. IsBacked-cons rule rules earlier log)
            (later executed earlier known s)

  each_rule-IsBacked : (rules : List RuleDef) → IsBackedLoop rules
  unfolding each_rule
  each_rule-IsBacked [] = λ executed earlier known s. tt
  each_rule-IsBacked (rule ∷ rules) = rule-IsBacked rule rules (each_rule-IsBacked rules)

nothing_run : AreRun [] []
nothing_run name h = cc

-- Whatever the clients answer and the actions do, an evaluation reports only rules of the file that
-- are not disabled, and each only when every rule that it depends on is in the report before it, with
-- an action that ran.
pub run_each_rule-IsBacked :
    {W N Now : Type 0} (outside : Outside W N Now) (clock : W → Now × W) (execute : Execute W)
    (repos : List RepoConfig) (rules : List RuleDef) (event : BotEvent) (raw : Option RawRequest)
    (s s' : Session W) (log : List MatchedRule)
    → run_each_rule outside clock execute repos rules event raw s ≡ some (log, s')
    → IsBacked rules [] log
unfolding run_each_rule
run_each_rule-IsBacked outside clock execute repos rules event raw s s' log h =
    subst (Every (IsBacked rules [])) h (
      each_rule-IsBacked outside clock event
        (λ rule. execute_actions outside clock execute repos event raw rule rule.dry_run) rules []
        [] nothing_run s)
