-- ===== src/Rules/Run/Log.antt =====
-- The log of the last evaluations: `record_eval` of platform-services/janitor-bot/src/rules/mod.rs.
pub mod Newest
use inf_k8s.Prelude.{ℕ, String, if◌then◌else◌, leb, List, [], ◌∷◌, ◌++◌, length}
use inf_k8s.Rules.Run.{MatchedRule}

abbrev pub eval_log_capacity : ℕ
eval_log_capacity = 200

-- The times are numbers of milliseconds.
pub record EvalLogEntry : Type 0 where
  pub timestamp : ℕ
  pub event_kind : String
  pub event_key : String
  pub matched_rules : List MatchedRule
  pub elapsed_ms : ℕ

module _ {ℓ} {A : Type ℓ} where
  -- `VecDeque::pop_front`
  abbrev pub pop_front : List A → List A
  pop_front [] = []
  pop_front (x ∷ xs) = xs

  unfoldable pub push_bounded : ℕ → List A → A → List A
  push_bounded capacity log entry =
      (if leb capacity (length log) then pop_front log else log) ++ entry ∷ []

unfoldable pub record_eval : List EvalLogEntry → EvalLogEntry → List EvalLogEntry
unfolding push_bounded
record_eval log entry = push_bounded eval_log_capacity log entry

-- The log after a run of evaluations.
abbrev pub record_each : List EvalLogEntry → List EvalLogEntry → List EvalLogEntry
record_each log [] = log
record_each log (entry ∷ entries) = record_each (record_eval log entry) entries
