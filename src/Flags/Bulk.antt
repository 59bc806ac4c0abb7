-- ===== src/Flags/Bulk.antt =====
-- Every flag at once: `resolve_all` in platform-services/feature-flags/src/grpc/evaluation.rs, whose
-- loop stands in crates/feature-flag/feature-flag-client/src/local.rs as well.
pub mod Listed
use inf_k8s.Prelude.{
  ◌≡◌, refl, ap, ◌∙◌, String, Bool, true, false, not, List, [], ◌∷◌, map, Option, none, some,
  if◌then◌else◌, ok, err,
}
use inf_k8s.Prelude.Assoc.{Assoc}
use inf_k8s.Prelude.Maybe.{◌>>=◌}
use inf_k8s.Flags.Model.{
  Flag, Snapshot, Resolution, EvalError, EvalContext, message, error_code, code_str,
}
use inf_k8s.Flags.Wire
use inf_k8s.Flags.Wire.{value_type_number}
use inf_k8s.Flags.Engine.{Libraries, Resolved, evaluate}
use inf_k8s.Flags.Engine.Total.{evaluate_total}
use inf_k8s.Flags.Convert.{value_type_to_wire, json_to_prost_value, context_from_wire}
use inf_k8s.Flags.Remote.{meta_of, meta_err}

module _ {N : Type 0} (lib : Libraries N) where
  unfoldable pub evaluated_flag : String → Flag N → Resolved N → Wire.EvaluatedFlag
  unfolding meta_of meta_err message error_code code_str value_type_to_wire json_to_prost_value
  evaluated_flag key flag (ok res) = record {
    flag_key = key;
    value_type = value_type_number (value_type_to_wire flag.value_type);
    value = some (json_to_prost_value lib.numbers res.value);
    meta = some (meta_of res);
  }
  evaluated_flag key flag (err e) = record {
    flag_key = key;
    value_type = value_type_number (value_type_to_wire flag.value_type);
    value = none;
    meta = some (meta_err (code_str (error_code e)) (message e));
  }

  -- The loop over the flags.
  unfoldable pub evaluate_each :
      Snapshot N → EvalContext N → Assoc (Flag N) → Option (List Wire.EvaluatedFlag)
  unfolding evaluate evaluated_flag
  evaluate_each snapshot ctx [] = some []
  evaluate_each snapshot ctx ((key, flag) ∷ flags) =
      let later = evaluate_each snapshot ctx flags in
      if flag.archived then later else (do
        result ← evaluate lib snapshot key ctx
        rest ← later
        some (evaluated_flag key flag result ∷ rest))

  unfoldable pub resolve_all :
      Snapshot N → Wire.EvaluationContext → Option (List Wire.EvaluatedFlag)
  unfolding evaluate_each context_from_wire
  resolve_all snapshot ctx =
      evaluate_each snapshot (context_from_wire lib.numbers ctx) snapshot.flags
