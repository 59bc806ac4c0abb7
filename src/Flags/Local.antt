-- ===== src/Flags/Local.antt =====
-- The client that evaluates in its own process: crates/feature-flag/feature-flag-client/src/local.rs.
-- `none` says that the fuel of the engine ran out.
pub mod Typed
pub mod Integers
use Prim.Native.String.{◌++◌ as append}
use inf_k8s.Prelude.{
  ℕ, String, Bool, false, List, [], ◌∷◌, Option, none, some, if◌then◌else◌, Result, ok, err,
}
use inf_k8s.Prelude.Maybe.{◌>>=◌}
use inf_k8s.Prelude.Int.{ℤ, pos}
use inf_k8s.Prelude.Assoc.{Assoc}
use inf_k8s.Prelude.Float.{F64}
use inf_k8s.Flags.Json.{Json, Fields, Numbers, as_bool, as_str, as_i64, as_f64}
use inf_k8s.Flags.Model.{Flag, Snapshot, Resolution, EvalError, error_code, code_str, Reason}
use inf_k8s.Flags.Wire
use inf_k8s.Flags.Wire.{ProstValue, ProstFields, value_type_number}
use inf_k8s.Flags.Engine.{Libraries, Resolved, evaluate}
use inf_k8s.Flags.Convert.{
  reason_to_wire, value_type_to_wire, json_to_prost_value, json_to_struct, context_from_wire,
  snapshot_from_wire,
}

-- The `Resolution` of the client.
pub record Answer (T : Type 0) : Type 0 where
  pub value : T
  pub variant : String
  pub reason : Wire.Reason
  pub error_code : Option String

-- The first argument of these is `T::default()`.
unfoldable pub error_resolution : {T : Type 0} → T → String → Answer T
error_resolution default code = record {
  value = default;
  variant = "";
  reason = Wire.Reason.error;
  error_code = some code;
}

module _ {N : Type 0} where
  unfoldable pub extracted : {T : Type 0} → T → Resolution N → Option T → Answer T
  unfolding error_resolution reason_to_wire
  extracted default res none = error_resolution default "TYPE_MISMATCH"
  extracted default res (some value) = record {
    value = value;
    variant = res.variant;
    reason = reason_to_wire res.reason;
    error_code = none;
  }

  unfoldable pub answer : {T : Type 0} → T → (Json N → Option T) → Resolved N → Answer T
  unfolding extracted error_resolution code_str error_code
  answer default extract (ok res) = extracted default res (extract res.value)
  answer default extract (err e) = error_resolution default (code_str (error_code e))

  -- `j.as_object().map(|_| json_to_struct(j))`
  unfoldable pub as_struct : Numbers N → Json N → Option ProstFields
  unfolding json_to_struct
  as_struct num (Json.object o) = some (json_to_struct num (Json.object o))
  as_struct num _ = none

module _ {N : Type 0} (lib : Libraries N) (snapshot : Snapshot N) where
  unfoldable pub resolve :
      {T : Type 0} → T → (Json N → Option T) → String → Wire.EvaluationContext → Option (Answer T)
  unfolding evaluate answer context_from_wire
  resolve default extract flag_key ctx = do
    result ← evaluate lib snapshot flag_key (context_from_wire lib.numbers ctx)
    some (answer default extract result)

  unfoldable pub resolve_bool : String → Wire.EvaluationContext → Option (Answer Bool)
  unfolding resolve
  resolve_bool = resolve false as_bool

  unfoldable pub resolve_string : String → Wire.EvaluationContext → Option (Answer String)
  unfolding resolve
  resolve_string = resolve "" as_str

  unfoldable pub resolve_int : String → Wire.EvaluationContext → Option (Answer ℤ)
  unfolding resolve
  resolve_int = resolve (pos 0) (as_i64 lib.numbers)

  unfoldable pub resolve_float : String → Wire.EvaluationContext → Option (Answer F64)
  unfolding resolve
  resolve_float = resolve 0 (as_f64 lib.numbers)

  unfoldable pub resolve_object : String → Wire.EvaluationContext → Option (Answer ProstFields)
  unfolding resolve as_struct
  resolve_object = resolve ProstFields.end (as_struct lib.numbers)

module _ {N : Type 0} (num : Numbers N) where
  -- The snapshot that the evaluator holds after a message: one that does not decode is ignored.
  unfoldable pub apply : Snapshot N → Wire.SnapshotResponse → Snapshot N
  unfolding snapshot_from_wire
  apply held message = elim (snapshot_from_wire num message) [ ok s ↦ s | err e ↦ held ]

  -- `empty_snapshot`: the default message always decodes.
  unfoldable pub empty_snapshot : Snapshot N
  empty_snapshot = record { version = pos 0; flags = []; segments = [] }
