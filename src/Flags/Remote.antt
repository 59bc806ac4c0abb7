-- ===== src/Flags/Remote.antt =====
-- Answers over the network: platform-services/feature-flags/src/grpc/evaluation.rs.
use Prim.Native.String.{◌++◌ as append}
use inf_k8s.Prelude.{String, Bool, false, Option, none, some, ok, err}
use inf_k8s.Prelude.Maybe.{◌>>=◌}
use inf_k8s.Prelude.Int.{ℤ, pos}
use inf_k8s.Prelude.Float.{F64}
use inf_k8s.Flags.Json.{Json, as_bool, as_str, as_i64, as_f64, as_object}
use inf_k8s.Flags.Model.{EvalContext, Snapshot, Resolution, message, error_code, code_str}
use inf_k8s.Flags.Wire
use inf_k8s.Flags.Wire.{ProstFields, reason_number, reason_of}
use inf_k8s.Flags.Engine.{Libraries, Resolved, evaluate}
use inf_k8s.Flags.Convert.{reason_to_wire, json_to_struct, context_from_wire}

-- `From<&Resolution> for ResolutionMeta`
unfoldable pub meta_of : {N : Type 0} → Resolution N → Wire.ResolutionMeta
unfolding reason_to_wire
meta_of res = record {
  variant = res.variant;
  reason = reason_number (reason_to_wire res.reason);
  error_code = "";
  error_message = "";
}

unfoldable pub meta_err : String → String → Wire.ResolutionMeta
meta_err code message = record {
  variant = "";
  reason = reason_number Wire.Reason.error;
  error_code = code;
  error_message = message;
}

unfoldable pub type_mismatch : String → Wire.ResolutionMeta
unfolding meta_err
type_mismatch expected = meta_err "TYPE_MISMATCH" (append "flag is not of type " expected)

-- `Typed`: a value with its meta, or the meta of an error.
pub data Typed (T : Type 0) : Type 0 where
  value : T → Wire.ResolutionMeta → Typed T
  error : Wire.ResolutionMeta → Typed T

-- A response: its value, and its meta.
abbrev pub Response : Type 0 → Type 0
Response T = T × Option Wire.ResolutionMeta

unfoldable pub typed : {N T : Type 0} → String → Resolution N → Option T → Typed T
unfolding type_mismatch meta_of
typed type_name res none = Typed.error (type_mismatch type_name)
typed type_name res (some v) = Typed.value v (meta_of res)

unfoldable pub outcome : {N T : Type 0} → (Json N → Option T) → String → Resolved N → Typed T
unfolding typed meta_err error_code code_str message
outcome extract type_name (ok res) = typed type_name res (extract res.value)
outcome extract type_name (err e) = Typed.error (meta_err (code_str (error_code e)) (message e))

-- `unwrap_or_default()` of the context in a request.
abbrev context_or_default : Option Wire.EvaluationContext → Wire.EvaluationContext
context_or_default none = Wire.empty_context
context_or_default (some ctx) = ctx

module _ {N : Type 0} (lib : Libraries N) (snapshot : Snapshot N) where
  -- `EvaluationService::resolve`, beside the engine: the context and the key of a request.
  unfoldable pub requested : Wire.ResolveRequest → EvalContext N × String
  unfolding context_from_wire
  requested request =
      (context_from_wire lib.numbers (context_or_default request.context), request.flag_key)

  unfoldable pub resolved :
      {T : Type 0} → EvalContext N × String → (Json N → Option T) → String → Option (Typed T)
  unfolding outcome
  resolved (ctx, flag_key) extract type_name = do
    result ← evaluate lib snapshot flag_key ctx
    some (outcome extract type_name result)

  -- The handlers, behind the test for the client's name.
  unfoldable pub resolve_boolean : Wire.ResolveRequest → Option (Response Bool)
  unfolding requested resolved
  resolve_boolean request = do
    typed ← resolved (requested request) as_bool "boolean"
    some (elim typed [ Typed.value v m ↦ (v, some m) | Typed.error m ↦ (false, some m) ])

  unfoldable pub resolve_string : Wire.ResolveRequest → Option (Response String)
  unfolding requested resolved
  resolve_string request = do
    typed ← resolved (requested request) as_str "string"
    some (elim typed [ Typed.value v m ↦ (v, some m) | Typed.error m ↦ ("", some m) ])

  unfoldable pub resolve_integer : Wire.ResolveRequest → Option (Response ℤ)
  unfolding requested resolved
  resolve_integer request = do
    typed ← resolved (requested request) (as_i64 lib.numbers) "integer"
    some (elim typed [ Typed.value v m ↦ (v, some m) | Typed.error m ↦ (pos 0, some m) ])

  unfoldable pub resolve_float : Wire.ResolveRequest → Option (Response F64)
  unfolding requested resolved
  resolve_float request = do
    typed ← resolved (requested request) (as_f64 lib.numbers) "float"
    some (elim typed [ Typed.value v m ↦ (v, some m) | Typed.error m ↦ (0, some m) ])

  unfoldable pub resolve_object : Wire.ResolveRequest → Option (Response (Option ProstFields))
  unfolding requested resolved json_to_struct
  resolve_object request =
      let extract : Json N → Option ProstFields =
        λ j. elim (as_object j) [ none ↦ none | some _ ↦ some (json_to_struct lib.numbers j) ] in
      do
        typed ← resolved (requested request) extract "object"
        some (elim typed [ Typed.value v m ↦ (some v, some m) | Typed.error m ↦ (none, some m) ])
