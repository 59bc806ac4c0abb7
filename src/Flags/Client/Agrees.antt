-- ===== src/Flags/Client/Agrees.antt =====
-- The two ways to resolve a flag agree: crates/feature-flag/feature-flag-client/src/lib.rs and local.rs,
-- and platform-services/feature-flags/src/grpc/evaluation.rs.
use inf_k8s.Prelude.{◌≡◌, refl, ap, ◌∙◌, String, Option, none, some, ok, err}
use inf_k8s.Prelude.Maybe.{◌>>=◌}
use inf_k8s.Flags.Json.{Json, Numbers, as_object}
use inf_k8s.Flags.Model.{Reason, EvalError, error_code, code_str, Resolution, Snapshot}
use inf_k8s.Flags.Wire
use inf_k8s.Flags.Wire.{ProstFields, reason_of, reason_number}
use inf_k8s.Flags.Engine.{Libraries, Resolved, evaluate}
use inf_k8s.Flags.Convert.{context_from_wire, reason_to_wire, json_to_struct}
use inf_k8s.Flags.Local.{Answer, error_resolution, extracted, answer, as_struct}
use inf_k8s.Flags.Remote.{Response, Typed, meta_of, meta_err, type_mismatch, typed, outcome}
use inf_k8s.Flags.Client.{
  resolution, resolve_bool, resolve_string, resolve_int, resolve_float, resolve_object,
}

reason_back : (r : Reason) → reason_of (reason_number (reason_to_wire r)) ≡ reason_to_wire r
unfolding reason_to_wire
reason_back Reason.static = refl
reason_back Reason.default = refl
reason_back Reason.targeting_match = refl
reason_back Reason.split = refl
reason_back Reason.disabled = refl
reason_back Reason.error = refl

-- The server sends a typed outcome, of which it takes the value by one extraction; the client reads the
-- response, and has a default and an extraction of its own.
module _ {N T S : Type 0} (send : Typed T → Response S) (read : Response S → Answer T) (default : T)
    (extract extract' : Json N → Option T) (type_name : String)
    (read_value : (v : T) (m : Wire.ResolutionMeta)
      → read (send (Typed.value v m)) ≡ resolution v (some m))
    (read_error : (m : Wire.ResolutionMeta)
      → read (send (Typed.error m)) ≡ resolution default (some m))
    (same : (j : Json N) → extract j ≡ extract' j) where
  typed_agrees :
      (res : Resolution N) (o : Option T)
      → read (send (typed type_name res o)) ≡ extracted default res o
  unfolding typed resolution extracted error_resolution type_mismatch meta_err meta_of
  typed_agrees res none = read_error _
  typed_agrees res (some v) =
      read_value v _
      ∙ ap (λ r. record { value = v; variant = res.variant; reason = r; error_code = none })
          (reason_back res.reason)

  outcome_agrees :
      (r : Resolved N) → read (send (outcome extract type_name r)) ≡ answer default extract' r
  unfolding outcome answer resolution error_resolution meta_err code_str error_code
  outcome_agrees (ok res) =
      typed_agrees res (extract res.value) ∙ ap (extracted default res) (same res.value)
  outcome_agrees (err (EvalError.dependency_cycle k)) = read_error _
  outcome_agrees (err (EvalError.missing_flag k)) = read_error _
  outcome_agrees (err (EvalError.unknown_variant k v)) = read_error _

  response_agrees :
      (o : Option (Resolved N))
      → (do
        response ← do typed ← (do r ← o; some (outcome extract type_name r)); some (send typed)
        some (read response))
        ≡ (do r ← o; some (answer default extract' r))
  response_agrees none = refl
  response_agrees (some r) = ap some (outcome_agrees r)

module _ {N : Type 0} (num : Numbers N) where
  as_struct_same :
      (j : Json N)
      → elim (as_object j) as (λ _. Option ProstFields) [
        | none ↦ none
        | some _ ↦ some (json_to_struct num j)
      ]
        ≡ as_struct num j
  unfolding as_struct
  as_struct_same (Json.object o) = refl
  as_struct_same Json.null = refl
  as_struct_same (Json.bool b) = refl
  as_struct_same (Json.number n) = refl
  as_struct_same (Json.string s) = refl
  as_struct_same (Json.array a) = refl

-- For each of the five types of value, a client that asks the server gets the same answer as one that
-- holds the server's snapshot and evaluates in its own process: the value, the variant, the reason and
-- the error code, on success and on every error.
pub remote_agrees :
    {N : Type 0} (lib : Libraries N) (snapshot : Snapshot N) (key : String)
    (ctx : Wire.EvaluationContext)
    → (resolve_bool lib snapshot none key ctx ≡ resolve_bool lib snapshot (some snapshot) key ctx)
      × ((resolve_string lib snapshot none key ctx
            ≡ resolve_string lib snapshot (some snapshot) key ctx)
          × ((resolve_int lib snapshot none key ctx
                ≡ resolve_int lib snapshot (some snapshot) key ctx)
              × ((resolve_float lib snapshot none key ctx
                    ≡ resolve_float lib snapshot (some snapshot) key ctx)
                  × (resolve_object lib snapshot none key ctx
                      ≡ resolve_object lib snapshot (some snapshot) key ctx))))
unfolding resolve_bool resolve_string resolve_int resolve_float resolve_object
remote_agrees lib snapshot key ctx =
    let o = evaluate lib snapshot key (context_from_wire lib.numbers ctx) in
    (
      response_agrees _ _ _ _ _ "boolean" (λ v m. refl) (λ m. refl) (λ j. refl) o,
      (
        response_agrees _ _ _ _ _ "string" (λ v m. refl) (λ m. refl) (λ j. refl) o,
        (
          response_agrees _ _ _ _ _ "integer" (λ v m. refl) (λ m. refl) (λ j. refl) o,
          (
            response_agrees _ _ _ _ _ "float" (λ v m. refl) (λ m. refl) (λ j. refl) o,
            response_agrees _ _ _ _ _ "object" (λ v m. refl) (λ m. refl)
                (as_struct_same lib.numbers) o,
          ),
        ),
      ),
    )
