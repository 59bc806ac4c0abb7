-- ===== src/Flags/Client.antt =====
-- A client of the flags, which asks the server or evaluates in its own process:
-- crates/feature-flag/feature-flag-client/src/lib.rs.
pub mod Agrees
use inf_k8s.Prelude.{String, Bool, Option, none, some, str_eq, if◌then◌else◌}
use inf_k8s.Prelude.Maybe.{◌>>=◌}
use inf_k8s.Prelude.Int.{ℤ, pos}
use inf_k8s.Prelude.Float.{F64}
use inf_k8s.Flags.Model.{Snapshot}
use inf_k8s.Flags.Wire
use inf_k8s.Flags.Wire.{ProstFields, reason_of}
use inf_k8s.Flags.Engine.{Libraries}
use inf_k8s.Flags.Local
use inf_k8s.Flags.Local.{Answer}
use inf_k8s.Flags.Remote
use inf_k8s.Flags.Remote.{Response}

-- `unwrap_or_default()`
abbrev pub meta_or_default : Option Wire.ResolutionMeta → Wire.ResolutionMeta
meta_or_default none = record { variant = ""; reason = pos 0; error_code = ""; error_message = "" }
meta_or_default (some m) = m

-- The client's `resolution`.
unfoldable pub resolution : {T : Type 0} → T → Option Wire.ResolutionMeta → Answer T
resolution v meta =
    let m = meta_or_default meta in
    record {
      value = v;
      variant = m.variant;
      reason = reason_of m.reason;
      error_code = if str_eq m.error_code "" then none else some m.error_code;
    }

unfoldable pub request : String → Wire.EvaluationContext → Wire.ResolveRequest
request flag_key context = record { flag_key = flag_key; context = some context }

-- `unwrap_or_default()` of a structure.
abbrev struct_or_default : Option ProstFields → ProstFields
struct_or_default none = ProstFields.end
struct_or_default (some fields) = fields

-- The server answers from its snapshot; `local` is the snapshot that the client holds, where it
-- evaluates in its own process. A call that fails on its way is left out.
module _ {N : Type 0} (lib : Libraries N) (server : Snapshot N) (local : Option (Snapshot N)) where
  unfoldable pub resolve_bool : String → Wire.EvaluationContext → Option (Answer Bool)
  unfolding resolution request Local.resolve_bool Remote.resolve_boolean
  resolve_bool flag_key context = elim local [
    | some held ↦ Local.resolve_bool lib held flag_key context
    | none ↦ do
      (value, meta) ← Remote.resolve_boolean lib server (request flag_key context)
      some (resolution value meta)
  ]

  unfoldable pub resolve_string : String → Wire.EvaluationContext → Option (Answer String)
  unfolding resolution request Local.resolve_string Remote.resolve_string
  resolve_string flag_key context = elim local [
    | some held ↦ Local.resolve_string lib held flag_key context
    | none ↦ do
      (value, meta) ← Remote.resolve_string lib server (request flag_key context)
      some (resolution value meta)
  ]

  unfoldable pub resolve_int : String → Wire.EvaluationContext → Option (Answer ℤ)
  unfolding resolution request Local.resolve_int Remote.resolve_integer
  resolve_int flag_key context = elim local [
    | some held ↦ Local.resolve_int lib held flag_key context
    | none ↦ do
      (value, meta) ← Remote.resolve_integer lib server (request flag_key context)
      some (resolution value meta)
  ]

  unfoldable pub resolve_float : String → Wire.EvaluationContext → Option (Answer F64)
  unfolding resolution request Local.resolve_float Remote.resolve_float
  resolve_float flag_key context = elim local [
    | some held ↦ Local.resolve_float lib held flag_key context
    | none ↦ do
      (value, meta) ← Remote.resolve_float lib server (request flag_key context)
      some (resolution value meta)
  ]

  unfoldable pub resolve_object : String → Wire.EvaluationContext → Option (Answer ProstFields)
  unfolding resolution request Local.resolve_object Remote.resolve_object
  resolve_object flag_key context = elim local [
    | some held ↦ Local.resolve_object lib held flag_key context
    | none ↦ do
      (value, meta) ← Remote.resolve_object lib server (request flag_key context)
      some (resolution (struct_or_default value) meta)
  ]
