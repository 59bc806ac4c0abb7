-- ===== src/Flags/Tests/Evaluation.antt =====
-- Runs of the engine, the conversion, the validation and the client, and their theorems at concrete
-- inputs (crates/feature-flag and platform-services/feature-flags).
use inf_k8s.Prelude.{◌≡◌, refl, String, true, false, [], ◌∷◌, some, All, str_eq, ok}
use inf_k8s.Prelude.Assoc.{lookup}
use inf_k8s.Prelude.Maybe.{Returns}
use inf_k8s.Prelude.Int.{pos}
use inf_k8s.Prelude.Float.{is_finite, of_ℤ}
use inf_k8s.Flags.Json.{Json}
use inf_k8s.Flags.Model.{ValueType, Rule, Variant, variant, Resolution, Reason}
use inf_k8s.Flags.Engine.{evaluate, pick}
use inf_k8s.Flags.Engine.Total.{evaluate_total}
use inf_k8s.Flags.Engine.Origin.{
  IsVariant, FlagIsWellFormed, Resolves, evaluate-Resolves, evaluate-FlagIsWellFormed,
}
use inf_k8s.Flags.Engine.Shares.{count_from, pick_shares}
use inf_k8s.Flags.Convert.{
  flag_to_wire, flag_from_wire, segment_to_wire, segment_from_wire, snapshot_from_wire,
}
use inf_k8s.Flags.Convert.RoundTrip.{flag_from_wire-flag_to_wire, segment_from_wire-segment_to_wire}
use inf_k8s.Flags.Validate.{validate_desired, validate_flag, has_type}
use inf_k8s.Flags.Validate.Variants.{IsOfType}
use inf_k8s.Flags.Validate.Accepted.{IsFullSplit, validate_flag-eq-ok}
use inf_k8s.Flags.Validate.Evaluates.{evaluate-validate_desired}
use inf_k8s.Flags.Local.{error_resolution, resolve_int}
use inf_k8s.Flags.Local.Typed.{AnswersAs, validate_desired-AnswersAs}
use inf_k8s.Flags.Local.Integers.{resolve_int-snapshot_from_wire}
use inf_k8s.Flags.Samples.{
  Num, numbers, to_f64_total, lib, on, off, shares, beta, snapshot, somebody, found, staff, anybody,
  limit, limits, message, before, after,
}

-- The digest puts everybody in bucket 42, behind the first 30.
rolled_out :
    evaluate lib snapshot "beta" somebody
    ≡ some (ok (record { value = Json.bool false; variant = "off"; reason = Reason.split }))
unfolding evaluate lookup variant
rolled_out = refl

evaluate_total_example : Returns (evaluate lib snapshot "beta" somebody)
evaluate_total_example = evaluate_total lib somebody snapshot "beta"

evaluate-Resolves_example :
    Resolves beta (ok (record { value = Json.bool false; variant = "off"; reason = Reason.split }))
evaluate-Resolves_example =
    evaluate-Resolves lib snapshot "beta" somebody found
      (ok (record { value = Json.bool false; variant = "off"; reason = Reason.split })) rolled_out

has_on : IsVariant beta "on"
unfolding variant
has_on = (on, refl)

has_off : IsVariant beta "off"
unfolding variant
has_off = (off, refl)

beta-FlagIsWellFormed : FlagIsWellFormed beta
beta-FlagIsWellFormed = record {
  default = has_off;
  rules = (record { shares = (has_on, (has_off, tt)); fixed = λ k e. cc }, tt);
}

evaluate-FlagIsWellFormed_example :
    (res : Resolution Num) × (evaluate lib snapshot "beta" somebody ≡ some (ok res))
evaluate-FlagIsWellFormed_example =
    evaluate-FlagIsWellFormed lib snapshot "beta" somebody found beta-FlagIsWellFormed

pick_shares_example : count_from 0 100 (λ b. str_eq (pick b shares) "on") ≡ 30
pick_shares_example = pick_shares "on" shares refl

beta_encoded : flag_from_wire numbers (flag_to_wire numbers beta) ≡ ok beta
unfolding flag_from_wire flag_to_wire
beta_encoded = refl

flag_from_wire-flag_to_wire_example : flag_from_wire numbers (flag_to_wire numbers beta) ≡ ok beta
flag_from_wire-flag_to_wire_example =
    flag_from_wire-flag_to_wire numbers (flag_to_wire numbers beta) beta_encoded

staff_encoded : segment_from_wire numbers (segment_to_wire numbers staff) ≡ ok staff
unfolding segment_from_wire segment_to_wire
staff_encoded = refl

segment_from_wire-segment_to_wire_example :
    segment_from_wire numbers (segment_to_wire numbers staff) ≡ ok staff
segment_from_wire-segment_to_wire_example =
    segment_from_wire-segment_to_wire numbers (segment_to_wire numbers staff) staff_encoded

beta_accepted : validate_desired numbers (beta ∷ []) [] ≡ ok tt
unfolding validate_desired
beta_accepted = refl

beta_flag_accepted : validate_flag numbers beta ≡ ok tt
unfolding validate_flag
beta_flag_accepted = refl

evaluate-validate_desired_example :
    (res : Resolution Num) × (evaluate lib snapshot "beta" somebody ≡ some (ok res))
    × (has_type numbers ValueType.boolean res.value ≡ true)
evaluate-validate_desired_example =
    evaluate-validate_desired lib [] beta [] [] beta_accepted snapshot "beta" somebody found

validate_desired-AnswersAs_example : AnswersAs lib snapshot "beta" anybody ValueType.boolean
validate_desired-AnswersAs_example =
    validate_desired-AnswersAs lib snapshot "beta" anybody to_f64_total [] beta [] [] beta_accepted
      found

limit_accepted : validate_desired numbers (limit ∷ []) [] ≡ ok tt
unfolding validate_desired of_ℤ is_finite
limit_accepted = refl

message_decoded : snapshot_from_wire numbers message ≡ ok limits
unfolding snapshot_from_wire flag_to_wire of_ℤ is_finite
message_decoded = refl

resolve_int-snapshot_from_wire_example :
    (code : String) × (resolve_int lib limits "limit" anybody
      ≡ some (error_resolution (pos 0) code))
resolve_int-snapshot_from_wire_example =
    resolve_int-snapshot_from_wire lib message message_decoded "limit" anybody

-- The change of `beta` turns `gated` on, and only `beta` is reported.
gated_before :
    evaluate lib before "gated" somebody
    ≡ some (ok (record { value = Json.bool false; variant = "off"; reason = Reason.default }))
unfolding evaluate lookup variant
gated_before = refl

gated_after :
    evaluate lib after "gated" somebody
    ≡ some (ok (record { value = Json.bool true; variant = "on"; reason = Reason.targeting_match }))
unfolding evaluate lookup variant
gated_after = refl

validate_flag-eq-ok_example :
    FlagIsWellFormed beta
    × All (λ (r : Rule Num). IsFullSplit r.distributions) beta.rules
    × All (λ (v : Variant Num). IsOfType numbers ValueType.boolean v.value) beta.variants
validate_flag-eq-ok_example = validate_flag-eq-ok numbers beta beta_flag_accepted
