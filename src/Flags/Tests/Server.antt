-- ===== src/Flags/Tests/Server.antt =====
-- Runs of the server, and its theorems at concrete inputs (platform-services/feature-flags).
use inf_k8s.Prelude.{◌≡◌, refl, String, ◌&&◌, ◌||◌, [], ◌∷◌, none, some, any, All, str_eq, ok}
use inf_k8s.Prelude.Assoc.{lookup}
use inf_k8s.Prelude.Int.{pos}
use inf_k8s.Flags.Json.{Json, json_eq}
use inf_k8s.Flags.Model.{ValueType, Operator, Flag}
use inf_k8s.Flags.Validate.{validate_rules}
use inf_k8s.Flags.Names.{
  value_type_to_str, value_type_from_str, operator_to_str, operator_from_str,
  value_type_from_str-value_type_to_str, operator_from_str-operator_to_str,
}
use inf_k8s.Flags.Plan.{ChangeOp, change, fields_detail, diff_config}
use inf_k8s.Flags.Plan.InPlace.{diff_config-in_place}
use inf_k8s.Flags.Client.{resolve_bool, resolve_string, resolve_int, resolve_float, resolve_object}
use inf_k8s.Flags.Client.Agrees.{remote_agrees}
use inf_k8s.Flags.Bulk.{resolve_all}
use inf_k8s.Flags.Bulk.Listed.{Lists, resolve_all-Lists}
use inf_k8s.Flags.Equal.{flag_eq}
use inf_k8s.Flags.Manager.{contains, changed_flag_keys, differs, reload_all}
use inf_k8s.Flags.Manager.Reported.{names_changed, contains-changed_flag_keys}
use inf_k8s.Flags.Manager.Versions.{Ascends, IsUpTo, reload_all-Ascends, reload_all-IsUpTo}
use inf_k8s.Flags.Samples.{
  Num, same_refl, numbers, lib, beta, found, staff, anybody, limits, beta_on, before, after,
  manager, loads, wrapped, staffed,
}

only_beta : changed_flag_keys numbers before after ≡ "beta" ∷ []
unfolding changed_flag_keys lookup json_eq
only_beta = refl

contains-changed_flag_keys_example : contains (changed_flag_keys numbers before after) "gated" ≡ (
    any
      (λ (e : String × Flag Num). str_eq e.1.key "gated" && names_changed numbers before after e.1)
      after.flags
    || differs (flag_eq numbers) before.flags after.flags "gated")
contains-changed_flag_keys_example = contains-changed_flag_keys numbers before after "gated"

reload_all-Ascends_example :
    Ascends
      (pos 1)
      (reload_all numbers loads manager).sent
      (reload_all numbers loads manager).current.version
reload_all-Ascends_example = reload_all-Ascends numbers (pos 1) loads manager refl

reload_all-IsUpTo_example : All (IsUpTo (reload_all numbers loads manager).current.version) loads
reload_all-IsUpTo_example = reload_all-IsUpTo numbers loads manager

remote_agrees_example :
    (resolve_bool lib limits none "limit" anybody
      ≡ resolve_bool lib limits (some limits) "limit" anybody)
    × ((resolve_string lib limits none "limit" anybody
          ≡ resolve_string lib limits (some limits) "limit" anybody)
        × ((resolve_int lib limits none "limit" anybody
              ≡ resolve_int lib limits (some limits) "limit" anybody)
            × ((resolve_float lib limits none "limit" anybody
                  ≡ resolve_float lib limits (some limits) "limit" anybody)
                × (resolve_object lib limits none "limit" anybody
                    ≡ resolve_object lib limits (some limits) "limit" anybody))))
remote_agrees_example = remote_agrees lib limits "limit" anybody

resolve_all-Lists_example : Lists (resolve_all lib before anybody) ("beta" ∷ "gated" ∷ [])
resolve_all-Lists_example = resolve_all-Lists lib before anybody

wrapped_accepted : validate_rules "beta" (wrapped ∷ []) ("on" ∷ "off" ∷ []) ≡ ok tt
unfolding validate_rules
wrapped_accepted = refl

value_type_from_str-value_type_to_str_example :
    value_type_from_str (value_type_to_str ValueType.float) ≡ ok ValueType.float
value_type_from_str-value_type_to_str_example =
    value_type_from_str-value_type_to_str ValueType.float

operator_from_str-operator_to_str_example :
    operator_from_str (operator_to_str Operator.in_list) ≡ ok Operator.in_list
operator_from_str-operator_to_str_example = operator_from_str-operator_to_str Operator.in_list

staff_in_place : lookup "staff" staffed.segments ≡ some staff
unfolding lookup
staff_in_place = refl

diff_config-in_place_example : diff_config numbers staffed (beta ∷ []) (staff ∷ []) ≡ []
diff_config-in_place_example =
    diff_config-in_place numbers same_refl staffed (beta ∷ []) (staff ∷ []) (staff_in_place, tt)
      (found, tt) (refl, tt) (refl, tt)

-- One flag is changed, and a segment is deleted.
two_changes :
    diff_config numbers staffed (beta_on ∷ []) []
    ≡ change "segment" "staff" ChangeOp.delete Json.null
      ∷ change "flag" "beta" ChangeOp.update (fields_detail ("default_variant_key" ∷ "rules" ∷ []))
      ∷ []
unfolding diff_config lookup json_eq
two_changes = refl
