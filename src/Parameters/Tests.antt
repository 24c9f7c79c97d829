-- ===== src/Parameters/Tests.antt =====
-- frontend/src/ui.ts: one agent's override of a shared parameter.
use federated_iot_platform.Prelude.{◌≡◌, refl}
use federated_iot_platform.Js.{Value, nat, obj, end, field, lookup}
use federated_iot_platform.Js.Objects.{insert}
use federated_iot_platform.Parameters.{merge_parameter_values, merge_fields}

abbrev shared : Value
shared = obj (
    field "gain" (nat 1)
      (field "local_gp" (obj (field "ell" (nat 4) (field "kNN" (nat 7) end))) end))

abbrev own : Value
own = obj (field "local_gp" (obj (field "ell" (nat 9) end)) end)

merge_test :
    merge_parameter_values shared own
    ≡ obj (
        field "gain"
          (nat 1)
          (field "local_gp" (obj (field "ell" (nat 9) (field "kNN" (nat 7) end))) end))
unfolding merge_parameter_values merge_fields insert lookup
merge_test = refl
