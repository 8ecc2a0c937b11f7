-- ===== src/Tests/Calls.antt =====
-- The driver's services on the demonstration TA.
use qemu_pipeline.Base.{true, [], ◌≡◌, refl, arith, some}
use qemu_pipeline.Outcome.{ok, fault, Safe, Returns}
use qemu_pipeline.Efi.Status
use qemu_pipeline.Driver.State.{IsReady}
use qemu_pipeline.Driver.State.Laws.{IsSound, SameShape, IsReady-IsSound}
use qemu_pipeline.Driver.Request.{fill_get_param, fill_set_param}
use qemu_pipeline.Driver.Request.Laws.{IsGetParam, fill_get_param-IsGetParam}
use qemu_pipeline.Driver.Get.{get_result, get_variable, with_result}
use qemu_pipeline.Driver.Invoke.{Invoked}
use qemu_pipeline.Driver.Get.Safety.{str_size-eq, get_variable-Safe}
use qemu_pipeline.Driver.Query.Safety.{IsQueried, query_variable_info-IsQueried}
use qemu_pipeline.Driver.Get.Answer.{IsAccepted, IsAnswered, get_variable-IsAnswered}
use qemu_pipeline.Driver.Set.{set_variable}
use qemu_pipeline.Driver.Set.Laws.{IsSetParam, fill_set_param-IsSetParam}
use qemu_pipeline.Driver.Set.Safety.{set_variable-Safe}
use qemu_pipeline.Wide.Laws.{cut}
use qemu_pipeline.Driver.Session.{ta_open_session, on_exit_boot_services}
use qemu_pipeline.Driver.Session.Laws.{
  ta_open_session-IsReady, on_exit_boot_services-not_ready, set_variable-after_failed_open,
}
use qemu_pipeline.Driver.SecureBoot.{init_secure_boot_variables}
use qemu_pipeline.Driver.SecureBoot.Laws.{
  logging, perform, expected_writes, init_secure_boot_variables-writes,
}
use qemu_pipeline.Tests.Demo.{
  demo_block, demo_tee, demo_driver, demo_driver-IsReady, demo_guid, demo_guid-IsGuid, demo_name,
  poor_tee, demo_store, demo_AllocatesMemory, demo_answered,
}

get_variable-Safe_example :
    Safe
      (λ (_, d'). IsSound d')
      (get_variable demo_tee
        (some demo_name)
        (some demo_guid)
        (some 0)
        (some 8)
        (some (demo_block 0x20000 8))
        demo_driver)
get_variable-Safe_example =
    get_variable-Safe demo_tee (some demo_name) (some demo_guid) (some 0) (some 8)
      (some (demo_block 0x20000 8)) demo_driver (omega arith) demo_guid-IsGuid (omega arith)
      (IsReady-IsSound demo_driver-IsReady)

demo_IsAccepted : IsAccepted demo_name demo_guid 8 (some (demo_block 0x20000 8)) demo_driver
demo_IsAccepted = record {
  opened = refl;
  string = omega arith;
  guid = demo_guid-IsGuid;
  take = omega arith;
  not_hook = refl;
  fits = omega (arith, str_size-eq demo_name (omega arith));
  holds = omega arith;
}

get_variable-IsAnswered_example :
    IsAnswered demo_tee demo_name demo_guid
      (some 0)
      8
      (some (demo_block 0x20000 8))
      demo_driver
      demo_driver-IsReady
      demo_IsAccepted
get_variable-IsAnswered_example =
    get_variable-IsAnswered demo_tee demo_name demo_guid (some 0) 8 (some (demo_block 0x20000 8))
      demo_driver demo_driver-IsReady demo_IsAccepted

set_variable-Safe_example :
    Safe
      (λ (_, d'). IsSound d')
      (set_variable demo_tee
        (some demo_name)
        (some demo_guid)
        7
        8
        (some (demo_block 0x20000 8))
        demo_driver)
set_variable-Safe_example =
    set_variable-Safe demo_tee (some demo_name) (some demo_guid) 7 8 (some (demo_block 0x20000 8))
      demo_driver demo_driver-IsReady (omega arith) demo_guid-IsGuid (omega arith) (omega arith)

fill_set_param-IsSetParam_example :
    Returns
      (λ c.
        SameShape (demo_block 0x1000 64) c
        × IsSetParam c 12 demo_guid (cut demo_name) 7 8 (some (demo_block 0x20000 8)))
      (fill_set_param 12 demo_guid demo_name 7 8
        (some (demo_block 0x20000 8))
        (demo_block 0x1000 64))
fill_set_param-IsSetParam_example =
    fill_set_param-IsSetParam 12 demo_guid demo_name 7 8 (some (demo_block 0x20000 8))
      (demo_block 0x1000 64) demo_guid-IsGuid refl (omega arith) (omega arith) (omega arith)
      (omega arith) (omega arith)

fill_get_param-IsGetParam_example :
    Returns
      (λ c. SameShape (demo_block 0x1000 40) c × IsGetParam c 12 demo_guid (cut demo_name))
      (fill_get_param 12 demo_guid demo_name (demo_block 0x1000 40))
fill_get_param-IsGetParam_example =
    fill_get_param-IsGetParam 12 demo_guid demo_name (demo_block 0x1000 40) demo_guid-IsGuid
      (omega arith)

ta_open_session-IsReady_example :
    (IsReady (ta_open_session demo_tee demo_driver).1)
    × ((ta_open_session demo_tee demo_driver).1.session_opened ≡ true)
    × ((ta_open_session demo_tee demo_driver).1.param_mem.size ≡ 32812)
    × ((ta_open_session demo_tee demo_driver).1.result_mem.size ≡ 32812)
unfolding ta_open_session
ta_open_session-IsReady_example =
    ta_open_session-IsReady demo_tee demo_driver demo_AllocatesMemory refl

on_exit_boot_services-not_ready_example :
    (get_variable demo_tee
        (some demo_name)
        (some demo_guid)
        (some 0)
        (some 8)
        (some (demo_block 0x20000 8))
        (on_exit_boot_services demo_tee demo_driver)
      ≡ ok (
        get_result Status.not_ready (some 0) (some 8) (some (demo_block 0x20000 8)),
        on_exit_boot_services demo_tee demo_driver,
      ))
    × (set_variable demo_tee
          (some demo_name)
          (some demo_guid)
          7
          8
          (some (demo_block 0x20000 8))
          (on_exit_boot_services demo_tee demo_driver)
        ≡ ok (Status.not_ready, on_exit_boot_services demo_tee demo_driver))
on_exit_boot_services-not_ready_example =
    on_exit_boot_services-not_ready demo_tee demo_name demo_guid (some 0) 7 8 (demo_block 0x20000 8)
      demo_driver refl (omega arith)

set_variable-after_failed_open_example :
    ((ta_open_session poor_tee demo_driver).0 ≡ Status.out_of_resources)
    × (set_variable poor_tee
          (some demo_name)
          (some demo_guid)
          7
          8
          (some (demo_block 0x20000 8))
          (ta_open_session poor_tee demo_driver).1
        ≡ fault)
set_variable-after_failed_open_example =
    set_variable-after_failed_open poor_tee demo_name demo_guid 7 8 (demo_block 0x20000 8)
      demo_driver refl refl refl refl (omega arith)
      (omega (arith, str_size-eq demo_name (omega arith)))

init_secure_boot_variables-writes_example :
    init_secure_boot_variables (logging demo_store) true 0 []
    ≡ ok (perform demo_store (expected_writes true demo_store 0) Status.success [])
init_secure_boot_variables-writes_example = init_secure_boot_variables-writes true demo_store 0

-- The driver after the demonstration TA has answered.
abbrev demo_invoked : Invoked (Unit {0})
demo_invoked = record {
  status = 0;
  result_size = 0;
  authvar_status = 0;
  driver = with_result demo_answered demo_driver;
}

query_variable_info-IsQueried_example : IsQueried demo_tee 7 0 0 0 demo_driver demo_driver-IsReady
query_variable_info-IsQueried_example =
    query_variable_info-IsQueried demo_tee 7 0 0 0 demo_driver demo_driver-IsReady refl
      (omega arith) refl (omega arith) (omega arith)
