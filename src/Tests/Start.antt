-- ===== src/Tests/Start.antt =====
-- The program without words, from the initialisation of the driver on.
use qemu_pipeline.Base.{
  ℕ, ◌≡◌, refl, ltb, leb, ◌&&◌, if◌then◌else◌, true, false, [], ◌∷◌, some, none,
}
use qemu_pipeline.Outcome.{Outcome, ok}
use qemu_pipeline.Driver.Get.{GetResult, get_result, get_variable}
use qemu_pipeline.AuthVarTest.{Platform, test_vendor_guid}
use qemu_pipeline.Driver.Tee.{TeeClient, success, short_buffer}
use qemu_pipeline.Driver.State.{Driver}
use qemu_pipeline.Driver.SecureBoot.{initialize, global_variable, platform_key_name}
use qemu_pipeline.Cli.Command.{nothing}
use qemu_pipeline.Firmware.{runtime_services}
use qemu_pipeline.Cli.Main.{World, main}
use qemu_pipeline.Cli.Main.Laws.{main_provisioned}
use qemu_pipeline.Memory.{zero_mem, load32, read32}
use qemu_pipeline.Support.{str_size}
use qemu_pipeline.Wide.{fix_wide_string}
use qemu_pipeline.Driver.Invoke.{invoke_command}
use qemu_pipeline.Driver.Request.{fill_get_param, fill_set_param}
use qemu_pipeline.Driver.Get.{get_checked}
use qemu_pipeline.Driver.Set.{set_checked}
use qemu_pipeline.Tests.Next.{moving_heap}
use qemu_pipeline.Tests.Demo.{demo_tee, demo_reply, demo_driver}
use qemu_pipeline.Tests.Services.{demo_binary}

-- A TA that has every variable that is asked for with too small a buffer, and accepts every write.
abbrev keyed_tee : TeeClient (Unit {0})
keyed_tee = record demo_tee {
  invoke_command = λ w session command operation. record demo_reply {
    result =
        if ltb operation.output_size 18 && leb 12 operation.output_size
        then short_buffer
        else success;
    value_a = 18;
  };
}

abbrev driver_platform : Platform (Driver (Unit {0}))
driver_platform = record {
  services = runtime_services keyed_tee;
  heap = moving_heap;
  rand = λ n. n;
  decimal = λ n. b'0' ∷ [];
  garbage = 77;
  garbage_guid = test_vendor_guid;
  test_db = demo_binary;
  test_kek = demo_binary;
  rounds = 5;
}

abbrev demo_world : World (Unit {0})
demo_world = record {
  tee = keyed_tee;
  platform = driver_platform;
  widen = λ w. w;
  parse_guid = λ w. test_vendor_guid;
  open_file = λ w. none;
  hello_world = demo_binary;
  pcd = false;
  byte = 0;
  garbage = 77;
  rounds = 5;
}

abbrev closed_driver : Driver (Unit {0})
closed_driver = record demo_driver { session_opened = false; published = false }

abbrev driver_of : Outcome (ℕ × Driver (Unit {0})) → Driver (Unit {0})
driver_of (ok (_, d)) = d
driver_of _ = demo_driver

abbrev started : Driver (Unit {0})
started = driver_of (initialize keyed_tee false 77 0 closed_driver)

started_run : initialize keyed_tee false 77 0 closed_driver ≡ ok (0, started)
unfolding initialize get_checked str_size zero_mem fill_get_param fix_wide_string invoke_command
    load32 read32 set_checked fill_set_param
started_run = refl

-- It is published, and asking for the platform key reports a buffer that is too small.
started_published : started.published ≡ true
unfolding initialize get_checked str_size zero_mem fill_get_param fix_wide_string invoke_command
    load32 read32 set_checked fill_set_param
started_published = refl

abbrev asked : Outcome (GetResult × Driver (Unit {0}))
asked =
    get_variable keyed_tee (some platform_key_name) (some global_variable) none (some 0) none
      started

abbrev asked_driver : Driver (Unit {0})
asked_driver = elim asked [ ok (_, d) ↦ d | _ ↦ demo_driver ]

asked_run :
    get_variable keyed_tee
      (some platform_key_name)
      (some global_variable)
      none
      (some 0)
      none
      started
    ≡ ok (get_result 5 none (some 2) none, asked_driver)
unfolding initialize get_checked str_size zero_mem fill_get_param fix_wide_string invoke_command
    load32 read32 set_checked fill_set_param
asked_run = refl

main_provisioned_example : main demo_world [] closed_driver ≡ some (ok (1, nothing, asked_driver))
main_provisioned_example =
    main_provisioned demo_world closed_driver started asked_driver (get_result 5 none (some 2) none)
      started_run started_published asked_run refl
