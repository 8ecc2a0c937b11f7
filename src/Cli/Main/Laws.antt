-- ===== src/Cli/Main/Laws.antt =====
-- The program without words: the self tests on the driver.
use qemu_pipeline.Base.{◌≡◌, ap, ◌∙◌, true, some, none, [], if◌then◌else◌}
use qemu_pipeline.Outcome.{Outcome, ok, fault}
use qemu_pipeline.Efi.Status
use qemu_pipeline.Driver.State.{Driver}
use qemu_pipeline.Driver.Get.{GetResult, get_variable}
use qemu_pipeline.Driver.SecureBoot.{global_variable, platform_key_name, initialize}
use qemu_pipeline.Firmware.{runtime_services}
use qemu_pipeline.AuthVarTest.Main.Laws.{uefi_main-provisioned}
use qemu_pipeline.Cli.Command.{nothing}
use qemu_pipeline.Cli.Main.{
  World, after_initialize, tests_result, self_tests, operation, dispatch, main,
}

module _ {W : Type 0} (o : World W) where
  published_get :
      (d : Driver W) (out : GetResult) (d' : Driver W)
      → d.published ≡ true
      → get_variable o.tee (some platform_key_name) (some global_variable) none (some 0) none d
        ≡ ok (out, d')
      → (runtime_services o.tee).get_variable
          (some platform_key_name)
          (some global_variable)
          none
          (some 0)
          none
          d
        ≡ ok (out, d')
  unfolding runtime_services
  published_get d out d' h e = ap (λ b. if b then asked else fault) h ∙ e
    where
      asked : Outcome (GetResult × Driver W)
      asked =
          get_variable o.tee (some platform_key_name) (some global_variable) none (some 0) none d

  -- The program without words, on a driver whose initialisation has succeeded and published its
  -- services, and where GetVariable for the platform key reports a buffer that is too small,
  -- returns 1 after it has asked for the key: no test runs.
  pub main_provisioned :
      (d d' d'' : Driver W) (out : GetResult)
      → initialize o.tee o.pcd o.garbage o.byte d ≡ ok (0, d')
      → d'.published ≡ true
      → get_variable o.tee (some platform_key_name) (some global_variable) none (some 0) none d'
        ≡ ok (out, d'')
      → out.status ≡ Status.buffer_too_small
      → main o [] d ≡ some (ok (1, nothing, d''))
  unfolding main self_tests dispatch operation
  main_provisioned d d' d'' out e h get status =
      ap (after_initialize o []) e
      ∙ ap (tests_result o) (
          uefi_main-provisioned (record (o.platform) { services = runtime_services o.tee })
            (record { image = none; actual = none; enum_name = none; drawn = 0; firmware = d' }) out
            d'' (published_get d' out d'' h get) status)
