-- ===== src/Tests/Program.antt =====
-- UefiMain and the helpers of the tests and of the driver on concrete
-- inputs.
use qemu_pipeline.Base.{ℕ, ◌<◌, ◌≡◌, ◌↔◌, refl, true, [], ◌∷◌, some, none, arith, u8, bit_or}
use qemu_pipeline.Outcome.{ok, fault}
use qemu_pipeline.Pool.{Allocator}
use qemu_pipeline.Harness.{ModuleContext, run_test_func}
use qemu_pipeline.Driver.Get.{GetResult, get_result}
use qemu_pipeline.Driver.Debug.{fix_buffer}
use qemu_pipeline.Driver.Debug.Laws.{fix_buffer_fault}
use qemu_pipeline.Verify.{done}
use qemu_pipeline.Verify.Laws.{Verified}
use qemu_pipeline.AuthVarTest.{
  TestState, Platform, image, actual, at_pointer, verify_are_equal_bytes, test_vendor_guid,
}
use qemu_pipeline.AuthVarTest.Compare.{verify_are_equal_bytes_iff}
use qemu_pipeline.AuthVarTest.Check.{set_and_check_variable}
use qemu_pipeline.AuthVarTest.Check.Laws.{IsReported, set_and_check_variable-Verified}
use qemu_pipeline.AuthVarTest.Query.{space_is_used, verify_query}
use qemu_pipeline.AuthVarTest.Query.Space.{space_is_used-weak}
use qemu_pipeline.AuthVarTest.Main.{
  no_counts, module_setup, test_setup, test_cleanup, tests_module, uefi_main,
}
use qemu_pipeline.AuthVarTest.Blobs.{
  test_valid_non_volatile_vars, test_valid_auth_vars, test_invalid_auth_vars,
}
use qemu_pipeline.AuthVarTest.Persist.{verify_append_shrink_replace_persist}
use qemu_pipeline.AuthVarTest.Names.{verify_name_handling}
use qemu_pipeline.AuthVarTest.Overflow.{verify_overflow}
use qemu_pipeline.AuthVarTest.Main.Laws.{IsReleased, run_test_func-IsReleased}
use qemu_pipeline.Tests.Demo.{demo_block}
use qemu_pipeline.Tests.Shelf.{shelf}
use qemu_pipeline.Tests.Services.{shelf_platform, shelf_state}

fix_buffer_fault_example : fix_buffer 6 (demo_block 0x1000 6) ≡ fault
fix_buffer_fault_example = fix_buffer_fault 6 (demo_block 0x1000 6) refl (omega arith) (omega arith)

space_is_used-weak_example : space_is_used 0x10000 0x10000 0x400 ≡ true
space_is_used-weak_example = space_is_used-weak 0x10000 0x10000 0x400 (omega arith) (omega arith)

verify_are_equal_bytes_iff_example :
    (verify_are_equal_bytes (actual 0) (actual 0) 2 shelf_state ≡ ok (done tt, shelf_state))
    ↔ ((j : ℕ) → j < 2 → u8 ((demo_block 0x3000 2).bytes j) ≡ u8 ((demo_block 0x3000 2).bytes j))
verify_are_equal_bytes_iff_example =
    verify_are_equal_bytes_iff (actual 0) (actual 0) 2 shelf_state (demo_block 0x3000 2)
      (demo_block 0x3000 2) refl refl (omega arith) (omega arith)

set_and_check_variable-Verified_example :
    Verified
      (λ _ _.
        (f₁ : Unit {0}) × (shelf.set_variable
            (some (b'd' ∷ []))
            (some test_vendor_guid)
            (bit_or 7 0)
            2
            (at_pointer (image 0) shelf_state)
            tt
          ≡ ok (0, f₁))
        × (out : GetResult) × (f₂ : Unit {0}) × (shelf.get_variable
              (some (b'd' ∷ []))
              (some test_vendor_guid)
              (some 77)
              (some 2)
              shelf_state.actual
              f₁
            ≡ ok (out, f₂))
        × IsReported shelf_platform 7 2
            (at_pointer (actual 0) (record shelf_state { actual = out.contents; firmware = f₂ }))
            out)
      (set_and_check_variable shelf_platform
        (b'd' ∷ [])
        test_vendor_guid
        7
        0
        2
        (image 0)
        2
        (actual 0)
        shelf_state)
set_and_check_variable-Verified_example =
    set_and_check_variable-Verified shelf_platform (b'd' ∷ []) test_vendor_guid 7 0 2 (image 0) 2
      (actual 0) shelf_state

-- A platform without memory: every test fails at its first check.
abbrev poor_heap : Allocator
poor_heap = record { malloc = λ n. none; calloc = λ n. none; realloc = λ b n. none }

abbrev poor_platform : Platform (Unit {0})
poor_platform = record shelf_platform { heap = poor_heap }

abbrev seven_failed : ModuleContext
seven_failed = record { passed_count = 0; failed_count = 7; skipped_count = 0 }

abbrev released_state : TestState (Unit {0})
released_state = record { image = none; actual = none; enum_name = none; drawn = 0; firmware = tt }

-- All seven are counted.
seven_run : uefi_main poor_platform released_state ≡ ok (done (0, seven_failed), released_state)
unfolding uefi_main module_setup test_setup test_cleanup test_valid_non_volatile_vars
    test_valid_auth_vars test_invalid_auth_vars verify_append_shrink_replace_persist
    verify_name_handling verify_query verify_overflow
seven_run = refl

run_test_func-IsReleased_example :
    Verified
      (λ _ s'. IsReleased s')
      (run_test_func
        (tests_module poor_platform)
        (record {
          name = [];
          func =
              set_and_check_variable poor_platform [] test_vendor_guid 7 0 2 (image 0) 2 (image 0);
        })
        no_counts
        shelf_state)
run_test_func-IsReleased_example =
    run_test_func-IsReleased poor_platform
      (record {
        name = [];
        func = set_and_check_variable poor_platform [] test_vendor_guid 7 0 2 (image 0) 2 (image 0);
      })
      no_counts shelf_state

-- A service that has every variable, with more than no data.
abbrev provisioned_platform : Platform (Unit {0})
provisioned_platform = record shelf_platform {
  services = record shelf {
    get_variable =
        λ name vendor attributes size contents f. ok (get_result 5 attributes (some 2) contents, f);
  };
}
