-- ===== src/Tests/Helpers.antt =====
-- The helpers of the driver, the status codes, the GUIDs and the harness on concrete inputs.
use qemu_pipeline.Base.{
  ℕ, ◌≤◌, ◌+◌, ◌-◌, ◌*◌, ◌/◌, ◌%◌, ◌^◌, ◌<◌, ◌≡◌, ◌≢◌, ◌↔◌, refl, arith, false, true, none, List,
  [], ◌∷◌, length, get_or,
}
use qemu_pipeline.Outcome.{ok, Returns}
use qemu_pipeline.Memory.{read32, set_mem}
use qemu_pipeline.Memory.Laws.{set_mem_zero}
use qemu_pipeline.Efi.Status.{efi_error}
use qemu_pipeline.Efi.Status.Codes.{
  ErrorName, err_not_found, warn_write_failure, status_success, status_error, status_warning,
  status_code, efi_error-status_code,
}
use qemu_pipeline.Efi.Guid.{compare_guid}
use qemu_pipeline.Efi.Guid.Laws.{compare_guid_iff}
use qemu_pipeline.Support.{Chars}
use qemu_pipeline.Wide.{fix_wide_string}
use qemu_pipeline.Wide.Laws.{SameOutside, HasUnits, HasChars, cut, fix_wide_string-HasUnits}
use qemu_pipeline.Wide.RoundTrip.{through_ta, restore-fix, restore-fix_sign}
use qemu_pipeline.Verify.{done, thrown}
use qemu_pipeline.Harness.Timer.{
  hpc_timer_start, hpc_timer_elapsed_milliseconds, hpc_timer_elapsed_milliseconds-start,
}
use qemu_pipeline.Harness.{
  TestMetadata, ModuleMetadata, ModuleContext, register_test_func, run_module,
}
use qemu_pipeline.Harness.Laws.{counted, run_module-counted, run_module_full}
use qemu_pipeline.AuthVarTest.Main.{no_counts}
use qemu_pipeline.Tests.Demo.{demo_block, demo_guid, demo_guid-IsGuid, demo_name}

set_mem_zero_example : set_mem 16 0 (demo_block 0x1000 16) ≡ ok (demo_block 0x1000 16)
set_mem_zero_example = set_mem_zero 16 (demo_block 0x1000 16) (omega arith)

abbrev code : ℕ
code = 5

compare_guid_iff_example : (compare_guid demo_guid demo_guid ≡ true) ↔ (demo_guid ≡ demo_guid)
compare_guid_iff_example = compare_guid_iff demo_guid demo_guid demo_guid-IsGuid demo_guid-IsGuid

fix_wide_string-HasUnits_example :
    Returns
      (λ b.
        SameOutside 24 (24 + 2 * (length demo_name + 1)) (demo_block 0x1000 40) b
        × HasUnits b 24 (cut demo_name))
      (fix_wide_string demo_name 24 (demo_block 0x1000 40))
fix_wide_string-HasUnits_example =
    fix_wide_string-HasUnits demo_name 24 (demo_block 0x1000 40) (omega arith)

restore-fix_example :
    Returns
      (λ b. HasChars b demo_name)
      (through_ta demo_name (demo_block 0x1000 40) 24 (demo_block 0x2000 12))
restore-fix_example =
    restore-fix demo_name (demo_block 0x1000 40) 24 (demo_block 0x2000 12) (omega arith)
      (omega arith) ((omega arith, omega arith), ((omega arith, omega arith), tt))

abbrev high_name : Chars
high_name = 0x9000 ∷ []

restore-fix_sign_example :
    Returns
      (λ b.
        (read32 b.bytes (4 * 0) ≡ get_or high_name 0 0 + 0xffff0000)
        × (read32 b.bytes (4 * 0) ≢ get_or high_name 0 0))
      (through_ta high_name (demo_block 0x1000 40) 24 (demo_block 0x2000 12))
restore-fix_sign_example =
    restore-fix_sign high_name (demo_block 0x1000 40) 24 (demo_block 0x2000 12) 0 (omega arith)
      (omega arith) ((omega arith, omega arith), tt) (omega arith) (omega arith)

abbrev demo_test : TestMetadata ℕ
demo_test = record { name = b'a' ∷ []; func = λ s. ok (done tt, s + 1) }

-- A test whose VERIFY fails.
abbrev failing_test : TestMetadata ℕ
failing_test = record { name = b'b' ∷ []; func = λ s. ok (thrown, s) }

abbrev demo_module : List (TestMetadata ℕ) → ModuleMetadata ℕ
demo_module tests = record {
  module_setup = none;
  module_cleanup = none;
  test_setup = none;
  test_cleanup = none;
  tests = tests;
}

abbrev one_test : ModuleMetadata ℕ
one_test = demo_module (demo_test ∷ [])

abbrev two_tests : ModuleMetadata ℕ
two_tests = demo_module (demo_test ∷ failing_test ∷ [])

abbrev two_counts : ModuleContext
two_counts = record { passed_count = 1; failed_count = 1; skipped_count = 0 }

abbrev five : List (TestMetadata ℕ) → List (TestMetadata ℕ)
five ts = demo_test ∷ demo_test ∷ demo_test ∷ demo_test ∷ demo_test ∷ ts

abbrev nearly_full : ModuleMetadata ℕ
nearly_full = demo_module (demo_test ∷ five (five (five (five (five (five []))))))

run_module-counted_example : counted two_counts ≡ length two_tests.tests
unfolding run_module
run_module-counted_example = run_module-counted two_tests no_counts two_counts 0 1 refl refl

run_module_full_example :
    (length (register_test_func nearly_full demo_test).tests ≡ 32)
    × (run_module (register_test_func nearly_full demo_test) no_counts 0
        ≡ ok (done (false, no_counts), 0))
run_module_full_example = run_module_full nearly_full demo_test no_counts 0 refl

efi_error-status_code_example :
    ((efi_error (status_code (status_error err_not_found)) ≡ false)
      ↔ (status_error err_not_found ≡ status_success))
    × ((e : ErrorName) × (status_code (status_error e)
          ≡ status_code (status_warning warn_write_failure)))
efi_error-status_code_example =
    efi_error-status_code (status_error err_not_found) warn_write_failure

-- clock() goes from its positive values to its negative ones after 5 of 10 ticks.
abbrev turning : ℕ
turning = 2 ^ 31 - 5

hpc_timer_elapsed_milliseconds-start_example :
    ((turning < 2 ^ 31 → turning + 10 < 2 ^ 31)
      → hpc_timer_elapsed_milliseconds 1000000 ((turning + 10) % 2 ^ 32) (hpc_timer_start turning)
        ≡ ok (10 * 1000 / 1000000))
    × (turning < 2 ^ 31
        → 2 ^ 31 ≤ turning + 10
        → hpc_timer_elapsed_milliseconds 1000000 ((turning + 10) % 2 ^ 32) (hpc_timer_start turning)
          ≡ ok ((2 ^ 64 - (2 ^ 32 - 10) * 1000) / 1000000))
hpc_timer_elapsed_milliseconds-start_example =
    hpc_timer_elapsed_milliseconds-start 1000000 turning 10 (omega arith) (omega arith)
      (omega arith)
