-- ===== src/AuthVarTest/Main.antt =====
-- ModuleSetup, TestSetup, TestCleanup and UefiMain
-- (authvars_test/host/edk2_variable_test/AuthVarTest.c).
pub mod Laws
use qemu_pipeline.Base.{
  ℕ, Bool, true, false, not, Option, none, some, List, [], ◌∷◌, ◌==◌, if◌then◌else◌,
}
use qemu_pipeline.Outcome.{Outcome, ok, fault, exit}
use qemu_pipeline.Efi.Status
use qemu_pipeline.Support.{Chars}
use qemu_pipeline.Driver.SecureBoot.{global_variable, platform_key_name}
use qemu_pipeline.Harness.{
  TestMetadata, ModuleMetadata, ModuleContext, register_test_func, run_module,
}
use qemu_pipeline.Verify.{Test, Result, done, thrown, running, ◌>>=◌, ◌>>◌, pure}
use qemu_pipeline.AuthVarTest.{TestState, Platform, test_vendor_guid}
use qemu_pipeline.AuthVarTest.Persist.{verify_append_shrink_replace_persist}
use qemu_pipeline.AuthVarTest.Names.{verify_name_handling}
use qemu_pipeline.AuthVarTest.Query.{verify_query}
use qemu_pipeline.AuthVarTest.Overflow.{overflow_name_1, verify_overflow}
use qemu_pipeline.AuthVarTest.Blobs.{
  test_valid_auth_vars, test_invalid_auth_vars, test_valid_non_volatile_vars,
}

-- The counts that MODULE starts with.
abbrev pub no_counts : ModuleContext
no_counts = record { passed_count = 0; failed_count = 0; skipped_count = 0 }

module _ {F : Type 0} (p : Platform F) where
  -- ModuleSetup: a platform key that is there stops the tests.
  unfoldable pub module_setup : TestState F → Outcome (Bool × TestState F)
  module_setup s =
      elim (p.services.get_variable (some platform_key_name) (some global_variable) none (some 0)
        none s.firmware) [
          | ok (out, f) ↦
              ok (not (out.status == Status.buffer_too_small), record s { firmware = f })
          | fault ↦ fault
          | exit ↦ exit
        ]

  -- TestSetup sets the log level only.
  unfoldable pub test_setup : TestState F → Outcome (Bool × TestState F)
  test_setup s = ok (true, s)

  -- TestCleanup: the buffers are freed, and the variable of VerifyOverflow is deleted.
  unfoldable pub test_cleanup : TestState F → Outcome (Unit {0} × TestState F)
  test_cleanup s =
      elim (p.services.set_variable (some overflow_name_1) (some test_vendor_guid) 0 0 none
        s.firmware) [
          | ok (_, f) ↦
              ok (tt, record s { image = none; actual = none; enum_name = none; firmware = f })
          | fault ↦ fault
          | exit ↦ exit
        ]

  -- MODULE, MODULE_SETUP, TEST_SETUP and TEST_CLEANUP: the module before its tests.
  abbrev empty_module : ModuleMetadata (TestState F)
  empty_module = record {
    module_setup = some module_setup;
    module_cleanup = none;
    test_setup = some test_setup;
    test_cleanup = some test_cleanup;
    tests = [];
  }

  -- TEST_FUNC.
  abbrev register_all :
      List (TestMetadata (TestState F))
      → ModuleMetadata (TestState F)
      → ModuleMetadata (TestState F)
  register_all [] m = m
  register_all (t ∷ ts) m = register_all ts (register_test_func m t)

  abbrev pub all_tests : List (TestMetadata (TestState F))
  all_tests =
      record {
        name =
            b'T' ∷ b'e' ∷ b's' ∷ b't' ∷ b'V' ∷ b'a' ∷ b'l' ∷ b'i' ∷ b'd' ∷ b'N' ∷ b'o' ∷ b'n' ∷ b'V'
            ∷ b'o' ∷ b'l' ∷ b'a' ∷ b't' ∷ b'i' ∷ b'l' ∷ b'e' ∷ b'V' ∷ b'a' ∷ b'r' ∷ b's' ∷ [];
        func = test_valid_non_volatile_vars p;
      }
      ∷ record {
        name =
            b'V' ∷ b'e' ∷ b'r' ∷ b'i' ∷ b'f' ∷ b'y' ∷ b'A' ∷ b'p' ∷ b'p' ∷ b'e' ∷ b'n' ∷ b'd' ∷ b'S'
            ∷ b'h' ∷ b'r' ∷ b'i' ∷ b'n' ∷ b'k' ∷ b'R' ∷ b'e' ∷ b'p' ∷ b'l' ∷ b'a' ∷ b'c' ∷ b'e'
            ∷ b'P' ∷ b'e' ∷ b'r' ∷ b's' ∷ b'i' ∷ b's' ∷ b't' ∷ [];
        func = verify_append_shrink_replace_persist p;
      }
      ∷ record {
        name =
            b'V' ∷ b'e' ∷ b'r' ∷ b'i' ∷ b'f' ∷ b'y' ∷ b'N' ∷ b'a' ∷ b'm' ∷ b'e' ∷ b'H' ∷ b'a' ∷ b'n'
            ∷ b'd' ∷ b'l' ∷ b'i' ∷ b'n' ∷ b'g' ∷ [];
        func = verify_name_handling p;
      }
      ∷ record {
        name = b'V' ∷ b'e' ∷ b'r' ∷ b'i' ∷ b'f' ∷ b'y' ∷ b'Q' ∷ b'u' ∷ b'e' ∷ b'r' ∷ b'y' ∷ [];
        func = verify_query p;
      }
      ∷ record {
        name =
            b'T' ∷ b'e' ∷ b's' ∷ b't' ∷ b'V' ∷ b'a' ∷ b'l' ∷ b'i' ∷ b'd' ∷ b'A' ∷ b'u' ∷ b't' ∷ b'h'
            ∷ b'V' ∷ b'a' ∷ b'r' ∷ b's' ∷ [];
        func = test_valid_auth_vars p;
      }
      ∷ record {
        name =
            b'T' ∷ b'e' ∷ b's' ∷ b't' ∷ b'I' ∷ b'n' ∷ b'v' ∷ b'a' ∷ b'l' ∷ b'i' ∷ b'd' ∷ b'A' ∷ b'u'
            ∷ b't' ∷ b'h' ∷ b'V' ∷ b'a' ∷ b'r' ∷ b's' ∷ [];
        func = test_invalid_auth_vars p;
      }
      ∷ record {
        name =
            b'V' ∷ b'e' ∷ b'r' ∷ b'i' ∷ b'f' ∷ b'y' ∷ b'O' ∷ b'v' ∷ b'e' ∷ b'r' ∷ b'f' ∷ b'l' ∷ b'o'
            ∷ b'w' ∷ [];
        func = verify_overflow p;
      }
      ∷ []

  unfoldable pub tests_module : ModuleMetadata (TestState F)
  unfolding register_test_func
  tests_module = register_all all_tests empty_module

  -- UefiMain, with the counts of its summary.
  unfoldable pub uefi_main : Test (TestState F) (ℕ × ModuleContext)
  unfolding tests_module run_module
  uefi_main = do
    (ran, counts) ← run_module tests_module no_counts
    pure (if ran then 0 else 1, counts)
