-- ===== src/AuthVarTest/Main/Laws.antt =====
-- What a run of UefiMain shows, and what it leaves alone.
use qemu_pipeline.Base.{ℕ, ◌≡◌, inl, inr, refl, Bool, true, false, some, none, arith, if◌then◌else◌}
use qemu_pipeline.Outcome.{Outcome-cases, ok}
use qemu_pipeline.Efi.Status
use qemu_pipeline.Driver.Get.{GetResult}
use qemu_pipeline.Driver.SecureBoot.{global_variable, platform_key_name}
use qemu_pipeline.Harness.{TestMetadata, ModuleContext, count_end, run_test_func}
use qemu_pipeline.Harness.Laws.{counted, run_module-Verified, run_module-unready}
use qemu_pipeline.Verify.{done, call}
use qemu_pipeline.Verify.Laws.{
  Verified, on_done, on_fault, on_exit, Verified-bind, Verified-of_eq, Verified-any, step,
}
use qemu_pipeline.AuthVarTest.{TestState, Platform, test_vendor_guid}
use qemu_pipeline.AuthVarTest.Overflow.{overflow_name_1}
use qemu_pipeline.AuthVarTest.Main.{
  no_counts, module_setup, test_setup, test_cleanup, tests_module, uefi_main,
}

abbrev exit_code : Bool → ℕ
exit_code ran = if ran then 0 else 1

zero_ran : (ran : Bool) → exit_code ran ≡ 0 → ran ≡ true
zero_ran true e = refl
zero_ran false e = absurd (ground arith)

-- mImageData, mActualImageData and mEnumVariableName are NULL.
pub record IsReleased {F : Type 0} (s : TestState F) : Type 0 where
  pub image : s.image ≡ none
  pub actual : s.actual ≡ none
  pub enum_name : s.enum_name ≡ none

module _ {F : Type 0} (p : Platform F) where
  uefi_main-Verified :
      (s : TestState F) → Verified (λ r _. r.0 ≡ 0 → counted (r.1) ≡ 7) (uefi_main p s)
  unfolding uefi_main
  uefi_main-Verified s =
      Verified-bind (run_module-Verified (tests_module p) no_counts s refl)
        (λ (ran, counts) s' h. on_done (λ e. h (zero_ran ran e)))

  -- Where UefiMain returns 0, its summary accounts for all seven tests: each has passed, failed or
  -- been skipped.
  pub uefi_main-counted :
      (counts : ModuleContext) (s s' : TestState F)
      → uefi_main p s ≡ ok (done (0, counts), s')
      → counted counts ≡ 7
  uefi_main-counted counts s s' e = Verified-of_eq (uefi_main-Verified s) e refl

  module_setup-provisioned :
      (s : TestState F) (out : GetResult) (f : F)
      → p.services.get_variable
          (some platform_key_name)
          (some global_variable)
          none
          (some 0)
          none
          s.firmware
        ≡ ok (out, f)
      → out.status ≡ Status.buffer_too_small
      → call (module_setup p) s ≡ ok (done false, record s { firmware = f })
  unfolding module_setup
  module_setup-provisioned s out f e status = rw (call, module_setup, e, status) refl

  -- Where a platform key is there, so that GetVariable reports a buffer that is too small, UefiMain
  -- returns 1 after that one call: no test runs, nothing is written.
  pub uefi_main-provisioned :
      (s : TestState F) (out : GetResult) (f : F)
      → p.services.get_variable
          (some platform_key_name)
          (some global_variable)
          none
          (some 0)
          none
          s.firmware
        ≡ ok (out, f)
      → out.status ≡ Status.buffer_too_small
      → uefi_main p s ≡ ok (done (1, no_counts), record s { firmware = f })
  unfolding uefi_main tests_module
  uefi_main-provisioned s out f e status =
      step _
        (run_module-unready (tests_module p) no_counts s (record s { firmware = f }) (omega arith)
          (module_setup-provisioned s out f e status))
        refl

  cleanup-Released : (s : TestState F) → Verified (λ _ s'. IsReleased s') (call (test_cleanup p) s)
  unfolding test_cleanup
  cleanup-Released s =
      elim (Outcome-cases (
        p.services.set_variable (some overflow_name_1) (some test_vendor_guid) 0 0 none
          s.firmware)) [
            | inl ((status, f), e) ↦
                rw (call, test_cleanup, e)
                  (on_done (record { image = refl; actual = refl; enum_name = refl }))
            | inr (inl e) ↦ rw (call, test_cleanup, e) on_fault
            | inr (inr e) ↦ rw (call, test_cleanup, e) on_exit
          ]

  -- After each test whose setup and cleanup return, however the test ended, the three buffers are
  -- released, so that the next test starts without them.
  pub run_test_func-IsReleased :
      (t : TestMetadata (TestState F)) (c : ModuleContext) (s : TestState F)
      → Verified (λ _ s'. IsReleased s') (run_test_func (tests_module p) t c s)
  unfolding run_test_func tests_module test_setup
  run_test_func-IsReleased t c s =
      Verified-bind (Verified-any (count_end c (t.func s)))
        (λ c' s' _. Verified-bind (cleanup-Released s') (λ _ s'' h. on_done h))
