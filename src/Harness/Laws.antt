-- ===== src/Harness/Laws.antt =====
-- Every test is counted once, and how many can be registered and run.
use qemu_pipeline.Base.{
  ℕ, ◌+◌, ◌≤◌, ◌<◌, ◌≡◌, ◌^◌, refl, false, true, List, [], ◌∷◌, ◌++◌, length, length-append, arith,
  le→leb, lt→leb, leb, Bool,
}
use qemu_pipeline.Outcome.{Outcome, ok, fault, exit}
use qemu_pipeline.Verify.{Result, done, thrown, running}
use qemu_pipeline.Verify.Laws.{
  Verified, on_done, on_running, on_fault, on_exit, Verified-bind, Verified-of_eq, Verified-mono,
  Verified-if, Verified-any, step,
}
use qemu_pipeline.Harness.{
  TestMetadata, ModuleMetadata, ModuleContext, register_test_func, run_setup, run_cleanup,
  count_end, try_test, run_test_func, run_tests, run_module, test_metadata_max,
}

abbrev pub counted : ModuleContext → ℕ
counted c = c.passed_count + c.failed_count + c.skipped_count

-- The count is `n`.
abbrev Counts : {S : Type 0} → ℕ → ModuleContext → S → Type 0
Counts n c s = counted c ≡ n

abbrev pub AllCounted : {S : Type 0} → ModuleMetadata S → Bool × ModuleContext → S → Type 0
AllCounted m r s = r.0 ≡ true → counted (r.1) ≡ length m.tests

module _ {S : Type 0} where
  count_end-Verified :
      (c : ModuleContext) (o : Outcome (Result (Unit {0}) × S))
      → counted c + 1 < 2 ^ 32
      → Verified (Counts (counted c + 1)) (count_end c o)
  count_end-Verified c (ok (done _, s)) h = on_done (omega arith)
  count_end-Verified c (ok (thrown, s)) h = on_done (omega arith)
  count_end-Verified c (ok (running, s)) h = on_running
  count_end-Verified c fault h = on_fault
  count_end-Verified c exit h = on_exit

  run_test_func-counted :
      (m : ModuleMetadata S) (t : TestMetadata S) (c : ModuleContext) (s : S)
      → counted c + 1 < 2 ^ 32
      → Verified (Counts (counted c + 1)) (run_test_func m t c s)
  unfolding run_test_func try_test
  run_test_func-counted m t c s h =
      Verified-bind (Verified-any (run_setup m.test_setup s)) (λ ready s₁ _.
        Verified-if ready _ _
          (λ _. Verified-bind (count_end-Verified c (t.func s₁) h) (λ c' s₂ e.
            Verified-bind (Verified-any (run_cleanup m.test_cleanup s₂)) (λ _ _ _. on_done e)))
          (λ _. on_done (omega arith)))

  run_tests-counted :
      (m : ModuleMetadata S) (ts : List (TestMetadata S)) (c : ModuleContext) (s : S)
      → counted c + length ts < 2 ^ 32
      → Verified (Counts (counted c + length ts)) (run_tests m ts c s)
  unfolding run_tests
  run_tests-counted m [] c s h = on_done (omega arith)
  run_tests-counted m (t ∷ ts) c s h =
      Verified-bind (run_test_func-counted m t c s (omega arith)) (λ c' s' e.
        Verified-mono (run_tests-counted m ts c' s' (omega arith)) (λ _ _ e'. omega arith))

  pub run_module-Verified :
      (m : ModuleMetadata S) (c : ModuleContext) (s : S)
      → counted c ≡ 0
      → Verified (AllCounted m) (run_module m c s)
  unfolding run_module
  run_module-Verified m c s h =
      Verified-if (leb test_metadata_max (length m.tests)) _ _ (λ _. on_done (λ e. cc))
        (λ room. Verified-bind (Verified-any (run_setup m.module_setup s)) (λ ready s₁ _.
          Verified-if ready _ _
            (λ _.
              Verified-bind (run_tests-counted m m.tests c s₁ (omega (arith, ltb-room room)))
                (λ c' s₂ e.
                  Verified-bind (Verified-any (run_cleanup m.module_cleanup s₂))
                    (λ _ _ _. on_done (λ _. omega arith))))
            (λ _. on_done (λ e. cc))))
    where
      ltb-room : leb test_metadata_max (length m.tests) ≡ false → length m.tests < 32
      ltb-room e = ground arith

  -- The summary adds up: where RunModule_ starts from zero counts and returns TRUE, each registered
  -- test has been counted exactly once, as passed, failed or skipped, however the tests end.
  pub run_module-counted :
      (m : ModuleMetadata S) (c c' : ModuleContext) (s s' : S)
      → counted c ≡ 0
      → run_module m c s ≡ ok (done (true, c'), s')
      → counted c' ≡ length m.tests
  run_module-counted m c c' s s' h e = Verified-of_eq (run_module-Verified m c s h) e refl

  -- A module whose setup fails runs nothing.
  pub run_module-unready :
      (m : ModuleMetadata S) (c : ModuleContext) (s s' : S)
      → length m.tests < 32
      → run_setup m.module_setup s ≡ ok (done false, s')
      → run_module m c s ≡ ok (done (false, c), s')
  unfolding run_module
  run_module-unready m c s s' room e = rw (lt→leb 32 (length m.tests) (omega arith)) (step _ e refl)

  -- A module with the 32 tests that the array has room for, and that RegisterTestFunc_ accepts, is
  -- refused by RunModule_, which runs nothing.
  pub run_module_full :
      (m : ModuleMetadata S) (t : TestMetadata S) (c : ModuleContext) (s : S)
      → length m.tests ≡ 31
      → (length (register_test_func m t).tests ≡ 32)
        × (run_module (register_test_func m t) c s ≡ ok (done (false, c), s))
  unfolding run_module register_test_func
  run_module_full m t c s h =
      rw
        (
          lt→leb 32 (length m.tests) (omega arith),
          le→leb 32 (length (m.tests ++ t ∷ [])) (omega (arith, more)),
        )
        (omega (arith, more), refl)
    where
      more : length (m.tests ++ t ∷ []) ≡ length m.tests + 1
      more = length-append m.tests (t ∷ [])

  -- Registration keeps to the room in the array: 32 tests at most stay 32 at most.
  pub register_test_func_bound :
      (m : ModuleMetadata S) (t : TestMetadata S)
      → length m.tests ≤ test_metadata_max
      → length (register_test_func m t).tests ≤ test_metadata_max
  unfolding register_test_func
  register_test_func_bound m t h = ground (arith, length-append m.tests (t ∷ []))
