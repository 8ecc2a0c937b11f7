-- ===== src/Harness.antt =====
-- The test harness (authvars_test/host/edk2_test_harness/EdkTest.h). Setup and cleanup functions
-- and tests are functions on the state `S` of the program under test.
pub mod Laws
pub mod Timer
use qemu_pipeline.Outcome.{Outcome, ok, fault, exit}
use qemu_pipeline.Verify.{Test, Result, done, thrown, running, ◌>>=◌, ◌>>◌, pure, call}
use qemu_pipeline.Base.{
  ℕ, ◌+◌, Bool, true, false, Option, none, some, List, [], ◌∷◌, ◌++◌, leb, if◌then◌else◌, length,
  u32,
}

-- TEST_METADATA: a name and a function.
pub record TestMetadata (S : Type 0) : Type 0 where
  pub name : List ℕ
  pub func : Test S (Unit {0})

abbrev pub Setup : Type 0 → Type 0
Setup S = Option (S → Outcome (Bool × S))

abbrev pub Cleanup : Type 0 → Type 0
Cleanup S = Option (S → Outcome (Unit {0} × S))

-- MODULE_METADATA; TestMetadataCount is the length of `tests`.
pub record ModuleMetadata (S : Type 0) : Type 0 where
  pub module_setup : Setup S
  pub module_cleanup : Cleanup S
  pub test_setup : Setup S
  pub test_cleanup : Cleanup S
  pub tests : List (TestMetadata S)

-- The counts of MODULE_CONTEXT, each a UINT32.
pub record ModuleContext : Type 0 where
  pub passed_count : ℕ
  pub failed_count : ℕ
  pub skipped_count : ℕ

abbrev pub test_metadata_max : ℕ
test_metadata_max = 32

abbrev pub count_passed : ModuleContext → ModuleContext
count_passed c = record c { passed_count = u32 (c.passed_count + 1) }

abbrev pub count_failed : ModuleContext → ModuleContext
count_failed c = record c { failed_count = u32 (c.failed_count + 1) }

abbrev pub count_skipped : ModuleContext → ModuleContext
count_skipped c = record c { skipped_count = u32 (c.skipped_count + 1) }

module _ {S : Type 0} where
  -- A missing setup function succeeds, a missing cleanup function does nothing.
  abbrev pub run_setup : Setup S → Test S Bool
  run_setup none = pure true
  run_setup (some f) = call f

  abbrev pub run_cleanup : Cleanup S → Test S (Unit {0})
  run_cleanup none = pure tt
  run_cleanup (some f) = call f

  -- TEST_TRY_ and TEST_CATCH_: the counts after the test function, which returns or throws.
  abbrev pub count_end :
      ModuleContext → Outcome (Result (Unit {0}) × S) → Outcome (Result ModuleContext × S)
  count_end c (ok (done _, s)) = ok (done (count_passed c), s)
  count_end c (ok (thrown, s)) = ok (done (count_failed c), s)
  count_end c (ok (running, s)) = ok (running, s)
  count_end c fault = fault
  count_end c exit = exit

  unfoldable pub try_test : Test S (Unit {0}) → ModuleContext → Test S ModuleContext
  try_test f c s = count_end c (f s)

  -- RegisterTestFunc_.
  unfoldable pub register_test_func : ModuleMetadata S → TestMetadata S → ModuleMetadata S
  register_test_func m t =
      if leb test_metadata_max (length m.tests) then m else record m { tests = m.tests ++ t ∷ [] }

  -- RunTestFunc_. A test whose setup fails is skipped, and its cleanup is not run.
  unfoldable pub run_test_func :
      ModuleMetadata S → TestMetadata S → ModuleContext → Test S ModuleContext
  unfolding try_test
  run_test_func m t c = do
    ready ← run_setup m.test_setup
    if ready
        then (do c ← try_test t.func c; run_cleanup m.test_cleanup; pure c)
        else pure (count_skipped c)

  unfoldable pub run_tests :
      ModuleMetadata S → List (TestMetadata S) → ModuleContext → Test S ModuleContext
  unfolding run_test_func
  run_tests m [] c = pure c
  run_tests m (t ∷ ts) c = do c ← run_test_func m t c; run_tests m ts c

  -- RunModule_, with its result.
  unfoldable pub run_module : ModuleMetadata S → ModuleContext → Test S (Bool × ModuleContext)
  unfolding run_tests
  run_module m c = if leb test_metadata_max (length m.tests) then pure (false, c) else do
    ready ← run_setup m.module_setup
    if ready
        then (do c ← run_tests m m.tests c; run_cleanup m.module_cleanup; pure (true, c))
        else pure (false, c)
