-- ===== src/Verify.antt =====
-- The exceptions and the VERIFY macros of the test harness
-- (authvars_test/host/edk2_test_harness/EdkTest.h).
pub mod Laws
pub mod Passes
pub mod Macros
use qemu_pipeline.Base.{
  ℕ, ◌%◌, ◌^◌, u32, Bool, true, false, not, Option, ltb, u8, ◌==◌, if◌then◌else◌, is_none,
}
use qemu_pipeline.Outcome.{Outcome, ok, fault, exit}
use qemu_pipeline.Efi.Status.{efi_error}

-- How a piece of a test ends: it goes on with a value, a VERIFY macro jumps to the handler that
-- RunTestFunc_ has set, or a loop still runs after the rounds that it was given.
pub data Result {ℓ} (A : Type ℓ) : Type ℓ where
  done : A → Result A
  thrown running : Result A

-- A piece of a test on the state `S` of the program.
abbrev pub Test : Type 0 → Type 0 → Type 0
Test S A = S → Outcome (Result A × S)

-- ARE_EQUAL_PRED_, IS_LESS_THAN_PRED_ and IS_GREATER_THAN_PRED_.
abbrev pub are_equal_pred : ℕ → ℕ → Bool
are_equal_pred left right = left == right

abbrev pub is_less_than_pred : ℕ → ℕ → Bool
is_less_than_pred lesser greater = ltb lesser greater

abbrev pub is_greater_than_pred : ℕ → ℕ → Bool
is_greater_than_pred greater lesser = ltb lesser greater

module _ {S : Type 0} where
  -- The rest of a test, on how the piece before it ended.
  abbrev pub thread :
      {A B : Type 0} → Outcome (Result A × S) → (A → Test S B) → Outcome (Result B × S)
  thread (ok (done a, s)) f = f a s
  thread (ok (thrown, s)) f = ok (thrown, s)
  thread (ok (running, s)) f = ok (running, s)
  thread fault f = fault
  thread exit f = exit

  infixl 5 ◌>>=◌ ◌>>◌
  abbrev pub ◌>>=◌ : {A B : Type 0} → Test S A → (A → Test S B) → Test S B
  ◌>>=◌ m f s = thread (m s) f

  abbrev pub ◌>>◌ : {A B : Type 0} → Test S A → Test S B → Test S B
  m >> k = m >>= λ _. k

  abbrev pub pure : {A : Type 0} → A → Test S A
  pure a s = ok (done a, s)

  -- A call that throws nothing.
  abbrev pub call : {A : Type 0} → (S → Outcome (A × S)) → Test S A
  call f s = elim (f s) [ ok (a, s') ↦ ok (done a, s') | fault ↦ fault | exit ↦ exit ]

  abbrev pub lift : {A : Type 0} → Outcome A → Test S A
  lift (ok a) s = ok (done a, s)
  lift fault s = fault
  lift exit s = exit

  -- The two helpers behind the VERIFY macros: the predicate's value is the expected one, or
  -- TEST_TRHOW_.
  unfoldable pub verify : Bool → Test S (Unit {0})
  verify holds s = ok (if holds then done tt else thrown, s)

  -- The macros that the tests go through convert their operands to the type T__ that they name.
  -- Here the operands are values of that type already, which the conversion leaves as they are;
  -- Macros says so of `verify_binary`, which converts.
  unfoldable pub verify_are_equal : ℕ → ℕ → Test S (Unit {0})
  unfolding verify
  verify_are_equal expected actual = verify (expected == actual)

  unfoldable pub verify_succeeded : ℕ → Test S (Unit {0})
  unfolding verify
  verify_succeeded status = verify (not (efi_error status))

  unfoldable pub verify_is_less_than : ℕ → ℕ → Test S (Unit {0})
  unfolding verify
  verify_is_less_than lesser greater = verify (ltb lesser greater)

  unfoldable pub verify_is_null : {A : Type 0} → Option A → Test S (Unit {0})
  unfolding verify
  verify_is_null p = verify (is_none p)

  unfoldable pub verify_is_not_null : {A : Type 0} → Option A → Test S (Unit {0})
  unfolding verify
  verify_is_not_null p = verify (not (is_none p))

  -- VERIFY_BINARY_PREDICATE_HELPER_ with a T__ of `width` bits, unsigned: both operands are
  -- converted.
  unfoldable pub verify_binary : ℕ → (ℕ → ℕ → Bool) → Bool → ℕ → ℕ → Test S (Unit {0})
  unfolding verify
  verify_binary width pred expected_result expected actual =
      let result = pred (expected % 2 ^ width) (actual % 2 ^ width) in
      verify (if expected_result then result else not result)

  -- The macros that no piece of a test goes through. VERIFY_IS_GREATER_THAN hands its predicate the
  -- lesser value first.
  unfoldable pub verify_are_not_equal : ℕ → ℕ → ℕ → Test S (Unit {0})
  unfolding verify_binary
  verify_are_not_equal width expected actual =
      verify_binary width are_equal_pred false expected actual

  unfoldable pub verify_is_greater_than : ℕ → ℕ → ℕ → Test S (Unit {0})
  unfolding verify_binary
  verify_is_greater_than width greater lesser =
      verify_binary width is_greater_than_pred true lesser greater

  -- The value is converted to an EFI_STATUS of 32 bits.
  unfoldable pub verify_failed : ℕ → Test S (Unit {0})
  unfolding verify
  verify_failed status = verify (not (not (efi_error (u32 status))))

  -- The value is cast to a BOOLEAN of eight bits.
  unfoldable pub verify_is_true : ℕ → Test S (Unit {0})
  unfolding verify
  verify_is_true condition = verify (not (u8 condition == 0))

  unfoldable pub verify_is_false : ℕ → Test S (Unit {0})
  unfolding verify
  verify_is_false condition = verify (not (not (u8 condition == 0)))
