-- ===== src/Verify/Macros.antt =====
-- When the VERIFY macros go on (authvars_test/host/edk2_test_harness/EdkTest.h).
use native.Mathlib.Nat.{mod-eq_of_lt}
use qemu_pipeline.Base.{
  ℕ, ◌%◌, ◌^◌, u32, ◌<◌, ◌≡◌, ◌≢◌, ◌↔◌, refl, Bool, true, false, not, u8, ◌==◌, ltb, arith,
}
use qemu_pipeline.Outcome.{ok}
use qemu_pipeline.Verify.{
  Test, done, verify, verify_binary, are_equal_pred, is_less_than_pred, verify_are_equal,
  verify_are_not_equal, verify_is_less_than, verify_is_greater_than, verify_succeeded,
  verify_failed, verify_is_true, verify_is_false,
}

-- The piece goes on, with the state as it was.
abbrev pub GoesOn : {S : Type 0} → Test S (Unit {0}) → S → Type 0
GoesOn m s = m s ≡ ok (done tt, s)

module _ {S : Type 0} (s : S) where
  verify_iff : (b : Bool) → GoesOn (verify b) s ↔ (b ≡ true)
  unfolding verify
  verify_iff true = ((λ e. refl), λ e. refl)
  verify_iff false = ((λ e. cc), λ e. cc)

  by_test : {P : Type 0} (b : Bool) → ((b ≡ true) ↔ P) → GoesOn (verify b) s ↔ P
  by_test b (to, from) = let (out, back) = verify_iff b in ((λ e. to (out e)), λ h. back (from h))

  -- On two values of their type, VERIFY_ARE_EQUAL and VERIFY_IS_LESS_THAN are the helper with their
  -- predicates: the conversion leaves the values as they are.
  verify_binary-of_type :
      (width m n : ℕ)
      → m < 2 ^ width
      → n < 2 ^ width
      → (verify_binary width are_equal_pred true m n s ≡ verify_are_equal m n s)
        × (verify_binary width is_less_than_pred true m n s ≡ verify_is_less_than m n s)
  unfolding verify_binary verify_are_equal verify_is_less_than
  verify_binary-of_type width m n hm hn = rw (mod-eq_of_lt hm, mod-eq_of_lt hn) (refl, refl)

  -- VERIFY_IS_GREATER_THAN goes on exactly where its first value, converted, is less than the
  -- second, and VERIFY_ARE_NOT_EQUAL where the two, converted, differ.
  verify_is_greater_than_iff :
      (width m n : ℕ)
      → (GoesOn (verify_is_greater_than width m n) s ↔ (m % 2 ^ width < n % 2 ^ width))
        × (GoesOn (verify_are_not_equal width m n) s ↔ (m % 2 ^ width ≢ n % 2 ^ width))
  unfolding verify_is_greater_than verify_are_not_equal verify_binary
  verify_is_greater_than_iff width m n = (
    by_test (ltb (m % 2 ^ width) (n % 2 ^ width)) ((λ e. ground arith), λ e. ground arith),
    by_test (not (m % 2 ^ width == n % 2 ^ width)) ((λ e e'. ground arith), λ h. ground (arith, h)),
  )

  -- On a status of 32 bits, VERIFY_SUCCEEDED and VERIFY_FAILED go on exactly on EFI_SUCCESS and on
  -- every other status; VERIFY_IS_TRUE and VERIFY_IS_FALSE go on exactly on a value that a cast to
  -- eight bits does not make 0, and on one that it does.
  verify_conditions_iff :
      (n : ℕ)
      → n < 2 ^ 32
      → (GoesOn (verify_succeeded n) s ↔ (n ≡ 0))
        × (GoesOn (verify_failed n) s ↔ (n ≢ 0))
        × (GoesOn (verify_is_true n) s ↔ (u8 n ≢ 0))
        × (GoesOn (verify_is_false n) s ↔ (u8 n ≡ 0))
  unfolding verify_succeeded verify_failed verify_is_true verify_is_false
  verify_conditions_iff n small = (
    by_test (not (not (n == 0))) ((λ e. ground arith), λ e. ground arith),
    by_test (not (not (not (u32 n == 0)))) ((λ e e'. ground arith), λ h. ground (arith, h, small)),
    by_test (not (u8 n == 0)) ((λ e e'. ground arith), λ h. ground (arith, h)),
    by_test (not (not (u8 n == 0))) ((λ e. ground arith), λ e. ground arith),
  )
