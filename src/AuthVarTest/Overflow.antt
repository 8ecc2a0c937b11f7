-- ===== src/AuthVarTest/Overflow.antt =====
-- VerifyOverflow (authvars_test/host/edk2_variable_test/AuthVarTest.c).
use qemu_pipeline.AuthVarTest.Persist.{nv_attributes}
use qemu_pipeline.Base.{ℕ, zero, suc, ◌/◌, false, some, [], ◌∷◌, given_or, u32, bit_or}
use qemu_pipeline.Support.{Chars}
use qemu_pipeline.Efi.Attributes.{append_write}
use qemu_pipeline.Efi.Status
use qemu_pipeline.Pool.{allocate_zero_pool}
use qemu_pipeline.AuthVarTest.{
  TestState, Platform, image, set_image, write_variable, query_variables, random_bytes,
  test_vendor_guid,
}
use qemu_pipeline.AuthVarTest.Enumerate.{verify_variable_enumerable}
use qemu_pipeline.AuthVarTest.Check.{delete_and_check_variable}
use qemu_pipeline.Verify.{
  Test, ◌>>=◌, ◌>>◌, pure, verify_succeeded, verify_are_equal, verify_is_not_null,
  verify_is_less_than,
}

abbrev pub overflow_name_1 : Chars
overflow_name_1 =
    b'T' ∷ b'e' ∷ b's' ∷ b't' ∷ b'V' ∷ b'a' ∷ b'r' ∷ b'i' ∷ b'a' ∷ b'b' ∷ b'l' ∷ b'e' ∷ b'O' ∷ b'v'
    ∷ b'e' ∷ b'r' ∷ b'f' ∷ b'l' ∷ b'o' ∷ b'w' ∷ b'1' ∷ []

abbrev pub overflow_name_2 : Chars
overflow_name_2 =
    b'T' ∷ b'e' ∷ b's' ∷ b't' ∷ b'V' ∷ b'a' ∷ b'r' ∷ b'i' ∷ b'a' ∷ b'b' ∷ b'l' ∷ b'e' ∷ b'O' ∷ b'v'
    ∷ b'e' ∷ b'r' ∷ b'f' ∷ b'l' ∷ b'o' ∷ b'w' ∷ b'2' ∷ []

-- LargerVariableSize.
abbrev pub overflow_chunk : ℕ
overflow_chunk = 0x2000

-- OverflowGoal, a UINT32.
abbrev pub overflow_goal : ℕ → ℕ
overflow_goal remaining = u32 (remaining / overflow_chunk)

module _ {F : Type 0} (p : Platform F) where
  abbrev Checked : Type 0
  Checked = Test (TestState F) (Unit {0})

  abbrev append_chunk : Test (TestState F) ℕ
  append_chunk =
      write_variable p (some overflow_name_1) test_vendor_guid (bit_or nv_attributes append_write)
        overflow_chunk (image 0)

  -- The loop that appends to the first variable.
  unfoldable pub fill_storage : ℕ → Checked
  unfolding verify_succeeded
  fill_storage zero = pure tt
  fill_storage (suc n) = do status ← append_chunk; verify_succeeded status; fill_storage n

  -- The two writes that are too much, and what they leave.
  unfoldable pub verify_full : Checked
  unfolding verify_are_equal delete_and_check_variable verify_variable_enumerable
  verify_full = do
    status ← append_chunk
    verify_are_equal Status.out_of_resources status
    status ←
        write_variable p (some overflow_name_2) test_vendor_guid nv_attributes overflow_chunk
          (image 0)
    verify_are_equal Status.out_of_resources status
    delete_and_check_variable p overflow_name_1 test_vendor_guid nv_attributes 0
    verify_variable_enumerable p overflow_name_2 test_vendor_guid false

  unfoldable pub verify_overflow : Checked
  unfolding verify_succeeded verify_is_not_null verify_is_less_than allocate_zero_pool random_bytes
      fill_storage verify_full
  verify_overflow = do
    out ← query_variables p nv_attributes p.garbage p.garbage p.garbage
    verify_succeeded (out.status)
    let remaining = given_or (out.remaining_storage) 0
    let image = allocate_zero_pool p.heap overflow_chunk
    set_image image
    verify_is_not_null image
    random_bytes p overflow_chunk
    fill_storage (overflow_goal remaining)
    out ←
        query_variables p nv_attributes (given_or (out.maximum_storage) 0) remaining
          (given_or (out.maximum_size) 0)
    verify_succeeded (out.status)
    verify_is_less_than (given_or (out.remaining_storage) 0) overflow_chunk
    verify_full
