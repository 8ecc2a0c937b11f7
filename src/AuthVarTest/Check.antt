-- ===== src/AuthVarTest/Check.antt =====
-- SetAndCheckVariable, DeleteAndCheckVariable and VerifyValidVarWriteReadEnumDel
-- (authvars_test/host/edk2_variable_test/AuthVarTest.c).
pub mod Calls
pub mod Laws
pub mod Passes
pub mod Read
pub mod Cycle
pub mod Stored
pub mod Whole
pub mod OnDriver
use qemu_pipeline.Base.{
  ℕ, Bool, true, false, Option, none, some, given_or, if◌then◌else◌, bit_or, u32,
}
use qemu_pipeline.Efi.Status
use qemu_pipeline.Efi.Guid.{Guid}
use qemu_pipeline.Support.{Chars}
use qemu_pipeline.Outcome.{Outcome, ok, fault, exit}
use qemu_pipeline.Pool.{allocate_pool}
use qemu_pipeline.AuthVarTest.{
  TestState, Platform, Pointer, null, image, actual, set_actual, ask_variable, fetch_variable,
  write_variable, verify_are_equal_bytes,
}
use qemu_pipeline.AuthVarTest.Enumerate.{verify_variable_enumerable}
use qemu_pipeline.Verify.{
  Test, Result, done, thrown, running, ◌>>=◌, ◌>>◌, pure, verify_succeeded, verify_are_equal,
  verify_is_not_null,
}

module _ {F : Type 0} (p : Platform F) where
  abbrev Checked : Type 0
  Checked = Test (TestState F) (Unit {0})

  -- gRT->GetVariable into mActualImageData, and the checks of the status, the attributes, the size
  -- and the bytes. The result is what the local for the attributes holds after it.
  unfoldable pub read_and_check : Chars → Guid → ℕ → ℕ → ℕ → ℕ → Pointer → Test (TestState F) ℕ
  unfolding verify_succeeded verify_are_equal verify_are_equal_bytes
  read_and_check name vendor expected old_attributes buffer_size size expected_data = do
    out ← fetch_variable p name vendor old_attributes buffer_size
    verify_succeeded (out.status)
    verify_are_equal expected (given_or (out.attributes) 0)
    verify_are_equal size (given_or (out.data_size) 0)
    verify_are_equal_bytes expected_data (actual 0) (given_or (out.data_size) 0)
    pure (given_or (out.attributes) 0)

  -- SetAndCheckVariable.
  unfoldable pub set_and_check_variable : Chars → Guid → ℕ → ℕ → ℕ → Pointer → ℕ → Pointer → Checked
  unfolding read_and_check verify_is_not_null verify_succeeded verify_variable_enumerable
  set_and_check_variable name vendor base extra add_size add check_size check s =
      (do
        verify_is_not_null s.actual
        status ← write_variable p (some name) vendor (bit_or base extra) add_size add
        verify_succeeded status
        read_and_check name vendor base p.garbage check_size check_size check
        verify_variable_enumerable p name vendor true)
        s

  -- DeleteAndCheckVariable.
  unfoldable pub delete_and_check_variable : Chars → Guid → ℕ → ℕ → Checked
  unfolding verify_succeeded verify_are_equal verify_variable_enumerable
  delete_and_check_variable name vendor base extra = do
    status ← write_variable p (some name) vendor (bit_or base extra) 0 null
    verify_succeeded status
    out ← ask_variable p name vendor (some p.garbage)
    verify_are_equal Status.not_found (out.status)
    verify_variable_enumerable p name vendor false

  -- The part of VerifyValidVarWriteReadEnumDel that reads the contents, into new memory of the size
  -- that has been reported.
  unfoldable pub read_allocated : Chars → Guid → ℕ → ℕ → Pointer → Bool → ℕ → Checked
  unfolding verify_succeeded verify_are_equal verify_are_equal_bytes verify_is_not_null
      allocate_pool
  read_allocated name vendor attributes size content verify_data reported = do
    let b = allocate_pool p.heap reported
    set_actual b
    verify_is_not_null b
    out ← fetch_variable p name vendor p.garbage reported
    verify_succeeded (out.status)
    if verify_data
        then (do
          verify_are_equal attributes (given_or (out.attributes) 0)
          verify_are_equal_bytes content (actual 0) size)
        else pure tt
    set_actual none

  -- The checks on the variable that it has written: the size, then the contents.
  unfoldable pub read_written : Chars → Guid → ℕ → ℕ → Pointer → Bool → Checked
  unfolding verify_are_equal read_allocated
  read_written name vendor attributes size content verify_data = do
    out ← ask_variable p name vendor none
    verify_are_equal Status.buffer_too_small (out.status)
    if verify_data then verify_are_equal (given_or (out.data_size) 0) size else pure tt
    read_allocated name vendor attributes size content verify_data (given_or (out.data_size) 0)

  unfoldable pub verify_absent : Chars → Guid → Checked
  unfolding verify_are_equal
  verify_absent name vendor = do
    out ← ask_variable p name vendor none
    verify_are_equal Status.not_found (out.status)

  -- A write, which must be accepted, and the enumeration after it.
  unfoldable pub set_and_enumerate : Chars → Guid → ℕ → ℕ → Pointer → Bool → Checked
  unfolding verify_succeeded verify_variable_enumerable
  set_and_enumerate name vendor attributes size content expected = do
    status ← write_variable p (some name) vendor attributes size content
    verify_succeeded status
    verify_variable_enumerable p name vendor expected

  -- VerifyValidVarWriteReadEnumDel.
  unfoldable pub verify_valid_var_write_read_enum_del :
      Chars → Guid → ℕ → ℕ → Pointer → Bool → Checked
  unfolding verify_absent read_written set_and_enumerate
  verify_valid_var_write_read_enum_del name vendor attributes size content verify_data = do
    verify_absent name vendor
    set_and_enumerate name vendor attributes size content true
    read_written name vendor attributes size content verify_data
    set_and_enumerate name vendor 0 size content false
    verify_absent name vendor
