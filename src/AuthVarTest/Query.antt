-- ===== src/AuthVarTest/Query.antt =====
-- VerifyQuery (authvars_test/host/edk2_variable_test/AuthVarTest.c).
pub mod Space
use qemu_pipeline.AuthVarTest.Persist.{nv_attributes}
use qemu_pipeline.Base.{
  ℕ, zero, suc, ◌+◌, ◌-◌, ◌*◌, ◌/◌, ◌%◌, ◌^◌, Bool, true, false, not, ◌&&◌, Option, none, some,
  List, [], ◌∷◌, ◌++◌, leb, ltb, ◌==◌, if◌then◌else◌, given_or, u8, u32, bit_or,
}
use qemu_pipeline.Efi.Guid.{Guid}
use qemu_pipeline.Support.{Chars}
use qemu_pipeline.Efi.Attributes.{
  non_volatile, bootservice_access, runtime_access, append_write,
  time_based_authenticated_write_access,
}
use qemu_pipeline.Efi.Status
use qemu_pipeline.Outcome.{Outcome, ok, fault, exit, assert}
use qemu_pipeline.Memory.{Block, copy_mem, deref}
use qemu_pipeline.Pool.{allocate_pool, allocate_zero_pool}
use qemu_pipeline.AuthVarTest.{
  TestState, Platform, Binary, Pointer, null, image, actual, local, set_image, set_actual,
  ask_variable, fetch_variable, write_variable, query_variables, verify_are_equal_bytes,
  random_bytes, fill_from, test_vendor_guid,
}
use qemu_pipeline.AuthVarTest.Enumerate.{verify_variable_enumerable}
use qemu_pipeline.AuthVarTest.Check.{
  read_and_check, set_and_check_variable, delete_and_check_variable,
  verify_valid_var_write_read_enum_del,
}
use qemu_pipeline.Verify.{
  Test, Result, done, thrown, running, ◌>>=◌, ◌>>◌, pure, lift, call, verify, verify_succeeded,
  verify_are_equal, verify_is_not_null, verify_is_null, verify_is_less_than,
}

abbrev pub query_variable_name : Chars
query_variable_name =
    b'Q' ∷ b'u' ∷ b'e' ∷ b'r' ∷ b'y' ∷ b'T' ∷ b'e' ∷ b's' ∷ b't' ∷ b'V' ∷ b'a' ∷ b'r' ∷ b'i' ∷ b'a'
    ∷ b'b' ∷ b'l' ∷ b'e' ∷ []

abbrev pub volatile_attributes : ℕ
volatile_attributes = bit_or runtime_access bootservice_access

abbrev pub u64 : ℕ → ℕ
u64 n = n % 2 ^ 64

-- VERIFY_IS_TRUE (Remaining <= (Initial - Larger)): the macro puts its cast to BOOLEAN before the
-- condition, where it binds to the first operand only. The difference is that of two UINT64.
unfoldable pub space_is_used : ℕ → ℕ → ℕ → Bool
space_is_used remaining initial larger = leb (u8 remaining) (u64 (initial + 2 ^ 64 - larger))

module _ {F : Type 0} (p : Platform F) where
  abbrev Checked : Type 0
  Checked = Test (TestState F) (Unit {0})

  -- The buffers for a variable of a size, which the calls take as a UINTN.
  abbrev random_images : ℕ → Checked
  random_images size = do
    let image = allocate_zero_pool p.heap size
    set_image image
    verify_is_not_null image
    random_bytes p size
    let actual = allocate_pool p.heap size
    set_actual actual
    verify_is_not_null actual

  -- One round of the loop, with the three sizes that the locals hold.
  unfoldable pub verify_space : ℕ → ℕ × ℕ × ℕ → Test (TestState F) (ℕ × ℕ × ℕ)
  unfolding verify_succeeded verify_is_not_null verify allocate_zero_pool allocate_pool random_bytes
      set_and_check_variable delete_and_check_variable space_is_used
  verify_space attributes (a, b, c) = do
    out ← query_variables p attributes a b c
    verify_succeeded (out.status)
    let initial = given_or (out.remaining_storage) 0
    let initial_maximum = given_or (out.maximum_size) 0
    let larger = u64 (initial_maximum + 0x100)
    random_images (u32 larger)
    set_and_check_variable p query_variable_name test_vendor_guid attributes 0 (u32 larger)
        (image 0) (u32 larger) (image 0)
    out ← query_variables p attributes (given_or (out.maximum_storage) 0) initial initial_maximum
    verify_succeeded (out.status)
    let remaining = given_or (out.remaining_storage) 0
    let maximum = given_or (out.maximum_size) 0
    verify (space_is_used remaining initial larger)
    verify (ltb initial_maximum maximum)
    delete_and_check_variable p query_variable_name test_vendor_guid attributes 0
    set_image none
    set_actual none
    pure (given_or (out.maximum_storage) 0, remaining, maximum)

  unfoldable pub verify_query : Checked
  unfolding verify_space
  verify_query = do
    sizes ← verify_space nv_attributes (p.garbage, p.garbage, p.garbage)
    verify_space volatile_attributes sizes
    pure tt
