-- ===== src/AuthVarTest/Blobs.antt =====
-- TestValidAuthVars, TestInvalidAuthVars and TestValidNonVolatileVars
-- (authvars_test/host/edk2_variable_test/AuthVarTest.c).
use qemu_pipeline.Driver.SecureBoot.{global_variable}
use qemu_pipeline.AuthVarTest.Persist.{nv_attributes}
use qemu_pipeline.Base.{ℕ, true, false, none, some, List, [], ◌∷◌, ◌++◌, bit_or}
use qemu_pipeline.Efi.Guid.{Guid}
use qemu_pipeline.Support.{Chars}
use qemu_pipeline.Efi.Attributes.{time_based_authenticated_write_access}
use qemu_pipeline.Efi.Status
use qemu_pipeline.Outcome.{ok, fault, exit}
use qemu_pipeline.Memory.{copy_mem}
use qemu_pipeline.Pool.{allocate_zero_pool}
use qemu_pipeline.AuthVarTest.{
  TestState, Platform, Binary, image, set_image, write_variable, random_bytes, test_vendor_guid,
}
use qemu_pipeline.AuthVarTest.Check.{verify_valid_var_write_read_enum_del}
use qemu_pipeline.Verify.{
  Test, done, ◌>>=◌, ◌>>◌, pure, verify_are_equal, verify_is_not_null, verify_is_null,
}

abbrev pub image_security_database_guid : Guid
image_security_database_guid = record {
  data1 = 0xd719b2cb;
  data2 = 0x3d3a;
  data3 = 0x4596;
  data4 = 0xa3 ∷ 0xbc ∷ 0xda ∷ 0xd0 ∷ 0xe ∷ 0x67 ∷ 0x65 ∷ 0x6f ∷ [];
}

abbrev pub image_security_database : Chars
image_security_database = b'd' ∷ b'b' ∷ []

abbrev pub key_exchange_key_name : Chars
key_exchange_key_name = b'K' ∷ b'E' ∷ b'K' ∷ []

abbrev pub test_variable_prefix : Chars
test_variable_prefix =
    b'T' ∷ b'e' ∷ b's' ∷ b't' ∷ b'V' ∷ b'a' ∷ b'r' ∷ b'i' ∷ b'a' ∷ b'b' ∷ b'l' ∷ b'e' ∷ b'#' ∷ []

-- AuthVarInfo.
pub record AuthVarInfo : Type 0 where
  pub binary : Binary
  pub vendor_guid : Guid
  pub variable_name : Chars

abbrev pub auth_attributes : ℕ
auth_attributes = bit_or nv_attributes time_based_authenticated_write_access

abbrev pub buffer_sizes : List ℕ
buffer_sizes = 1 ∷ 2 ∷ 3 ∷ 4 ∷ 8 ∷ 16 ∷ 32 ∷ 64 ∷ 128 ∷ 512 ∷ 0x400 ∷ 0x1000 ∷ 0x2000 ∷ 0x4000 ∷ []

-- SIZE_1KB, ImageSize of TestInvalidAuthVars.
abbrev pub garbage_size : ℕ
garbage_size = 1000

module _ {F : Type 0} (p : Platform F) where
  abbrev Checked : Type 0
  Checked = Test (TestState F) (Unit {0})

  -- mSecureBootVariables.
  abbrev pub secure_boot_db : AuthVarInfo
  secure_boot_db = record {
    binary = p.test_db;
    vendor_guid = image_security_database_guid;
    variable_name = image_security_database;
  }

  abbrev pub secure_boot_kek : AuthVarInfo
  secure_boot_kek = record {
    binary = p.test_kek;
    vendor_guid = global_variable;
    variable_name = key_exchange_key_name;
  }

  abbrev zeroed_image : ℕ → Checked
  zeroed_image size = do
    let image = allocate_zero_pool p.heap size
    set_image image
    verify_is_not_null image

  -- CopyMem of a binary into mImageData.
  abbrev load_image : Binary → Checked
  load_image binary s = elim s.image [
    | none ↦ fault
    | some b ↦ elim (copy_mem 0 binary.contents 0 binary.size b) [
      | ok b' ↦ ok (done tt, record s { image = some b' })
      | fault ↦ fault
      | exit ↦ exit
    ]
  ]

  -- The round of TestValidAuthVars on one entry of the table.
  unfoldable pub verify_auth_var : AuthVarInfo → Checked
  unfolding verify_is_null verify_is_not_null allocate_zero_pool copy_mem
      verify_valid_var_write_read_enum_del
  verify_auth_var info s =
      (do
        verify_is_null s.image
        zeroed_image (info.binary.size)
        load_image (info.binary)
        verify_valid_var_write_read_enum_del p info.variable_name info.vendor_guid auth_attributes
            (info.binary.size) (image 0) false
        set_image none)
        s

  unfoldable pub test_valid_auth_vars : Checked
  unfolding verify_auth_var
  test_valid_auth_vars = do verify_auth_var secure_boot_db; verify_auth_var secure_boot_kek

  unfoldable pub test_invalid_auth_vars : Checked
  unfolding verify_is_not_null verify_are_equal allocate_zero_pool random_bytes
  test_invalid_auth_vars = do
    zeroed_image garbage_size
    random_bytes p garbage_size
    status ←
        write_variable p (some image_security_database) image_security_database_guid auth_attributes
          garbage_size (image 0)
    verify_are_equal Status.security_violation status

  -- The loop of TestValidNonVolatileVars; the number in the name is printed by swprintf.
  unfoldable pub verify_sizes : List ℕ → Checked
  unfolding verify_is_not_null allocate_zero_pool random_bytes verify_valid_var_write_read_enum_del
  verify_sizes [] = pure tt
  verify_sizes (size ∷ sizes) = do
    zeroed_image size
    random_bytes p size
    verify_valid_var_write_read_enum_del p (test_variable_prefix ++ p.decimal size) test_vendor_guid
        nv_attributes size (image 0) true
    set_image none
    verify_sizes sizes

  unfoldable pub test_valid_non_volatile_vars : Checked
  unfolding verify_sizes
  test_valid_non_volatile_vars = verify_sizes buffer_sizes
