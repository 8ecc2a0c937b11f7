-- ===== src/AuthVarTest/Names.antt =====
-- VerifyNameHandling (authvars_test/host/edk2_variable_test/AuthVarTest.c).
use qemu_pipeline.AuthVarTest.Persist.{nv_attributes}
use qemu_pipeline.Base.{ℕ, zero, suc, ◌+◌, ◌-◌, ◌%◌, true, false, Option, none, some, List, [], ◌∷◌}
use qemu_pipeline.Support.{Chars}
use qemu_pipeline.Efi.Status
use qemu_pipeline.Pool.{allocate_pool, allocate_zero_pool}
use qemu_pipeline.AuthVarTest.{
  TestState, Platform, image, actual, set_image, set_actual, write_variable, random_bytes,
  test_vendor_guid,
}
use qemu_pipeline.AuthVarTest.Enumerate.{verify_variable_enumerable}
use qemu_pipeline.AuthVarTest.Check.{
  read_and_check, set_and_check_variable, delete_and_check_variable,
}
use qemu_pipeline.Verify.{
  Test, ◌>>=◌, ◌>>◌, pure, verify_succeeded, verify_are_equal, verify_is_not_null,
}

-- TestVariableName2 is the first name with more terminators behind it, and the two empty strings
-- are alike: as strings they are the same.
abbrev pub name_test_variable : Chars
name_test_variable =
    b'N' ∷ b'a' ∷ b'm' ∷ b'e' ∷ b'T' ∷ b'e' ∷ b's' ∷ b't' ∷ b'V' ∷ b'a' ∷ b'r' ∷ b'i' ∷ b'a' ∷ b'b'
    ∷ b'l' ∷ b'e' ∷ []

abbrev pub reference : Chars
reference = b'a' ∷ b'b' ∷ b'c' ∷ b'd' ∷ []

abbrev pub test_names : List Chars
test_names =
    (0xe0 ∷ b'b' ∷ b'c' ∷ b'd' ∷ [])
    ∷ (b'a' ∷ b'b' ∷ 0x5c ∷ b'c' ∷ b'd' ∷ [])
    ∷ (b'a' ∷ b'b' ∷ b'/' ∷ b'c' ∷ b'd' ∷ [])
    ∷ (b'A' ∷ b'b' ∷ b'C' ∷ b'd' ∷ [])
    ∷ (b'a' ∷ b' ' ∷ b'b' ∷ b'c' ∷ b'd' ∷ [])
    ∷ (b'a' ∷ b'?' ∷ b'c' ∷ b'd' ∷ [])
    ∷ []

-- The loop that builds "abc...xyzabc...", at index `i`.
unfoldable pub long_string : ℕ → ℕ → Chars
long_string zero i = []
long_string (suc n) i = (b'a' + i % 26) ∷ long_string n (suc i)

abbrev pub long_string_length : ℕ
long_string_length = 3000

abbrev pub name_data_size : ℕ
name_data_size = 0x200

module _ {F : Type 0} (p : Platform F) where
  abbrev Checked : Type 0
  Checked = Test (TestState F) (Unit {0})

  abbrev random_image : Checked
  random_image = do
    let image = allocate_zero_pool p.heap name_data_size
    set_image image
    verify_is_not_null image
    random_bytes p name_data_size

  -- SetVariable is refused: EFI_INVALID_PARAMETER.
  abbrev verify_refused : Option Chars → Checked
  verify_refused name = do
    status ← write_variable p name test_vendor_guid nv_attributes name_data_size (image 0)
    verify_are_equal Status.invalid_parameter status

  -- SetAndCheckVariable with mActualImageData itself as the expected data; ActualDataSize has been
  -- verified to be DataSize.
  abbrev set_and_check_name : Chars → Checked
  set_and_check_name name =
      set_and_check_variable p name test_vendor_guid nv_attributes 0 name_data_size (image 0)
        name_data_size (actual 0)

  -- The normal name, the padded name.
  unfoldable pub verify_padded_name : Checked
  unfolding verify_succeeded read_and_check verify_variable_enumerable delete_and_check_variable
  verify_padded_name = do
    status ←
        write_variable p (some name_test_variable) test_vendor_guid nv_attributes name_data_size
          (image 0)
    verify_succeeded status
    attributes ←
        read_and_check p name_test_variable test_vendor_guid nv_attributes p.garbage name_data_size
          name_data_size (image 0)
    verify_variable_enumerable p name_test_variable test_vendor_guid true
    read_and_check p name_test_variable test_vendor_guid nv_attributes attributes name_data_size
        name_data_size (image 0)
    verify_variable_enumerable p name_test_variable test_vendor_guid true
    delete_and_check_variable p name_test_variable test_vendor_guid nv_attributes 0

  -- The two loops over the list of names.
  unfoldable pub verify_names : List Chars → Checked
  unfolding allocate_zero_pool verify_is_not_null random_bytes verify_variable_enumerable
      set_and_check_variable
  verify_names [] = pure tt
  verify_names (name ∷ names) = do
    random_image
    verify_variable_enumerable p name test_vendor_guid false
    set_and_check_name name
    verify_variable_enumerable p reference test_vendor_guid false
    verify_names names

  unfoldable pub delete_names : List Chars → Checked
  unfolding delete_and_check_variable
  delete_names [] = pure tt
  delete_names (name ∷ names) = do
    delete_and_check_variable p name test_vendor_guid nv_attributes 0
    delete_names names

  unfoldable pub verify_name_handling : Checked
  unfolding allocate_zero_pool allocate_pool verify_is_not_null verify_are_equal random_bytes
      verify_padded_name set_and_check_variable delete_and_check_variable verify_names delete_names
      long_string
  verify_name_handling = do
    random_image
    let actual = allocate_pool p.heap name_data_size
    set_actual actual
    verify_is_not_null actual
    verify_padded_name
    verify_refused (some [])
    verify_refused (some [])
    verify_refused none
    let long = long_string (long_string_length - 1) 0
    set_and_check_name long
    delete_and_check_variable p long test_vendor_guid nv_attributes 0
    verify_names test_names
    delete_names test_names
