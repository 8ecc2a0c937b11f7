-- ===== src/AuthVarTest/Persist.antt =====
-- VerifyAppendShrinkReplacePersist (authvars_test/host/edk2_variable_test/AuthVarTest.c).
use qemu_pipeline.Base.{ℕ, ◌+◌, ◌*◌, none, some, [], ◌∷◌, ◌==◌, if◌then◌else◌, bit_or}
use qemu_pipeline.Support.{Chars}
use qemu_pipeline.Efi.Attributes.{non_volatile, bootservice_access, runtime_access, append_write}
use qemu_pipeline.Efi.Status
use qemu_pipeline.Outcome.{ok, fault, exit}
use qemu_pipeline.Pool.{allocate_pool, allocate_zero_pool}
use qemu_pipeline.AuthVarTest.{
  TestState, Platform, Pointer, image, local, set_image, set_actual, ask_variable, write_variable,
  fill_from, test_vendor_guid,
}
use qemu_pipeline.AuthVarTest.Check.{
  read_and_check, set_and_check_variable, delete_and_check_variable,
}
use qemu_pipeline.Verify.{
  Test, done, ◌>>=◌, ◌>>◌, pure, verify_succeeded, verify_are_equal, verify_is_not_null,
}

-- The names, the attributes and the sizes.
abbrev pub persistance_test_flag : Chars
persistance_test_flag =
    b'P' ∷ b'e' ∷ b'r' ∷ b's' ∷ b'i' ∷ b's' ∷ b't' ∷ b'a' ∷ b'n' ∷ b'c' ∷ b'e' ∷ b'T' ∷ b'e' ∷ b's'
    ∷ b't' ∷ b'F' ∷ b'l' ∷ b'a' ∷ b'g' ∷ []

abbrev pub interleave_name_1 : Chars
interleave_name_1 =
    b'I' ∷ b'n' ∷ b't' ∷ b'e' ∷ b'r' ∷ b'l' ∷ b'e' ∷ b'a' ∷ b'v' ∷ b'e' ∷ b'T' ∷ b'e' ∷ b's' ∷ b't'
    ∷ b'V' ∷ b'a' ∷ b'r' ∷ b'1' ∷ []

abbrev pub interleave_name_2 : Chars
interleave_name_2 =
    b'I' ∷ b'n' ∷ b't' ∷ b'e' ∷ b'r' ∷ b'l' ∷ b'e' ∷ b'a' ∷ b'v' ∷ b'e' ∷ b'T' ∷ b'e' ∷ b's' ∷ b't'
    ∷ b'V' ∷ b'a' ∷ b'r' ∷ b'2' ∷ []

abbrev pub interleave_name_3 : Chars
interleave_name_3 =
    b'I' ∷ b'n' ∷ b't' ∷ b'e' ∷ b'r' ∷ b'l' ∷ b'e' ∷ b'a' ∷ b'v' ∷ b'e' ∷ b'T' ∷ b'e' ∷ b's' ∷ b't'
    ∷ b'V' ∷ b'a' ∷ b'r' ∷ b'3' ∷ []

abbrev pub nv_attributes : ℕ
nv_attributes = bit_or (bit_or non_volatile runtime_access) bootservice_access

abbrev pub chunk_size : ℕ
chunk_size = 0x10

abbrev pub max_chunks_per_var : ℕ
max_chunks_per_var = 10

abbrev pub buffer_size : ℕ
buffer_size = chunk_size * max_chunks_per_var * 3

-- Buffer1, Buffer2 and Buffer3, from an offset of whole chunks on.
abbrev pub buffer_1 : ℕ → Pointer
buffer_1 chunks = image (chunk_size * chunks)

abbrev pub buffer_2 : Pointer
buffer_2 = image (chunk_size * max_chunks_per_var)

abbrev pub buffer_3 : Pointer
buffer_3 = image (chunk_size * max_chunks_per_var + chunk_size * max_chunks_per_var)

-- Persistanceflag.
abbrev pub flag_byte : Pointer
flag_byte = local (record { address = 0; extent = 1; bytes = λ _. 1 })

module _ {F : Type 0} (p : Platform F) where
  abbrev Checked : Type 0
  Checked = Test (TestState F) (Unit {0})

  -- The loop that fills mImageData with its indices.
  unfoldable pub fill_image : Checked
  unfolding fill_from
  fill_image s = elim s.image [
    | none ↦ fault
    | some b ↦ elim (fill_from (λ i. i) 0 buffer_size 0 b) [
      | ok b' ↦ ok (done tt, record s { image = some b' })
      | fault ↦ fault
      | exit ↦ exit
    ]
  ]

  abbrev prepare : Checked
  prepare = do
    let image = allocate_zero_pool p.heap buffer_size
    set_image image
    verify_is_not_null image
    let actual = allocate_pool p.heap buffer_size
    set_actual actual
    verify_is_not_null actual
    fill_image

  -- What an earlier run has left: the flag is deleted, and the three variables are checked.
  unfoldable pub check_persisted : Checked
  unfolding read_and_check delete_and_check_variable
  check_persisted = do
    delete_and_check_variable p persistance_test_flag test_vendor_guid nv_attributes 0
    attributes ←
        read_and_check p interleave_name_1 test_vendor_guid nv_attributes p.garbage buffer_size
          (chunk_size * 4) (buffer_1 0)
    attributes ←
        read_and_check p interleave_name_2 test_vendor_guid nv_attributes attributes buffer_size
          (chunk_size * 1) buffer_2
    read_and_check p interleave_name_3 test_vendor_guid nv_attributes attributes buffer_size
        (chunk_size * 1) buffer_3
    pure tt

  -- SetAndCheckVariable on a variable of the test, with sizes in chunks.
  abbrev set_chunks : Chars → ℕ → ℕ → Pointer → ℕ → Pointer → Checked
  set_chunks name extra chunks data_add check_chunks data_check =
      set_and_check_variable p name test_vendor_guid nv_attributes extra (chunk_size * chunks)
        data_add (chunk_size * check_chunks) data_check

  -- The interleaved writes.
  unfoldable pub interleave : Checked
  unfolding set_and_check_variable delete_and_check_variable
  interleave = do
    set_chunks interleave_name_1 0 1 (buffer_1 0) 1 (buffer_1 0)
    set_chunks interleave_name_1 append_write 1 (buffer_1 1) 2 (buffer_1 0)
    set_chunks interleave_name_2 0 1 buffer_2 1 buffer_2
    set_chunks interleave_name_1 append_write 2 (buffer_1 2) 4 (buffer_1 0)
    set_chunks interleave_name_1 0 3 (buffer_1 0) 3 (buffer_1 0)
    delete_and_check_variable p interleave_name_2 test_vendor_guid nv_attributes 0
    set_chunks interleave_name_3 0 1 buffer_3 1 buffer_3
    set_chunks interleave_name_1 append_write 1 (buffer_1 3) 4 (buffer_1 0)
    set_chunks interleave_name_2 0 1 buffer_2 1 buffer_2

  unfoldable pub verify_append_shrink_replace_persist : Checked
  unfolding allocate_zero_pool allocate_pool verify_is_not_null verify_are_equal verify_succeeded
      fill_image check_persisted interleave
  verify_append_shrink_replace_persist = do
    prepare
    out ← ask_variable p persistance_test_flag test_vendor_guid none
    if out.status == Status.not_found
        then pure tt
        else do verify_are_equal (out.status) Status.buffer_too_small; check_persisted
    interleave
    status ←
        write_variable p (some persistance_test_flag) test_vendor_guid nv_attributes 1 flag_byte
    verify_succeeded status
    set_image none
