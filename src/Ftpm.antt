-- ===== src/Ftpm.antt =====
-- The fTPM self test (ftpm_test/host/main.c).
pub mod Laws
use qemu_pipeline.Base.{ℕ, ◌+◌, not, some, [], ◌∷◌, ◌==◌, if◌then◌else◌}
use qemu_pipeline.Outcome.{Outcome, ok, exit, ◌>>=◌}
use qemu_pipeline.Memory.{Bytes, Block, bytes16, bytes32, read32, overwrite, deref, store}
use qemu_pipeline.Support.{swap_bytes16, swap_bytes32}
use qemu_pipeline.Driver.Tee.{mem_inout, TeeClient, unused, memref_temp_input, memref_temp_inout}
use qemu_pipeline.Driver.Session.{is_success}
use qemu_pipeline.Efi.Guid.{Guid}

abbrev pub ta_ftpm_uuid : Guid
ta_ftpm_uuid = record {
  data1 = 0x53BAB89C;
  data2 = 0xB864;
  data3 = 0x4D7E;
  data4 = 0xAC ∷ 0xBC ∷ 0x33 ∷ 0xC0 ∷ 0x7A ∷ 0x9C ∷ 0x1B ∷ 0x8D ∷ [];
}

abbrev pub submit_command : ℕ
submit_command = 0

abbrev pub tpm_cc_self_test : ℕ
tpm_cc_self_test = 0x143

abbrev pub tpm_st_no_sessions : ℕ
tpm_st_no_sessions = 0x8001

-- The packed TPM2_SELF_TEST_COMMAND and TPM2_SELF_TEST_RESPONSE.
abbrev pub sizeof_command : ℕ
sizeof_command = 11

abbrev pub sizeof_response : ℕ
sizeof_response = 10

-- The command in the machine's order, its fields swapped to that of the TPM.
unfoldable pub self_test_command : Bytes
unfolding swap_bytes16 swap_bytes32
self_test_command =
    overwrite 10 1 (λ _. 1)
      (overwrite 6 4 (bytes32 (swap_bytes32 tpm_cc_self_test)) (
        overwrite 2 4 (bytes32 (swap_bytes32 sizeof_command))
          (bytes16 (swap_bytes16 tpm_st_no_sessions))))

-- A part of a block that is passed to the TA as a temporary reference.
abbrev pub part : Block → ℕ → ℕ → Block
part b off n = record { address = b.address + off; extent = n; bytes = λ i. b.bytes (off + i) }

module _ {W : Type 0} (tee : TeeClient W) where
  -- selftest: the result, or the end of the process. The response's code is read in the machine's
  -- order.
  unfoldable pub selftest : W → ℕ → Outcome W
  unfolding self_test_command
  selftest w session =
      let (result, buffer, w₁) =
        tee.allocate_shared_memory w (sizeof_command + sizeof_response) mem_inout in
      if not (is_success result) then exit else do
        b ← deref buffer
        b ← store 0 sizeof_command self_test_command b
        let reply = tee.invoke_command w₁ session submit_command (record {
          param_types = memref_temp_input ∷ memref_temp_inout ∷ unused ∷ unused ∷ [];
          input = some (part b 0 sizeof_command);
          input_size = sizeof_command;
          output = some (part b sizeof_command sizeof_response);
          output_size = sizeof_response;
        })
        if not (is_success (reply.result))
            then exit
            else if read32 (reply.output) 6 == 0
            then ok (reply.world)
            else exit

  -- One round of main: a context and a session are opened, the self test is run, and both are
  -- closed.
  abbrev round : W → Outcome W
  round w =
      let (result, w₁) = tee.initialize_context w in
      if not (is_success result)
      then exit
      else let (opened, session, w₂) = tee.open_session w₁ ta_ftpm_uuid in
        if not (is_success opened)
        then exit
        else do w₃ ← selftest w₂ session; ok (tee.finalize_context (tee.close_session w₃ session))

  unfoldable pub main : W → Outcome W
  unfolding selftest
  main w = do w ← round w; round w
