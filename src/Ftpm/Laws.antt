-- ===== src/Ftpm/Laws.antt =====
-- The self test: what the TA is sent, and how it ends.
use qemu_pipeline.Base.{
  ℕ, zero, suc, ◌<◌, ◌≡◌, refl, ◌∙◌, true, ◌&&◌, some, List, [], ◌∷◌, get_or, ◌==◌, if◌then◌else◌,
  arith,
}
use qemu_pipeline.Outcome.{ok, exit}
use qemu_pipeline.Memory.{Block, overwrite, read32, bytes16, bytes32}
use qemu_pipeline.Memory.Laws.{store-ok, overwrite-inside}
use qemu_pipeline.Support.{swap_bytes16, swap_bytes32}
use qemu_pipeline.Driver.Tee.{
  mem_inout, Operation, TeeClient, unused, memref_temp_input, memref_temp_inout,
}
use qemu_pipeline.Driver.Session.{is_success}
use qemu_pipeline.Driver.Session.Laws.{AllocatesMemory}
use qemu_pipeline.Ftpm.{self_test_command, part, selftest}

-- TPM2_SelfTest with TPM_ST_NO_SESSIONS and fullTest, as the TPM specification lays it out, most
-- significant byte first: tag, size, command code, and the flag.
abbrev pub wire : List ℕ
wire = 0x80 ∷ 0x01 ∷ 0x00 ∷ 0x00 ∷ 0x00 ∷ 0x0b ∷ 0x00 ∷ 0x00 ∷ 0x01 ∷ 0x43 ∷ 0x01 ∷ []

self_test_command-wire : (i : ℕ) → i < 11 → self_test_command i ≡ get_or wire i 0
unfolding self_test_command overwrite swap_bytes16 swap_bytes32 bytes16 bytes32
self_test_command-wire zero lt = refl
self_test_command-wire (suc zero) lt = refl
self_test_command-wire (suc (suc zero)) lt = refl
self_test_command-wire (suc (suc (suc zero))) lt = refl
self_test_command-wire (suc (suc (suc (suc zero)))) lt = refl
self_test_command-wire (suc (suc (suc (suc (suc zero))))) lt = refl
self_test_command-wire (suc (suc (suc (suc (suc (suc zero)))))) lt = refl
self_test_command-wire (suc (suc (suc (suc (suc (suc (suc zero))))))) lt = refl
self_test_command-wire (suc (suc (suc (suc (suc (suc (suc (suc zero)))))))) lt = refl
self_test_command-wire (suc (suc (suc (suc (suc (suc (suc (suc (suc zero))))))))) lt = refl
self_test_command-wire (suc (suc (suc (suc (suc (suc (suc (suc (suc (suc zero)))))))))) lt = refl
self_test_command-wire (suc (suc (suc (suc (suc (suc (suc (suc (suc (suc (suc i))))))))))) lt =
    absurd (omega arith)

module _ {W : Type 0} (tee : TeeClient W) (a : AllocatesMemory tee) where
  -- How a self test of a session ends.
  pub record IsTested (w : W) (session : ℕ) : Type 0 where
    pub operation : Operation
    pub command : Block
    pub sent : operation.input ≡ some command
    pub sent_size : operation.input_size ≡ 11
    pub sent_bytes : (i : ℕ) → i < 11 → command.bytes i ≡ get_or wire i 0
    pub start : W
    pub result : selftest tee w session ≡ (
        let reply = tee.invoke_command start session 0 operation in
        if is_success reply.result && (read32 reply.output 6 == 0) then ok reply.world else exit)

  -- Where the shared memory can be allocated, the self test sends the TA the command as the TPM
  -- lays it out, faults in no case, and returns exactly on a success with response code 0; else it
  -- exits.
  pub selftest-IsTested :
      (w : W) (session : ℕ)
      → is_success (tee.allocate_shared_memory w 21 mem_inout).0 ≡ true
      → IsTested w session
  unfolding selftest
  selftest-IsTested w session ready =
      let (b, there, long, below) = a.allocates w 21 mem_inout ready in
      let shared : Block = record b { bytes = overwrite 0 11 self_test_command b.bytes } in
      record {
        operation = record {
          param_types = memref_temp_input ∷ memref_temp_inout ∷ unused ∷ unused ∷ [];
          input = some (part shared 0 11);
          input_size = 11;
          output = some (part shared 11 10);
          output_size = 10;
        };
        command = part shared 0 11;
        sent = refl;
        sent_size = refl;
        sent_bytes = λ i lt.
            overwrite-inside 0 11 self_test_command b.bytes i lt ∙ self_test_command-wire i lt;
        start = (tee.allocate_shared_memory w 21 mem_inout).2;
        result = rw (ready, there, store-ok 0 11 self_test_command b (omega arith)) (ground arith);
      }
