-- ===== src/Driver/Session/Laws.antt =====
-- What a session's start and end leave of the driver.
use qemu_pipeline.Base.{ℕ, ◌+◌, ◌^◌, ◌≤◌, ◌≡◌, ◌≢◌, refl, false, true, Option, none, some, arith}
use qemu_pipeline.Outcome.{ok, fault}
use qemu_pipeline.Memory.{Block}
use qemu_pipeline.Efi.Status
use qemu_pipeline.Efi.Guid.{Guid}
use qemu_pipeline.Support.{Chars, str_size}
use qemu_pipeline.Driver.Tee.{TeecResult, MemFlags, mem_input, mem_output, TeeClient}
use qemu_pipeline.Driver.State.{Driver, IsReady}
use qemu_pipeline.Driver.Get.{get_result, get_checked, get_variable, first_char}
use qemu_pipeline.Driver.Get.Answer.{is_hook}
use qemu_pipeline.Driver.Set.{set_send, set_checked, set_variable}
use qemu_pipeline.Driver.Session.{
  is_success, optee_auth_var_ta_guid, transport_size, ta_open_session, on_exit_boot_services,
}

module _ {W : Type 0} (tee : TeeClient W) where
  -- TEEC_AllocateSharedMemory, where it succeeds, sets the buffer to memory as long as was asked
  -- for.
  pub record AllocatesMemory : Type 0 where
    pub allocates :
        (w : W) (n : ℕ) (flags : MemFlags)
        → is_success (tee.allocate_shared_memory w n flags).0 ≡ true
        → (b : Block) × ((tee.allocate_shared_memory w n flags).1 ≡ some b)
          × (n ≤ b.extent)
          × (b.address + n ≤ 2 ^ 32)

  -- TEEC_AllocateSharedMemory of the first and of the second buffer, and what went before.
  abbrev opened_session : Driver W → TeecResult × ℕ × W
  opened_session d = tee.open_session d.world optee_auth_var_ta_guid

  abbrev first_buffer : Driver W → TeecResult × Option Block × W
  first_buffer d = tee.allocate_shared_memory (opened_session d).2 transport_size mem_input

  abbrev second_buffer : Driver W → TeecResult × Option Block × W
  second_buffer d = tee.allocate_shared_memory (first_buffer d).2 transport_size mem_output

  -- Its status is that of the first of the three calls that fails.
  ta_open_session-status :
      (d : Driver W)
      → (ta_open_session tee d).0 ≡ Status.success
      → (is_success (opened_session d).0 ≡ true)
        × (is_success (first_buffer d).0 ≡ true)
        × (is_success (second_buffer d).0 ≡ true)
  unfolding ta_open_session
  ta_open_session-status d e = ground arith

  -- Where TaOpenSession succeeds, the session is open and both transport buffers are allocated with
  -- their 32812 bytes.
  pub ta_open_session-IsReady :
      (d : Driver W)
      → AllocatesMemory
      → (ta_open_session tee d).0 ≡ Status.success
      → (IsReady (ta_open_session tee d).1)
        × ((ta_open_session tee d).1.session_opened ≡ true)
        × ((ta_open_session tee d).1.param_mem.size ≡ 32812)
        × ((ta_open_session tee d).1.result_mem.size ≡ 32812)
  unfolding ta_open_session
  ta_open_session-IsReady d m e =
      let (o, f, s) = ta_open_session-status d e in
      let (p, p_there, p_long, p_below) = m.allocates _ transport_size mem_input f in
      let (r, r_there, r_long, r_below) = m.allocates _ transport_size mem_output s in
      rw (o, f)
        (
          record {
            param = p;
            result = r;
            param_IsBuffer = record { buffer = p_there; extent = p_long; address = p_below };
            result_IsBuffer = record { buffer = r_there; extent = r_long; address = r_below };
            param_small = omega arith;
            result_small = omega arith;
          },
          refl,
          refl,
          refl,
        )

  -- After OpteeRuntimeOnExitBootServices the TA is out of reach: GetVariable and SetVariable with
  -- valid arguments, but for the test hook of GetVariable, return EFI_NOT_READY, change nothing and
  -- do not call the TA.
  pub on_exit_boot_services-not_ready :
      (name : Chars) (vendor : Guid) (attributes : Option ℕ) (attributes' size : ℕ) (b : Block)
      (d : Driver W)
      → is_hook name vendor size ≡ false
      → first_char name ≢ 0
      → (get_variable tee
            (some name)
            (some vendor)
            attributes
            (some size)
            (some b)
            (on_exit_boot_services tee d)
          ≡ ok (
            get_result Status.not_ready attributes (some size) (some b),
            on_exit_boot_services tee d,
          ))
        × (set_variable tee
              (some name)
              (some vendor)
              attributes'
              size
              (some b)
              (on_exit_boot_services tee d)
            ≡ ok (Status.not_ready, on_exit_boot_services tee d))
  unfolding on_exit_boot_services get_variable get_checked set_variable set_checked
  on_exit_boot_services-not_ready name vendor attributes attributes' size b d plain named =
      ground arith

  -- A failure to allocate the first transport buffer leaves the session open with that buffer NULL,
  -- and a SetVariable with valid arguments that fit then clears through the NULL pointer.
  pub set_variable-after_failed_open :
      (name : Chars) (vendor : Guid) (attributes size : ℕ) (b : Block) (d : Driver W)
      → is_success (opened_session d).0 ≡ true
      → is_success (first_buffer d).0 ≡ false
      → (first_buffer d).1 ≡ none
      → is_hook name vendor size ≡ false
      → first_char name ≢ 0
      → 44 + str_size name + size ≤ 32812
      → ((ta_open_session tee d).0 ≡ Status.out_of_resources)
        × (set_variable tee
              (some name)
              (some vendor)
              attributes
              size
              (some b)
              (ta_open_session tee d).1
            ≡ fault)
  unfolding ta_open_session set_variable set_checked set_send
  set_variable-after_failed_open name vendor attributes size b d o f missing plain named fits =
      rw (o, f, missing, plain) (refl, ground arith)
