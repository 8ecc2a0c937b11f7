-- ===== src/Driver/Session.antt =====
-- TaOpenSession, OpteeRuntimeOnExitBootServices and VariableAuthOpteeRuntimeInitialize
-- (authvars_test/host/edk2_driver/AuthVarsDxe.c), with the globals of edk2/uefi_globals.c.
pub mod Laws
use qemu_pipeline.Base.{ℕ, ◌+◌, Bool, true, false, not, [], ◌∷◌, ltb, ◌==◌, if◌then◌else◌}
use qemu_pipeline.Outcome.{Outcome, ok, ◌>>=◌}
use qemu_pipeline.Efi.Status
use qemu_pipeline.Efi.Status.{efi_error}
use qemu_pipeline.Efi.Guid.{Guid}
use qemu_pipeline.Driver.Layout.{sizeof_variable_param}
use qemu_pipeline.Driver.Tee.{
  TeecResult, success, MemFlags, mem_input, mem_output, SharedMemory, TeeClient,
}
use qemu_pipeline.Driver.State.{Driver}

abbrev pub optee_auth_var_ta_guid : Guid
optee_auth_var_ta_guid = record {
  data1 = 0x2d57c0f7;
  data2 = 0xbddf;
  data3 = 0x48ea;
  data4 = 0x83 ∷ 0x2f ∷ 0xd8 ∷ 0x4a ∷ 0x1a ∷ 0x21 ∷ 0x93 ∷ 0x01 ∷ [];
}

abbrev pub max_variable_size : ℕ
max_variable_size = 0x2000

abbrev pub max_hardware_error_variable_size : ℕ
max_hardware_error_variable_size = 0x8000

abbrev pub is_success : TeecResult → Bool
is_success success = true
is_success _ = false

-- The size of both transport buffers.
abbrev pub transport_size : ℕ
transport_size =
    (if ltb max_hardware_error_variable_size max_variable_size
      then max_variable_size
      else max_hardware_error_variable_size)
    + sizeof_variable_param

module _ {W : Type 0} (tee : TeeClient W) where
  -- TEEC_AllocateSharedMemory on a buffer whose size and flags have been set.
  abbrev allocated : SharedMemory → MemFlags → W → TeecResult × SharedMemory × W
  allocated m flags w =
      let (result, buffer, w') = tee.allocate_shared_memory w transport_size flags in
      (result, record { buffer = buffer; size = transport_size; flags = flags }, w')

  -- The second buffer, once the first is there.
  abbrev open_result : Driver W → ℕ × Driver W
  open_result d =
      let (result, m, w) = allocated d.result_mem mem_output d.world in
      (
        if is_success result then Status.success else Status.out_of_resources,
        record d { world = w; result_mem = m },
      )

  abbrev open_param : Driver W → ℕ × Driver W
  open_param d =
      let (result, m, w) = allocated d.param_mem mem_input d.world in
      let d' = record d { world = w; param_mem = m } in
      if is_success result then open_result d' else (Status.out_of_resources, d')

  unfoldable pub ta_open_session : Driver W → ℕ × Driver W
  ta_open_session d =
      let (result, id, w) = tee.open_session d.world optee_auth_var_ta_guid in
      let d' = record d { world = w; session_id = id } in
      if is_success result
      then open_param (record d' { session_opened = true })
      else (Status.protocol_error, d')

  abbrev close_if_opened : Driver W → Driver W
  close_if_opened d =
      if d.session_opened
      then record d { world = tee.close_session d.world d.session_id; session_opened = false }
      else d

  abbrev release_buffers : Driver W → Driver W
  release_buffers d =
      let (p, w) = tee.release_shared_memory d.world d.param_mem in
      let (r, w') = tee.release_shared_memory w d.result_mem in
      record d { world = w'; param_mem = p; result_mem = r }

  unfoldable pub on_exit_boot_services : Driver W → Driver W
  on_exit_boot_services d =
      let d' = close_if_opened d in
      release_buffers (record d' { world = tee.finalize_context (d'.world) })
