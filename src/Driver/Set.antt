-- ===== src/Driver/Set.antt =====
-- OpteeRuntimeSetVariable (authvars_test/host/edk2_driver/AuthVarsDxe.c).
pub mod Laws
pub mod Safety
pub mod Answer
use qemu_pipeline.Base.{
  ℕ, ◌+◌, Bool, true, false, not, ◌&&◌, ◌||◌, Option, none, some, ltb, leb, ◌==◌, if◌then◌else◌,
  is_none, u32,
}
use qemu_pipeline.Outcome.{Outcome, ok, ◌>>=◌, ◌>>◌}
use qemu_pipeline.Memory.{Block, deref, load32, zero_mem}
use qemu_pipeline.Efi.Status
use qemu_pipeline.Efi.Guid.{Guid}
use qemu_pipeline.Support.{Chars, str_size}
use qemu_pipeline.Driver.Layout.{sizeof_set_param}
use qemu_pipeline.Driver.Tee.{TeeClient}
use qemu_pipeline.Driver.State.{Driver}
use qemu_pipeline.Driver.Invoke.{set_op, param_buffer, Invoked, invoke_command}
use qemu_pipeline.Driver.Request.{fill_set_param}
use qemu_pipeline.Driver.Get.{efi_at_runtime, first_char, with_param, with_result}

-- `sizeof(VARIABLE_SET_PARAM) + VariableNameSize + DataSize`, as a UINTN.
abbrev pub set_param_size : Chars → ℕ → ℕ
set_param_size name size = u32 (u32 (sizeof_set_param + str_size name) + size)

module _ {W : Type 0} (tee : TeeClient W) where
  -- The buffers are cleared, with no test for NULL, the request is filled in, and the command is
  -- invoked with a NULL result.
  unfoldable pub set_send : Chars → Guid → ℕ → ℕ → Option Block → Driver W → Outcome (Invoked W)
  set_send name vendor attributes size source d = do
    p ← deref d.param_mem.buffer
    p ← zero_mem d.param_mem.size p
    r ← deref d.result_mem.buffer
    r ← zero_mem d.result_mem.size r
    p ← fill_set_param (str_size name) vendor name attributes size source p
    ok (
        invoke_command tee set_op (set_param_size name size) (some param_buffer) 0 none
          (with_result r (with_param p d)))

  unfoldable pub set_checked :
      Chars → Guid → ℕ → ℕ → Option Block → Driver W → Outcome (ℕ × Driver W)
  unfolding set_send
  set_checked name vendor attributes size source d =
      if not (size == 0) && is_none source
      then ok (Status.invalid_parameter, d)
      else if not d.session_opened
      then ok (Status.not_ready, d)
      -- The test hook: the session id is read through Data, as a UINTN.
      else if (first_char name == 1) && (vendor.data1 == 1) && (size == 4)
      then (do b ← deref source; id ← load32 b 0; ok (Status.success, record d { session_id = id }))
      else if leb d.param_mem.size (str_size name) || leb d.param_mem.size size
      then ok (Status.bad_buffer_size, d)
      else if ltb d.param_mem.size (set_param_size name size)
      then ok (Status.bad_buffer_size, d)
      else do r ← set_send name vendor attributes size source d; ok (r.status, r.driver)

  -- SecureBootHook, which follows a success, does nothing (uefi_driver.h).
  unfoldable pub set_variable :
      Option Chars → Option Guid → ℕ → ℕ → Option Block → Driver W → Outcome (ℕ × Driver W)
  set_variable (some name) (some vendor) attributes size source d =
      if efi_at_runtime
      then ok (Status.unsupported, d)
      else if first_char name == 0
      then ok (Status.invalid_parameter, d)
      else set_checked name vendor attributes size source d
  set_variable name vendor attributes size source d =
      ok (if efi_at_runtime then Status.unsupported else Status.invalid_parameter, d)
