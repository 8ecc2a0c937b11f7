-- ===== src/Driver/GetNext.antt =====
-- OpteeRuntimeGetNextVariableName (authvars_test/host/edk2_driver/AuthVarsDxe.c).
pub mod Decode
pub mod Sent
pub mod Safety
pub mod Replied
pub mod Held
pub mod Ordered
use qemu_pipeline.Base.{
  ℕ, zero, suc, ◌+◌, ◌-◌, ◌*◌, ◌/◌, not, Option, none, some, [], ◌∷◌, ltb, leb, ◌==◌, if◌then◌else◌,
  u32,
}
use qemu_pipeline.Outcome.{Outcome, ok, fault, ◌>>=◌, ◌>>◌, assert}
use qemu_pipeline.Memory.{Block, deref, load16, load32, set_mem}
use qemu_pipeline.Efi.Status
use qemu_pipeline.Efi.Status.{efi_error}
use qemu_pipeline.Efi.Guid.{Guid, load_guid}
use qemu_pipeline.Support.{Chars, str_size}
use qemu_pipeline.Wide.{restore_wide_string}
use qemu_pipeline.Driver.Layout.{sizeof_get_param}
use qemu_pipeline.Driver.Tee.{TeeClient}
use qemu_pipeline.Driver.State.{Driver}
use qemu_pipeline.Driver.Invoke.{
  get_next_var_op, param_buffer, result_buffer, Invoked, invoke_command,
}
use qemu_pipeline.Driver.Request.{fill_get_param}
use qemu_pipeline.Driver.Get.{
  efi_at_runtime, no_buffers, too_long, no_room, with_param, with_result,
}

-- The string at the start of the caller's buffer. One that runs to the end of the buffer is a
-- fault, and so many rounds are enough to get there.
unfoldable pub chars_from : ℕ → Block → ℕ → Outcome Chars
unfolding load32
chars_from zero b off = fault
chars_from (suc fuel) b off = do
  c ← load32 b off
  let rest = chars_from fuel b (off + 4)
  if c == 0 then ok [] else do cs ← rest; ok (c ∷ cs)

-- The status and the caller's objects after the call: `*VariableNameSize`, the name's buffer and
-- `*VendorGuid`, `none` where the pointer is NULL.
pub record NextResult : Type 0 where
  pub status : ℕ
  pub name_size : Option ℕ
  pub name : Option Block
  pub vendor : Option Guid

abbrev pub next_result : ℕ → Option ℕ → Option Block → Option Guid → NextResult
next_result s n b g = record { status = s; name_size = n; name = b; vendor = g }

-- Half of StrSize; 0, not the size of a terminator, asks for the first name.
abbrev pub name_size_in : Chars → ℕ
name_size_in [] = 0
name_size_in (c ∷ cs) = str_size (c ∷ cs) / 2

-- `*VariableNameSize` after the command.
abbrev pub next_size_after : ℕ → ℕ → Block → ℕ → Outcome ℕ
next_size_after status result_size answer size =
    if status == Status.buffer_too_small
    then (do
      assert (leb sizeof_get_param result_size)
      ok (u32 ((result_size - sizeof_get_param) * 2)))
    else if status == Status.success
    then (do n ← load16 answer 4; ok (u32 (n * 2)))
    else ok size

module _ {W : Type 0} where
  -- What is made of the answer in the result buffer.
  unfoldable pub next_decode :
      ℕ → Block → Guid → ℕ → ℕ → Driver W → Block → Outcome (NextResult × Driver W)
  next_decode size name vendor status result_size d answer = do
    new_size ← next_size_after status result_size answer size
    if efi_error status
        then ok (next_result status (some new_size) (some name) (some vendor), d)
        else do
          n ← load16 answer 4
          if ltb (size / 2) n
              then ok
                  (next_result Status.bad_buffer_size (some new_size) (some name) (some vendor), d)
              else do
                next_vendor ← load_guid answer 8
                name ← restore_wide_string answer 24 name
                ok (next_result status (some new_size) (some name) (some next_vendor), d)

  unfoldable pub next_receive : ℕ → Block → Guid → Invoked W → Outcome (NextResult × Driver W)
  unfolding next_decode
  next_receive size name vendor r =
      deref r.driver.result_mem.buffer
      >>= next_decode size name vendor r.status r.result_size r.driver

module _ {W : Type 0} (tee : TeeClient W) where
  -- SetMem, by which the buffers are meant to be cleared, is called with a fill byte of 0.
  unfoldable pub next_send : Chars → Guid → ℕ → Driver W → Outcome (Invoked W)
  next_send chars vendor size d = do
    p ← deref d.param_mem.buffer
    r ← deref d.result_mem.buffer
    p ← set_mem d.param_mem.size 0 p
    r ← set_mem d.result_mem.size 0 r
    p ← fill_get_param (name_size_in chars) vendor chars p
    ok (
        invoke_command tee get_next_var_op (u32 (sizeof_get_param + name_size_in chars))
          (some param_buffer) (u32 (sizeof_get_param + size / 2)) (some result_buffer)
          (with_result r (with_param p d)))

  unfoldable pub next_checked : ℕ → Block → Guid → Driver W → Outcome (NextResult × Driver W)
  unfolding next_send next_receive chars_from
  next_checked size name vendor d =
      let refuse : ℕ → Outcome (NextResult × Driver W) =
        λ status. ok (next_result status (some size) (some name) (some vendor), d) in
      if not d.session_opened
      then refuse Status.not_ready
      else if no_buffers d
      then refuse Status.out_of_resources
      else do
        chars ← chars_from name.extent name 0
        if too_long (name_size_in chars) (size / 2) d
            then refuse Status.bad_buffer_size
            else if no_room (u32 (sizeof_get_param + name_size_in chars))
                (u32 (sizeof_get_param + size / 2)) d
            then refuse Status.bad_buffer_size
            else do r ← next_send chars vendor size d; next_receive size name vendor r

  -- The first statement prints `*VariableNameSize`, before any test for NULL.
  unfoldable pub get_next_variable_name :
      Option ℕ → Option Block → Option Guid → Driver W → Outcome (NextResult × Driver W)
  get_next_variable_name none name vendor d = fault
  get_next_variable_name (some size) (some name) (some vendor) d =
      if efi_at_runtime
      then ok (next_result Status.unsupported (some size) (some name) (some vendor), d)
      else next_checked size name vendor d
  get_next_variable_name (some size) name vendor d =
      let status = if efi_at_runtime then Status.unsupported else Status.invalid_parameter in
      ok (next_result status (some size) name vendor, d)
