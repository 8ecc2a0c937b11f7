-- ===== src/Driver/Get.antt =====
-- OpteeRuntimeGetVariable (authvars_test/host/edk2_driver/AuthVarsDxe.c).
pub mod Answer
pub mod Laws
pub mod Safety
pub mod Held
use qemu_pipeline.Base.{
  ℕ, ◌+◌, ◌-◌, Bool, true, false, not, ◌&&◌, ◌||◌, Option, none, some, [], ◌∷◌, ltb, leb, ◌==◌,
  if◌then◌else◌, is_none, u32,
}
use qemu_pipeline.Outcome.{Outcome, ok, fault, ◌>>=◌, ◌>>◌, assert}
use qemu_pipeline.Memory.{Block, bytes32, store, deref, load32, zero_mem}
use qemu_pipeline.Efi.Status
use qemu_pipeline.Efi.Status.{efi_error}
use qemu_pipeline.Efi.Guid.{Guid}
use qemu_pipeline.Support.{Chars, str_size}
use qemu_pipeline.Driver.Layout.{sizeof_get_param, sizeof_get_result}
use qemu_pipeline.Driver.Tee.{SharedMemory, TeeClient}
use qemu_pipeline.Driver.State.{Driver}
use qemu_pipeline.Driver.Invoke.{get_op, param_buffer, result_buffer, Invoked, invoke_command}
use qemu_pipeline.Driver.Request.{fill_get_param, copy_to}

-- EfiAtRuntime of uefi_driver.h.
abbrev pub efi_at_runtime : Bool
efi_at_runtime = false

-- `VariableName[0]`.
abbrev pub first_char : Chars → ℕ
first_char [] = 0
first_char (c ∷ cs) = c

-- The two transport buffers are not both allocated.
abbrev pub no_buffers : {W : Type 0} → Driver W → Bool
no_buffers d = is_none d.param_mem.buffer || is_none d.result_mem.buffer

-- The first test of sizes: each variable part is below the size of its buffer. The second: the
-- structures with their variable parts, in 32 bits, fit the buffers.
abbrev pub too_long : {W : Type 0} → ℕ → ℕ → Driver W → Bool
too_long name_size size d = leb d.param_mem.size name_size || leb d.result_mem.size size

abbrev pub no_room : {W : Type 0} → ℕ → ℕ → Driver W → Bool
no_room param_size result_size d =
    ltb d.param_mem.size param_size || ltb d.result_mem.size result_size

-- The status and the caller's objects after the call: `*Attributes`, `*DataSize` and the data
-- buffer, `none` where the pointer is NULL.
pub record GetResult : Type 0 where
  pub status : ℕ
  pub attributes : Option ℕ
  pub data_size : Option ℕ
  pub contents : Option Block

abbrev pub get_result : ℕ → Option ℕ → Option ℕ → Option Block → GetResult
get_result s a n b = record { status = s; attributes = a; data_size = n; contents = b }

-- A `store` into the driver's own parameter buffer.
abbrev pub with_param : {W : Type 0} → Block → Driver W → Driver W
with_param b d = record d { param_mem = record (d.param_mem) { buffer = some b } }

abbrev pub with_result : {W : Type 0} → Block → Driver W → Driver W
with_result b d = record d { result_mem = record (d.result_mem) { buffer = some b } }

-- `*DataSize` after the command.
abbrev pub size_after : ℕ → ℕ → Block → ℕ → Outcome ℕ
size_after status result_size answer size =
    if status == Status.buffer_too_small
    then (do assert (leb sizeof_get_result result_size); ok (result_size - sizeof_get_result))
    else if status == Status.success
    then load32 answer 8
    else ok size

abbrev pub attributes_after : Option ℕ → Block → Outcome (Option ℕ)
attributes_after none answer = ok none
attributes_after (some old) answer = do new ← load32 answer 4; ok (some new)

-- The test hook: the session id is stored through Data, as a UINTN.
abbrev pub get_hook : ℕ → Option ℕ → ℕ → Option Block → Outcome GetResult
get_hook id attributes size contents = do
  b ← deref contents
  b ← store 0 4 (bytes32 id) b
  ok (get_result Status.success attributes (some size) (some b))

module _ {W : Type 0} where
  -- From the answer of the TA to the end.
  unfoldable pub get_receive :
      Option ℕ → ℕ → Option Block → Invoked W → Outcome (GetResult × Driver W)
  get_receive attributes size contents r = do
    answer ← deref r.driver.result_mem.buffer
    new_size ← size_after r.status r.result_size answer size
    new_attributes ← attributes_after attributes answer
    if efi_error r.status
        then ok (get_result r.status new_attributes (some new_size) contents, r.driver)
        else do
          n ← load32 answer 8
          if ltb size n
              then ok (
                get_result Status.bad_buffer_size new_attributes (some new_size) contents,
                r.driver,
              )
              else do
                contents ← copy_to answer 12 n contents
                ok (get_result r.status new_attributes (some new_size) contents, r.driver)

module _ {W : Type 0} (tee : TeeClient W) where
  -- The buffers are cleared, the request is filled in, and the command is invoked.
  unfoldable pub get_send : Chars → Guid → ℕ → Driver W → Outcome (Invoked W)
  get_send name vendor size d = do
    p ← deref d.param_mem.buffer
    r ← deref d.result_mem.buffer
    p ← zero_mem d.param_mem.size p
    r ← zero_mem d.result_mem.size r
    p ← fill_get_param (str_size name) vendor name p
    ok (
        invoke_command tee get_op (u32 (sizeof_get_param + str_size name)) (some param_buffer)
          (u32 (sizeof_get_result + size)) (some result_buffer) (with_result r (with_param p d)))

  -- From the two tests of sizes on.
  unfoldable pub get_sized :
      Chars → Guid → Option ℕ → ℕ → Option Block → Driver W → Outcome (GetResult × Driver W)
  unfolding get_send get_receive
  get_sized name vendor attributes size contents d =
      let refuse : ℕ → Outcome (GetResult × Driver W) =
        λ status. ok (get_result status attributes (some size) contents, d) in
      if too_long (str_size name) size d
      then refuse Status.bad_buffer_size
      else if no_room (u32 (sizeof_get_param + str_size name)) (u32 (sizeof_get_result + size)) d
      then refuse Status.bad_buffer_size
      else do r ← get_send name vendor size d; get_receive attributes size contents r

  unfoldable pub get_checked :
      Chars → Guid → Option ℕ → ℕ → Option Block → Driver W → Outcome (GetResult × Driver W)
  unfolding get_sized
  get_checked name vendor attributes size contents d =
      let refuse : ℕ → Outcome (GetResult × Driver W) =
        λ status. ok (get_result status attributes (some size) contents, d) in
      if not (size == 0) && is_none contents
      then refuse Status.invalid_parameter
      else if (first_char name == 1) && (vendor.data1 == 1) && (size == 4)
      then (do out ← get_hook d.session_id attributes size contents; ok (out, d))
      else if not d.session_opened
      then refuse Status.not_ready
      else if no_buffers d
      then refuse Status.out_of_resources
      else get_sized name vendor attributes size contents d

  unfoldable pub get_variable :
      Option Chars
      → Option Guid
      → Option ℕ
      → Option ℕ
      → Option Block
      → Driver W
      → Outcome (GetResult × Driver W)
  get_variable (some name) (some vendor) attributes (some size) contents d =
      if efi_at_runtime
      then ok (get_result Status.not_found attributes (some size) contents, d)
      else get_checked name vendor attributes size contents d
  get_variable name vendor attributes size contents d =
      let status = if efi_at_runtime then Status.not_found else Status.invalid_parameter in
      ok (get_result status attributes size contents, d)
