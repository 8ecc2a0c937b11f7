-- ===== src/Driver/Query.antt =====
-- OpteeRuntimeQueryVariableInfo (authvars_test/host/edk2_driver/AuthVarsDxe.c).
pub mod Safety
use qemu_pipeline.Base.{ℕ, not, ◌||◌, Option, some, ◌==◌, if◌then◌else◌, is_none}
use qemu_pipeline.Outcome.{Outcome, ok, ◌>>=◌}
use qemu_pipeline.Memory.{Block, deref, load64, set_mem}
use qemu_pipeline.Efi.Status
use qemu_pipeline.Efi.Status.{efi_error}
use qemu_pipeline.Driver.Layout.{sizeof_query_param, sizeof_query_result}
use qemu_pipeline.Driver.Tee.{TeeClient}
use qemu_pipeline.Driver.State.{Driver}
use qemu_pipeline.Driver.Invoke.{
  query_info_op, param_buffer, result_buffer, Invoked, invoke_command,
}
use qemu_pipeline.Driver.Request.{fill_query_param}
use qemu_pipeline.Driver.Get.{efi_at_runtime, no_buffers, no_room, with_param, with_result}

-- The status, and the three values behind the caller's pointers, `none` where one is NULL.
pub record QueryResult : Type 0 where
  pub status : ℕ
  pub maximum_storage : Option ℕ
  pub remaining_storage : Option ℕ
  pub maximum_size : Option ℕ

abbrev pub query_result : ℕ → Option ℕ → Option ℕ → Option ℕ → QueryResult
query_result s a b c = record {
  status = s;
  maximum_storage = a;
  remaining_storage = b;
  maximum_size = c;
}

module _ {W : Type 0} where
  -- What is made of the answer in the result buffer.
  unfoldable pub query_decode : Driver W → Block → Outcome (QueryResult × Driver W)
  query_decode d answer = do
    maximum ← load64 answer 8
    remaining ← load64 answer 16
    largest ← load64 answer 24
    ok (query_result Status.success (some maximum) (some remaining) (some largest), d)

  unfoldable pub query_receive :
      Option ℕ → Option ℕ → Option ℕ → Invoked W → Outcome (QueryResult × Driver W)
  unfolding query_decode
  query_receive a b c r =
      if efi_error r.status
      then ok (query_result r.status a b c, r.driver)
      else deref r.driver.result_mem.buffer >>= query_decode r.driver

module _ {W : Type 0} (tee : TeeClient W) where
  -- SetMem, by which the buffers are meant to be cleared, is called with a fill byte of 0.
  unfoldable pub query_send : ℕ → Driver W → Outcome (Invoked W)
  query_send attributes d = do
    p ← deref d.param_mem.buffer
    r ← deref d.result_mem.buffer
    p ← set_mem d.param_mem.size 0 p
    r ← set_mem d.result_mem.size 0 r
    p ← fill_query_param attributes p
    ok (
        invoke_command tee query_info_op sizeof_query_param (some param_buffer) sizeof_query_result
          (some result_buffer) (with_result r (with_param p d)))

  unfoldable pub query_variable_info :
      ℕ → Option ℕ → Option ℕ → Option ℕ → Driver W → Outcome (QueryResult × Driver W)
  unfolding query_send query_receive
  query_variable_info attributes a b c d =
      let refuse : ℕ → Outcome (QueryResult × Driver W) =
        λ status. ok (query_result status a b c, d) in
      if efi_at_runtime
      then refuse Status.unsupported
      else if is_none a || is_none b || is_none c || (attributes == 0)
      then refuse Status.invalid_parameter
      else if not d.session_opened
      then refuse Status.not_ready
      else if no_buffers d
      then refuse Status.out_of_resources
      else if no_room sizeof_query_param sizeof_query_result d
      then refuse Status.bad_buffer_size
      else do r ← query_send attributes d; query_receive a b c r
