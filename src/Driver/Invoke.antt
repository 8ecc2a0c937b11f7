-- ===== src/Driver/Invoke.antt =====
-- OpteeRuntimeVariableInvokeCommand (authvars_test/host/edk2_driver/AuthVarsDxe.c).
use qemu_pipeline.Base.{ℕ, Option, none, some, [], ◌∷◌, u32}
use qemu_pipeline.Memory.{Bytes, Block}
use qemu_pipeline.Efi.Status
use qemu_pipeline.Driver.Tee.{
  TeecResult, success, item_not_found, short_buffer, out_of_memory, access_denied, other, unused,
  memref_temp_input, memref_temp_output, value_output, SharedMemory, TeeClient,
}
use qemu_pipeline.Driver.State.{Driver}

pub data VariableServiceOps : Type 0 where
  get_op get_next_var_op set_op query_info_op signal_exit_boot_services_op : VariableServiceOps

abbrev pub op_number : VariableServiceOps → ℕ
op_number get_op = 0
op_number get_next_var_op = 1
op_number set_op = 2
op_number query_info_op = 3
op_number signal_exit_boot_services_op = 4

-- The status for the result of TEEC_InvokeCommand.
unfoldable pub status_of : TeecResult → ℕ
status_of success = Status.success
status_of item_not_found = Status.not_found
status_of short_buffer = Status.buffer_too_small
status_of out_of_memory = Status.out_of_resources
status_of access_denied = Status.security_violation
status_of (other code) = Status.protocol_error

-- Which of the two transport buffers a pointer names.
pub data Transport : Type 0 where
  param_buffer result_buffer : Transport

abbrev pub or_default : Option Transport → Transport → Transport
or_default none default = default
or_default (some t) default = t

-- The size that goes with it: `sizeof(UINT32)` for a NULL pointer.
abbrev pub or_uint32 : Option Transport → ℕ → ℕ
or_uint32 none size = 4
or_uint32 (some t) size = size

abbrev pub rewrite : Bytes → Option Block → Option Block
rewrite new none = none
rewrite new (some b) = some (record b { bytes = new })

abbrev pub rewrite_mem : Bytes → SharedMemory → SharedMemory
rewrite_mem new m = record m { buffer = rewrite new m.buffer }

pub record Invoked (W : Type 0) : Type 0 where
  pub status : ℕ
  pub result_size : ℕ
  pub authvar_status : ℕ
  pub driver : Driver W

module _ {W : Type 0} where
  abbrev pub mem_of : Transport → Driver W → SharedMemory
  mem_of param_buffer d = d.param_mem
  mem_of result_buffer d = d.result_mem

  -- The driver after the TA has written the output buffer.
  abbrev pub with_output : Transport → Bytes → W → Driver W → Driver W
  with_output param_buffer new w d = record d { world = w; param_mem = rewrite_mem new d.param_mem }
  with_output result_buffer new w d = record d {
    world = w;
    result_mem = rewrite_mem new d.result_mem;
  }

  module _ (tee : TeeClient W) where
    unfoldable pub invoke_command :
        VariableServiceOps → ℕ → Option Transport → ℕ → Option Transport → Driver W → Invoked W
    unfolding status_of
    invoke_command command param_size param result_size result d =
        let p = or_default param param_buffer in
        let r = or_default result result_buffer in
        let reply = tee.invoke_command d.world d.session_id (op_number command) (record {
          param_types = memref_temp_input ∷ memref_temp_output ∷ value_output ∷ unused ∷ [];
          input = (mem_of p d).buffer;
          input_size = or_uint32 param param_size;
          output = (mem_of r d).buffer;
          output_size = or_uint32 result result_size;
        }) in
        record {
          status = status_of reply.result;
          result_size = u32 reply.value_a;
          authvar_status = u32 reply.value_b;
          driver = with_output r reply.output reply.world d;
        }
