-- ===== src/Driver/Tee.antt =====
-- The GlobalPlatform TEE client API (tee_client_api.h of optee_client), which is not part of the
-- repository: its types as far as the driver names them, and its functions as a parameter.
use qemu_pipeline.Base.{ℕ, Option, List}
use qemu_pipeline.Memory.{Bytes, Block}
use qemu_pipeline.Efi.Guid.{Guid}

-- The result codes that the driver tells apart; `other` is any further code.
pub data TeecResult : Type 0 where
  success item_not_found short_buffer out_of_memory access_denied : TeecResult
  other : ℕ → TeecResult

pub data ParamType : Type 0 where
  unused memref_temp_input memref_temp_output memref_temp_inout value_output : ParamType

pub data MemFlags : Type 0 where
  mem_input mem_output mem_inout : MemFlags

-- TEEC_SharedMemory; `none` is a NULL buffer.
pub record SharedMemory : Type 0 where
  pub buffer : Option Block
  pub size : ℕ
  pub flags : MemFlags

-- TEEC_Operation, with temporary memory references for parameters 0 and 1.
pub record Operation : Type 0 where
  pub param_types : List ParamType
  pub input : Option Block
  pub input_size : ℕ
  pub output : Option Block
  pub output_size : ℕ

-- What TEEC_InvokeCommand leaves behind: its result, the value parameter 2, the bytes of the output
-- buffer, and the state of the world behind the API.
pub record Reply (W : Type 0) : Type 0 where
  pub result : TeecResult
  pub value_a : ℕ
  pub value_b : ℕ
  pub output : Bytes
  pub world : W

pub record TeeClient (W : Type 0) : Type 0 where
  pub initialize_context : W → TeecResult × W
  pub open_session : W → Guid → TeecResult × ℕ × W
  pub allocate_shared_memory : W → ℕ → MemFlags → TeecResult × Option Block × W
  pub invoke_command : W → ℕ → ℕ → Operation → Reply W
  pub close_session : W → ℕ → W
  pub finalize_context : W → W
  pub release_shared_memory : W → SharedMemory → SharedMemory × W
