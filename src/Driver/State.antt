-- ===== src/Driver/State.antt =====
-- The driver's static state (authvars_test/host/edk2_driver/AuthVarsDxe.c), with the world behind
-- the TEE client API.
pub mod Laws
use qemu_pipeline.Base.{ℕ, ◌+◌, ◌≤◌, ◌<◌, ◌≡◌, ◌^◌, Bool, Option, some}
use qemu_pipeline.Memory.{Bytes, Block}
use qemu_pipeline.Driver.Tee.{SharedMemory}

-- `published` says that the four runtime services have been entered into gRT.
pub record Driver (W : Type 0) : Type 0 where
  pub world : W
  pub session_id : ℕ
  pub session_opened : Bool
  pub param_mem : SharedMemory
  pub result_mem : SharedMemory
  pub published : Bool

-- A transport buffer is allocated, is as long as it says, and lies within the 32-bit address space.
pub record IsBuffer (m : SharedMemory) (b : Block) : Type 0 where
  pub buffer : m.buffer ≡ some b
  pub extent : m.size ≤ b.extent
  pub address : b.address + m.size ≤ 2 ^ 32

-- Both transport buffers are there. The bound is far above the size that TaOpenSession asks for,
-- and keeps the driver's sums of sizes from wrapping.
pub record IsReady {W : Type 0} (d : Driver W) : Type 0 where
  pub param : Block
  pub result : Block
  pub param_IsBuffer : IsBuffer d.param_mem param
  pub result_IsBuffer : IsBuffer d.result_mem result
  pub param_small : d.param_mem.size < 2 ^ 30
  pub result_small : d.result_mem.size < 2 ^ 30
