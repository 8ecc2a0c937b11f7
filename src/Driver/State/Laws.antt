-- ===== src/Driver/State/Laws.antt =====
-- The invariant of the transport buffers, and what keeps it.
use qemu_pipeline.Base.{◌<◌, ◌≡◌, ◌^◌, ◌⊎◌, inl, inr, refl, false, none, some, arith}
use qemu_pipeline.Memory.{Bytes, Block}
use qemu_pipeline.Driver.Tee.{SharedMemory}
use qemu_pipeline.Driver.State.{Driver, IsBuffer, IsReady}
use qemu_pipeline.Driver.Invoke.{rewrite_mem, Transport, param_buffer, result_buffer, with_output}
use qemu_pipeline.Driver.Get.{no_buffers, with_param, with_result}

-- A transport buffer is NULL or as long as it says; its size keeps the driver's sums from wrapping.
pub record IsSoundMem (m : SharedMemory) : Type 0 where
  pub small : m.size < 2 ^ 30
  pub buffer : (m.buffer ≡ none) ⊎ ((b : Block) × IsBuffer m b)

pub record IsSound {W : Type 0} (d : Driver W) : Type 0 where
  pub param : IsSoundMem d.param_mem
  pub result : IsSoundMem d.result_mem

-- Two blocks of the same place and length.
pub record SameShape (a b : Block) : Type 0 where
  pub address : b.address ≡ a.address
  pub extent : b.extent ≡ a.extent

pub IsBuffer-put :
    {m : SharedMemory} {a b : Block}
    → IsBuffer m a
    → SameShape a b
    → IsBuffer (record m { buffer = some b }) b
IsBuffer-put h s = record {
  buffer = refl;
  extent = omega (arith, h.extent, s.extent);
  address = omega (arith, h.address, s.address);
}

pub IsSoundMem-put :
    {m : SharedMemory} {a b : Block}
    → m.size < 2 ^ 30
    → IsBuffer m a
    → SameShape a b
    → IsSoundMem (record m { buffer = some b })
IsSoundMem-put {b} small h s = record { small = small; buffer = inr (b, IsBuffer-put h s) }

rewrite-cases :
    (new : Bytes) (m : SharedMemory)
    → (m.buffer ≡ none) ⊎ ((b : Block) × IsBuffer m b)
    → ((rewrite_mem new m).buffer ≡ none) ⊎ ((b : Block) × IsBuffer (rewrite_mem new m) b)
rewrite-cases new m (inl e) = inl (rw e)
rewrite-cases new m (inr (b, h)) = inr (
  record b { bytes = new },
  record { buffer = rw h.buffer; extent = h.extent; address = h.address },
)

pub IsSoundMem-rewrite :
    (new : Bytes) (m : SharedMemory) → IsSoundMem m → IsSoundMem (rewrite_mem new m)
IsSoundMem-rewrite new m h = record { small = h.small; buffer = rewrite-cases new m h.buffer }

module _ {W : Type 0} where
  pub with_output-IsSound :
      (t : Transport) (new : Bytes) (w : W) (d : Driver W)
      → IsSound d
      → IsSound (with_output t new w d)
  with_output-IsSound param_buffer new w d h = record {
    param = IsSoundMem-rewrite new d.param_mem h.param;
    result = h.result;
  }
  with_output-IsSound result_buffer new w d h = record {
    param = h.param;
    result = IsSoundMem-rewrite new d.result_mem h.result;
  }

  pub IsReady-IsSound : {d : Driver W} → IsReady d → IsSound d
  IsReady-IsSound h = record {
    param = record { small = h.param_small; buffer = inr (h.param, h.param_IsBuffer) };
    result = record { small = h.result_small; buffer = inr (h.result, h.result_IsBuffer) };
  }

  -- Where the NULL tests pass, both buffers are there.
  pub IsReady_of_buffers : (d : Driver W) → IsSound d → no_buffers d ≡ false → IsReady d
  IsReady_of_buffers d h e = go h.param.buffer h.result.buffer
    where
      go :
          (d.param_mem.buffer ≡ none) ⊎ ((b : Block) × IsBuffer d.param_mem b)
          → (d.result_mem.buffer ≡ none) ⊎ ((b : Block) × IsBuffer d.result_mem b)
          → IsReady d
      go (inl n) r = absurd (ground arith)
      go (inr p) (inl n) = absurd (ground arith)
      go (inr (p, hp)) (inr (r, hr)) = record {
        param = p;
        result = r;
        param_IsBuffer = hp;
        result_IsBuffer = hr;
        param_small = h.param.small;
        result_small = h.result.small;
      }

  -- The driver with both buffers rewritten by the driver itself.
  pub with_buffers-IsSound :
      {d : Driver W} {p r : Block} (h : IsReady d)
      → SameShape h.param p
      → SameShape h.result r
      → IsSound (with_result r (with_param p d))
  with_buffers-IsSound h sp sr = record {
    param = IsSoundMem-put h.param_small h.param_IsBuffer sp;
    result = IsSoundMem-put h.result_small h.result_IsBuffer sr;
  }
