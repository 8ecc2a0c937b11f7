-- ===== src/Pool.antt =====
-- The allocation functions of authvars_test/host/edk2/uefi_c.c over those of the C library, which
-- are a parameter. FreePool only releases memory, which is not modelled.
use qemu_pipeline.Base.{ℕ, ◌≤◌, ◌<◌, ◌≡◌, Option, none, some}
use qemu_pipeline.Memory.{Block}

-- malloc, calloc (the bytes in all) and realloc; `none` is NULL.
pub record Allocator : Type 0 where
  pub malloc : ℕ → Option Block
  pub calloc : ℕ → Option Block
  pub realloc : Option Block → ℕ → Option Block

unfoldable pub allocate_pool : Allocator → ℕ → Option Block
allocate_pool heap size = heap.malloc size

unfoldable pub allocate_zero_pool : Allocator → ℕ → Option Block
allocate_zero_pool heap size = heap.calloc size

-- Where realloc fails, the old buffer is freed and NULL returned.
unfoldable pub reallocate_pool : Allocator → ℕ → Option Block → Option Block
unfolding allocate_zero_pool
reallocate_pool heap new_size none = allocate_zero_pool heap new_size
reallocate_pool heap new_size (some old) = heap.realloc (some old) new_size

-- realloc, where it succeeds: as much memory as was asked for, with the old contents.
pub record Reallocates (heap : Allocator) : Type 0 where
  pub moved :
      (b : Block) (n : ℕ)
      → (c : Block) × (heap.realloc (some b) n ≡ some c)
        × (n ≤ c.extent)
        × ((i : ℕ) → i < b.extent → i < n → c.bytes i ≡ b.bytes i)
