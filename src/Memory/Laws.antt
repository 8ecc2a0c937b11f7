-- ===== src/Memory/Laws.antt =====
-- What a read returns after a write, and the bounds under which an access is no fault.
use qemu_pipeline.Base.{
  ℕ, ◌+◌, ◌-◌, ◌^◌, ◌<◌, ◌≤◌, ◌≡◌, ◌⊎◌, refl, fun_ext, arith, zero, suc, le→leb, u8,
}
use qemu_pipeline.Outcome.{ok}
use qemu_pipeline.Memory.{
  Bytes, Block, overwrite, bytes16, bytes32, read16, read32, read64, store, load16, load32, load64,
  zero_mem, copy_mem, set_mem,
}

pub overwrite-inside :
    (off n : ℕ) (src m : Bytes) (i : ℕ) → i < n → overwrite off n src m (off + i) ≡ src i
unfolding overwrite
overwrite-inside off n src m i h = ground arith

pub overwrite-outside :
    (off n : ℕ) (src m : Bytes) (i : ℕ) → (i < off) ⊎ (off + n ≤ i) → overwrite off n src m i ≡ m i
unfolding overwrite
overwrite-outside off n src m i h = ground arith

pub overwrite-cleared : (n : ℕ) (m : Bytes) (i : ℕ) → i < n → overwrite 0 n (λ _. 0) m i ≡ 0
unfolding overwrite
overwrite-cleared n m i h = ground arith

pub overwrite-zero : (off : ℕ) (src m : Bytes) → overwrite off 0 src m ≡ m
unfolding overwrite
overwrite-zero off src m = fun_ext λ i. ground arith

pub read16-lt : (m : Bytes) (off : ℕ) → read16 m off < 2 ^ 16
unfolding read16
read16-lt m off = omega arith

pub read32-lt : (m : Bytes) (off : ℕ) → read32 m off < 2 ^ 32
unfolding read32
read32-lt m off = omega arith

pub read16-overwrite_self :
    (off v : ℕ) (m : Bytes) → v < 2 ^ 16 → read16 (overwrite off 2 (bytes16 v) m) off ≡ v
unfolding read16 bytes16 overwrite
read16-overwrite_self off v m h = ground arith

pub read32-overwrite_self :
    (off v : ℕ) (m : Bytes) → v < 2 ^ 32 → read32 (overwrite off 4 (bytes32 v) m) off ≡ v
unfolding read32 bytes32 overwrite
read32-overwrite_self off v m h = ground arith

pub read16-overwrite_outside :
    (off n : ℕ) (src m : Bytes) (i : ℕ)
    → (i + 2 ≤ off) ⊎ (off + n ≤ i)
    → read16 (overwrite off n src m) i ≡ read16 m i
unfolding read16 overwrite
read16-overwrite_outside off n src m i h = ground arith

pub read32-overwrite_outside :
    (off n : ℕ) (src m : Bytes) (i : ℕ)
    → (i + 4 ≤ off) ⊎ (off + n ≤ i)
    → read32 (overwrite off n src m) i ≡ read32 m i
unfolding read32 overwrite
read32-overwrite_outside off n src m i h = ground arith

module _ (off n : ℕ) (src : Bytes) (b : Block) where
  pub store-ok :
      off + n ≤ b.extent → store off n src b ≡ ok (record b { bytes = overwrite off n src b.bytes })
  unfolding store
  store-ok h = ground arith

pub load16-ok : (b : Block) (off : ℕ) → off + 2 ≤ b.extent → load16 b off ≡ ok (read16 b.bytes off)
unfolding load16
load16-ok b off h = ground arith

pub load32-ok : (b : Block) (off : ℕ) → off + 4 ≤ b.extent → load32 b off ≡ ok (read32 b.bytes off)
unfolding load32
load32-ok b off h = ground arith

pub load64-ok : (b : Block) (off : ℕ) → off + 8 ≤ b.extent → load64 b off ≡ ok (read64 b.bytes off)
unfolding load64
load64-ok b off h = ground arith

pub zero_mem-ok :
    (size : ℕ) (b : Block)
    → size ≤ b.extent
    → zero_mem size b ≡ ok (record b { bytes = overwrite 0 size (λ _. 0) b.bytes })
unfolding zero_mem
zero_mem-ok size b h = ground arith

pub copy_mem-ok :
    (off : ℕ) (src : Block) (from n : ℕ) (dst : Block)
    → from + n ≤ src.extent
    → off + n ≤ dst.extent
    → copy_mem off src from n dst
      ≡ ok (record dst { bytes = overwrite off n (λ i. src.bytes (from + i)) dst.bytes })
unfolding copy_mem
copy_mem-ok off src from n dst h k = ground arith

-- SetMem with a fill byte of 0 clears nothing: a block within 2 ^ 32 bytes is left as it was.
pub set_mem_zero :
    (length : ℕ) (b : Block) → b.address + length ≤ 2 ^ 32 → set_mem length 0 b ≡ ok b
unfolding set_mem
set_mem_zero zero b h = refl
set_mem_zero (suc n) b h =
    rw
      (
        le→leb (suc n - 1) (4294967295 - b.address) (omega arith),
        store-ok 0 0 (λ _. u8 (suc n)) b (omega arith),
        overwrite-zero 0 (λ _. u8 (suc n)) b.bytes,
      )
      (ground arith)
