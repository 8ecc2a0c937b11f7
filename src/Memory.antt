-- ===== src/Memory.antt =====
-- Objects in memory as the C code sees them: a block of bytes at an address, with its extent, read
-- and written little-endian. An access beyond the extent is a fault.
pub mod Laws
use qemu_pipeline.Base.{
  ℕ, ◌+◌, ◌-◌, ◌*◌, ◌/◌, ◌&&◌, Option, none, some, ltb, leb, ◌==◌, if◌then◌else◌, u8, u32,
}
use qemu_pipeline.Outcome.{Outcome, ok, fault, ◌>>◌, ◌>>=◌, assert}

abbrev pub Bytes : Type 0
Bytes = ℕ → ℕ

-- `bytes i` is the byte at offset `i`; it says nothing for `extent ≤ i`.
pub record Block : Type 0 where
  pub address : ℕ
  pub extent : ℕ
  pub bytes : Bytes

-- The bytes after a write of `n` bytes of `src` at `off`.
unfoldable pub overwrite : ℕ → ℕ → Bytes → Bytes → Bytes
overwrite off n src m i = if leb off i && ltb i (off + n) then src (i - off) else m i

-- The bytes of a UINT16 and of a UINT32.
unfoldable pub bytes16 : ℕ → Bytes
bytes16 v i = if i == 0 then u8 v else u8 (v / 256)

unfoldable pub bytes32 : ℕ → Bytes
bytes32 v i =
    if i == 0
    then u8 v
    else if i == 1
    then u8 (v / 256)
    else if i == 2
    then u8 (v / 65536)
    else u8 (v / 16777216)

unfoldable pub read16 : Bytes → ℕ → ℕ
read16 m off = u8 (m off) + 256 * u8 (m (off + 1))

unfoldable pub read32 : Bytes → ℕ → ℕ
read32 m off =
    u8 (m off) + 256 * u8 (m (off + 1)) + 65536 * u8 (m (off + 2)) + 16777216 * u8 (m (off + 3))

unfoldable pub read64 : Bytes → ℕ → ℕ
read64 m off = read32 m off + 4294967296 * read32 m (off + 4)

-- A pointer that is followed: NULL is a fault.
abbrev pub deref : Option Block → Outcome Block
deref none = fault
deref (some b) = ok b

-- A write of `n` bytes of `src` at `off`, and reads at `off`.
unfoldable pub store : ℕ → ℕ → Bytes → Block → Outcome Block
store off n src b =
    if leb (off + n) b.extent then ok (record b { bytes = overwrite off n src b.bytes }) else fault

unfoldable pub load16 : Block → ℕ → Outcome ℕ
load16 b off = if leb (off + 2) b.extent then ok (read16 b.bytes off) else fault

unfoldable pub load32 : Block → ℕ → Outcome ℕ
load32 b off = if leb (off + 4) b.extent then ok (read32 b.bytes off) else fault

unfoldable pub load64 : Block → ℕ → Outcome ℕ
load64 b off = if leb (off + 8) b.extent then ok (read64 b.bytes off) else fault

-- ZeroMem: `memset(Buffer, 0, Size)`.
unfoldable pub zero_mem : ℕ → Block → Outcome Block
unfolding store
zero_mem size b = store 0 size (λ _. 0) b

-- `CopyMem(dst + off, src + from, n)`; with `n == 0` nothing is accessed.
unfoldable pub copy_mem : ℕ → Block → ℕ → ℕ → Block → Outcome Block
unfolding store
copy_mem off src from n dst =
    if leb (from + n) src.extent then store off n (λ i. src.bytes (from + i)) dst else fault

-- SetMem as it is written: the last two arguments of `memset(Buffer, Length, Value)` are the byte
-- and the count, so it writes `Value` bytes, each the low byte of `Length`.
unfoldable pub set_mem : ℕ → ℕ → Block → Outcome Block
unfolding store
set_mem length value b =
    if length == 0
    then ok b
    else do assert (leb (length - 1) (4294967295 - b.address)); store 0 value (λ _. u8 length) b
