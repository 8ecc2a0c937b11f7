-- ===== src/Efi/Guid.antt =====
-- GUID and CompareGuid (authvars_test/host/edk2/uefi_types.h and uefi_types.c).
pub mod Laws
use qemu_pipeline.Base.{
  ℕ, zero, suc, ◌+◌, ◌-◌, Bool, true, ◌&&◌, List, [], ◌∷◌, ltb, ◌==◌, if◌then◌else◌, leb, length,
  get_or, u8, ◌<◌, ◌^◌, ◌≡◌, All,
}
use qemu_pipeline.Outcome.{Outcome, ok, fault}
use qemu_pipeline.Memory.{Bytes, Block, bytes16, bytes32, read16, read32}

-- `data4` is the array of eight bytes.
pub record Guid : Type 0 where
  pub data1 : ℕ
  pub data2 : ℕ
  pub data3 : ℕ
  pub data4 : List ℕ

abbrev pub sizeof_guid : ℕ
sizeof_guid = 16

-- The fields fit their types.
pub record IsGuid (g : Guid) : Type 0 where
  pub data1 : g.data1 < 2 ^ 32
  pub data2 : g.data2 < 2 ^ 16
  pub data3 : g.data3 < 2 ^ 16
  pub size : length g.data4 ≡ 8
  pub bytes : All (λ x. x < 2 ^ 8) g.data4

-- The 16 bytes of a GUID in memory, and the GUID that stands at an offset.
unfoldable pub guid_bytes : Guid → Bytes
guid_bytes g i =
    if ltb i 4
    then bytes32 g.data1 i
    else if ltb i 6
    then bytes16 g.data2 (i - 4)
    else if ltb i 8
    then bytes16 g.data3 (i - 6)
    else get_or g.data4 (i - 8) 0

abbrev pub byte_array : ℕ → Bytes → ℕ → List ℕ
byte_array zero m off = []
byte_array (suc n) m off = u8 (m off) ∷ byte_array n m (off + 1)

unfoldable pub guid_of : Bytes → Guid
guid_of m = record {
  data1 = read32 m 0;
  data2 = read16 m 4;
  data3 = read16 m 6;
  data4 = byte_array 8 m 8;
}

unfoldable pub read_guid : Bytes → ℕ → Guid
read_guid m off = guid_of (λ i. m (off + i))

-- CopyMem of a GUID from an offset of a block.
unfoldable pub load_guid : Block → ℕ → Outcome Guid
load_guid b off = if leb (off + 16) b.extent then ok (read_guid b.bytes off) else fault

-- `!memcmp(a, b, sizeof(GUID))`: every one of the first `n` bytes is the same.
unfoldable pub same_bytes : ℕ → Bytes → Bytes → Bool
same_bytes zero a b = true
same_bytes (suc n) a b = (a n == b n) && same_bytes n a b

unfoldable pub compare_guid : Guid → Guid → Bool
unfolding same_bytes
compare_guid a b = same_bytes sizeof_guid (guid_bytes a) (guid_bytes b)
