-- ===== src/Support.antt =====
-- The string and byte helpers of authvars_test/host/edk2/uefi_c.c, of which ftpm_test/host/main.c
-- has the two swaps once more.
pub mod Laws
use qemu_pipeline.Base.{ℕ, ◌+◌, ◌*◌, ◌/◌, List, length, u16, u32, bit_or}

-- A CHAR16 is a `wchar_t`, four bytes wide. A string is the list of its characters before the
-- terminator.
abbrev pub sizeof_char16 : ℕ
sizeof_char16 = 4

abbrev pub Chars : Type 0
Chars = List ℕ

-- StrSize: the bytes of a string, its terminator included.
unfoldable pub str_size : Chars → ℕ
str_size s = u32 ((length s + 1) * sizeof_char16)

unfoldable pub swap_bytes16 : ℕ → ℕ
swap_bytes16 value = u16 (bit_or (value * 256) (value / 256))

unfoldable pub swap_bytes32 : ℕ → ℕ
unfolding swap_bytes16
swap_bytes32 value =
    let lower_bytes = swap_bytes16 (u16 value) in
    let higher_bytes = swap_bytes16 (u16 (value / 65536)) in
    bit_or (u32 (lower_bytes * 65536)) higher_bytes
