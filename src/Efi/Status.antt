-- ===== src/Efi/Status.antt =====
-- EFI_STATUS (authvars_test/host/edk2/uefi_types.h). UINTN is `unsigned int`, 32 bits wide, so the
-- cast in ENCODE_ERROR drops MAX_BIT, which is bit 63.
pub mod Laws
pub mod Codes
use qemu_pipeline.Base.{ℕ, Bool, not, ◌==◌, bit_or, u32}

abbrev max_bit : ℕ
max_bit = 0x8000000000000000

unfoldable pub encode_warning : ℕ → ℕ
encode_warning code = u32 code

unfoldable pub encode_error : ℕ → ℕ
encode_error code = u32 (bit_or max_bit code)

-- EFI_ERROR: the status, cast to INTN, is not zero.
abbrev pub efi_error : ℕ → Bool
efi_error status = not (status == 0)

-- The codes that the driver returns; that they are the encoded ones is `Efi.Status.Laws`.
abbrev pub success : ℕ
success = 0

abbrev pub invalid_parameter : ℕ
invalid_parameter = 2

abbrev pub unsupported : ℕ
unsupported = 3

abbrev pub bad_buffer_size : ℕ
bad_buffer_size = 4

abbrev pub buffer_too_small : ℕ
buffer_too_small = 5

abbrev pub not_ready : ℕ
not_ready = 6

abbrev pub out_of_resources : ℕ
out_of_resources = 9

abbrev pub not_found : ℕ
not_found = 14

abbrev pub protocol_error : ℕ
protocol_error = 24

abbrev pub security_violation : ℕ
security_violation = 26
