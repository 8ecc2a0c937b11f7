-- ===== src/Efi/Status/Laws.antt =====
-- What the status macros come to at 32 bits.
use qemu_pipeline.Base.{ℕ, ◌^◌, ◌<◌, ◌≡◌, ◌≢◌, refl, true, arith, bit_or-eq-add}
use qemu_pipeline.Efi.Status.{
  encode_warning, encode_error, efi_error, invalid_parameter, unsupported, bad_buffer_size,
  buffer_too_small, not_ready, out_of_resources, not_found, protocol_error, security_violation,
}

-- For every 32-bit code, ENCODE_ERROR and ENCODE_WARNING give the same status, the code itself, and
-- EFI_ERROR holds of it exactly as it holds of the bare code: unless the code is 0, a warning
-- counts as an error too.
pub encode_error-eq-encode_warning :
    (code : ℕ)
    → code < 2 ^ 32
    → (encode_error code ≡ code)
      × (encode_error code ≡ encode_warning code)
      × (code ≢ 0 → efi_error (encode_warning code) ≡ true)
unfolding encode_error encode_warning
encode_error-eq-encode_warning code h = ground (arith, bit_or-eq-add 63 1 code, small)
  where
    small : code < 2 ^ 63
    small = omega arith

-- The constants are the encoded codes of uefi_types.h.
status_codes :
    (encode_error 2 ≡ invalid_parameter)
    × (encode_error 3 ≡ unsupported)
    × (encode_error 4 ≡ bad_buffer_size)
    × (encode_error 5 ≡ buffer_too_small)
    × (encode_error 6 ≡ not_ready)
    × (encode_error 9 ≡ out_of_resources)
    × (encode_error 14 ≡ not_found)
    × (encode_error 24 ≡ protocol_error)
    × (encode_error 26 ≡ security_violation)
unfolding encode_error
status_codes = (refl, refl, refl, refl, refl, refl, refl, refl, refl)
