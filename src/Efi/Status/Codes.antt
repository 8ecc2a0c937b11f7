-- ===== src/Efi/Status/Codes.antt =====
-- The statuses of edk2/uefi_types.h, by name (authvars_test/host/edk2/uefi_types.h).
use qemu_pipeline.Base.{
  ℕ, ◌<◌, ◌≡◌, refl, sym, ap, ◌∙◌, true, false, Option, none, some, List, [], ◌∷◌, ◌==◌, ◌↔◌,
  if◌then◌else◌, arith,
}
use qemu_pipeline.Efi.Status.{encode_error, encode_warning, efi_error}
use qemu_pipeline.Efi.Status.Laws.{encode_error-eq-encode_warning}

-- EFI_LOAD_ERROR to EFI_HTTP_ERROR, and EFI_WARN_UNKNOWN_GLYPH to EFI_WARN_FILE_SYSTEM.
pub data ErrorName : Type 0 where
  err_load_error err_invalid_parameter err_unsupported err_bad_buffer_size : ErrorName
  err_buffer_too_small err_not_ready err_device_error err_write_protected : ErrorName
  err_out_of_resources err_volume_corrupted err_volume_full err_no_media : ErrorName
  err_media_changed err_not_found err_access_denied err_no_response err_no_mapping : ErrorName
  err_timeout err_not_started err_already_started err_aborted err_icmp_error : ErrorName
  err_tftp_error err_protocol_error err_incompatible_version : ErrorName
  err_security_violation err_crc_error err_end_of_media err_end_of_file : ErrorName
  err_invalid_language err_compromised_data err_http_error : ErrorName

pub data WarningName : Type 0 where
  warn_unknown_glyph warn_delete_failure warn_write_failure warn_buffer_too_small : WarningName
  warn_stale_data warn_file_system : WarningName

-- The numbers that the definitions encode.
abbrev pub error_number : ErrorName → ℕ
error_number err_load_error = 1
error_number err_invalid_parameter = 2
error_number err_unsupported = 3
error_number err_bad_buffer_size = 4
error_number err_buffer_too_small = 5
error_number err_not_ready = 6
error_number err_device_error = 7
error_number err_write_protected = 8
error_number err_out_of_resources = 9
error_number err_volume_corrupted = 10
error_number err_volume_full = 11
error_number err_no_media = 12
error_number err_media_changed = 13
error_number err_not_found = 14
error_number err_access_denied = 15
error_number err_no_response = 16
error_number err_no_mapping = 17
error_number err_timeout = 18
error_number err_not_started = 19
error_number err_already_started = 20
error_number err_aborted = 21
error_number err_icmp_error = 22
error_number err_tftp_error = 23
error_number err_protocol_error = 24
error_number err_incompatible_version = 25
error_number err_security_violation = 26
error_number err_crc_error = 27
error_number err_end_of_media = 28
error_number err_end_of_file = 31
error_number err_invalid_language = 32
error_number err_compromised_data = 33
error_number err_http_error = 35

abbrev pub warning_number : WarningName → ℕ
warning_number warn_unknown_glyph = 1
warning_number warn_delete_failure = 2
warning_number warn_write_failure = 3
warning_number warn_buffer_too_small = 4
warning_number warn_stale_data = 5
warning_number warn_file_system = 6

-- EFI_STATUS by name.
pub data StatusName : Type 0 where
  status_success : StatusName
  status_error : ErrorName → StatusName
  status_warning : WarningName → StatusName

unfoldable pub status_code : StatusName → ℕ
unfolding encode_error encode_warning
status_code status_success = 0
status_code (status_error e) = encode_error (error_number e)
status_code (status_warning w) = encode_warning (warning_number w)

error_number-bounds : (e : ErrorName) → (0 < error_number e) × (error_number e < 36)
error_number-bounds err_load_error = omega arith
error_number-bounds err_invalid_parameter = omega arith
error_number-bounds err_unsupported = omega arith
error_number-bounds err_bad_buffer_size = omega arith
error_number-bounds err_buffer_too_small = omega arith
error_number-bounds err_not_ready = omega arith
error_number-bounds err_device_error = omega arith
error_number-bounds err_write_protected = omega arith
error_number-bounds err_out_of_resources = omega arith
error_number-bounds err_volume_corrupted = omega arith
error_number-bounds err_volume_full = omega arith
error_number-bounds err_no_media = omega arith
error_number-bounds err_media_changed = omega arith
error_number-bounds err_not_found = omega arith
error_number-bounds err_access_denied = omega arith
error_number-bounds err_no_response = omega arith
error_number-bounds err_no_mapping = omega arith
error_number-bounds err_timeout = omega arith
error_number-bounds err_not_started = omega arith
error_number-bounds err_already_started = omega arith
error_number-bounds err_aborted = omega arith
error_number-bounds err_icmp_error = omega arith
error_number-bounds err_tftp_error = omega arith
error_number-bounds err_protocol_error = omega arith
error_number-bounds err_incompatible_version = omega arith
error_number-bounds err_security_violation = omega arith
error_number-bounds err_crc_error = omega arith
error_number-bounds err_end_of_media = omega arith
error_number-bounds err_end_of_file = omega arith
error_number-bounds err_invalid_language = omega arith
error_number-bounds err_compromised_data = omega arith
error_number-bounds err_http_error = omega arith

warning_number-bounds : (w : WarningName) → (0 < warning_number w) × (warning_number w < 7)
warning_number-bounds warn_unknown_glyph = omega arith
warning_number-bounds warn_delete_failure = omega arith
warning_number-bounds warn_write_failure = omega arith
warning_number-bounds warn_buffer_too_small = omega arith
warning_number-bounds warn_stale_data = omega arith
warning_number-bounds warn_file_system = omega arith

abbrev all_errors : List ErrorName
all_errors =
    err_load_error ∷ err_invalid_parameter ∷ err_unsupported ∷ err_bad_buffer_size
    ∷ err_buffer_too_small ∷ err_not_ready ∷ err_device_error ∷ err_write_protected
    ∷ err_out_of_resources ∷ err_volume_corrupted ∷ err_volume_full ∷ err_no_media
    ∷ err_media_changed ∷ err_not_found ∷ err_access_denied ∷ err_no_response ∷ err_no_mapping
    ∷ err_timeout ∷ err_not_started ∷ err_already_started ∷ err_aborted ∷ err_icmp_error
    ∷ err_tftp_error ∷ err_protocol_error ∷ err_incompatible_version ∷ err_security_violation
    ∷ err_crc_error ∷ err_end_of_media ∷ err_end_of_file ∷ err_invalid_language
    ∷ err_compromised_data ∷ err_http_error ∷ []

-- The error of a number.
abbrev error_among : ℕ → List ErrorName → Option ErrorName
error_among n [] = none
error_among n (e ∷ es) = if error_number e == n then some e else error_among n es

error_among-number : (e : ErrorName) → error_among (error_number e) all_errors ≡ some e
error_among-number err_load_error = refl
error_among-number err_invalid_parameter = refl
error_among-number err_unsupported = refl
error_among-number err_bad_buffer_size = refl
error_among-number err_buffer_too_small = refl
error_among-number err_not_ready = refl
error_among-number err_device_error = refl
error_among-number err_write_protected = refl
error_among-number err_out_of_resources = refl
error_among-number err_volume_corrupted = refl
error_among-number err_volume_full = refl
error_among-number err_no_media = refl
error_among-number err_media_changed = refl
error_among-number err_not_found = refl
error_among-number err_access_denied = refl
error_among-number err_no_response = refl
error_among-number err_no_mapping = refl
error_among-number err_timeout = refl
error_among-number err_not_started = refl
error_among-number err_already_started = refl
error_among-number err_aborted = refl
error_among-number err_icmp_error = refl
error_among-number err_tftp_error = refl
error_among-number err_protocol_error = refl
error_among-number err_incompatible_version = refl
error_among-number err_security_violation = refl
error_among-number err_crc_error = refl
error_among-number err_end_of_media = refl
error_among-number err_end_of_file = refl
error_among-number err_invalid_language = refl
error_among-number err_compromised_data = refl
error_among-number err_http_error = refl

-- The error that a warning cannot be told from.
abbrev error_like : WarningName → ErrorName
error_like warn_unknown_glyph = err_load_error
error_like warn_delete_failure = err_invalid_parameter
error_like warn_write_failure = err_unsupported
error_like warn_buffer_too_small = err_bad_buffer_size
error_like warn_stale_data = err_buffer_too_small
error_like warn_file_system = err_not_ready

error_like-number : (w : WarningName) → error_number (error_like w) ≡ warning_number w
error_like-number warn_unknown_glyph = refl
error_like-number warn_delete_failure = refl
error_like-number warn_write_failure = refl
error_like-number warn_buffer_too_small = refl
error_like-number warn_stale_data = refl
error_like-number warn_file_system = refl

error_code : (e : ErrorName) → status_code (status_error e) ≡ error_number e
unfolding status_code
error_code e =
    (encode_error-eq-encode_warning (error_number e) (omega (arith, (error_number-bounds e).1))).0

warning_code : (w : WarningName) → status_code (status_warning w) ≡ warning_number w
unfolding status_code
warning_code w =
    let bound = (warning_number-bounds w).1 in
    let (e, same, _) = encode_error-eq-encode_warning (warning_number w) (omega (arith, bound)) in
    sym same ∙ e

-- No two errors of uefi_types.h have the same status.
pub status_error_injective :
    (e e' : ErrorName) → status_code (status_error e) ≡ status_code (status_error e') → e ≡ e'
status_error_injective e e' same = some_injective (
    sym (error_among-number e)
    ∙ ap (λ n. error_among n all_errors) (sym (error_code e) ∙ same ∙ error_code e')
    ∙ error_among-number e')
  where
    some_injective : {a b : ErrorName} → some a ≡ some b → a ≡ b
    some_injective h = cc

-- EFI_ERROR holds of every status of uefi_types.h but EFI_SUCCESS, and each of its warnings is the
-- status of one of its errors.
pub efi_error-status_code :
    (s : StatusName) (w : WarningName)
    → ((efi_error (status_code s) ≡ false) ↔ (s ≡ status_success))
      × ((e : ErrorName) × (status_code (status_error e) ≡ status_code (status_warning w)))
unfolding status_code
efi_error-status_code s w = (
  (forth s, back s),
  (error_like w, error_code (error_like w) ∙ error_like-number w ∙ sym (warning_code w)),
)
  where
    is_error : (n k : ℕ) → n ≡ k → 0 < k → efi_error n ≡ true
    is_error n k e h = ground arith

    forth : (s : StatusName) → efi_error (status_code s) ≡ false → s ≡ status_success
    forth status_success h = refl
    forth (status_error e) h = absurd (
        ground (
          arith,
          is_error (status_code (status_error e)) (error_number e) (error_code e)
              (error_number-bounds e).0,
        ))
    forth (status_warning w) h = absurd (
        ground (
          arith,
          is_error (status_code (status_warning w)) (warning_number w) (warning_code w)
              (warning_number-bounds w).0,
        ))

    back : (s : StatusName) → s ≡ status_success → efi_error (status_code s) ≡ false
    back s e = rw e refl
