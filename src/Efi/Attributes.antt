-- ===== src/Efi/Attributes.antt =====
-- The variable attributes (authvars_test/host/edk2_driver/UEFIVarServices.h).
use qemu_pipeline.Base.{ℕ}

abbrev pub non_volatile : ℕ
non_volatile = 0x1

abbrev pub bootservice_access : ℕ
bootservice_access = 0x2

abbrev pub runtime_access : ℕ
runtime_access = 0x4

abbrev pub hardware_error_record : ℕ
hardware_error_record = 0x8

abbrev pub authenticated_write_access : ℕ
authenticated_write_access = 0x10

abbrev pub time_based_authenticated_write_access : ℕ
time_based_authenticated_write_access = 0x20

abbrev pub append_write : ℕ
append_write = 0x40
