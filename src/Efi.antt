-- ===== src/Efi.antt =====
-- The UEFI shims of authvars_test/host/edk2: status codes, GUIDs and the string helpers.
pub mod Status
pub mod Guid
pub mod Attributes
