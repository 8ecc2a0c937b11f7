-- ===== src/Driver.antt =====
-- The driver that carries the UEFI variable services to the trusted application (TA),
-- authvars_test/host/edk2_driver.
pub mod Layout
pub mod Tee
pub mod State
pub mod Invoke
pub mod Request
pub mod Get
pub mod GetNext
pub mod Set
pub mod Query
pub mod Session
pub mod Debug
pub mod SecureBoot
