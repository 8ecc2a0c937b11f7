-- ===== src/Tests/Cycle.antt =====
-- A variable is written, read, listed and deleted through the driver, in front of the TA with one
-- variable.
use qemu_pipeline.Base.{◌+◌, ◌≡◌, refl, [], ◌∷◌, none, some, true, arith}
use qemu_pipeline.Memory.{Block, read32}
use qemu_pipeline.Firmware.{runtime_services}
use qemu_pipeline.Driver.State.{Driver}
use qemu_pipeline.Driver.GetNext.Ordered.{IsServing}
use qemu_pipeline.Verify.Passes.{Passes}
use qemu_pipeline.AuthVarTest.{TestState, Platform, image, from_offset}
use qemu_pipeline.AuthVarTest.Check.{verify_valid_var_write_read_enum_del}
use qemu_pipeline.AuthVarTest.Check.Whole.{IsCycle, Allocates}
use qemu_pipeline.AuthVarTest.Check.OnDriver.{verify_valid_var_write_read_enum_del-on_driver}
use qemu_pipeline.Tests.Demo.{demo_block, demo_guid, demo_guid-IsGuid}
use qemu_pipeline.Tests.Next.{moving_heap, moving_heap-Reallocates}
use qemu_pipeline.Tests.Services.{shelf_platform, zeroed}
use qemu_pipeline.Tests.Row.{row_guid, row_entry-IsVariable}
use qemu_pipeline.Tests.Vault.{Vault, vault, vault_tee, IsKept}
use qemu_pipeline.Tests.Kept.{vault_tee-KeepsStore}
use qemu_pipeline.Tests.Sequence.{kept_driver, kept_driver-IsServing}

abbrev vault_platform : Platform (Driver Vault)
vault_platform = record {
  services = runtime_services vault_tee;
  heap = moving_heap;
  rand = λ n. n;
  decimal = λ n. b'0' ∷ [];
  garbage = 77;
  garbage_guid = demo_guid;
  test_db = shelf_platform.test_db;
  test_kek = shelf_platform.test_kek;
  rounds = 5;
}

-- mImageData holds two bytes, 1 and 2.
abbrev two_bytes : Block
two_bytes = record (demo_block 0x2000 2) { bytes = λ i. i + 1 }

abbrev vault_state : TestState (Driver Vault)
vault_state = record {
  image = some two_bytes;
  actual = none;
  enum_name = none;
  drawn = 0;
  firmware = kept_driver;
}

vault_platform-Allocates : Allocates vault_platform
vault_platform-Allocates = record {
  moves = moving_heap-Reallocates;
  first = demo_block 0x20000 4;
  there = refl;
  room = omega arith;
  zeroed = zeroed;
}

vault-IsCycle :
    IsCycle vault
      (65 ∷ [])
      row_guid
      demo_guid
      7
      (1 ∷ 2 ∷ [])
      5
      none
      (some (record { attributes = 7; contents = 1 ∷ 2 ∷ [] }))
      none
unfolding qemu_pipeline.Efi.Guid.compare_guid qemu_pipeline.Efi.Guid.guid_bytes
    qemu_pipeline.Memory.bytes16 qemu_pipeline.Memory.bytes32
vault-IsCycle = record {
  absent = refl;
  written = refl;
  present = refl;
  listed = refl;
  few = omega arith;
  deleted = refl;
  gone = refl;
  unlisted = refl;
  few_left = omega arith;
}

verify_valid_var_write_read_enum_del-on_driver_example :
    Passes
      (λ _ s'.
        IsServing vault_tee IsKept (λ v. v) vault.after s'.firmware
        × (s'.firmware.world ≡ none)
        × (s'.image ≡ some two_bytes))
      (verify_valid_var_write_read_enum_del vault_platform
        (65 ∷ [])
        row_guid
        7
        2
        (image 0)
        true
        vault_state)
verify_valid_var_write_read_enum_del-on_driver_example =
    verify_valid_var_write_read_enum_del-on_driver vault_tee IsKept (λ v. v) vault vault_platform
      (65 ∷ []) row_guid 7 2 0 (from_offset 0 two_bytes) (demo_block 0x20000 2)
      (some (record { attributes = 7; contents = 1 ∷ 2 ∷ [] })) none vault_state refl
      vault_tee-KeepsStore vault_platform-Allocates demo_guid-IsGuid kept_driver-IsServing
      (omega arith) refl refl (omega arith)
      (row_entry-IsVariable, refl, omega arith, omega arith, omega arith)
      (row_entry-IsVariable, refl, omega arith, omega arith, omega arith)
      (row_entry-IsVariable, refl, omega arith, omega arith, omega arith, omega arith) vault-IsCycle
