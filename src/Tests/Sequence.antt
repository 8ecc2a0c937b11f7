-- ===== src/Tests/Sequence.antt =====
-- A write, two reads, a listing and a query through the driver, in front of the TA with one
-- variable.
use qemu_pipeline.Base.{◌≡◌, refl, List, [], ◌∷◌, none, some, true, All, arith}
use qemu_pipeline.Outcome.{Returns}
use qemu_pipeline.Memory.{Block, read32}
use qemu_pipeline.Firmware.{runtime_services}
use qemu_pipeline.Driver.Tee.{mem_input, mem_output}
use qemu_pipeline.Driver.State.{Driver}
use qemu_pipeline.Driver.GetNext.Ordered.{IsServing}
use qemu_pipeline.Store.{
  Call, read_call, write_call, next_call, query_call, seen_status, seen_size, seen_value, seen_name,
  seen_space, perform_all, answer, answer_all,
}
use qemu_pipeline.Store.Laws.{IsValid}
use qemu_pipeline.Store.Run.{perform_all-refines}
use qemu_pipeline.Tests.Demo.{demo_block, demo_guid, demo_guid-IsGuid}
use qemu_pipeline.Tests.Next.{demo_chars}
use qemu_pipeline.Tests.Row.{row_guid, row_entry-IsVariable}
use qemu_pipeline.Tests.Vault.{Vault, vault, vault_tee, IsKept}
use qemu_pipeline.Tests.Kept.{vault_tee-KeepsStore}

abbrev pub kept_driver : Driver Vault
kept_driver = record {
  world = none;
  session_id = 1;
  session_opened = true;
  param_mem = record { buffer = some (demo_block 0x1000 32812); size = 32812; flags = mem_input };
  result_mem = record {
    buffer = some (demo_block 0x10000 32812);
    size = 32812;
    flags = mem_output;
  };
  published = true;
}

pub kept_driver-IsServing : IsServing vault_tee IsKept (λ v. v) vault.after kept_driver
kept_driver-IsServing = record {
  ready = record {
    param = demo_block 0x1000 32812;
    result = demo_block 0x10000 32812;
    param_IsBuffer = record { buffer = refl; extent = omega arith; address = omega arith };
    result_IsBuffer = record { buffer = refl; extent = omega arith; address = omega arith };
    param_small = omega arith;
    result_small = omega arith;
  };
  opened = refl;
  published = refl;
  param_size = refl;
  result_size = refl;
  holds = tt;
}

abbrev calls : List Call
calls =
    write_call (65 ∷ []) row_guid 7 2 (some (demo_block 0x30000 2))
    ∷ read_call (65 ∷ []) row_guid 0 1 (some (demo_block 0x40000 1))
    ∷ read_call (65 ∷ []) row_guid 0 2 (some (demo_block 0x40000 2))
    ∷ next_call [] demo_guid 8 (demo_block 0x20000 64)
    ∷ query_call 7 0 0 0
    ∷ []

calls-IsValid : All (IsValid vault_tee IsKept (λ v. v) vault) calls
calls-IsValid = (
  (row_entry-IsVariable, refl, omega arith, omega arith, omega arith, omega arith),
  (
    (row_entry-IsVariable, refl, omega arith, omega arith, omega arith),
    (
      (row_entry-IsVariable, refl, omega arith, omega arith, omega arith),
      (
        (
          record { narrow = tt; guid = demo_guid-IsGuid; short = omega arith },
          record {
            chars = demo_chars;
            ends = omega arith;
            room = omega arith;
            limit = omega arith;
          },
        ),
        ((omega arith, omega arith), tt),
      ),
    ),
  ),
)

perform_all-refines_example :
    Returns
      (λ (seen, d').
        (seen ≡ (answer_all vault calls none).0)
        × (d'.world ≡ (answer_all vault calls none).1)
        × IsServing vault_tee IsKept (λ v. v) vault.after d')
      (perform_all (runtime_services vault_tee) calls kept_driver)
perform_all-refines_example =
    perform_all-refines vault_tee IsKept (λ v. v) vault vault_tee-KeepsStore calls kept_driver
      kept_driver-IsServing calls-IsValid

-- What is seen of them.
seen_of_calls :
    (answer_all vault calls none).0
    ≡ seen_status 0
      ∷ seen_size 2
      ∷ seen_value 7 (0 ∷ 0 ∷ [])
      ∷ seen_name (65 ∷ []) row_guid
      ∷ seen_space 1000 900 100
      ∷ []
unfolding answer_all answer qemu_pipeline.Efi.Guid.compare_guid qemu_pipeline.Efi.Guid.guid_bytes
    qemu_pipeline.Memory.bytes16 qemu_pipeline.Memory.bytes32
seen_of_calls = refl
