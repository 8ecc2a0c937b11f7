-- ===== src/Firmware.antt =====
-- EFI_RUNTIME_SERVICES and gRT (authvars_test/host/edk2/uefi_globals.h): the four services as a
-- client sees them, on a state `F` of the firmware, and the driver as one that offers them.
pub mod Laws
use qemu_pipeline.Base.{ℕ, Option, if◌then◌else◌}
use qemu_pipeline.Outcome.{Outcome, fault}
use qemu_pipeline.Memory.{Block}
use qemu_pipeline.Efi.Guid.{Guid}
use qemu_pipeline.Support.{Chars}
use qemu_pipeline.Driver.Tee.{TeeClient}
use qemu_pipeline.Driver.State.{Driver}
use qemu_pipeline.Driver.Get.{GetResult, get_variable}
use qemu_pipeline.Driver.GetNext.{NextResult, get_next_variable_name}
use qemu_pipeline.Driver.Set.{set_variable}
use qemu_pipeline.Driver.Query.{QueryResult, query_variable_info}

-- The arguments are those of the C functions; what is behind a pointer argument, after the call, is
-- in the result.
pub record RuntimeServices (F : Type 0) : Type 0 where
  pub get_variable :
      Option Chars → Option Guid → Option ℕ → Option ℕ → Option Block → F → Outcome (GetResult × F)
  pub get_next_variable_name : Option ℕ → Option Block → Option Guid → F → Outcome (NextResult × F)
  pub set_variable : Option Chars → Option Guid → ℕ → ℕ → Option Block → F → Outcome (ℕ × F)
  pub query_variable_info : ℕ → Option ℕ → Option ℕ → Option ℕ → F → Outcome (QueryResult × F)

-- A call through gRT, whose pointers are NULL until the driver has published its services.
abbrev through_table : {W : Type 0} {R : Type 0} → (Driver W → Outcome R) → Driver W → Outcome R
through_table service d = if d.published then service d else fault

unfoldable pub runtime_services : {W : Type 0} → TeeClient W → RuntimeServices (Driver W)
runtime_services tee = record {
  get_variable = λ n g a s b. through_table (get_variable tee n g a s b);
  get_next_variable_name = λ s b g. through_table (get_next_variable_name tee s b g);
  set_variable = λ n g a s b. through_table (set_variable tee n g a s b);
  query_variable_info = λ n a b c. through_table (query_variable_info tee n a b c);
}
