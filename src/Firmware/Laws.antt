-- ===== src/Firmware/Laws.antt =====
-- The services of gRT once the driver has published them.
use qemu_pipeline.Base.{ℕ, ◌≡◌, ap, true, Option, if◌then◌else◌}
use qemu_pipeline.Outcome.{fault}
use qemu_pipeline.Memory.{Block}
use qemu_pipeline.Efi.Guid.{Guid}
use qemu_pipeline.Support.{Chars}
use qemu_pipeline.Driver.Tee.{TeeClient}
use qemu_pipeline.Driver.State.{Driver}
use qemu_pipeline.Driver.Get.{get_variable}
use qemu_pipeline.Driver.GetNext.{get_next_variable_name}
use qemu_pipeline.Driver.Set.{set_variable}
use qemu_pipeline.Driver.Query.{query_variable_info}
use qemu_pipeline.Firmware.{runtime_services}

module _ {W : Type 0} (tee : TeeClient W) (d : Driver W) (published : d.published ≡ true) where
  pub get_variable_published :
      (name : Option Chars) (g : Option Guid) (attributes size : Option ℕ) (contents : Option Block)
      → (runtime_services tee).get_variable name g attributes size contents d
        ≡ get_variable tee name g attributes size contents d
  unfolding runtime_services
  get_variable_published name g attributes size contents =
      ap (λ p. if p then get_variable tee name g attributes size contents d else fault) published

  pub set_variable_published :
      (name : Option Chars) (g : Option Guid) (attributes size : ℕ) (source : Option Block)
      → (runtime_services tee).set_variable name g attributes size source d
        ≡ set_variable tee name g attributes size source d
  unfolding runtime_services
  set_variable_published name g attributes size source =
      ap (λ p. if p then set_variable tee name g attributes size source d else fault) published

  pub get_next_variable_name_published :
      (size : Option ℕ) (b : Option Block) (g : Option Guid)
      → (runtime_services tee).get_next_variable_name size b g d
        ≡ get_next_variable_name tee size b g d
  unfolding runtime_services
  get_next_variable_name_published size b g =
      ap (λ p. if p then get_next_variable_name tee size b g d else fault) published

  pub query_variable_info_published :
      (attributes : ℕ) (a b c : Option ℕ)
      → (runtime_services tee).query_variable_info attributes a b c d
        ≡ query_variable_info tee attributes a b c d
  unfolding runtime_services
  query_variable_info_published attributes a b c =
      ap (λ p. if p then query_variable_info tee attributes a b c d else fault) published
