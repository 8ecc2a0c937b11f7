-- ===== src/Driver/SecureBoot.antt =====
-- InitSecureBootVariables and VariableAuthOpteeRuntimeInitialize
-- (authvars_test/host/edk2_driver/AuthVarsDxe.c), with the names of edk2/uefi_globals.h.
pub mod Laws
pub mod Names
pub mod Simulates
use qemu_pipeline.Base.{
  ℕ, zero, suc, Bool, true, false, not, ◌&&◌, Option, none, some, List, [], ◌∷◌, bit_or, ◌==◌,
  if◌then◌else◌, u8,
}
use qemu_pipeline.Outcome.{Outcome, ok, fault, ◌>>=◌}
use qemu_pipeline.Memory.{Block, Bytes, deref}
use qemu_pipeline.Efi.Status
use qemu_pipeline.Efi.Status.{efi_error}
use qemu_pipeline.Efi.Guid.{Guid}
use qemu_pipeline.Efi.Attributes.{non_volatile, bootservice_access, runtime_access}
use qemu_pipeline.Support.{Chars}
use qemu_pipeline.Driver.Tee.{TeeClient}
use qemu_pipeline.Driver.State.{Driver}
use qemu_pipeline.Driver.Get.{GetResult, get_variable}
use qemu_pipeline.Driver.Set.{set_variable}
use qemu_pipeline.Driver.Session.{is_success, ta_open_session}

abbrev pub global_variable : Guid
global_variable = record {
  data1 = 0x8BE4DF61;
  data2 = 0x93CA;
  data3 = 0x11D2;
  data4 = 0xAA ∷ 0x0D ∷ 0x00 ∷ 0xE0 ∷ 0x98 ∷ 0x03 ∷ 0x2B ∷ 0x8C ∷ [];
}

abbrev pub secure_boot_enable_disable : Guid
secure_boot_enable_disable = record {
  data1 = 0xf0a30bc7;
  data2 = 0xaf08;
  data3 = 0x4556;
  data4 = 0x99 ∷ 0xc4 ∷ 0x0 ∷ 0x10 ∷ 0x9 ∷ 0xc9 ∷ 0x3a ∷ 0x44 ∷ [];
}

abbrev pub custom_mode_enable : Guid
custom_mode_enable = record {
  data1 = 0xc076ec0c;
  data2 = 0x7028;
  data3 = 0x4399;
  data4 = 0xa0 ∷ 0x72 ∷ 0x71 ∷ 0xee ∷ 0x5c ∷ 0x44 ∷ 0x8b ∷ 0x9f ∷ [];
}

-- L"PK", L"SetupMode", L"SecureBootEnable", L"SecureBoot" and L"CustomMode".
abbrev pub platform_key_name : Chars
platform_key_name = b'P' ∷ b'K' ∷ []

abbrev pub setup_mode_name : Chars
setup_mode_name = b'S' ∷ b'e' ∷ b't' ∷ b'u' ∷ b'p' ∷ b'M' ∷ b'o' ∷ b'd' ∷ b'e' ∷ []

abbrev pub secure_boot_mode_name : Chars
secure_boot_mode_name = b'S' ∷ b'e' ∷ b'c' ∷ b'u' ∷ b'r' ∷ b'e' ∷ b'B' ∷ b'o' ∷ b'o' ∷ b't' ∷ []

abbrev pub secure_boot_enable_name : Chars
secure_boot_enable_name =
    b'S' ∷ b'e' ∷ b'c' ∷ b'u' ∷ b'r' ∷ b'e' ∷ b'B' ∷ b'o' ∷ b'o' ∷ b't' ∷ b'E' ∷ b'n' ∷ b'a' ∷ b'b'
    ∷ b'l' ∷ b'e' ∷ []

abbrev pub custom_mode_name : Chars
custom_mode_name = b'C' ∷ b'u' ∷ b's' ∷ b't' ∷ b'o' ∷ b'm' ∷ b'M' ∷ b'o' ∷ b'd' ∷ b'e' ∷ []

-- The two services that the initialisation calls, on a state: GetVariable into a byte, with NULL
-- for the attributes, and SetVariable of a byte. The byte of GetVariable is the caller's, before
-- and after.
pub record Services (S : Type 0) : Type 0 where
  pub get_byte : Chars → Guid → ℕ → S → Outcome (ℕ × ℕ × S)
  pub set_byte : Chars → Guid → ℕ → ℕ → S → Outcome (ℕ × S)

abbrev pub bs_rt : ℕ
bs_rt = bit_or bootservice_access runtime_access

abbrev pub nv_bs : ℕ
nv_bs = bit_or non_volatile bootservice_access

module _ {S : Type 0} (svc : Services S) (pcd_secure_boot_enable : Bool) where
  -- Each step is what follows a call that has succeeded.
  abbrev unless_error : ℕ × S → (S → Outcome (ℕ × S)) → Outcome (ℕ × S)
  unless_error (status, s) next = if efi_error status then ok (status, s) else next s

  abbrev then_set : Chars → Guid → ℕ → ℕ → S → (S → Outcome (ℕ × S)) → Outcome (ℕ × S)
  then_set name vendor attributes value s next = do
    r ← svc.set_byte name vendor attributes value s
    unless_error r next

  -- "SecureBoot" and "CustomMode", from the mode and the enabling byte.
  unfoldable pub init_modes : ℕ → ℕ → S → Outcome (ℕ × S)
  init_modes setup_mode enable s =
      let mode = if (enable == 1) && (setup_mode == 0) then 1 else 0 in
      then_set secure_boot_mode_name global_variable bs_rt mode s
        λ s. svc.set_byte custom_mode_name custom_mode_enable nv_bs 0 s

  -- "SecureBootEnable", read or, in user mode, created; `byte` is what Data holds.
  unfoldable pub init_enable : ℕ → ℕ → S → Outcome (ℕ × S)
  unfolding init_modes
  init_enable setup_mode byte s = do
    (status, found, s) ← svc.get_byte secure_boot_enable_name secure_boot_enable_disable byte s
    if not (efi_error status)
        then init_modes setup_mode (if setup_mode == 0 then found else 0) s
        else if setup_mode == 0
        then (let enable = if pcd_secure_boot_enable then 1 else 0 in
            then_set secure_boot_enable_name secure_boot_enable_disable nv_bs enable s
              (init_modes setup_mode enable))
        else init_modes setup_mode 0 s

  unfoldable pub init_secure_boot_variables : ℕ → S → Outcome (ℕ × S)
  unfolding init_enable
  init_secure_boot_variables byte s = do
    (status, byte, s) ← svc.get_byte platform_key_name global_variable byte s
    let setup_mode = if status == Status.buffer_too_small then 0 else 1
    then_set setup_mode_name global_variable bs_rt setup_mode s (init_enable setup_mode byte)

-- The two services as the driver has them. The caller's variable is an object of one byte; where it
-- lies does not matter to them.
abbrev pub byte_object : ℕ → Block
byte_object v = record { address = 0; extent = 1; bytes = λ _. u8 v }

abbrev pub byte_of : Option Block → ℕ
byte_of none = 0
byte_of (some b) = u8 (b.bytes 0)

module _ {W : Type 0} (tee : TeeClient W) where
  unfoldable pub driver_services : Services (Driver W)
  unfolding get_variable set_variable
  driver_services = record {
    get_byte = λ name vendor byte d.
        get_variable tee (some name) (some vendor) none (some 1) (some (byte_object byte)) d
        >>= λ (out, d'). ok (out.status, byte_of out.contents, d');
    set_byte = λ name vendor attributes value d.
        set_variable tee (some name) (some vendor) attributes 1 (some (byte_object value)) d;
  }

  -- `garbage` and `byte` are what the uninitialised locals Status and Data hold. A context that
  -- cannot be set up returns the first.
  unfoldable pub initialize : Bool → ℕ → ℕ → Driver W → Outcome (ℕ × Driver W)
  unfolding ta_open_session init_secure_boot_variables driver_services
  initialize pcd garbage byte d =
      let (result, w) = tee.initialize_context d.world in
      if not (is_success result)
      then ok (garbage, record d { world = w })
      else let (status, d) = ta_open_session tee (record d { world = w }) in
        if efi_error status then ok (status, d) else do
          (status, d) ← init_secure_boot_variables driver_services pcd byte d
          ok (if efi_error status then (status, d) else (status, record d { published = true }))
