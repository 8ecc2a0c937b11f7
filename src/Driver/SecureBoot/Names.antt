-- ===== src/Driver/SecureBoot/Names.antt =====
-- The variables of the initialisation (authvars_test/host/edk2_driver/AuthVarsDxe.c), by name and
-- GUID.
use qemu_pipeline.Base.{
  ℕ, ◌≡◌, ◌≢◌, refl, Bool, true, ◌&&◌, ◌<◌, ltb, ◌^◌, arith, ◌⊎◌, length, All, List, [], ◌∷◌,
}
use qemu_pipeline.Efi.Guid.{Guid, IsGuid}
use qemu_pipeline.Support.{Chars}
use qemu_pipeline.Wide.RoundTrip.{IsNarrow}
use qemu_pipeline.Driver.Get.{first_char}
use qemu_pipeline.Driver.SecureBoot.{
  global_variable, secure_boot_enable_disable, custom_mode_enable, platform_key_name,
  setup_mode_name, secure_boot_mode_name, secure_boot_enable_name, custom_mode_name,
}

-- A name of few characters, and a GUID.
pub record IsUsed (name : Chars) (vendor : Guid) : Type 0 where
  pub narrow : All IsNarrow name
  pub guid : IsGuid vendor
  pub named : first_char name ≢ 0
  pub short : length name < 100

-- The names and the GUIDs of the initialisation.
abbrev narrow_test : Chars → Bool
narrow_test [] = true
narrow_test (c ∷ cs) = ltb 0 c && ltb c 0x8000 && narrow_test cs

All-IsNarrow : (cs : Chars) → narrow_test cs ≡ true → All IsNarrow cs
All-IsNarrow [] e = tt
All-IsNarrow (c ∷ cs) e = ((ground arith, ground arith), All-IsNarrow cs (ground arith))

abbrev all_bytes : List ℕ → Bool
all_bytes [] = true
all_bytes (x ∷ xs) = ltb x 256 && all_bytes xs

All-is_byte : (xs : List ℕ) → all_bytes xs ≡ true → All (λ x. x < 2 ^ 8) xs
All-is_byte [] e = tt
All-is_byte (x ∷ xs) e = (ground arith, All-is_byte xs (ground arith))

global_variable-IsGuid : IsGuid global_variable
global_variable-IsGuid = record {
  data1 = omega arith;
  data2 = omega arith;
  data3 = omega arith;
  size = refl;
  bytes = All-is_byte global_variable.data4 refl;
}

secure_boot_enable_disable-IsGuid : IsGuid secure_boot_enable_disable
secure_boot_enable_disable-IsGuid = record {
  data1 = omega arith;
  data2 = omega arith;
  data3 = omega arith;
  size = refl;
  bytes = All-is_byte secure_boot_enable_disable.data4 refl;
}

custom_mode_enable-IsGuid : IsGuid custom_mode_enable
custom_mode_enable-IsGuid = record {
  data1 = omega arith;
  data2 = omega arith;
  data3 = omega arith;
  size = refl;
  bytes = All-is_byte custom_mode_enable.data4 refl;
}

pub key-IsUsed : IsUsed platform_key_name global_variable
key-IsUsed = record {
  narrow = All-IsNarrow platform_key_name refl;
  guid = global_variable-IsGuid;
  named = omega arith;
  short = omega arith;
}

pub setup-IsUsed : IsUsed setup_mode_name global_variable
setup-IsUsed = record {
  narrow = All-IsNarrow setup_mode_name refl;
  guid = global_variable-IsGuid;
  named = omega arith;
  short = omega arith;
}

pub mode-IsUsed : IsUsed secure_boot_mode_name global_variable
mode-IsUsed = record {
  narrow = All-IsNarrow secure_boot_mode_name refl;
  guid = global_variable-IsGuid;
  named = omega arith;
  short = omega arith;
}

pub enable-IsUsed : IsUsed secure_boot_enable_name secure_boot_enable_disable
enable-IsUsed = record {
  narrow = All-IsNarrow secure_boot_enable_name refl;
  guid = secure_boot_enable_disable-IsGuid;
  named = omega arith;
  short = omega arith;
}

pub custom-IsUsed : IsUsed custom_mode_name custom_mode_enable
custom-IsUsed = record {
  narrow = All-IsNarrow custom_mode_name refl;
  guid = custom_mode_enable-IsGuid;
  named = omega arith;
  short = omega arith;
}

-- The two variables that are read.
abbrev pub IsAsked : Chars → Guid → Type 0
IsAsked name vendor =
    ((name ≡ platform_key_name) × (vendor ≡ global_variable))
    ⊎ ((name ≡ secure_boot_enable_name) × (vendor ≡ secure_boot_enable_disable))
