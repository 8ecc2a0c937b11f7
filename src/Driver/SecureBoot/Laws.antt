-- ===== src/Driver/SecureBoot/Laws.antt =====
-- Which variables the initialisation writes.
use qemu_pipeline.Base.{ℕ, ◌≡◌, Bool, List, [], ◌∷◌, ◌++◌, ◌==◌, if◌then◌else◌, arith}
use qemu_pipeline.Outcome.{ok}
use qemu_pipeline.Efi.Status
use qemu_pipeline.Efi.Status.{efi_error}
use qemu_pipeline.Efi.Guid.{Guid}
use qemu_pipeline.Support.{Chars}
use qemu_pipeline.Driver.SecureBoot.{
  Services, global_variable, secure_boot_enable_disable, custom_mode_enable, platform_key_name,
  setup_mode_name, secure_boot_mode_name, secure_boot_enable_name, custom_mode_name, bs_rt, nv_bs,
  init_modes, init_enable, init_secure_boot_variables,
}

-- A byte written to a variable.
pub record Write : Type 0 where
  pub name : Chars
  pub vendor : Guid
  pub attributes : ℕ
  pub value : ℕ

abbrev pub write : Chars → Guid → ℕ → ℕ → Write
write n g a v = record { name = n; vendor = g; attributes = a; value = v }

-- What the store answers: GetVariable into a byte, the status and the byte afterwards, and the
-- status of a write, which may depend on the writes before it.
pub record Store : Type 0 where
  pub answer : Chars → Guid → ℕ → ℕ × ℕ
  pub accept : List Write → Write → ℕ

-- Services on such a store, with a log of the writes that were accepted, the latest last.
abbrev pub logged : Store → List Write → Write → ℕ × List Write
logged store log w =
    let status = store.accept log w in (status, if efi_error status then log else log ++ w ∷ [])

abbrev pub logging : Store → Services (List Write)
logging store = record {
  get_byte = λ name vendor byte log. ok (let a = store.answer name vendor byte in (a.0, a.1, log));
  set_byte = λ name vendor attributes value log.
      ok (logged store log (write name vendor attributes value));
}

-- The platform is in user mode where its key does not fit a byte.
abbrev pub key_of : Store → ℕ → ℕ × ℕ
key_of store byte = store.answer platform_key_name global_variable byte

abbrev pub enable_of : Store → ℕ → ℕ × ℕ
enable_of store byte =
    store.answer secure_boot_enable_name secure_boot_enable_disable (key_of store byte).1

-- The writes of a platform in user mode, by the answer for "SecureBootEnable".
abbrev user_writes : Bool → ℕ × ℕ → List Write
user_writes pcd (status, found) =
    let enable = if efi_error status then (if pcd then 1 else 0) else found in
    let modes =
      write secure_boot_mode_name global_variable bs_rt (if enable == 1 then 1 else 0)
      ∷ write custom_mode_name custom_mode_enable nv_bs 0
      ∷ [] in
    write setup_mode_name global_variable bs_rt 0
    ∷ (if efi_error status
        then write secure_boot_enable_name secure_boot_enable_disable nv_bs enable ∷ modes
        else modes)

setup_writes : List Write
setup_writes =
    write setup_mode_name global_variable bs_rt 1
    ∷ write secure_boot_mode_name global_variable bs_rt 0
    ∷ write custom_mode_name custom_mode_enable nv_bs 0
    ∷ []

unfoldable pub expected_writes : Bool → Store → ℕ → List Write
unfolding setup_writes
expected_writes pcd store byte =
    if (key_of store byte).0 == 5 then user_writes pcd (enable_of store byte) else setup_writes

-- A list of writes up to the first that is refused, with the last status.
unfoldable pub perform : Store → List Write → ℕ → List Write → ℕ × List Write
perform store [] status log = (status, log)
perform store (w ∷ ws) status log =
    let (status', log') = logged store log w in
    if efi_error status' then (status', log') else perform store ws status' log'

-- On any store, InitSecureBootVariables makes the writes of the table, in its order, up to the
-- first that is refused, and returns the status of the last one tried: "SecureBoot" is set to 1
-- exactly in user mode with "SecureBootEnable" 1, as found or as created from the PCD.
pub init_secure_boot_variables-writes :
    (pcd : Bool) (store : Store) (byte : ℕ)
    → init_secure_boot_variables (logging store) pcd byte []
      ≡ ok (perform store (expected_writes pcd store byte) Status.success [])
unfolding init_secure_boot_variables init_enable init_modes perform expected_writes
init_secure_boot_variables-writes pcd store byte = ground arith
