-- ===== src/Tests/Begin.antt =====
-- The initialisation of the driver in front of the TA with one variable.
use qemu_pipeline.Base.{◌≡◌, ◌≢◌, refl, sym, ap₂, ◌∙◌, none, some, false, inl, inr}
use qemu_pipeline.Outcome.{ok}
use qemu_pipeline.Driver.Session.{is_success}
use qemu_pipeline.Driver.Session.Laws.{AllocatesMemory}
use qemu_pipeline.Driver.SecureBoot.{initialize, init_secure_boot_variables}
use qemu_pipeline.Driver.SecureBoot.Names.{}
use qemu_pipeline.Driver.SecureBoot.Simulates.{Both}
use qemu_pipeline.Store.SingleByte.{store_services, HasData}
use qemu_pipeline.Store.Initialize.{KeepsThrough, Started, initialize-refines}
use qemu_pipeline.Tests.Demo.{demo_AllocatesMemory}
use qemu_pipeline.Tests.Vault.{vault, vault_tee, IsKept}
use qemu_pipeline.Tests.Kept.{vault_tee-KeepsStore}
use qemu_pipeline.Tests.Sequence.{kept_driver}

vault_tee-AllocatesMemory : AllocatesMemory vault_tee
vault_tee-AllocatesMemory = record {
  allocates = λ w n flags e. demo_AllocatesMemory.allocates tt n flags e;
}

vault_tee-KeepsThrough : KeepsThrough vault_tee IsKept (λ v. v)
vault_tee-KeepsThrough = record {
  context = λ w h. (h, refl);
  session = λ w g h. (h, refl);
  memory = λ w n flags h. (h, refl);
}

-- Neither of the two variables is there.
vault-HasData : HasData vault
vault-HasData s name vendor v (inl (n, g)) e =
    absurd (none_is_some (sym (ap₂ (vault.read s) n g) ∙ e))
  where
    none_is_some : none ≢ some v
    none_is_some h = cc
vault-HasData s name vendor v (inr (n, g)) e =
    absurd (none_is_some (sym (ap₂ (vault.read s) n g) ∙ e))
  where
    none_is_some : none ≢ some v
    none_is_some h = cc

initialize-refines_example :
    Both
      (Started vault_tee IsKept (λ v. v) vault)
      (initialize vault_tee false 77 0 kept_driver)
      (init_secure_boot_variables (store_services vault) false 0 none)
unfolding qemu_pipeline.Driver.Session.ta_open_session
initialize-refines_example =
    initialize-refines vault_tee IsKept (λ v. v) vault vault_tee-KeepsStore vault_tee-KeepsThrough
      vault-HasData vault_tee-AllocatesMemory false 77 0 kept_driver tt refl refl

-- On the store it succeeds.
vault_begins : init_secure_boot_variables (store_services vault) false 0 none ≡ ok (0, none)
unfolding init_secure_boot_variables qemu_pipeline.Driver.Invoke.status_of
vault_begins = refl
