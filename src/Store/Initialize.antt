-- ===== src/Store/Initialize.antt =====
-- VariableAuthOpteeRuntimeInitialize (authvars_test/host/edk2_driver/AuthVarsDxe.c) in front of a
-- TA that keeps a store.
use qemu_pipeline.Base.{
  ℕ, ◌≡◌, refl, ◌∙◌, Bool, true, false, if◌then◌else◌, arith, inl, inr, Bool-cases,
}
use qemu_pipeline.Outcome.{returns, bind, mono}
use qemu_pipeline.Efi.Status
use qemu_pipeline.Efi.Status.{efi_error}
use qemu_pipeline.Efi.Guid.{Guid}
use qemu_pipeline.Driver.Tee.{MemFlags, mem_input, mem_output, TeeClient}
use qemu_pipeline.Driver.State.{Driver}
use qemu_pipeline.Driver.GetNext.Ordered.{IsServing}
use qemu_pipeline.Driver.SecureBoot.{driver_services, init_secure_boot_variables, initialize}
use qemu_pipeline.Driver.Session.{
  is_success, optee_auth_var_ta_guid, transport_size, ta_open_session,
}
use qemu_pipeline.Driver.Session.Laws.{AllocatesMemory, ta_open_session-IsReady}
use qemu_pipeline.Driver.SecureBoot.Simulates.{Both, init_secure_boot_variables-Agree}
use qemu_pipeline.Store.SingleByte.{store_services, HasData, Stands, driver-Simulates}
use qemu_pipeline.Store.{VariableStore}
use qemu_pipeline.Store.Laws.{KeepsStore}

module _ {W S : Type 0} (tee : TeeClient W) (Holds : W → Type 0) (store : W → S) where
  -- Setting up a context, opening a session and allocating memory leave the store alone.
  pub record KeepsThrough : Type 0 where
    pub context :
        (w : W)
        → Holds w
        → Holds (tee.initialize_context w).1 × (store (tee.initialize_context w).1 ≡ store w)
    pub session :
        (w : W) (g : Guid)
        → Holds w
        → Holds (tee.open_session w g).2 × (store (tee.open_session w g).2 ≡ store w)
    pub memory :
        (w : W) (n : ℕ) (flags : MemFlags)
        → Holds w
        → Holds (tee.allocate_shared_memory w n flags).2
          × (store (tee.allocate_shared_memory w n flags).2 ≡ store w)

module _ {W S : Type 0} (tee : TeeClient W) (Holds : W → Type 0) (store : W → S)
    (m : VariableStore S) where
  -- What the initialisation is to leave: the status and the store that it ends with on the store
  -- itself, and on success a driver that serves.
  abbrev pub Started : ℕ × Driver W → ℕ × S → Type 0
  Started (status, d') (status', s) =
      (status ≡ status')
      × (store d'.world ≡ s)
      × (efi_error status ≡ false → IsServing tee Holds store m.after d')

module _ {W S : Type 0} (tee : TeeClient W) (Holds : W → Type 0) (store : W → S)
    (m : VariableStore S) (k : KeepsStore tee Holds store m) where
  module _ (through : KeepsThrough tee Holds store) (d : Driver W) (h : Holds d.world) where
    opened-keeps :
        (Holds (ta_open_session tee d).1.world)
        × (store (ta_open_session tee d).1.world ≡ store d.world)
        × ((ta_open_session tee d).1.published ≡ d.published)
    unfolding ta_open_session
    opened-keeps =
        let guid = optee_auth_var_ta_guid in
        let (h1, e1) = through.session d.world guid h in
        let w1 = (tee.open_session d.world guid).2 in
        let (h2, e2) = through.memory w1 transport_size mem_input h1 in
        let w2 = (tee.allocate_shared_memory w1 transport_size mem_input).2 in
        let (h3, e3) = through.memory w2 transport_size mem_output h2 in
        elim (Bool-cases (is_success (tee.open_session d.world guid).0)) [
          | inr closed ↦ rw closed (h1, e1, refl)
          | inl opened ↦
              elim (Bool-cases
                (is_success (tee.allocate_shared_memory w1 transport_size mem_input).0)) [
                  | inr short ↦ rw (opened, short) (h2, e2 ∙ e1, refl)
                  | inl first ↦ rw (opened, first) (h3, e3 ∙ (e2 ∙ e1), refl)
                ]
        ]

  published-Started :
      (flag : Bool) (status status' : ℕ) (d' : Driver W) (s : S)
      → status ≡ status'
      → Stands tee Holds store m flag d' s
      → Started tee Holds store m
          (if efi_error status then (status, d') else (status, record d' { published = true }))
          (status', s)
  published-Started flag status status' d' s e (same, o) = elim (Bool-cases (efi_error status)) [
    | inl failed ↦ rw failed (e, same, λ fine. absurd (ground (arith, failed, fine)))
    | inr fine ↦ rw fine (
      e,
      same,
      λ _. record {
        ready = record {
          param = o.ready.param;
          result = o.ready.result;
          param_IsBuffer = o.ready.param_IsBuffer;
          result_IsBuffer = o.ready.result_IsBuffer;
          param_small = o.ready.param_small;
          result_small = o.ready.result_small;
        };
        opened = o.opened;
        published = refl;
        param_size = o.param_size;
        result_size = o.result_size;
        holds = o.holds;
      },
    )
  ]

  -- Where the context is set up and the session opens, with a TA that keeps a store in which
  -- neither "PK" nor "SecureBootEnable" is empty, and whose sessions and memory leave it alone,
  -- VariableAuthOpteeRuntimeInitialize returns, as InitSecureBootVariables does on the store
  -- itself; its status and the store of the TA are those that this ends with, and on success the
  -- driver serves, with its services published.
  pub initialize-refines :
      (through : KeepsThrough tee Holds store) (some_data : HasData m)
      (memory : AllocatesMemory tee) (pcd : Bool) (garbage byte : ℕ) (d : Driver W)
      → Holds d.world
      → is_success (tee.initialize_context d.world).0 ≡ true
      → (ta_open_session tee (record d { world = (tee.initialize_context d.world).1 })).0
        ≡ Status.success
      → Both
          (Started tee Holds store m)
          (initialize tee pcd garbage byte d)
          (init_secure_boot_variables (store_services m) pcd byte (store d.world))
  unfolding initialize
  initialize-refines through some_data memory pcd garbage byte d h context session =
      let (h0, e0) = through.context d.world h in
      let d1 = record d { world = (tee.initialize_context d.world).1 } in
      let (h1, e1, kept) = opened-keeps through d1 h0 in
      let (ready, opened, first, second) = ta_open_session-IsReady tee d1 memory session in
      let start : Stands tee Holds store m d.published (ta_open_session tee d1).1 (store d.world) =
        (
          e1 ∙ e0,
          record {
            ready = ready;
            opened = opened;
            published = kept;
            param_size = first;
            result_size = second;
            holds = h1;
          },
        ) in
      rw (context, session)
        (bind
          (init_secure_boot_variables-Agree (driver_services tee) (store_services m)
            (Stands tee Holds store m d.published)
            (driver-Simulates tee Holds store m k d.published some_data) pcd byte byte
            (ta_open_session tee d1).1 (store d.world) start)
          λ (status, d') agree. returns (
            mono agree λ (status', s) (e, stands).
              published-Started d.published status status' d' s e stands))
