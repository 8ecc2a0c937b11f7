-- ===== src/AuthVarTest/Enumerate/Frame.antt =====
-- mImageData during the enumeration.
use qemu_pipeline.Base.{
  ℕ, zero, suc, ◌≡◌, refl, ap, ◌∙◌, Bool, Option, some, inl, inr, Bool-cases, given_or, ◌==◌,
}
use qemu_pipeline.Outcome.{Outcome-cases}
use qemu_pipeline.Efi.Status
use qemu_pipeline.Efi.Guid.{Guid}
use qemu_pipeline.Support.{Chars}
use qemu_pipeline.Pool.{reallocate_pool, allocate_zero_pool}
use qemu_pipeline.Driver.GetNext.{NextResult}
use qemu_pipeline.Verify.{lift}
use qemu_pipeline.Verify.Laws.{
  Verified, on_done, on_running, on_fault, on_exit, Verified-bind, Verified-mono, Verified-if,
  verify-Verified, verify_succeeded-Verified, verify_is_not_null-Verified,
}
use qemu_pipeline.AuthVarTest.{TestState, Platform}
use qemu_pipeline.AuthVarTest.Enumerate.{
  ask_next_name, ask_longer_name, next_entry, is_entry_at, is_target, search, same_bool,
  verify_variable_enumerable,
}

-- The image is that of `s`.
abbrev Keeps : {F A : Type 0} → TestState F → A → TestState F → Type 0
Keeps s a s' = s'.image ≡ s.image

module _ {F : Type 0} (p : Platform F) where
  ask_next_name-Keeps :
      (size : ℕ) (vendor : Option Guid) (s : TestState F)
      → Verified (Keeps s) (ask_next_name p size vendor s)
  ask_next_name-Keeps size vendor s =
      elim (Outcome-cases
        (p.services.get_next_variable_name (some size) s.enum_name vendor s.firmware)) [
          | inl ((out, f), e) ↦ rw (ask_next_name, e) (on_done refl)
          | inr (inl e) ↦ rw (ask_next_name, e) on_fault
          | inr (inr e) ↦ rw (ask_next_name, e) on_exit
        ]

  ask_longer_name-Keeps :
      (out : NextResult) (s : TestState F) → Verified (Keeps s) (ask_longer_name p out s)
  unfolding ask_longer_name
  ask_longer_name-Keeps out s =
      let n : ℕ = given_or (out.name_size) 0 in
      let b = reallocate_pool p.heap n s.enum_name in
      Verified-bind (verify_is_not_null-Verified b (record s { enum_name = b })) (λ _ s₁ e₁.
        Verified-bind (ask_next_name-Keeps n (out.vendor) s₁)
          (λ out' s₂ e₂. on_done (e₂ ∙ ap (λ (t : TestState F). t.image) e₁)))

  next_entry-Keeps :
      (size : ℕ) (vendor : Option Guid) (s : TestState F)
      → Verified (Keeps s) (next_entry p size vendor s)
  unfolding next_entry
  next_entry-Keeps size vendor s = Verified-bind (ask_next_name-Keeps size vendor s) (λ out s₁ e₁.
      Verified-if (out.status == Status.buffer_too_small) _ _
        (λ _. Verified-mono (ask_longer_name-Keeps out s₁) (λ _ _ e₂. e₂ ∙ e₁)) (λ _. on_done e₁))

  is_target-Keeps :
      (name : Chars) (vendor : Guid) (found : Option Guid) (s : TestState F)
      → Verified (Keeps s) (is_target p name vendor found s)
  unfolding is_target
  is_target-Keeps name vendor found s =
      elim (Outcome-cases (is_entry_at name vendor found s.enum_name)) [
        | inl (same, e) ↦ rw (is_target, lift, e) (on_done refl)
        | inr (inl e) ↦ rw (is_target, lift, e) on_fault
        | inr (inr e) ↦ rw (is_target, lift, e) on_exit
      ]

  search-Keeps :
      (rounds : ℕ) (name : Chars) (target : Guid) (size : ℕ) (vendor : Option Guid)
      (s : TestState F)
      → Verified (Keeps s) (search p rounds name target size vendor s)
  unfolding search
  search-Keeps zero name target size vendor s = on_running
  search-Keeps (suc rounds) name target size vendor s =
      Verified-bind (next_entry-Keeps size vendor s) (λ (out, size') s₁ e₁.
        Verified-if (out.status == Status.not_found) _ _ (λ _. on_done e₁)
          (λ _. Verified-bind (verify_succeeded-Verified (out.status) s₁) (λ _ s₂ (_, e₂).
            Verified-bind (is_target-Keeps name target (out.vendor) s₂) (λ same s₃ e₃.
              let kept = e₃ ∙ ap (λ (t : TestState F). t.image) e₂ ∙ e₁ in
              elim (Bool-cases same) [
                | inl e ↦ rw e (on_done kept)
                | inr e ↦ rw e (
                    Verified-mono (search-Keeps rounds name target size' (out.vendor) s₃)
                      (λ _ _ e₄. e₄ ∙ kept))
              ]))))

  pub verify_variable_enumerable-Keeps :
      (name : Chars) (target : Guid) (expected : Bool) (s : TestState F)
      → Verified (Keeps s) (verify_variable_enumerable p name target expected s)
  unfolding verify_variable_enumerable allocate_zero_pool
  verify_variable_enumerable-Keeps name target expected s =
      let s₀ = record s { enum_name = allocate_zero_pool p.heap 4 } in
      Verified-bind (search-Keeps p.rounds name target 4 (some p.garbage_guid) s₀) (λ found s₁ e₁.
        Verified-bind (verify-Verified (same_bool p expected found) s₁)
          (λ _ s₂ (_, e₂). on_done (ap (λ (t : TestState F). t.image) e₂ ∙ e₁)))
