-- ===== src/AuthVarTest/Check/Cycle.antt =====
-- What VerifyValidVarWriteReadEnumDel verifies.
use qemu_pipeline.Base.{ℕ, ◌≡◌, ap, ◌∙◌, subst, Bool, true, false, Option, some, given_or}
use qemu_pipeline.Outcome.{Outcome, ok}
use qemu_pipeline.Memory.{Block}
use qemu_pipeline.Efi.Guid.{Guid}
use qemu_pipeline.Support.{Chars}
use qemu_pipeline.Driver.Get.{GetResult}
use qemu_pipeline.Verify.Laws.{Verified, Verified-bind, Verified-mono, verify_succeeded-Verified}
use qemu_pipeline.AuthVarTest.{TestState, Platform, image, offset_in}
use qemu_pipeline.AuthVarTest.Check.Calls.{write-Verified}
use qemu_pipeline.AuthVarTest.Check.{set_and_enumerate, verify_valid_var_write_read_enum_del}
use qemu_pipeline.AuthVarTest.Enumerate.Frame.{verify_variable_enumerable-Keeps}
use qemu_pipeline.AuthVarTest.Check.Read.{
  ask, fetch, IsRead, verify_absent-Verified, read_written-Verified,
}

module _ {F : Type 0} (p : Platform F) where
  -- What the whole sequence has seen: the variable was not there, a write was accepted, the
  -- variable was there with the size, the attributes and the bytes written, a write without
  -- attributes was accepted, and the variable was not there any more. `listed` and `unlisted` are
  -- the firmware after the two enumerations.
  pub record IsCycled (name : Chars) (vendor : Guid) (attributes expected_size off : ℕ)
      (s : TestState F) : Type 0 where
    pub before : GetResult
    pub asked : GetResult
    pub read : GetResult
    pub after : GetResult
    pub f₀ : F
    pub f₁ : F
    pub listed : F
    pub f₃ : F
    pub f₄ : F
    pub f₅ : F
    pub unlisted : F
    pub f₇ : F
    pub absent : ask p name vendor s.firmware ≡ ok (before, f₀)
    pub absent_status : before.status ≡ 14
    pub written :
        p.services.set_variable
          (some name)
          (some vendor)
          attributes
          expected_size
          (offset_in off s.image)
          f₀
        ≡ ok (0, f₁)
    pub present : ask p name vendor listed ≡ ok (asked, f₃)
    pub present_status : asked.status ≡ 5
    pub size : given_or asked.data_size 0 ≡ expected_size
    pub fetched : fetch p name vendor expected_size f₃ ≡ ok (read, f₄)
    pub contents : IsRead attributes expected_size (offset_in off s.image) read
    pub deleted :
        p.services.set_variable (some name) (some vendor) 0 expected_size (offset_in off s.image) f₄
        ≡ ok (0, f₅)
    pub gone : ask p name vendor unlisted ≡ ok (after, f₇)
    pub gone_status : after.status ≡ 14

  -- A write of a part of mImageData, and the enumeration that follows it.
  set_and_enumerate-Verified :
      (name : Chars) (vendor : Guid) (attributes size off : ℕ) (expected : Bool) (s : TestState F)
      → Verified
          (λ _ s'.
            (f : F) × (p.services.set_variable
                (some name)
                (some vendor)
                attributes
                size
                (offset_in off s.image)
                s.firmware
              ≡ ok (0, f))
            × (s'.image ≡ s.image))
          (set_and_enumerate p name vendor attributes size (image off) expected s)
  unfolding set_and_enumerate
  set_and_enumerate-Verified name vendor attributes size off expected s =
      Verified-bind (write-Verified p name vendor attributes size (image off) s)
        (λ status s₁ (f, set, e₁).
          Verified-bind (verify_succeeded-Verified status s₁) (λ _ s₂ (zero, e₂).
            Verified-mono (verify_variable_enumerable-Keeps p name vendor expected s₂) (λ _ s₃ e₃. (
              f,
              subst (λ n. set_call ≡ ok (n, f)) zero set,
              e₃ ∙ ap (λ (t : TestState F). t.image) (e₂ ∙ e₁),
            ))))
    where
      set_call : Outcome (ℕ × F)
      set_call =
          p.services.set_variable (some name) (some vendor) attributes size (offset_in off s.image)
            s.firmware

  -- Where VerifyValidVarWriteReadEnumDel, on data in mImageData that it is to verify, goes on, the
  -- service has answered each call of the sequence as a store does: EFI_NOT_FOUND at first, the
  -- write accepted, its size, its attributes and its bytes reported, the deletion accepted, and
  -- EFI_NOT_FOUND again.
  pub verify_valid_var_write_read_enum_del-Verified :
      (name : Chars) (vendor : Guid) (attributes size off : ℕ) (s : TestState F)
      → Verified
          (λ _ _. IsCycled name vendor attributes size off s)
          (verify_valid_var_write_read_enum_del p name vendor attributes size (image off) true s)
  unfolding verify_valid_var_write_read_enum_del
  verify_valid_var_write_read_enum_del-Verified name vendor attributes size off s =
      Verified-bind (verify_absent-Verified p name vendor s) (λ _ s₁ (before, f₀, e₁, st₁, a₁).
        Verified-bind (set_and_enumerate-Verified name vendor attributes size off true s₁)
          (λ _ s₂ (f₁, e₂, a₂).
            Verified-bind (read_written-Verified p name vendor attributes size off s₂)
              (λ _ s₃ (asked, f₃, e₃, st₃, sized, read, f₄, e₄, is_read, a₃).
                Verified-bind (set_and_enumerate-Verified name vendor 0 size off false s₃)
                  (λ _ s₄ (f₅, e₅, a₄).
                    Verified-mono (verify_absent-Verified p name vendor s₄)
                      (λ _ _ (after, f₇, e₆, st₆, _).
                        let i₁ = ap (λ (t : TestState F). t.image) a₁ in
                        let i₂ = a₂ ∙ i₁ in
                        let i₃ = ap (λ (t : TestState F). t.image) a₃ ∙ i₂ in
                        record {
                          before = before;
                          asked = asked;
                          read = read;
                          after = after;
                          f₀ = f₀;
                          f₁ = f₁;
                          listed = s₂.firmware;
                          f₃ = f₃;
                          f₄ = f₄;
                          f₅ = f₅;
                          unlisted = s₄.firmware;
                          f₇ = f₇;
                          absent = e₁;
                          absent_status = st₁;
                          written = subst (λ t. set_call attributes t.image t.firmware f₁) a₁ e₂;
                          present = e₃;
                          present_status = st₃;
                          size = sized;
                          fetched = e₄;
                          contents =
                              subst (λ b. IsRead attributes size (offset_in off b) read) i₂ is_read;
                          deleted =
                              subst (λ b. set_call 0 b f₄ f₅) i₃
                                (subst (λ f. set_call 0 s₃.image f f₅)
                                  (ap (λ (t : TestState F). t.firmware) a₃) e₅);
                          gone = e₆;
                          gone_status = st₆;
                        })))))
    where
      set_call : ℕ → Option Block → F → F → Type 0
      set_call attributes b f f' =
          p.services.set_variable (some name) (some vendor) attributes size (offset_in off b) f
          ≡ ok (0, f')
