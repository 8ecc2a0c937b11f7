-- ===== src/AuthVarTest/Check/Calls.antt =====
-- The calls of the runtime services in a test: what is known where one goes on, and what it does.
use qemu_pipeline.Base.{ℕ, ◌≡◌, refl, ap, ◌∙◌, sym, Option, some, none, inl, inr, arith}
use qemu_pipeline.Outcome.{Outcome-cases, ok}
use qemu_pipeline.Memory.{Block}
use qemu_pipeline.Efi.Guid.{Guid}
use qemu_pipeline.Support.{Chars}
use qemu_pipeline.Driver.Get.{GetResult}
use qemu_pipeline.Verify.{done}
use qemu_pipeline.Verify.Laws.{Verified, on_done, on_fault, on_exit}
use qemu_pipeline.AuthVarTest.{
  TestState, Platform, Pointer, at_pointer, ask_variable, offset_in, fetch_variable, write_variable,
}

abbrev byte_of : Option Block → ℕ → ℕ
byte_of none j = 0
byte_of (some b) j = b.bytes j

-- The block at offset 0 of an object has its bytes.
pub offset_bytes :
    (o : Option Block) (r : Block)
    → offset_in 0 o ≡ some r
    → (b : Block) × (o ≡ some b) × ((j : ℕ) → r.bytes j ≡ b.bytes j)
offset_bytes none r e = absurd (ground arith)
offset_bytes (some b) r e =
    (b, refl, λ j. ap (λ o. byte_of o j) (sym e) ∙ ap (b.bytes) (omega arith))

module _ {F : Type 0} (p : Platform F) where
  pub fetch-Verified :
      (name : Chars) (vendor : Guid) (attributes size : ℕ) (s : TestState F)
      → Verified
          (λ out s'.
            (f : F) × (p.services.get_variable
                (some name)
                (some vendor)
                (some attributes)
                (some size)
                s.actual
                s.firmware
              ≡ ok (out, f))
            × (s' ≡ record s { actual = out.contents; firmware = f }))
          (fetch_variable p name vendor attributes size s)
  fetch-Verified name vendor attributes size s =
      elim (Outcome-cases (
        p.services.get_variable (some name) (some vendor) (some attributes) (some size) s.actual
          s.firmware)) [
            | inl ((out, f), e) ↦ rw (fetch_variable, e) (on_done (f, refl, refl))
            | inr (inl e) ↦ rw (fetch_variable, e) on_fault
            | inr (inr e) ↦ rw (fetch_variable, e) on_exit
          ]

  pub write-Verified :
      (name : Chars) (vendor : Guid) (attributes size : ℕ) (source : Pointer) (s : TestState F)
      → Verified
          (λ status s'.
            (f : F) × (p.services.set_variable
                (some name)
                (some vendor)
                attributes
                size
                (at_pointer source s)
                s.firmware
              ≡ ok (status, f))
            × (s' ≡ record s { firmware = f }))
          (write_variable p (some name) vendor attributes size source s)
  write-Verified name vendor attributes size source s =
      elim (Outcome-cases (
        p.services.set_variable (some name) (some vendor) attributes size (at_pointer source s)
          s.firmware)) [
            | inl ((status, f), e) ↦ rw (write_variable, e) (on_done (f, refl, refl))
            | inr (inl e) ↦ rw (write_variable, e) on_fault
            | inr (inr e) ↦ rw (write_variable, e) on_exit
          ]

  pub ask-Verified :
      (name : Chars) (vendor : Guid) (attributes : Option ℕ) (s : TestState F)
      → Verified
          (λ out s'.
            (f : F) × (p.services.get_variable
                (some name)
                (some vendor)
                attributes
                (some 0)
                none
                s.firmware
              ≡ ok (out, f))
            × (s' ≡ record s { firmware = f }))
          (ask_variable p name vendor attributes s)
  ask-Verified name vendor attributes s =
      elim (Outcome-cases
        (p.services.get_variable (some name) (some vendor) attributes (some 0) none s.firmware)) [
          | inl ((out, f), e) ↦ rw (ask_variable, e) (on_done (f, refl, refl))
          | inr (inl e) ↦ rw (ask_variable, e) on_fault
          | inr (inr e) ↦ rw (ask_variable, e) on_exit
        ]

  pub write_variable-eq :
      (name : Chars) (vendor : Guid) (attributes size : ℕ) (source : Pointer) (s : TestState F)
      (f : F) (status : ℕ)
      → p.services.set_variable
          (some name)
          (some vendor)
          attributes
          size
          (at_pointer source s)
          s.firmware
        ≡ ok (status, f)
      → write_variable p (some name) vendor attributes size source s
        ≡ ok (done status, record s { firmware = f })
  write_variable-eq name vendor attributes size source s f status e = rw (write_variable, e) refl

  pub fetch_variable-eq :
      (name : Chars) (vendor : Guid) (attributes size : ℕ) (s : TestState F) (f : F)
      (out : GetResult)
      → p.services.get_variable
          (some name)
          (some vendor)
          (some attributes)
          (some size)
          s.actual
          s.firmware
        ≡ ok (out, f)
      → fetch_variable p name vendor attributes size s
        ≡ ok (done out, record s { actual = out.contents; firmware = f })
  fetch_variable-eq name vendor attributes size s f out e = rw (fetch_variable, e) refl
