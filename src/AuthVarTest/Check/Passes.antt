-- ===== src/AuthVarTest/Check/Passes.antt =====
-- Where SetAndCheckVariable goes on: on a service that answers as a store does, and on one whose
-- contents are compared with themselves.
use qemu_pipeline.Base.{ℕ, ◌≤◌, ◌<◌, ◌≡◌, refl, ap, ◌∙◌, true, some, arith, u8, bit_or}
use qemu_pipeline.Outcome.{ok}
use qemu_pipeline.Memory.{Block}
use qemu_pipeline.Efi.Guid.{Guid}
use qemu_pipeline.Support.{Chars}
use qemu_pipeline.Driver.Get.{get_result}
use qemu_pipeline.Verify.{done}
use qemu_pipeline.Verify.Laws.{verify_is_not_null-some, step, verify_are_equal_refl}
use qemu_pipeline.AuthVarTest.{TestState, Platform, Pointer, actual, at_pointer, from_offset}
use qemu_pipeline.AuthVarTest.Compare.{verify_are_equal_bytes_iff}
use qemu_pipeline.AuthVarTest.Check.Calls.{write_variable-eq, fetch_variable-eq}
use qemu_pipeline.AuthVarTest.Check.{read_and_check, set_and_check_variable}
use qemu_pipeline.AuthVarTest.Enumerate.{verify_variable_enumerable}

module _ {F : Type 0} (p : Platform F) where
  -- The checks go on where the service reports what is expected.
  read_and_check-passes :
      (name : Chars) (vendor : Guid) (base old size : ℕ) (check : Pointer) (s : TestState F)
      (wanted b : Block) (f : F)
      → p.services.get_variable (some name) (some vendor) (some old) (some size) s.actual s.firmware
        ≡ ok (get_result 0 (some base) (some size) (some b), f)
      → at_pointer check (record s { actual = some b; firmware = f }) ≡ some wanted
      → size ≤ wanted.extent
      → size ≤ b.extent
      → ((j : ℕ) → j < size → u8 (wanted.bytes j) ≡ u8 (b.bytes j))
      → read_and_check p name vendor base old size size check s
        ≡ ok (done base, record s { actual = some b; firmware = f })
  unfolding read_and_check
  read_and_check-passes name vendor base old size check s wanted b f get there hw hb same =
      step _ (fetch_variable-eq p name vendor old size s f _ get) (
        step _ (verify_are_equal_refl base _) (
          step _ (verify_are_equal_refl size _) (
            step _
              ((verify_are_equal_bytes_iff check (actual 0) size
                  (record s { actual = some b; firmware = f }) wanted (from_offset 0 b) there refl
                  hw (omega arith)).1
                (λ j lt. same j lt ∙ ap (λ i. u8 (b.bytes i)) (omega arith)))
              refl)))

  -- SetAndCheckVariable, with mActualImageData allocated, goes on to the enumeration where the
  -- service accepts the write and then reports success, the attributes, the size and contents with
  -- the bytes of the data to check, both objects being as long as the size.
  pub set_and_check_variable-passes :
      (name : Chars) (vendor : Guid) (base extra add_size : ℕ) (add : Pointer) (size : ℕ)
      (check : Pointer) (s : TestState F) (old wanted b : Block) (f₁ f₂ : F)
      → s.actual ≡ some old
      → p.services.set_variable
          (some name)
          (some vendor)
          (bit_or base extra)
          add_size
          (at_pointer add s)
          s.firmware
        ≡ ok (0, f₁)
      → p.services.get_variable (some name) (some vendor) (some p.garbage) (some size) s.actual f₁
        ≡ ok (get_result 0 (some base) (some size) (some b), f₂)
      → at_pointer check (record s { actual = some b; firmware = f₂ }) ≡ some wanted
      → size ≤ wanted.extent
      → size ≤ b.extent
      → ((j : ℕ) → j < size → u8 (wanted.bytes j) ≡ u8 (b.bytes j))
      → set_and_check_variable p name vendor base extra add_size add size check s
        ≡ verify_variable_enumerable p name vendor true
            (record s { actual = some b; firmware = f₂ })
  unfolding set_and_check_variable
  set_and_check_variable-passes name vendor base extra add_size add size check s old wanted b f₁ f₂
        there set get content hw hb same =
      step _ (verify_is_not_null-some s.actual old s there) (
        step _ (write_variable-eq p name vendor (bit_or base extra) add_size add s f₁ 0 set) (
          step _
            (read_and_check-passes name vendor base p.garbage size check
              (record s { firmware = f₁ }) wanted b f₂ get content hw hb same)
            refl))

  -- SetAndCheckVariable with mActualImageData itself as the data to check, as the test of the names
  -- calls it, goes on to the enumeration whatever contents the service has returned, where the
  -- write is accepted and success, the attributes and the size are reported.
  pub set_and_check_variable_self :
      (name : Chars) (vendor : Guid) (base extra add_size : ℕ) (add : Pointer) (size : ℕ)
      (s : TestState F) (old b : Block) (f₁ f₂ : F)
      → s.actual ≡ some old
      → p.services.set_variable
          (some name)
          (some vendor)
          (bit_or base extra)
          add_size
          (at_pointer add s)
          s.firmware
        ≡ ok (0, f₁)
      → p.services.get_variable (some name) (some vendor) (some p.garbage) (some size) s.actual f₁
        ≡ ok (get_result 0 (some base) (some size) (some b), f₂)
      → size ≤ b.extent
      → set_and_check_variable p name vendor base extra add_size add size (actual 0) s
        ≡ verify_variable_enumerable p name vendor true
            (record s { actual = some b; firmware = f₂ })
  set_and_check_variable_self name vendor base extra add_size add size s old b f₁ f₂ there set get
        h =
      set_and_check_variable-passes name vendor base extra add_size add size (actual 0) s old
        (from_offset 0 b) b f₁ f₂ there set get refl (omega arith) h
        (λ j lt. ap (λ i. u8 (b.bytes i)) (omega arith))
