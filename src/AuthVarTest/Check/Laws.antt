-- ===== src/AuthVarTest/Check/Laws.antt =====
-- What SetAndCheckVariable and DeleteAndCheckVariable verify.
use qemu_pipeline.Base.{
  ℕ, ◌<◌, ◌≡◌, ap, ◌∙◌, sym, subst, true, false, Option, some, none, u8, given_or, bit_or,
}
use qemu_pipeline.Outcome.{Outcome, ok}
use qemu_pipeline.Memory.{Block}
use qemu_pipeline.Efi.Guid.{Guid}
use qemu_pipeline.Support.{Chars}
use qemu_pipeline.Driver.Get.{GetResult}
use qemu_pipeline.Verify.Laws.{
  Verified, on_done, Verified-bind, Verified-mono, Verified-any, verify_is_not_null-Verified,
  verify_are_equal-Verified, verify_succeeded-Verified,
}
use qemu_pipeline.AuthVarTest.{TestState, Platform, Pointer, actual, at_pointer, null}
use qemu_pipeline.AuthVarTest.Compare.{verify_are_equal_bytes-Verified}
use qemu_pipeline.AuthVarTest.Check.Calls.{
  offset_bytes, fetch-Verified, write-Verified, ask-Verified,
}
use qemu_pipeline.AuthVarTest.Check.{
  read_and_check, set_and_check_variable, delete_and_check_variable,
}
use qemu_pipeline.AuthVarTest.Enumerate.{verify_variable_enumerable}

module _ {F : Type 0} (p : Platform F) where
  -- The report of a variable that has been read: success, the attributes, the size and the bytes.
  pub record IsReported (expected expected_size : ℕ) (expected_data : Option Block)
      (out : GetResult) : Type 0 where
    pub status : out.status ≡ 0
    pub attributes : given_or out.attributes 0 ≡ expected
    pub size : given_or out.data_size 0 ≡ expected_size
    pub wanted : Block
    pub read : Block
    pub content : expected_data ≡ some wanted
    pub contents : out.contents ≡ some read
    pub bytes : (j : ℕ) → j < expected_size → u8 (wanted.bytes j) ≡ u8 (read.bytes j)

  -- Where the checks of a variable that is read go on, the service has reported it as expected.
  read_and_check-Verified :
      (name : Chars) (vendor : Guid) (expected old buffer_size size : ℕ) (check : Pointer)
      (s : TestState F)
      → Verified
          (λ a s'.
            (out : GetResult) × (f : F) × (p.services.get_variable
                (some name)
                (some vendor)
                (some old)
                (some buffer_size)
                s.actual
                s.firmware
              ≡ ok (out, f))
            × (s' ≡ record s { actual = out.contents; firmware = f })
            × IsReported expected size (at_pointer check s') out)
          (read_and_check p name vendor expected old buffer_size size check s)
  unfolding read_and_check
  read_and_check-Verified name vendor expected old buffer_size size check s =
      Verified-bind (fetch-Verified p name vendor old buffer_size s) (λ out s₁ (f, e, e₁).
        Verified-bind (verify_succeeded-Verified (out.status) s₁) (λ _ s₂ (status, e₂).
          Verified-bind (verify_are_equal-Verified expected (given_or (out.attributes) 0) s₂)
            (λ _ s₃ (attributes, e₃).
              Verified-bind (verify_are_equal-Verified size (given_or (out.data_size) 0) s₃)
                (λ _ s₄ (sized, e₄).
                  Verified-bind
                    (verify_are_equal_bytes-Verified check (actual 0) (given_or (out.data_size) 0)
                      s₄)
                    (λ _ s₅ (e₅, l, el, r, er, same).
                      let after = e₅ ∙ e₄ ∙ e₃ ∙ e₂ ∙ e₁ in
                      let (b, eb, kept) = offset_bytes (s₄.actual) r er in
                      on_done (
                        out,
                        f,
                        e,
                        after,
                        record {
                          status = status;
                          attributes = sym attributes;
                          size = sym sized;
                          wanted = l;
                          read = b;
                          content = ap (at_pointer check) e₅ ∙ el;
                          contents = ap (λ t. t.actual) (sym (e₄ ∙ e₃ ∙ e₂ ∙ e₁)) ∙ eb;
                          bytes = λ j lt. same j (subst (λ n. j < n) sized lt) ∙ ap u8 (kept j);
                        },
                      ))))))

  -- Where SetAndCheckVariable goes on, the service has accepted the write, and has then reported
  -- success, the attributes without the extra ones, the size to check, and contents that are, byte
  -- for byte, the data to check, as they are after the call that reads.
  pub set_and_check_variable-Verified :
      (name : Chars) (vendor : Guid) (base extra add_size : ℕ) (add : Pointer) (check_size : ℕ)
      (check : Pointer) (s : TestState F)
      → Verified
          (λ _ _.
            (f₁ : F) × (p.services.set_variable
                (some name)
                (some vendor)
                (bit_or base extra)
                add_size
                (at_pointer add s)
                s.firmware
              ≡ ok (0, f₁))
            × (out : GetResult) × (f₂ : F) × (p.services.get_variable
                  (some name)
                  (some vendor)
                  (some p.garbage)
                  (some check_size)
                  s.actual
                  f₁
                ≡ ok (out, f₂))
            × IsReported base check_size
                (at_pointer check (record s { actual = out.contents; firmware = f₂ }))
                out)
          (set_and_check_variable p name vendor base extra add_size add check_size check s)
  unfolding set_and_check_variable
  set_and_check_variable-Verified name vendor base extra add_size add check_size check s =
      Verified-bind (verify_is_not_null-Verified s.actual s) (λ _ s₁ e₁.
        Verified-bind (write-Verified p name vendor (bit_or base extra) add_size add s₁)
          (λ status s₂ (f₁, set, e₂).
            Verified-bind (verify_succeeded-Verified status s₂) (λ _ s₃ (zero, e₃).
              Verified-bind
                (read_and_check-Verified name vendor base p.garbage check_size check_size check s₃)
                (λ _ s₄ (out, f₂, get, e₄, reported).
                  let written = e₃ ∙ e₂ ∙ ap (λ (t : TestState F). record t { firmware = f₁ }) e₁ in
                  let after =
                    e₄
                    ∙ ap (λ (t : TestState F). record t { actual = out.contents; firmware = f₂ })
                        written in
                  Verified-mono (Verified-any (verify_variable_enumerable p name vendor true s₄))
                    (λ _ _ _. (
                      f₁,
                      subst (λ t. set_call t ≡ ok (0, f₁)) e₁
                          (subst (λ n. set_call s₁ ≡ ok (n, f₁)) zero set),
                      out,
                      f₂,
                      subst (λ t. get_call t ≡ ok (out, f₂)) written get,
                      subst (λ t. IsReported base check_size (at_pointer check t) out) after
                          reported,
                    ))))))
    where
      set_call : TestState F → Outcome (ℕ × F)
      set_call t =
          p.services.set_variable (some name) (some vendor) (bit_or base extra) add_size
            (at_pointer add t) t.firmware

      get_call : TestState F → Outcome (GetResult × F)
      get_call t =
          p.services.get_variable (some name) (some vendor) (some p.garbage) (some check_size)
            t.actual t.firmware

  -- Where DeleteAndCheckVariable goes on, the service has accepted a write of no data, and has then
  -- answered EFI_NOT_FOUND for the variable.
  pub delete_and_check_variable-Verified :
      (name : Chars) (vendor : Guid) (base extra : ℕ) (s : TestState F)
      → Verified
          (λ _ _.
            (f₁ : F) × (p.services.set_variable
                (some name)
                (some vendor)
                (bit_or base extra)
                0
                none
                s.firmware
              ≡ ok (0, f₁))
            × (out : GetResult) × (f₂ : F) × (p.services.get_variable
                  (some name)
                  (some vendor)
                  (some p.garbage)
                  (some 0)
                  none
                  f₁
                ≡ ok (out, f₂))
            × (out.status ≡ 14))
          (delete_and_check_variable p name vendor base extra s)
  unfolding delete_and_check_variable
  delete_and_check_variable-Verified name vendor base extra s =
      Verified-bind (write-Verified p name vendor (bit_or base extra) 0 null s)
        (λ status s₁ (f₁, set, e₁).
          Verified-bind (verify_succeeded-Verified status s₁) (λ _ s₂ (zero, e₂).
            Verified-bind (ask-Verified p name vendor (some p.garbage) s₂) (λ out s₃ (f₂, ask, e₃).
              Verified-bind (verify_are_equal-Verified 14 (out.status) s₃) (λ _ s₄ (status', e₄).
                Verified-mono (Verified-any (verify_variable_enumerable p name vendor false s₄))
                  (λ _ _ _. (
                    f₁,
                    subst (λ n. set_call ≡ ok (n, f₁)) zero set,
                    out,
                    f₂,
                    subst (λ f. get_call f ≡ ok (out, f₂)) (ap (λ t. t.firmware) (e₂ ∙ e₁)) ask,
                    sym status',
                  ))))))
    where
      set_call : Outcome (ℕ × F)
      set_call =
          p.services.set_variable (some name) (some vendor) (bit_or base extra) 0 none s.firmware

      get_call : F → Outcome (GetResult × F)
      get_call f =
          p.services.get_variable (some name) (some vendor) (some p.garbage) (some 0) none f
