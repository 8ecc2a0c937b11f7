-- ===== src/AuthVarTest/Check/Read.antt =====
-- What the reads of VerifyValidVarWriteReadEnumDel verify.
use qemu_pipeline.Base.{ℕ, ◌<◌, ◌≡◌, ap, ◌∙◌, sym, subst, true, Option, some, none, u8, given_or}
use qemu_pipeline.Outcome.{Outcome, ok}
use qemu_pipeline.Memory.{Block}
use qemu_pipeline.Efi.Guid.{Guid}
use qemu_pipeline.Support.{Chars}
use qemu_pipeline.Pool.{allocate_pool}
use qemu_pipeline.Driver.Get.{GetResult}
use qemu_pipeline.Verify.{◌>>◌, verify_are_equal}
use qemu_pipeline.Verify.Laws.{
  Verified, on_done, Verified-bind, Verified-mono, verify_is_not_null-Verified,
  verify_are_equal-Verified, verify_succeeded-Verified,
}
use qemu_pipeline.AuthVarTest.{
  TestState, Platform, image, actual, offset_in, verify_are_equal_bytes,
}
use qemu_pipeline.AuthVarTest.Compare.{verify_are_equal_bytes-Verified}
use qemu_pipeline.AuthVarTest.Check.Calls.{offset_bytes, fetch-Verified, ask-Verified}
use qemu_pipeline.AuthVarTest.Check.{verify_absent, read_allocated, read_written}

-- The report of a variable that has been read: success, the attributes and the bytes.
pub record IsRead (expected expected_size : ℕ) (expected_data : Option Block) (out : GetResult)
    : Type 0 where
  pub status : out.status ≡ 0
  pub attributes : given_or out.attributes 0 ≡ expected
  pub wanted : Block
  pub read : Block
  pub content : expected_data ≡ some wanted
  pub contents : out.contents ≡ some read
  pub bytes : (j : ℕ) → j < expected_size → u8 (wanted.bytes j) ≡ u8 (read.bytes j)

module _ {F : Type 0} (p : Platform F) where
  -- A call of GetVariable for the size alone.
  abbrev pub ask : Chars → Guid → F → Outcome (GetResult × F)
  ask name vendor f = p.services.get_variable (some name) (some vendor) none (some 0) none f

  -- A call of GetVariable for the contents, into given memory, and into new memory of the size.
  abbrev pub fetch_into : Chars → Guid → ℕ → Option Block → F → Outcome (GetResult × F)
  fetch_into name vendor size b f =
      p.services.get_variable (some name) (some vendor) (some p.garbage) (some size) b f

  abbrev pub fetch : Chars → Guid → ℕ → F → Outcome (GetResult × F)
  fetch name vendor size f = fetch_into name vendor size (p.heap.malloc size) f

  pub verify_absent-Verified :
      (name : Chars) (vendor : Guid) (s : TestState F)
      → Verified
          (λ _ s'.
            (out : GetResult) × (f : F) × (ask name vendor s.firmware ≡ ok (out, f))
            × (out.status ≡ 14)
            × (s' ≡ record s { firmware = f }))
          (verify_absent p name vendor s)
  unfolding verify_absent
  verify_absent-Verified name vendor s =
      Verified-bind (ask-Verified p name vendor none s) (λ out s₁ (f, e, e₁).
        Verified-mono (verify_are_equal-Verified 14 (out.status) s₁)
          (λ _ s₂ (status, e₂). (out, f, e, sym status, e₂ ∙ e₁)))

  contents-Verified :
      (expected a size off : ℕ) (s : TestState F)
      → Verified
          (λ _ s'.
            (expected ≡ a)
            × (wanted : Block) × (offset_in off s.image ≡ some wanted)
            × (read : Block) × (s.actual ≡ some read)
            × ((j : ℕ) → j < size → u8 (wanted.bytes j) ≡ u8 (read.bytes j))
            × (s' ≡ s))
          ((verify_are_equal expected a >> verify_are_equal_bytes (image off) (actual 0) size) s)
  contents-Verified expected a size off s =
      Verified-bind (verify_are_equal-Verified expected a s) (λ _ s₁ (same, e₁).
        Verified-mono (verify_are_equal_bytes-Verified (image off) (actual 0) size s₁)
          (λ _ s₂ (e₂, l, el, r, er, bytes).
            let (b, eb, kept) = offset_bytes (s₁.actual) r er in
            (
              same,
              l,
              ap (λ (t : TestState F). offset_in off t.image) (sym e₁) ∙ el,
              b,
              ap (λ (t : TestState F). t.actual) (sym e₁) ∙ eb,
              (λ j lt. bytes j lt ∙ ap u8 (kept j)),
              e₂ ∙ e₁,
            )))

  -- The contents are read into memory of the size reported.
  read_allocated-Verified :
      (name : Chars) (vendor : Guid) (attributes size off n : ℕ) (s : TestState F)
      → Verified
          (λ _ s'.
            (out : GetResult) × (f : F) × (fetch name vendor n s.firmware ≡ ok (out, f))
            × IsRead attributes size (offset_in off s.image) out
            × (s' ≡ record s { actual = none; firmware = f }))
          (read_allocated p name vendor attributes size (image off) true n s)
  unfolding read_allocated allocate_pool
  read_allocated-Verified name vendor attributes size off n s =
      Verified-bind
        (verify_is_not_null-Verified (p.heap.malloc n) (record s { actual = p.heap.malloc n }))
        (λ _ s₁ e₁.
          Verified-bind (fetch-Verified p name vendor p.garbage n s₁) (λ out s₂ (f, e, e₂).
            Verified-bind (verify_succeeded-Verified (out.status) s₂) (λ _ s₃ (zero, e₃).
              let a₃ : s₃ ≡ record s { actual = out.contents; firmware = f } =
                e₃
                ∙ e₂
                ∙ ap (λ (t : TestState F). record t { actual = out.contents; firmware = f }) e₁ in
              Verified-bind (contents-Verified attributes (given_or (out.attributes) 0) size off s₃)
                (λ _ s₄ (attrs, l, el, b, eb, same, e₄). on_done (
                  out,
                  f,
                  subst (λ t. fetch_into name vendor n t.actual t.firmware ≡ ok (out, f)) e₁ e,
                  record {
                    status = zero;
                    attributes = sym attrs;
                    wanted = l;
                    read = b;
                    content = ap (λ (t : TestState F). offset_in off t.image) (sym a₃) ∙ el;
                    contents = ap (λ (t : TestState F). t.actual) (sym a₃) ∙ eb;
                    bytes = same;
                  },
                  ap (λ (t : TestState F). record t { actual = none }) (e₄ ∙ a₃),
                )))))

  -- The two calls that read the variable.
  pub read_written-Verified :
      (name : Chars) (vendor : Guid) (attributes size off : ℕ) (s : TestState F)
      → Verified
          (λ _ s'.
            (asked : GetResult) × (f₁ : F) × (ask name vendor s.firmware ≡ ok (asked, f₁))
            × (asked.status ≡ 5)
            × (given_or asked.data_size 0 ≡ size)
            × (out : GetResult) × (f₂ : F) × (fetch name vendor size f₁ ≡ ok (out, f₂))
            × IsRead attributes size (offset_in off s.image) out
            × (s' ≡ record s { actual = none; firmware = f₂ }))
          (read_written p name vendor attributes size (image off) true s)
  unfolding read_written
  read_written-Verified name vendor attributes size off s =
      Verified-bind (ask-Verified p name vendor none s) (λ asked s₁ (f₁, e, e₁).
        Verified-bind (verify_are_equal-Verified 5 (asked.status) s₁) (λ _ s₂ (status, e₂).
          Verified-bind (verify_are_equal-Verified (given_or (asked.data_size) 0) size s₂)
            (λ _ s₃ (sized, e₃).
              let n : ℕ = given_or (asked.data_size) 0 in
              let a₃ : s₃ ≡ record s { firmware = f₁ } = e₃ ∙ e₂ ∙ e₁ in
              Verified-mono (read_allocated-Verified name vendor attributes size off n s₃)
                (λ _ s₄ (out, f₂, e₄, is_read, a₄). (
                  asked,
                  f₁,
                  e,
                  sym status,
                  sized,
                  out,
                  f₂,
                  subst (λ n. fetch name vendor n f₁ ≡ ok (out, f₂)) sized
                      (subst (λ t. fetch name vendor n t.firmware ≡ ok (out, f₂)) a₃ e₄),
                  subst (λ t. IsRead attributes size (offset_in off t.image) out) a₃ is_read,
                  a₄ ∙ ap (λ (t : TestState F). record t { actual = none; firmware = f₂ }) a₃,
                )))))
