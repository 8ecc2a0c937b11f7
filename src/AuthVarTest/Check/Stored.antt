-- ===== src/AuthVarTest/Check/Stored.antt =====
-- The tests of the variables on services that keep a store.
use qemu_pipeline.Base.{
  ℕ, zero, suc, ◌≤◌, ◌<◌, ◌≡◌, refl, ap, ◌∙◌, sym, subst, true, Option, none, some, length, arith,
  u8, given_or, get_or,
}
use qemu_pipeline.Outcome.{ok, Returns-eq}
use qemu_pipeline.Memory.{Bytes, Block}
use qemu_pipeline.Efi.Guid.{Guid}
use qemu_pipeline.Support.{Chars}
use qemu_pipeline.Pool.{allocate_pool}
use qemu_pipeline.Driver.Tee.{success}
use qemu_pipeline.Driver.Invoke.{status_of}
use qemu_pipeline.Driver.Set.Laws.{source_byte}
use qemu_pipeline.Verify.{done}
use qemu_pipeline.Verify.Laws.{verify_is_not_null-some, step}
use qemu_pipeline.Verify.Passes.{
  Passes, passes, Passes-bind, Passes-after, verify_are_equal-of_eq, verify_succeeded-of_eq,
}
use qemu_pipeline.Store.{Value, bytes_of}
use qemu_pipeline.Store.Contract.{Contract, Serves}
use qemu_pipeline.AuthVarTest.{
  TestState, Platform, image, actual, offset_in, ask_variable, fetch_variable, write_variable,
  verify_are_equal_bytes, from_offset,
}
use qemu_pipeline.AuthVarTest.Compare.{verify_are_equal_bytes_iff}
use qemu_pipeline.AuthVarTest.Check.{verify_absent, read_allocated, read_written}

bytes_of-get : (n : ℕ) (m : Bytes) (i : ℕ) → i < n → get_or (bytes_of n m) i 0 ≡ m i
bytes_of-get zero m i lt = absurd (omega arith)
bytes_of-get (suc n) m zero lt = refl
bytes_of-get (suc n) m (suc i) lt = bytes_of-get n (λ j. m (suc j)) i (omega arith)

length-bytes_of : (n : ℕ) (m : Bytes) → length (bytes_of n m) ≡ n
length-bytes_of zero m = refl
length-bytes_of (suc n) m = ap suc (length-bytes_of n (λ j. m (suc j)))

module _ {F S : Type 0} (p : Platform F) (c : Contract F S) (k : Serves c p.services) where
  -- The firmware stands for the store `v`, and mImageData is `img`.
  pub record Stands (v : S) (img : Option Block) (t : TestState F) : Type 0 where
    pub good : c.Good t.firmware
    pub view : c.view t.firmware ≡ v
    pub image : t.image ≡ img

  module _ (name : Chars) (g : Guid) (v : S) (img : Option Block) (t : TestState F)
      (h : Stands v img t) where
    -- What the store holds, in terms of the firmware.
    held :
        {o : Option Value} → c.store.read v name g ≡ o → c.store.read (c.view t.firmware) name g ≡ o
    held e = ap (λ w. c.store.read w name g) h.view ∙ e

    ask-missing :
        c.Readable name g 0 none
        → c.store.read v name g ≡ none
        → Passes (λ out t'. (out.status ≡ 14) × Stands v img t') (ask_variable p name g none t)
    ask-missing r e =
        let ((out, f), called, (status, same, good)) =
          Returns-eq (k.missing t.firmware name g none 0 none h.good r (held e)) in
        rw (ask_variable, called)
          (passes (status, record { good = good; view = same ∙ h.view; image = h.image }))

    ask-short :
        (value : Value)
        → c.Readable name g 0 none
        → c.store.read v name g ≡ some value
        → 0 < length value.contents
        → Passes
            (λ out t'.
              (out.status ≡ 5) × (out.data_size ≡ some (length value.contents)) × Stands v img t')
            (ask_variable p name g none t)
    ask-short value r e long =
        let ((out, f), called, (status, count, same, good)) =
          Returns-eq (k.short t.firmware name g none 0 none value h.good r (held e) long) in
        rw (ask_variable, called)
          (passes (status, count, record { good = good; view = same ∙ h.view; image = h.image }))

    fetch-full :
        (value : Value) (old size : ℕ) (b : Block)
        → t.actual ≡ some b
        → c.Readable name g size (some b)
        → c.store.read v name g ≡ some value
        → length value.contents ≤ size
        → Passes
            (λ out t'.
              (out.status ≡ 0)
              × (out.attributes ≡ some value.attributes)
              × ((r : Block) × (t'.actual ≡ some r)
                  × (r.extent ≡ b.extent)
                  × ((i : ℕ) → i < length value.contents → r.bytes i ≡ get_or value.contents i 0))
              × Stands v img t')
            (fetch_variable p name g old size t)
    fetch-full value old size b there r e fits =
        let ((out, f), called, (status, attributes, count, found, same, good)) =
          Returns-eq
            (k.full t.firmware name g (some old) size (some b) value h.good r (held e) fits) in
        rw (fetch_variable, there, called)
          (passes (
            status,
            attributes,
            found b refl,
            record { good = good; view = same ∙ h.view; image = h.image },
          ))

    pub write-stored :
        (attributes size off : ℕ) (v' : S)
        → c.Writable name g attributes size (offset_in off img)
        → c.store.write v name g attributes (bytes_of size (source_byte (offset_in off img)))
          ≡ (success, v')
        → Passes
            (λ status t'. (status ≡ 0) × Stands v' img t')
            (write_variable p (some name) g attributes size (image off) t)
    unfolding status_of
    write-stored attributes size off v' w e =
        let ((status, f), called, (told, same, good)) =
          Returns-eq (k.written t.firmware name g attributes size (offset_in off img) h.good w) in
        let done_so =
          ap
            (λ u.
              c.store.write u name g attributes (bytes_of size (source_byte (offset_in off img))))
            h.view
          ∙ e in
        rw (write_variable, h.image, called)
          (passes (
            told ∙ ap (λ r. status_of (r.0)) done_so,
            record { good = good; view = same ∙ ap (λ r. r.1) done_so; image = h.image },
          ))

    pub verify_absent-Passes :
        c.Readable name g 0 none
        → c.store.read v name g ≡ none
        → Passes (λ _ t'. Stands v img t') (verify_absent p name g t)
    unfolding verify_absent
    verify_absent-Passes r e = Passes-bind (ask-missing r e) λ out t' (status, h').
        rw (verify_are_equal-of_eq 14 (out.status) t' (sym status)) (passes h')

  module _ (name : Chars) (g : Guid) (v : S) (img : Option Block) (attributes size off : ℕ)
      (wanted : Block) (content : offset_in off img ≡ some wanted) (long : size ≤ wanted.extent)
      (e : c.store.read v name g
        ≡ some (record { attributes = attributes; contents = bytes_of size wanted.bytes })) where
    -- What has been read is what mImageData holds.
    same_contents :
        (t : TestState F) (a : Block)
        → t.image ≡ img
        → t.actual ≡ some a
        → size ≤ a.extent
        → ((i : ℕ)
            → i < length (bytes_of size wanted.bytes)
            → a.bytes i ≡ get_or (bytes_of size wanted.bytes) i 0)
        → verify_are_equal_bytes (image off) (actual 0) size t ≡ ok (done tt, t)
    same_contents t a there read room bytes =
        (verify_are_equal_bytes_iff (image off) (actual 0) size t wanted (from_offset 0 a)
            (ap (offset_in off) there ∙ content) (ap (offset_in 0) read) long (omega arith)).1
          λ j lt. ap u8 (
            sym (bytes_of-get size wanted.bytes j lt)
            ∙ sym (bytes j (omega (arith, length-bytes_of size wanted.bytes)))
            ∙ ap a.bytes (omega arith))

    -- The contents, read into new memory of the size.
    read_allocated-Passes :
        (b : Block) (t : TestState F)
        → Stands v img t
        → p.heap.malloc size ≡ some b
        → c.Readable name g size (some b)
        → size ≤ b.extent
        → Passes
            (λ _ t'. Stands v img t')
            (read_allocated p name g attributes size (image off) true size t)
    unfolding read_allocated allocate_pool
    read_allocated-Passes b t h there r room =
        Passes-after _ (verify_is_not_null-some (p.heap.malloc size) b _ there) (
          Passes-bind
            (fetch-full name g v img (record t { actual = p.heap.malloc size })
              (record { good = h.good; view = h.view; image = h.image })
              (record { attributes = attributes; contents = bytes_of size wanted.bytes }) p.garbage
              size b there r e (omega (arith, length-bytes_of size wanted.bytes)))
            λ out t' (status, found, (a, a_there, a_long, bytes), h').
              Passes-after _ (verify_succeeded-of_eq (out.status) t' status) (
                Passes-after _
                  (step _
                    (verify_are_equal-of_eq attributes (given_or (out.attributes) 0) t'
                      (sym (ap (λ o. given_or o 0) found)))
                    (same_contents t' a h'.image a_there (omega (arith, a_long)) bytes))
                  (passes (record { good = h'.good; view = h'.view; image = h'.image }))))

    -- The two reads of a variable that is there.
    pub read_written-Passes :
        (b : Block) (t : TestState F)
        → Stands v img t
        → 0 < size
        → c.Readable name g 0 none
        → p.heap.malloc size ≡ some b
        → c.Readable name g size (some b)
        → size ≤ b.extent
        → Passes
            (λ _ t'. Stands v img t')
            (read_written p name g attributes size (image off) true t)
    unfolding read_written
    read_written-Passes b t h some_bytes asks there r room =
        Passes-bind
          (ask-short name g v img t h
            (record { attributes = attributes; contents = bytes_of size wanted.bytes }) asks e
            (omega (arith, length-bytes_of size wanted.bytes)))
          λ out t' (status, count, h').
            let sized : given_or (out.data_size) 0 ≡ size =
              ap (λ o. given_or o 0) count ∙ length-bytes_of size wanted.bytes in
            Passes-after _ (verify_are_equal-of_eq 5 (out.status) t' (sym status)) (
              Passes-after _ (verify_are_equal-of_eq (given_or (out.data_size) 0) size t' sized) (
                subst
                  (λ n.
                    Passes (λ _ t'. Stands v img t')
                      (read_allocated p name g attributes size (image off) true n t'))
                  (sym sized) (read_allocated-Passes b t' h' there r room)))
