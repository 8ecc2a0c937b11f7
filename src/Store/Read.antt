-- ===== src/Store/Read.antt =====
-- GetVariable through the driver, against the store of the TA.
use qemu_pipeline.Base.{
  ℕ, suc, Bool, ◌+◌, ◌≤◌, ◌<◌, ◌≡◌, refl, ap, ap₂, sym, subst, ◌∙◌, Option, none, some, List, [],
  ◌∷◌, inl, inr, Bool-cases, Option-cases, ltb, length, get_or, u16, arith,
}
use qemu_pipeline.Outcome.{Returns, returns, mono, bind}
use qemu_pipeline.Memory.{Bytes, Block}
use qemu_pipeline.Efi.Guid.{Guid}
use qemu_pipeline.Support.{Chars, str_size}
use qemu_pipeline.Wide.RoundTrip.{cut-narrow}
use qemu_pipeline.Firmware.Laws.{get_variable_published}
use qemu_pipeline.Driver.Tee.{TeeClient, Reply}
use qemu_pipeline.Driver.State.{Driver}
use qemu_pipeline.Driver.Request.Laws.{IsGetParam}
use qemu_pipeline.Driver.Get.Laws.{set_if_given}
use qemu_pipeline.Driver.Get.{GetResult, get_variable}
use qemu_pipeline.Driver.Get.Laws.{CanTake}
use qemu_pipeline.Driver.Get.Safety.{IsString, str_size-eq}
use qemu_pipeline.Driver.Get.Answer.{IsAccepted, get_operation, get_variable-IsAnswered}
use qemu_pipeline.Driver.Get.Held.{IsAfter, reply_of, held-short, held-full, not_held}
use qemu_pipeline.Driver.GetNext.Ordered.{IsOpen, IsServing}
use qemu_pipeline.Driver.Set.Laws.{source_byte}
use qemu_pipeline.Store.{
  Value, VariableStore, bytes_of, read_call, seen_value, see_get, perform, read_answer, answer,
}
use qemu_pipeline.Store.Laws.{IsReadReply, KeepsStore, IsReadable, Refines}

bytes_of-eq :
    (xs : List ℕ) (b : Bytes)
    → ((i : ℕ) → i < length xs → b i ≡ get_or xs i 0)
    → bytes_of (length xs) b ≡ xs
bytes_of-eq [] b h = refl
bytes_of-eq (x ∷ xs) b h =
    ap₂ (λ y ys. y ∷ ys) (h 0 (omega arith))
      (bytes_of-eq xs (λ i. b (suc i)) (λ i lt. h (suc i) (omega arith)))

-- The data that the caller finds, in its buffer or, where the value is empty, in none.
read_contents :
    (size : ℕ) (v : Value) (out : GetResult) (contents : Option Block)
    → CanTake contents size
    → length v.contents ≤ size
    → ((b : Block)
        → contents ≡ some b
        → (c : Block) × (out.contents ≡ some c)
          × (c.extent ≡ b.extent)
          × ((i : ℕ) → i < length v.contents → c.bytes i ≡ get_or v.contents i 0))
    → bytes_of (length v.contents) (source_byte out.contents) ≡ v.contents
read_contents size v out none take le found = empty v.contents (omega arith)
  where
    empty : (xs : List ℕ) → length xs ≡ 0 → bytes_of (length xs) (source_byte out.contents) ≡ xs
    empty [] e = refl
    empty (x ∷ xs) e = absurd (omega arith)
read_contents size v out (some b) take le found =
    let (c, there, _, bytes) = found b refl in
    bytes_of-eq v.contents (source_byte out.contents)
      λ i lt. ap (λ o. source_byte o i) there ∙ bytes i lt

module _ {W S : Type 0} (tee : TeeClient W) (Holds : W → Type 0) (store : W → S)
    (m : VariableStore S) (k : KeepsStore tee Holds store m) where
  module _ (name : Chars) (g : Guid) (old : Option ℕ) (size : ℕ) (contents : Option Block)
      (d : Driver W) {flag : Bool} (s : IsOpen tee Holds store m.after flag d)
      (v : IsReadable name g size contents) where
    is_string : IsString name
    is_string = omega (arith, v.0.short)

    accepted : IsAccepted name g size contents d
    accepted = record {
      opened = s.opened;
      string = is_string;
      guid = v.0.guid;
      take = v.2;
      not_hook = v.1;
      fits = omega (arith, v.3, s.param_size, str_size-eq name is_string);
      holds = omega (arith, v.4, s.result_size);
    }

    abbrev reply : Reply W
    reply = reply_of tee name g size contents d s.ready accepted old

    replied :
        IsReadReply (m.read (store d.world) name g) reply (16 + size)
        × (store reply.world ≡ store d.world)
        × Holds reply.world
    replied =
        let w = get_variable-IsAnswered tee name g old size contents d s.ready accepted in
        k.reads d.world d.session_id
          (get_operation w.request (28 + str_size name) w.cleared (16 + size)) w.request name g
          s.holds v.0 refl
          (subst (λ us. IsGetParam w.request (u16 (str_size name)) g us)
            (cut-narrow name v.0.narrow) w.decodes)

    still :
        {d' : Driver W}
        → IsAfter tee name g size contents d s.ready accepted old d'
        → (store d'.world ≡ store d.world) × IsOpen tee Holds store m.after flag d'
    still left = (
      ap store left.world ∙ replied.1,
      record {
        ready = left.ready;
        opened = left.same.opened ∙ s.opened;
        published = left.same.published ∙ s.published;
        param_size = left.same.param_size ∙ s.param_size;
        result_size = left.same.result_size ∙ s.result_size;
        holds = subst Holds (sym left.world) replied.2;
      },
    )

    -- There is no such variable.
    pub read_missing :
        m.read (store d.world) name g ≡ none
        → Returns
            (λ (out, d').
              (out.status ≡ 14)
              × (store d'.world ≡ store d.world)
              × IsOpen tee Holds store m.after flag d')
            (get_variable tee (some name) (some g) old (some size) contents d)
    read_missing e =
        mono (not_held tee name g size contents d s.ready accepted old (replied.0.missing e))
          λ (out, d') (told, left). (told, (still left).0, (still left).1)

    module _ (value : Value) (there : m.read (store d.world) name g ≡ some value) where
      -- It has a value that is longer than the buffer.
      pub read_short :
          size < length value.contents
          → Returns
              (λ (out, d').
                (out.status ≡ 5)
                × (out.data_size ≡ some (length value.contents))
                × (store d'.world ≡ store d.world)
                × IsOpen tee Holds store m.after flag d')
              (get_variable tee (some name) (some g) old (some size) contents d)
      read_short short =
          let (held, small) = replied.0.held value there in
          mono
            (held-short tee name g size contents d s.ready accepted old value.attributes
              (length value.contents) (λ i. get_or value.contents i 0) held (omega (arith, small))
              short)
            λ (out, d') (told, left). (
              ap (λ (o : GetResult). o.status) told,
              ap (λ (o : GetResult). o.data_size) told,
              (still left).0,
              (still left).1,
            )

      -- The value fits the buffer.
      pub read_full :
          length value.contents ≤ size
          → Returns
              (λ (out, d').
                (out.status ≡ 0)
                × (out.attributes ≡ set_if_given old value.attributes)
                × (out.data_size ≡ some (length value.contents))
                × ((b : Block)
                    → contents ≡ some b
                    → (c : Block) × (out.contents ≡ some c)
                      × (c.extent ≡ b.extent)
                      × ((i : ℕ)
                          → i < length value.contents
                          → c.bytes i ≡ get_or value.contents i 0))
                × (store d'.world ≡ store d.world)
                × IsOpen tee Holds store m.after flag d')
              (get_variable tee (some name) (some g) old (some size) contents d)
      read_full fits =
          let (held, small) = replied.0.held value there in
          mono
            (held-full tee name g size contents d s.ready accepted old value.attributes
              (length value.contents) (λ i. get_or value.contents i 0) held (omega (arith, small))
              fits)
            λ (out, d') (status, attributes, count, found, left).
              (status, attributes, count, found, (still left).0, (still left).1)

  module _ (name : Chars) (g : Guid) (old size : ℕ) (contents : Option Block) (d : Driver W)
      (s : IsServing tee Holds store m.after d) (v : IsReadable name g size contents) where
    -- What the caller sees of the driver's call is what the store answers.
    seen :
        Returns
          (λ (out, d').
            (see_get out ≡ read_answer size (m.read (store d.world) name g))
            × (store d'.world ≡ store d.world)
            × IsServing tee Holds store m.after d')
          (get_variable tee (some name) (some g) (some old) (some size) contents d)
    unfolding see_get
    seen = elim (Option-cases (m.read (store d.world) name g)) [
      | inl missing ↦
          mono (read_missing name g (some old) size contents d s v missing)
            λ (out, d') (told, same, serving). (rw (told, missing) refl, same, serving)
      | inr (value, there) ↦ elim (Bool-cases (ltb size (length value.contents))) [
        | inl short ↦
            mono (read_short name g (some old) size contents d s v value there (ground arith))
              λ (out, d') (status, count, same, serving).
                (rw (status, count, there, short) refl, same, serving)
        | inr fits ↦
            mono (read_full name g (some old) size contents d s v value there (ground arith))
              λ (out, d') (status, attributes, count, found, same, serving). (
                rw (status, attributes, count, there, fits)
                    (ap (seen_value value.attributes)
                      (read_contents size value out contents v.2 (ground arith) found)),
                same,
                serving,
              )
      ]
    ]

    pub read_call-Refines : Refines tee Holds store m (read_call name g old size contents) d
    unfolding perform answer
    read_call-Refines =
        rw
          (get_variable_published tee d s.published (some name) (some g) (some old) (some size)
            contents)
          (bind seen λ (out, d') h. returns h)
