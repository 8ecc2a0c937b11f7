-- ===== src/Tests/Kept.antt =====
-- The TA with one variable keeps its store, and a sequence of calls through the driver.
use qemu_pipeline.Base.{
  ℕ, zero, suc, ◌+◌, ◌≤◌, ◌<◌, ◌^◌, ◌≡◌, refl, sym, ◌∙◌, ap, ap₂, subst, Bool, true, false, List,
  [], ◌∷◌, length, get_or, leb, none, some, arith, Option, u16, Bool-cases, inl, inr,
}
use qemu_pipeline.Memory.{Bytes, Block, read16, read32, read64}
use qemu_pipeline.Memory.Laws.{read32-lt}
use qemu_pipeline.Efi.Guid.{Guid}
use qemu_pipeline.Support.{Chars, str_size}
use qemu_pipeline.Driver.Request.Laws.{IsGetParam}
use qemu_pipeline.Driver.Set.Laws.{IsSetParam, source_byte}
use qemu_pipeline.Store.{bytes_of}
use qemu_pipeline.Store.Laws.{IsReadReply, KeepsStore}
use qemu_pipeline.Tests.Vault.{
  Vault, vault, vault_tee, IsKept, is_kept, write_kept, stored, write_of, input_bytes, vault_answer,
  value_reply, space_output, units_at, value_reply-IsReadReply, vault_tee-KeepsOrder,
}

read_answer-IsReadReply :
    (v : Vault) (b : Block) (name : Chars) (g : Guid) (n room : ℕ)
    → IsKept v
    → IsGetParam b n g name
    → IsReadReply (vault.read v name g) (vault_answer 0 v room b.bytes) room
read_answer-IsReadReply v b name g n room kept h =
    rw (h.vendor, units_at b 24 name g h.name)
      (elim (Bool-cases (is_kept (get_or name 0 0) (get_or name 1 0) g)) [
        | inl same ↦ rw same (value_reply-IsReadReply v v room kept)
        | inr other ↦ rw other (value_reply-IsReadReply none v room tt)
      ])

bytes_of_same : (n : ℕ) (a b : Bytes) → ((i : ℕ) → i < n → a i ≡ b i) → bytes_of n a ≡ bytes_of n b
bytes_of_same zero a b h = refl
bytes_of_same (suc n) a b h =
    ap₂ (λ x xs. x ∷ xs) (h 0 (omega arith))
      (bytes_of_same n (λ i. a (suc i)) (λ i. b (suc i)) (λ i lt. h (suc i) (omega arith)))

request_data :
    (b : Block) (n count : ℕ) (source : Option Block)
    → read32 b.bytes 36 ≡ n
    → read32 b.bytes 28 ≡ count
    → ((i : ℕ) → i < count → b.bytes (40 + n + i) ≡ source_byte source i)
    → bytes_of (read32 b.bytes 28) (λ i. b.bytes (40 + read32 b.bytes 36 + i))
      ≡ bytes_of count (source_byte source)
request_data b n count source e e' h =
    rw (e, e') (bytes_of_same count (λ i. b.bytes (40 + n + i)) (source_byte source) h)

written :
    (v : Vault) (b : Block) (name : Chars) (g : Guid) (n attributes count : ℕ)
    (source : Option Block)
    → IsSetParam b n g name attributes count source
    → write_of v b.bytes ≡ vault.write v name g attributes (bytes_of count (source_byte source))
written v b name g n attributes count source h =
    rw
      (
        h.vendor,
        units_at b 40 name g h.name,
        h.attributes_there,
        request_data b n count source h.offset_data h.data_size h.contents,
      )
      refl

stored-IsKept :
    (attributes : ℕ) (xs : List ℕ)
    → attributes < 2 ^ 32
    → length xs ≤ 100
    → IsKept (stored attributes xs)
stored-IsKept zero xs small short = tt
stored-IsKept (suc n) [] small short = tt
stored-IsKept (suc n) (x ∷ xs) small short = (short, small)

write_kept-IsKept :
    (kept : Bool) (attributes : ℕ) (xs : List ℕ) (v : Vault)
    → attributes < 2 ^ 32
    → IsKept v
    → IsKept (write_kept kept attributes xs v).1
write_kept-IsKept false attributes xs v small h = h
write_kept-IsKept true attributes xs v small h = elim (Bool-cases (leb (length xs) 100)) [
  | inl short ↦ rw short (stored-IsKept attributes xs small (ground arith))
  | inr long ↦ rw long h
]

value_reply-world : (o : Vault) (room : ℕ) (v : Vault) → (value_reply o room v).world ≡ v
value_reply-world none room v = refl
value_reply-world (some x) room v = refl

space_output-reads :
    (read64 space_output 8 ≡ 1000) × (read64 space_output 16 ≡ 900) × (read64 space_output 24 ≡ 100)
unfolding read64 read32 read16
space_output-reads = (refl, refl, refl)

pub vault_tee-KeepsStore : KeepsStore vault_tee IsKept (λ v. v) vault
vault_tee-KeepsStore = record {
  order = vault_tee-KeepsOrder;
  reads = λ v session operation request name g kept w there decodes. (
    subst
        (λ o.
          IsReadReply (vault.read v name g) (vault_answer 0 v operation.output_size (input_bytes o))
            operation.output_size)
        (sym there)
        (read_answer-IsReadReply v request name g (u16 (str_size name)) operation.output_size kept
          decodes),
    value_reply-world _ operation.output_size v,
    subst IsKept (sym (value_reply-world _ operation.output_size v)) kept,
  );
  writes = λ v session operation request name g attributes size source kept w there decodes.
      let e =
        ap (λ o. write_of v (input_bytes o)) there
        ∙ written v request name g (str_size name) attributes size source decodes in
      (
        ap (λ r. r.0) e,
        ap (λ r. r.1) e,
        subst (λ r. IsKept (r.1)) (sym e)
            (write_kept-IsKept (is_kept (get_or name 0 0) (get_or name 1 0) g) attributes
              (bytes_of size (source_byte source)) v
              (omega (arith, decodes.attributes_there, read32-lt request.bytes 24)) kept),
      );
  queries = λ v session operation request attributes kept there room decodes.
      (record { result = refl; sizes = λ good. space_output-reads }, refl, kept);
}
