-- ===== src/Driver/Set/Laws.antt =====
-- SetVariable: what the TA finds in the request, and no access outside an object.
use qemu_pipeline.Base.{
  ℕ, ◌+◌, ◌*◌, ◌^◌, ◌≤◌, ◌<◌, ◌≡◌, inl, inr, refl, ◌∙◌, ap, true, Option, none, some, ◌==◌, arith,
  u16, u32, length,
}
use qemu_pipeline.Outcome.{Returns, returns, bind, mono}
use qemu_pipeline.Memory.{Bytes, Block, bytes16, bytes32, read16, read32, overwrite}
use qemu_pipeline.Memory.Laws.{
  store-ok, copy_mem-ok, overwrite-inside, overwrite-outside, read16-overwrite_self,
  read16-overwrite_outside, read32-overwrite_self, read32-overwrite_outside,
}
use qemu_pipeline.Efi.Guid.{Guid, IsGuid, guid_bytes, read_guid}
use qemu_pipeline.Efi.Guid.Laws.{read_guid-overwrite_self, read_guid_same}
use qemu_pipeline.Support.{Chars}
use qemu_pipeline.Wide.Laws.{
  SameOutside, HasUnits, cut, length-cut, fix_wide_string-HasUnits, read16_same, read32_same,
}
use qemu_pipeline.Driver.State.Laws.{SameShape}
use qemu_pipeline.Driver.Request.{fill_set_param, copy_from}
use qemu_pipeline.Driver.Get.Laws.{CanTake}

-- The first bytes of a source that may be NULL.
abbrev pub source_byte : Option Block → ℕ → ℕ
source_byte none i = 0
source_byte (some b) i = b.bytes i

-- A block holds the fields of VARIABLE_SET_PARAM: the sizes and the attributes, the GUID, the name
-- at the start of the payload, and the data at OffsetData behind it.
pub record IsSetParam (b : Block) (n : ℕ) (g : Guid) (units : Chars) (attributes count : ℕ)
    (source : Option Block) : Type 0 where
  pub size : read32 b.bytes 0 ≡ 44
  pub name_size : read16 b.bytes 4 ≡ u16 n
  pub vendor : read_guid b.bytes 8 ≡ g
  pub attributes_there : read32 b.bytes 24 ≡ attributes
  pub data_size : read32 b.bytes 28 ≡ count
  pub offset_name : read32 b.bytes 32 ≡ 0
  pub offset_data : read32 b.bytes 36 ≡ n
  pub name : HasUnits b 40 units
  pub contents : (i : ℕ) → i < count → b.bytes (40 + n + i) ≡ source_byte source i

-- `copy_from` writes the first `count` bytes of the source and nothing else.
copy_from-Returns :
    (source : Option Block) (count off : ℕ) (b : Block)
    → CanTake source count
    → off + count ≤ b.extent
    → Returns
        (λ c.
          SameOutside off (off + count) b c
          × ((i : ℕ) → i < count → c.bytes (off + i) ≡ source_byte source i))
        (copy_from source count off b)
unfolding copy_from
copy_from-Returns none count off b take fits = rw (empty count take) (
    returns (
      record { address = refl; extent = refl; outside = λ i away. refl },
      λ i lt. absurd (omega arith),
    ))
  where
    empty : (count : ℕ) → count ≡ 0 → (count == 0) ≡ true
    empty count e = ground arith
copy_from-Returns (some s) count off b take fits =
    rw (copy_mem-ok off s 0 count b (omega arith) fits) (
      returns (
        record {
          address = refl;
          extent = refl;
          outside = λ i away. overwrite-outside off count _ b.bytes i (omega arith);
        },
        λ i lt.
            overwrite-inside off count (λ j. s.bytes (0 + j)) b.bytes i lt
            ∙ ap s.bytes (omega arith),
      ))

module _ (n : ℕ) (vendor : Guid) (name : Chars) (attributes count : ℕ) (source : Option Block)
    (b : Block) where
  -- The bytes after each of the stores of the fixed part.
  abbrev m₁ : Bytes
  m₁ = overwrite 0 4 (bytes32 44) b.bytes

  abbrev m₂ : Bytes
  m₂ = overwrite 4 2 (bytes16 (u16 n)) m₁

  abbrev m₃ : Bytes
  m₃ = overwrite 24 4 (bytes32 (u32 attributes)) m₂

  abbrev m₄ : Bytes
  m₄ = overwrite 28 4 (bytes32 (u32 count)) m₃

  abbrev m₅ : Bytes
  m₅ = overwrite 32 4 (bytes32 0) m₄

  abbrev m₆ : Bytes
  m₆ = overwrite 36 4 (bytes32 (u32 n)) m₅

  abbrev m₇ : Bytes
  m₇ = overwrite 8 16 (guid_bytes vendor) m₆

  -- The fields of the fixed part, by the last store that touched each.
  fixed_fields :
      n < 2 ^ 32
      → attributes < 2 ^ 32
      → count < 2 ^ 32
      → (read32 m₇ 0 ≡ 44)
        × (read16 m₇ 4 ≡ u16 n)
        × (read32 m₇ 24 ≡ attributes)
        × (read32 m₇ 28 ≡ count)
        × (read32 m₇ 32 ≡ 0)
        × (read32 m₇ 36 ≡ n)
  fixed_fields hn ha hc = (
    read32-overwrite_outside 8 16 (guid_bytes vendor) m₆ 0 (inl (omega arith))
        ∙ read32-overwrite_outside 36 4 (bytes32 (u32 n)) m₅ 0 (inl (omega arith))
        ∙ read32-overwrite_outside 32 4 (bytes32 0) m₄ 0 (inl (omega arith))
        ∙ read32-overwrite_outside 28 4 (bytes32 (u32 count)) m₃ 0 (inl (omega arith))
        ∙ read32-overwrite_outside 24 4 (bytes32 (u32 attributes)) m₂ 0 (inl (omega arith))
        ∙ read32-overwrite_outside 4 2 (bytes16 (u16 n)) m₁ 0 (inl (omega arith))
        ∙ read32-overwrite_self 0 44 b.bytes (omega arith),
    read16-overwrite_outside 8 16 (guid_bytes vendor) m₆ 4 (inl (omega arith))
        ∙ read16-overwrite_outside 36 4 (bytes32 (u32 n)) m₅ 4 (inl (omega arith))
        ∙ read16-overwrite_outside 32 4 (bytes32 0) m₄ 4 (inl (omega arith))
        ∙ read16-overwrite_outside 28 4 (bytes32 (u32 count)) m₃ 4 (inl (omega arith))
        ∙ read16-overwrite_outside 24 4 (bytes32 (u32 attributes)) m₂ 4 (inl (omega arith))
        ∙ read16-overwrite_self 4 (u16 n) m₁ (omega arith),
    read32-overwrite_outside 8 16 (guid_bytes vendor) m₆ 24 (inr (omega arith))
        ∙ read32-overwrite_outside 36 4 (bytes32 (u32 n)) m₅ 24 (inl (omega arith))
        ∙ read32-overwrite_outside 32 4 (bytes32 0) m₄ 24 (inl (omega arith))
        ∙ read32-overwrite_outside 28 4 (bytes32 (u32 count)) m₃ 24 (inl (omega arith))
        ∙ read32-overwrite_self 24 (u32 attributes) m₂ (omega arith)
        ∙ omega arith,
    read32-overwrite_outside 8 16 (guid_bytes vendor) m₆ 28 (inr (omega arith))
        ∙ read32-overwrite_outside 36 4 (bytes32 (u32 n)) m₅ 28 (inl (omega arith))
        ∙ read32-overwrite_outside 32 4 (bytes32 0) m₄ 28 (inl (omega arith))
        ∙ read32-overwrite_self 28 (u32 count) m₃ (omega arith)
        ∙ omega arith,
    read32-overwrite_outside 8 16 (guid_bytes vendor) m₆ 32 (inr (omega arith))
        ∙ read32-overwrite_outside 36 4 (bytes32 (u32 n)) m₅ 32 (inl (omega arith))
        ∙ read32-overwrite_self 32 0 m₄ (omega arith),
    read32-overwrite_outside 8 16 (guid_bytes vendor) m₆ 36 (inr (omega arith))
        ∙ read32-overwrite_self 36 (u32 n) m₅ (omega arith)
        ∙ omega arith,
  )

  -- What the fixed part and the name leave for the data to be copied behind.
  named :
      (c : Block)
      → SameOutside 40 (40 + 2 * (length name + 1)) (record b { bytes = m₇ }) c
      → HasUnits c 40 (cut name)
      → IsGuid vendor
      → n < 2 ^ 32
      → attributes < 2 ^ 32
      → count < 2 ^ 32
      → n ≡ 4 * (length name + 1)
      → (e : Block) → SameOutside (40 + n) (40 + n + count) c e
      → ((i : ℕ) → i < count → e.bytes (40 + n + i) ≡ source_byte source i)
      → IsSetParam e n vendor (cut name) attributes count source
  named c same units v hn ha hc size e after copied =
      let (f₁, f₂, f₃, f₄, f₅, f₆) = fixed_fields hn ha hc in
      record {
        size =
            read32_same 0 after (inl (omega arith)) ∙ read32_same 0 same (inl (omega arith)) ∙ f₁;
        name_size =
            read16_same 4 after (inl (omega arith)) ∙ read16_same 4 same (inl (omega arith)) ∙ f₂;
        vendor =
            read_guid_same 8 e.bytes c.bytes (λ i lt. after.outside (8 + i) (inl (omega arith)))
            ∙ read_guid_same 8 c.bytes m₇ (λ i lt. same.outside (8 + i) (inl (omega arith)))
            ∙ read_guid-overwrite_self 8 vendor m₆ v;
        attributes_there =
            read32_same 24 after (inl (omega arith)) ∙ read32_same 24 same (inl (omega arith)) ∙ f₃;
        data_size =
            read32_same 28 after (inl (omega arith)) ∙ read32_same 28 same (inl (omega arith)) ∙ f₄;
        offset_name =
            read32_same 32 after (inl (omega arith)) ∙ read32_same 32 same (inl (omega arith)) ∙ f₅;
        offset_data =
            read32_same 36 after (inl (omega arith)) ∙ read32_same 36 same (inl (omega arith)) ∙ f₆;
        name = λ i le.
            read16_same (40 + 2 * i) after (inl (omega (arith, length-cut name))) ∙ units i le;
        contents = copied;
      }

  -- The request to write a variable decodes to the attributes, the GUID, the size of the name and
  -- of the data, the name cut to 16 bits a character, and, behind the name, the data of the caller:
  -- for a well-formed GUID, a size `n` of the name that is four bytes for each of its characters
  -- and the terminator, attributes and sizes of 32 bits, a source of as many bytes as it says,
  -- which is NULL only for none, and a buffer with room for the 40 bytes of the header, the `n` of
  -- the name and the data. Nothing changes where the buffer lies and how long it is.
  pub fill_set_param-IsSetParam :
      IsGuid vendor
      → n ≡ 4 * (length name + 1)
      → n < 2 ^ 32
      → attributes < 2 ^ 32
      → count < 2 ^ 32
      → CanTake source count
      → 40 + n + count ≤ b.extent
      → Returns
          (λ c. SameShape b c × IsSetParam c n vendor (cut name) attributes count source)
          (fill_set_param n vendor name attributes count source b)
  unfolding fill_set_param
  fill_set_param-IsSetParam v size hn ha hc take fits =
      rw
        (
          store-ok 0 4 (bytes32 44) b (omega arith),
          store-ok 4 2 (bytes16 (u16 n)) (record b { bytes = m₁ }) (omega arith),
          store-ok 24 4 (bytes32 (u32 attributes)) (record b { bytes = m₂ }) (omega arith),
          store-ok 28 4 (bytes32 (u32 count)) (record b { bytes = m₃ }) (omega arith),
          store-ok 32 4 (bytes32 0) (record b { bytes = m₄ }) (omega arith),
          store-ok 36 4 (bytes32 (u32 n)) (record b { bytes = m₅ }) (omega arith),
          store-ok 8 16 (guid_bytes vendor) (record b { bytes = m₆ }) (omega arith),
        )
        (bind (fix_wide_string-HasUnits name 40 (record b { bytes = m₇ }) (omega arith))
          λ c (same, units).
            mono (copy_from-Returns source count (40 + n) c take (omega (arith, same.extent)))
              λ e (after, copied). (
                record {
                  address = after.address ∙ same.address;
                  extent = after.extent ∙ same.extent;
                },
                named c same units v hn ha hc size e after copied,
              ))
