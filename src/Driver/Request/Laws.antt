-- ===== src/Driver/Request/Laws.antt =====
-- What the TA finds in the parameter buffer: a decoder of its own for each structure.
use qemu_pipeline.Base.{ℕ, ◌+◌, ◌*◌, ◌≤◌, ◌≡◌, inl, ◌∙◌, length, arith, u16}
use qemu_pipeline.Outcome.{Returns, mono}
use qemu_pipeline.Memory.{Block, Bytes, bytes16, bytes32, read16, read32, overwrite}
use qemu_pipeline.Memory.Laws.{
  store-ok, read16-overwrite_self, read16-overwrite_outside, read32-overwrite_self,
  read32-overwrite_outside,
}
use qemu_pipeline.Efi.Guid.{Guid, IsGuid, guid_bytes, read_guid}
use qemu_pipeline.Efi.Guid.Laws.{read_guid-overwrite_self, read_guid_same}
use qemu_pipeline.Support.{Chars}
use qemu_pipeline.Wide.Laws.{HasUnits, cut, fix_wide_string-HasUnits, read16_same, read32_same}
use qemu_pipeline.Driver.State.Laws.{SameShape}
use qemu_pipeline.Driver.Request.{fill_get_param}

-- A block holds the fields of VARIABLE_GET_PARAM.
pub record IsGetParam (b : Block) (n : ℕ) (g : Guid) (units : Chars) : Type 0 where
  pub size : read32 b.bytes 0 ≡ 28
  pub name_size : read16 b.bytes 4 ≡ n
  pub vendor : read_guid b.bytes 8 ≡ g
  pub name : HasUnits b 24 units

-- The driver's request for a variable decodes to the size of its structure, the size of the name
-- in 16 bits, the vendor's GUID and the name in 16-bit units.
pub fill_get_param-IsGetParam :
    (name_size : ℕ) (vendor : Guid) (name : Chars) (b : Block)
    → IsGuid vendor
    → 24 + 2 * (length name + 1) ≤ b.extent
    → Returns
        (λ c. SameShape b c × IsGetParam c (u16 name_size) vendor (cut name))
        (fill_get_param name_size vendor name b)
unfolding fill_get_param
fill_get_param-IsGetParam name_size vendor name b v fits =
    rw
      (
        store-ok 0 4 (bytes32 28) b (omega arith),
        store-ok 4 2 (bytes16 (u16 name_size)) (record b { bytes = m₁ }) (omega arith),
        store-ok 8 16 (guid_bytes vendor) (record b { bytes = m₂ }) (omega arith),
      )
      (mono (fix_wide_string-HasUnits name 24 (record b { bytes = m₃ }) fits) λ c (same, units). (
        record { address = same.address; extent = same.extent },
        record {
          size =
              read32_same 0 same (inl (omega arith))
              ∙ read32-overwrite_outside 8 16 (guid_bytes vendor) m₂ 0 (inl (omega arith))
              ∙ read32-overwrite_outside 4 2 (bytes16 (u16 name_size)) m₁ 0 (inl (omega arith))
              ∙ read32-overwrite_self 0 28 b.bytes (omega arith);
          name_size =
              read16_same 4 same (inl (omega arith))
              ∙ read16-overwrite_outside 8 16 (guid_bytes vendor) m₂ 4 (inl (omega arith))
              ∙ read16-overwrite_self 4 (u16 name_size) m₁ (omega arith);
          vendor =
              read_guid_same 8 _ _ (λ i lt. same.outside (8 + i) (inl (omega arith)))
              ∙ read_guid-overwrite_self 8 vendor m₂ v;
          name = units;
        },
      ))
  where
    m₁ : Bytes
    m₁ = overwrite 0 4 (bytes32 28) b.bytes

    m₂ : Bytes
    m₂ = overwrite 4 2 (bytes16 (u16 name_size)) m₁

    m₃ : Bytes
    m₃ = overwrite 8 16 (guid_bytes vendor) m₂
