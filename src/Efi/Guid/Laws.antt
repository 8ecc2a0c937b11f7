-- ===== src/Efi/Guid/Laws.antt =====
-- A GUID is had back from its bytes, so CompareGuid decides equality.
use qemu_pipeline.Base.{
  ℕ, zero, suc, ◌+◌, ◌<◌, ◌≤◌, ◌^◌, ◌≡◌, ◌↔◌, ◌⊎◌, refl, sym, ap, ap₂, subst, ◌∙◌, true, List, [],
  ◌∷◌, arith, length, All, get_or, inl, inr, ◌==◌, Bool-cases, le→ltb,
}
use qemu_pipeline.Memory.{Bytes, bytes16, bytes32, read16, read32, overwrite}
use qemu_pipeline.Memory.Laws.{overwrite-inside, overwrite-outside}
use qemu_pipeline.Efi.Guid.{
  Guid, IsGuid, guid_bytes, byte_array, guid_of, read_guid, same_bytes, compare_guid,
}

guid_of_ext : (m k : Bytes) → ((i : ℕ) → i < 16 → m i ≡ k i) → guid_of m ≡ guid_of k
unfolding guid_of read16 read32
guid_of_ext m k h =
    ground
      (arith, h 0, h 1, h 2, h 3, h 4, h 5, h 6, h 7, h 8, h 9, h 10, h 11, h 12, h 13, h 14, h 15)

byte_array-eq :
    (d : List ℕ) (m : Bytes) (off : ℕ)
    → All (λ x. x < 2 ^ 8) d
    → ((i : ℕ) → i < length d → m (off + i) ≡ get_or d i 0)
    → byte_array (length d) m off ≡ d
byte_array-eq [] m off small h = refl
byte_array-eq (x ∷ d) m off small h = ap₂ ◌∷◌ (ground (arith, h 0)) (
    byte_array-eq d m (off + 1) small.1
      λ i lt. subst (λ (j : ℕ). m j ≡ get_or d i 0) (omega arith) (h (suc i) (omega arith)))

byte_array-data4 : (g : Guid) → IsGuid g → byte_array 8 (guid_bytes g) 8 ≡ g.data4
unfolding guid_bytes
byte_array-data4 g v =
    subst (λ n. byte_array n (guid_bytes g) 8 ≡ g.data4) v.size
      (byte_array-eq g.data4 (guid_bytes g) 8 v.bytes λ i lt.
        rw
          (
            le→ltb (8 + i) 4 (omega arith),
            le→ltb (8 + i) 6 (omega arith),
            le→ltb (8 + i) 8 (omega arith),
          )
          (ap (λ n. get_or g.data4 n 0) (omega arith)))

guid_of-guid_bytes : (g : Guid) → IsGuid g → guid_of (guid_bytes g) ≡ g
unfolding guid_of
guid_of-guid_bytes g v = ground (arith, byte_array-data4 g v, first g v, second g v, third g v)
  where
    first : (g : Guid) → IsGuid g → read32 (guid_bytes g) 0 ≡ g.data1
    first g v = unfold read32 guid_bytes bytes32 in omega (arith, v.data1)

    second : (g : Guid) → IsGuid g → read16 (guid_bytes g) 4 ≡ g.data2
    second g v = unfold read16 guid_bytes bytes16 in omega (arith, v.data2)

    third : (g : Guid) → IsGuid g → read16 (guid_bytes g) 6 ≡ g.data3
    third g v = unfold read16 guid_bytes bytes16 in omega (arith, v.data3)

pub read_guid_same :
    (off : ℕ) (m k : Bytes)
    → ((i : ℕ) → i < 16 → m (off + i) ≡ k (off + i))
    → read_guid m off ≡ read_guid k off
unfolding read_guid
read_guid_same off m k h = guid_of_ext _ _ h

-- A GUID that CopyMem has put at an offset is read back there.
pub read_guid-overwrite_self :
    (off : ℕ) (g : Guid) (m : Bytes)
    → IsGuid g
    → read_guid (overwrite off 16 (guid_bytes g) m) off ≡ g
unfolding read_guid
read_guid-overwrite_self off g m v =
    guid_of_ext _ _ (λ i lt. overwrite-inside off 16 (guid_bytes g) m i lt) ∙ guid_of-guid_bytes g v

pub read_guid-overwrite_outside :
    (off n : ℕ) (src m : Bytes) (i : ℕ)
    → (i + 16 ≤ off) ⊎ (off + n ≤ i)
    → read_guid (overwrite off n src m) i ≡ read_guid m i
unfolding read_guid
read_guid-overwrite_outside off n src m i h =
    guid_of_ext _ _ λ j lt. overwrite-outside off n src m (i + j) (omega arith)

same_bytes_refl : (n : ℕ) (a : Bytes) → same_bytes n a a ≡ true
unfolding same_bytes
same_bytes_refl zero a = refl
same_bytes_refl (suc n) a = ground (arith, same_bytes_refl n a)

same_bytes_sound : (n : ℕ) (a b : Bytes) (i : ℕ) → same_bytes n a b ≡ true → i < n → a i ≡ b i
unfolding same_bytes
same_bytes_sound zero a b i h lt = absurd (omega arith)
same_bytes_sound (suc n) a b i h lt = elim (Bool-cases (i == n)) [
  | inl last ↦ ground arith
  | inr before ↦ ground (arith, same_bytes_sound n a b i)
]

-- On well-formed GUIDs, CompareGuid answers TRUE exactly where they are equal.
pub compare_guid_iff : (a b : Guid) → IsGuid a → IsGuid b → (compare_guid a b ≡ true) ↔ (a ≡ b)
unfolding compare_guid
compare_guid_iff a b va vb = (
  λ h.
      sym (guid_of-guid_bytes a va)
      ∙ guid_of_ext _ _ (λ i. same_bytes_sound 16 (guid_bytes a) (guid_bytes b) i h)
      ∙ guid_of-guid_bytes b vb,
  λ e.
      subst (λ c. same_bytes 16 (guid_bytes a) (guid_bytes c) ≡ true) e
        (same_bytes_refl 16 (guid_bytes a)),
)
