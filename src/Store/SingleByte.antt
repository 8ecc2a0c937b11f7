-- ===== src/Store/SingleByte.antt =====
-- The two services of the initialisation (authvars_test/host/edk2_driver/AuthVarsDxe.c), through
-- the driver and on the store of the TA.
use qemu_pipeline.Base.{
  ℕ, ◌<◌, ◌^◌, ◌≡◌, refl, sym, ap, ◌∙◌, Bool, false, Option, none, some, [], ◌∷◌, length, get_or,
  u8, ltb, if◌then◌else◌, arith, inl, inr, Bool-cases, Option-cases,
}
use qemu_pipeline.Outcome.{ok, returns, bind, mono}
use qemu_pipeline.Efi.Guid.{Guid}
use qemu_pipeline.Support.{Chars}
use qemu_pipeline.Driver.Tee.{TeeClient}
use qemu_pipeline.Driver.State.{Driver}
use qemu_pipeline.Driver.Invoke.{status_of}
use qemu_pipeline.Driver.Get.Answer.{is_hook}
use qemu_pipeline.Driver.GetNext.Ordered.{IsOpen}
use qemu_pipeline.Driver.SecureBoot.{Services, byte_object, byte_of, driver_services}
use qemu_pipeline.Driver.SecureBoot.Names.{IsUsed, IsAsked}
use qemu_pipeline.Driver.SecureBoot.Simulates.{Both, Found, Agree, Simulates}
use qemu_pipeline.Store.{Value, VariableStore}
use qemu_pipeline.Store.Laws.{KeepsStore, IsReadable, IsWritable}
use qemu_pipeline.Store.Read.{read_missing, read_short, read_full}
use qemu_pipeline.Store.Write.{written}

-- A byte, read from the store and written to it.
abbrev read_byte : ℕ → Option Value → ℕ × ℕ
read_byte byte none = (14, byte)
read_byte byte (some v) =
    if ltb 1 (length v.contents) then (5, byte) else (0, u8 (get_or v.contents 0 0))

abbrev pub store_services : {S : Type 0} → VariableStore S → Services S
store_services m = record {
  get_byte = λ name vendor byte s.
      ok (let (status, found) = read_byte byte (m.read s name vendor) in (status, found, s));
  set_byte = λ name vendor attributes value s. ok (
      let (result, s') = m.write s name vendor attributes (u8 value ∷ []) in
      (status_of result, s'));
}

-- The variables that are read have at least a byte of data, where they exist.
abbrev pub HasData : {S : Type 0} → VariableStore S → Type 0
HasData {S} m =
    (s : S) (name : Chars) (vendor : Guid) (v : Value)
    → IsAsked name vendor
    → m.read s name vendor ≡ some v
    → 0 < length v.contents

not_hook : (name : Chars) (g : Guid) → is_hook name g 1 ≡ false
not_hook name g = ground arith

module _ {W S : Type 0} (tee : TeeClient W) (Holds : W → Type 0) (store : W → S)
    (m : VariableStore S) where
  -- A driver in an open session, and the store of its TA.
  abbrev pub Stands : Bool → Driver W → S → Type 0
  Stands flag d s = (store d.world ≡ s) × IsOpen tee Holds store m.after flag d

module _ {W S : Type 0} (tee : TeeClient W) (Holds : W → Type 0) (store : W → S)
    (m : VariableStore S) (k : KeepsStore tee Holds store m) (flag : Bool) where
  abbrev FoundBy : ℕ × ℕ × Driver W → ℕ × ℕ × S → Type 0
  FoundBy = Found (driver_services tee) (store_services m) (Stands tee Holds store m flag)

  module _ (name : Chars) (vendor : Guid) (u : IsUsed name vendor) where
    readable : (x : ℕ) → IsReadable name vendor 1 (some (byte_object x))
    readable x = (
      record { narrow = u.narrow; guid = u.guid; short = omega (arith, u.short) },
      not_hook name vendor,
      omega arith,
      omega (arith, u.short),
      omega arith,
    )

    writable :
        (attributes x : ℕ)
        → attributes < 2 ^ 32
        → IsWritable name vendor attributes 1 (some (byte_object x))
    writable attributes x small = (
      record { narrow = u.narrow; guid = u.guid; short = omega (arith, u.short) },
      not_hook name vendor,
      omega arith,
      u.named,
      small,
      omega (arith, u.short),
    )

    gets :
        (some_data : HasData m) (asked : IsAsked name vendor) (x y : ℕ) (d : Driver W) (s : S)
        → Stands tee Holds store m flag d s
        → Both FoundBy
            ((driver_services tee).get_byte name vendor x d)
            ((store_services m).get_byte name vendor y s)
    unfolding driver_services
    gets some_data asked x y d s (same, o) =
        elim (Option-cases (m.read (store d.world) name vendor)) [
          | inl missing ↦
              bind
                (read_missing tee Holds store m k name vendor none 1 (some (byte_object x)) d o
                  (readable x) missing)
                λ (out, d') (told, left, o). returns (
                  rw (sym same, missing)
                    (returns (told, (λ fine. absurd (ground (arith, told, fine))), (left, o))))
          | inr (value, there) ↦ elim (Bool-cases (ltb 1 (length value.contents))) [
            | inl short ↦
                bind
                  (read_short tee Holds store m k name vendor none 1 (some (byte_object x)) d o
                    (readable x) value there (ground arith))
                  λ (out, d') (told, count, left, o). returns (
                    rw (sym same, there, short)
                      (returns (told, (λ fine. absurd (ground (arith, told, fine))), (left, o))))
            | inr fits ↦
                bind
                  (read_full tee Holds store m k name vendor none 1 (some (byte_object x)) d o
                    (readable x) value there (ground arith))
                  λ (out, d') (told, attributes, count, found, left, o). returns (
                    rw (sym same, there, fits)
                      (let (c, held, long, bytes) = found (byte_object x) refl in
                        returns (
                          told,
                          (λ fine.
                              ap byte_of held
                              ∙ ap u8 (
                                  bytes 0
                                    (some_data (store d.world) name vendor value asked there))),
                          (left, o),
                        )))
          ]
        ]

    sets :
        (attributes value : ℕ) (d : Driver W) (s : S)
        → attributes < 2 ^ 32
        → Stands tee Holds store m flag d s
        → Agree
            (driver_services tee)
            (store_services m)
            (Stands tee Holds store m flag)
            ((driver_services tee).set_byte name vendor attributes value d)
            ((store_services m).set_byte name vendor attributes value s)
    unfolding driver_services
    sets attributes value d s small (same, o) =
        mono
          (written tee Holds store m k name vendor attributes 1 (some (byte_object value)) d o
            (writable attributes value small))
          λ (status, d') (told, left, o). returns (
            told ∙ ap (λ t. status_of (m.write t name vendor attributes (u8 value ∷ [])).0) same,
            (left ∙ ap (λ t. (m.write t name vendor attributes (u8 value ∷ [])).1) same, o),
          )

  pub driver-Simulates :
      HasData m → Simulates (driver_services tee) (store_services m) (Stands tee Holds store m flag)
  driver-Simulates some_data = record {
    gets = λ name vendor x y d s u asked h. gets name vendor u some_data asked x y d s h;
    sets = λ name vendor attributes value d s u small h.
        sets name vendor u attributes value d s small h;
  }
