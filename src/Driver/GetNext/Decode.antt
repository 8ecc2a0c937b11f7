-- ===== src/Driver/GetNext/Decode.antt =====
-- GetNextVariableName: the caller's name, and what is made of the answer.
use qemu_pipeline.Base.{
  true, false, ℕ, zero, suc, ◌+◌, ◌*◌, ◌/◌, ◌^◌, ◌≤◌, ◌<◌, ◌≡◌, ◌≢◌, inl, inr, refl, ◌∙◌, ap, some,
  [], ◌∷◌, All, get_or, Bool-cases, ltb, leb, ◌==◌, arith, u32, length,
}
use qemu_pipeline.Outcome.{mono, ok, Returns, returns, bind, Safe, safe, safe_exit}
use qemu_pipeline.Memory.{Block, read16, read32}
use qemu_pipeline.Memory.Laws.{read16-lt, load16-ok, load32-ok}
use qemu_pipeline.Efi.Guid.{Guid, read_guid, load_guid}
use qemu_pipeline.Support.{Chars}
use qemu_pipeline.Wide.Laws.{HasUnits, HasChars, widen, restore_wide_string-HasChars}
use qemu_pipeline.Driver.State.{Driver}
use qemu_pipeline.Driver.GetNext.{chars_from, NextResult, next_decode}

-- A name of the TA in an answer: `us` at the place of the name, terminated, and its size in the
-- size field.
pub record IsName (b : Block) (us : Chars) : Type 0 where
  pub units : HasUnits b 24 us
  pub nonzero : All (λ u. u ≢ 0) us
  pub size : read16 b.bytes 4 ≡ 2 * (length us + 1)

first :
    (off : ℕ) (b : Block) (cs : Chars)
    → ((i : ℕ) → i ≤ length cs → read32 b.bytes (off + 4 * i) ≡ get_or cs i 0)
    → read32 b.bytes off ≡ get_or cs 0 0
first off b cs h = ap (read32 b.bytes) same ∙ h 0 (omega arith)
  where
    same : off ≡ off + 4 * 0
    same = omega arith

-- The characters of the caller's name are read up to their terminator.
pub chars_from-ok :
    (cs : Chars) (fuel : ℕ) (b : Block) (off : ℕ)
    → All (λ c. c ≢ 0) cs
    → ((i : ℕ) → i ≤ length cs → read32 b.bytes (off + 4 * i) ≡ get_or cs i 0)
    → off + 4 * (length cs + 1) ≤ b.extent
    → length cs < fuel
    → chars_from fuel b off ≡ ok cs
unfolding chars_from
chars_from-ok cs zero b off ne h fits lt = absurd (omega arith)
chars_from-ok [] (suc fuel) b off ne h fits lt =
    rw (load32-ok b off (omega arith), first off b [] h) refl
chars_from-ok (c ∷ cs) (suc fuel) b off ne h fits lt =
    rw
      (
        load32-ok b off (omega arith),
        first off b (c ∷ cs) h,
        chars_from-ok cs fuel b (off + 4) ne.1
            (λ i le. ap (read32 b.bytes) (omega arith) ∙ h (suc i) (omega arith)) (omega arith)
            (omega arith),
      )
      (ground (arith, ne.0))

-- What the caller finds after a success: the TA's name, widened, its size in bytes, its GUID.
pub record IsNext (answer : Block) (out : NextResult) (us : Chars) : Type 0 where
  pub named : IsName answer us
  pub name_size : out.name_size ≡ some (4 * (length us + 1))
  pub vendor : out.vendor ≡ some (read_guid answer.bytes 8)
  pub name : (b : Block) × (out.name ≡ some b) × HasChars b (widen us)

load_guid-ok :
    (b : Block) (off : ℕ) → off + 16 ≤ b.extent → load_guid b off ≡ ok (read_guid b.bytes off)
unfolding load_guid
load_guid-ok b off h = ground arith

module _ {W : Type 0} where
  -- A name that fits is converted into the caller's buffer.
  pub next_decode-full :
      (size : ℕ) (name : Block) (vendor : Guid) (result_size : ℕ) (d : Driver W) (answer : Block)
      (us : Chars)
      → 28 + size / 2 ≤ answer.extent
      → size ≤ name.extent
      → IsName answer us
      → ltb (size / 2) (2 * (length us + 1)) ≡ false
      → Returns
          (λ (out, d').
            (d' ≡ d)
            × (out.status ≡ 0)
            × IsNext answer out us
            × ((b : Block) × (out.name ≡ some b) × (b.extent ≡ name.extent)))
          (next_decode size name vendor 0 result_size d answer)
  unfolding next_decode
  next_decode-full size name vendor result_size d answer us fits room h short =
      rw (load16-ok answer 4 (omega arith), h.size, short, load_guid-ok answer 8 (omega arith))
        (bind
          (restore_wide_string-HasChars us answer 24 name h.nonzero h.units (ground arith)
            (ground arith))
          λ b (same, chars). returns (
            refl,
            refl,
            record {
              named = h;
              name_size = ap some (doubled (length us) (bound answer us h));
              vendor = refl;
              name = (b, refl, chars);
            },
            (b, refl, same.extent),
          ))
    where
      bound : (answer : Block) (us : Chars) → IsName answer us → 2 * (length us + 1) < 2 ^ 16
      bound answer us h = omega (arith, h.size, read16-lt answer.bytes 4)

      doubled : (n : ℕ) → 2 * (n + 1) < 2 ^ 16 → u32 (2 * (n + 1) * 2) ≡ 4 * (n + 1)
      doubled n lt = omega arith

  next_decode-long :
      (size : ℕ) (name : Block) (vendor : Guid) (result_size : ℕ) (d : Driver W) (answer : Block)
      (us : Chars)
      → 28 + size / 2 ≤ answer.extent
      → IsName answer us
      → ltb (size / 2) (2 * (length us + 1)) ≡ true
      → Returns
          (λ (out, d'). (d' ≡ d) × (out.status ≡ 4))
          (next_decode size name vendor 0 result_size d answer)
  unfolding next_decode
  next_decode-long size name vendor result_size d answer us fits h long =
      rw (load16-ok answer 4 (omega arith), h.size, long) (returns (refl, refl))

  pub next_decode-success :
      (size : ℕ) (name : Block) (vendor : Guid) (result_size : ℕ) (d : Driver W) (answer : Block)
      (us : Chars)
      → 28 + size / 2 ≤ answer.extent
      → size ≤ name.extent
      → IsName answer us
      → Returns
          (λ (out, d'). (d' ≡ d) × (out.status ≡ 0 → IsNext answer out us))
          (next_decode size name vendor 0 result_size d answer)
  next_decode-success size name vendor result_size d answer us fits room h =
      elim (Bool-cases (ltb (size / 2) (2 * (length us + 1)))) [
        | inl long ↦
            mono (next_decode-long size name vendor result_size d answer us fits h long)
              λ (out, d') (same, status). (same, λ ok. absurd (omega (arith, status)))
        | inr short ↦
            mono (next_decode-full size name vendor result_size d answer us fits room h short)
              λ (out, d') (same, status, next, _). (same, λ ok. next)
      ]

  -- Any other status leaves the caller's buffer alone.
  pub next_decode-error :
      (size : ℕ) (name : Block) (vendor : Guid) (status result_size : ℕ) (d : Driver W)
      (answer : Block)
      → status ≢ 0
      → Safe
          (λ (out, d'). (d' ≡ d) × (out.status ≡ status) × (out.name ≡ some name))
          (next_decode size name vendor status result_size d answer)
  unfolding next_decode
  next_decode-error size name vendor status result_size d answer failed =
      elim (Bool-cases (status == 0)) [
        | inl done ↦ absurd (ground arith)
        | inr not_done ↦ rw not_done (elim (Bool-cases (status == 5)) [
          | inl small ↦ rw small (elim (Bool-cases (leb 28 result_size)) [
            | inl enough ↦ rw enough (safe (refl, refl, refl))
            | inr short ↦ rw short safe_exit
          ])
          | inr other ↦ rw other (safe (refl, refl, refl))
        ])
      ]
