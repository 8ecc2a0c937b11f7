-- ===== src/Wide/RoundTrip.antt =====
-- The round trip of a string through the TA's encoding.
use qemu_pipeline.Base.{
  ℕ, zero, suc, ◌+◌, ◌*◌, ◌^◌, ◌≤◌, ◌<◌, ◌≡◌, ◌≢◌, refl, sym, ap, ap₂, ◌∙◌, subst, [], ◌∷◌, length,
  get_or, All, arith, u16,
}
use qemu_pipeline.Outcome.{Outcome, Returns, bind, mono, ◌>>=◌}
use qemu_pipeline.Memory.{Block, read32}
use qemu_pipeline.Support.{Chars}
use qemu_pipeline.Wide.{fix_wide_string, sign_extend, restore_wide_string}
use qemu_pipeline.Wide.Laws.{
  HasChars, cut, length-cut, widen, length-widen, fix_wide_string-HasUnits,
  restore_wide_string-HasChars,
}

-- A character that the TA's encoding keeps: not a terminator, and below the sign bit.
abbrev pub IsNarrow : ℕ → Type 0
IsNarrow c = (0 < c) × (c < 0x8000)

widen-cut : (cs : Chars) → All IsNarrow cs → widen (cut cs) ≡ cs
unfolding sign_extend
widen-cut [] h = refl
widen-cut (c ∷ cs) h = ground (arith, widen-cut cs h.1)

pub cut-narrow : (cs : Chars) → All IsNarrow cs → cut cs ≡ cs
cut-narrow [] h = refl
cut-narrow (c ∷ cs) h = ap₂ (λ x xs. x ∷ xs) (omega (arith, h.0)) (cut-narrow cs h.1)

pub widen-narrow : (us : Chars) → All IsNarrow us → widen us ≡ us
widen-narrow us h = ap widen (sym (cut-narrow us h)) ∙ widen-cut us h

pub nonzero-narrow : (cs : Chars) → All IsNarrow cs → All (λ c. c ≢ 0) cs
nonzero-narrow [] h = tt
nonzero-narrow (c ∷ cs) h = (omega (arith, h.0), nonzero-narrow cs h.1)

cut_ne_zero : (cs : Chars) → All (λ c. (0 < c) × (c < 2 ^ 16)) cs → All (λ u. u ≢ 0) (cut cs)
cut_ne_zero [] h = tt
cut_ne_zero (c ∷ cs) h = (omega arith, cut_ne_zero cs h.1)

All-narrow : (cs : Chars) → All IsNarrow cs → All (λ c. (0 < c) × (c < 2 ^ 16)) cs
All-narrow [] h = tt
All-narrow (c ∷ cs) h = (omega arith, All-narrow cs h.1)

-- The two conversions in a row: the string goes through a block of the TA and back.
unfoldable pub through_ta : Chars → Block → ℕ → Block → Outcome Block
unfolding fix_wide_string restore_wide_string
through_ta cs mid off out = do mid ← fix_wide_string cs off mid; restore_wide_string mid off out

module _ (cs : Chars) (mid : Block) (off : ℕ) (out : Block)
    (fits : off + 2 * (length cs + 1) ≤ mid.extent) (room : 4 * (length cs + 1) ≤ out.extent) where
  pub through_ta-HasChars :
      All (λ c. (0 < c) × (c < 2 ^ 16)) cs
      → Returns (λ b. HasChars b (widen (cut cs))) (through_ta cs mid off out)
  unfolding through_ta
  through_ta-HasChars chars = bind (fix_wide_string-HasUnits cs off mid fits) λ b (same, units).
      mono
        (restore_wide_string-HasChars (cut cs) b off out (cut_ne_zero cs chars) units
          (omega (arith, length-cut cs, same.extent)) (omega (arith, length-cut cs)))
        λ b (_, back). back

  -- A string of characters from 1 to 0x7fff comes back as it was, where both blocks have room for
  -- it.
  pub restore-fix : All IsNarrow cs → Returns (λ b. HasChars b cs) (through_ta cs mid off out)
  restore-fix narrow =
      mono (through_ta-HasChars (All-narrow cs narrow))
        λ b back. subst (HasChars b) (widen-cut cs narrow) back

get_or-widen-cut :
    (cs : Chars) (i : ℕ) → get_or (widen (cut cs)) i 0 ≡ sign_extend (u16 (get_or cs i 0))
unfolding sign_extend
get_or-widen-cut [] i = refl
get_or-widen-cut (c ∷ cs) zero = refl
get_or-widen-cut (c ∷ cs) (suc i) = get_or-widen-cut cs i

sign_extend_high : (c : ℕ) → 0x8000 ≤ c → c < 2 ^ 16 → sign_extend (u16 c) ≡ c + 0xffff0000
unfolding sign_extend
sign_extend_high c high small = ground arith

get_or-lt : (cs : Chars) (i : ℕ) → All (λ c. (0 < c) × (c < 2 ^ 16)) cs → get_or cs i 0 < 2 ^ 16
get_or-lt [] i h = omega arith
get_or-lt (c ∷ cs) zero h = omega arith
get_or-lt (c ∷ cs) (suc i) h = get_or-lt cs i h.1

-- A 16-bit character from 0x8000 on, at any place of a string, does not come back: it arrives with
-- its upper half set.
pub restore-fix_sign :
    (cs : Chars) (mid : Block) (off : ℕ) (out : Block) (i : ℕ)
    → off + 2 * (length cs + 1) ≤ mid.extent
    → 4 * (length cs + 1) ≤ out.extent
    → All (λ c. (0 < c) × (c < 2 ^ 16)) cs
    → i < length cs
    → 0x8000 ≤ get_or cs i 0
    → Returns
        (λ b.
          (read32 b.bytes (4 * i) ≡ get_or cs i 0 + 0xffff0000)
          × (read32 b.bytes (4 * i) ≢ get_or cs i 0))
        (through_ta cs mid off out)
restore-fix_sign cs mid off out i fits room chars lt high =
    mono (through_ta-HasChars cs mid off out fits room chars) λ b back.
      let first : read32 b.bytes (4 * i) ≡ get_or cs i 0 + 0xffff0000 =
        back i (omega (arith, length-widen (cut cs), length-cut cs))
        ∙ get_or-widen-cut cs i
        ∙ sign_extend_high (get_or cs i 0) high (get_or-lt cs i chars) in
      (first, omega arith)
