-- ===== src/Wide/Laws.antt =====
-- What the two conversions of strings write, and the round trip through the TA's encoding.
use qemu_pipeline.Base.{
  ℕ, zero, suc, ◌+◌, ◌*◌, ◌^◌, ◌≤◌, ◌<◌, ◌≡◌, ◌≢◌, ◌⊎◌, inl, inr, refl, sym, ◌∙◌, ap, subst, [],
  ◌∷◌, length, get_or, All, arith, u16, true, ◌==◌, Bool-cases,
}
use qemu_pipeline.Outcome.{ok, Returns, returns, mono}
use qemu_pipeline.Memory.{Block, bytes16, bytes32, read16, read32, overwrite}
use qemu_pipeline.Memory.Laws.{
  store-ok, load16-ok, overwrite-outside, read16-overwrite_self, read32-overwrite_self, read16-lt,
}
use qemu_pipeline.Support.{Chars}
use qemu_pipeline.Wide.{fix_wide_string, sign_extend, count_units, widen_loop, restore_wide_string}

-- `b` is `a` but for the bytes from `off` to `stop`.
pub record SameOutside (off stop : ℕ) (a b : Block) : Type 0 where
  pub address : b.address ≡ a.address
  pub extent : b.extent ≡ a.extent
  pub outside : (i : ℕ) → (i < off) ⊎ (stop ≤ i) → b.bytes i ≡ a.bytes i

-- The units of a string and its terminator stand at `off`.
abbrev pub HasUnits : Block → ℕ → Chars → Type 0
HasUnits b off us = (i : ℕ) → i ≤ length us → read16 b.bytes (off + 2 * i) ≡ get_or us i 0

abbrev pub HasChars : Block → Chars → Type 0
HasChars b cs = (i : ℕ) → i ≤ length cs → read32 b.bytes (4 * i) ≡ get_or cs i 0

abbrev pub cut : Chars → Chars
cut [] = []
cut (c ∷ cs) = u16 c ∷ cut cs

pub length-cut : (cs : Chars) → length (cut cs) ≡ length cs
length-cut [] = refl
length-cut (c ∷ cs) = ap suc (length-cut cs)

pub read16_same :
    {off stop : ℕ} {a b : Block} (i : ℕ)
    → SameOutside off stop a b
    → (i + 2 ≤ off) ⊎ (stop ≤ i)
    → read16 b.bytes i ≡ read16 a.bytes i
unfolding read16
read16_same i same away = ground (arith, same.outside i, same.outside (i + 1))

HasUnits-nil : (b : Block) (off : ℕ) → read16 b.bytes off ≡ 0 → HasUnits b off []
HasUnits-nil b off h i le = ap (read16 b.bytes) (omega arith) ∙ h

HasUnits-cons :
    (b : Block) (off u : ℕ) (us : Chars)
    → read16 b.bytes off ≡ u
    → HasUnits b (off + 2) us
    → HasUnits b off (u ∷ us)
HasUnits-cons b off u us h t zero le = ap (read16 b.bytes) (omega arith) ∙ h
HasUnits-cons b off u us h t (suc i) le = ap (read16 b.bytes) (omega arith) ∙ t i (omega arith)

HasUnits-tail :
    (b : Block) (off u : ℕ) (us : Chars) → HasUnits b off (u ∷ us) → HasUnits b (off + 2) us
HasUnits-tail b off u us h i le = ap (read16 b.bytes) (omega arith) ∙ h (suc i) (omega arith)

HasUnits-end : (b : Block) (off : ℕ) → HasUnits b off [] → read16 b.bytes off ≡ 0
HasUnits-end b off h = ap (read16 b.bytes) (omega arith) ∙ h 0 (omega arith)

HasUnits-head :
    (b : Block) (off u : ℕ) (us : Chars) → HasUnits b off (u ∷ us) → read16 b.bytes off ≡ u
HasUnits-head b off u us h = ap (read16 b.bytes) (omega arith) ∙ h 0 (omega arith)

pub read32_same :
    {off stop : ℕ} {a b : Block} (i : ℕ)
    → SameOutside off stop a b
    → (i + 4 ≤ off) ⊎ (stop ≤ i)
    → read32 b.bytes i ≡ read32 a.bytes i
unfolding read32
read32_same i same away =
    ground (arith, same.outside i, same.outside (i + 1), same.outside (i + 2), same.outside (i + 3))

sign_extend-lt : (u : ℕ) → u < 2 ^ 16 → sign_extend u < 2 ^ 32
unfolding sign_extend
sign_extend-lt u h = ground arith

eq_of_test : (i k : ℕ) → (i == k) ≡ true → i ≡ k
eq_of_test i k h = ground arith

-- FixWideString writes the cut characters and their terminator, and nothing else, where the block
-- has room for them.
pub fix_wide_string-HasUnits :
    (cs : Chars) (off : ℕ) (out : Block)
    → off + 2 * (length cs + 1) ≤ out.extent
    → Returns
        (λ b. SameOutside off (off + 2 * (length cs + 1)) out b × HasUnits b off (cut cs))
        (fix_wide_string cs off out)
unfolding fix_wide_string
fix_wide_string-HasUnits [] off out h = rw (store-ok off 2 (bytes16 0) out (omega arith)) (
    returns (
      record {
        address = refl;
        extent = refl;
        outside = λ i away. overwrite-outside off 2 (bytes16 0) out.bytes i (omega arith);
      },
      HasUnits-nil (record out { bytes = overwrite off 2 (bytes16 0) out.bytes }) off
          (read16-overwrite_self off 0 out.bytes (omega arith)),
    ))
fix_wide_string-HasUnits (c ∷ cs) off out h =
    rw (store-ok off 2 (bytes16 (u16 c)) out (omega arith)) (
      mono (fix_wide_string-HasUnits cs (off + 2) _ (omega arith)) λ b (same, units). (
        record {
          address = same.address;
          extent = same.extent;
          outside = λ i away.
              same.outside i (omega arith)
              ∙ overwrite-outside off 2 (bytes16 (u16 c)) out.bytes i (omega arith);
        },
        HasUnits-cons b off (u16 c) (cut cs)
            (read16_same off same (inl (omega arith))
              ∙ read16-overwrite_self off (u16 c) out.bytes (omega arith))
            units,
      ))

-- With a terminator in its block the count ends at it.
count_units-length :
    (us : Chars) (fuel : ℕ) (source : Block) (off : ℕ)
    → All (λ u. u ≢ 0) us
    → HasUnits source off us
    → off + 2 * (length us + 1) ≤ source.extent
    → length us < fuel
    → count_units fuel source off ≡ ok (length us)
unfolding count_units
count_units-length us zero source off ne h fits lt = absurd (omega arith)
count_units-length [] (suc fuel) source off ne h fits lt =
    rw (load16-ok source off (omega arith), HasUnits-end source off h)
count_units-length (u ∷ us) (suc fuel) source off ne h fits lt =
    rw
      (
        load16-ok source off (omega arith),
        HasUnits-head source off u us h,
        count_units-length us fuel source (off + 2) ne.1 (HasUnits-tail source off u us h)
            (omega arith) (omega arith),
      )
      (ground (arith, ne.0))

-- The copy widens `k` units into the first `4 * k` bytes, and writes nothing else.
widen_loop-reads :
    (k : ℕ) (source : Block) (off : ℕ) (out : Block)
    → off + 2 * k ≤ source.extent
    → 4 * k ≤ out.extent
    → Returns
        (λ b.
          SameOutside 0 (4 * k) out b
          × ((i : ℕ)
              → i < k
              → read32 b.bytes (4 * i) ≡ sign_extend (read16 source.bytes (off + 2 * i))))
        (widen_loop k source off out)
unfolding widen_loop
widen_loop-reads zero source off out h g = returns (
  record { address = refl; extent = refl; outside = λ i away. refl },
  λ i lt. absurd (omega arith),
)
widen_loop-reads (suc k) source off out h g =
    rw
      (
        load16-ok source (off + 2 * k) (omega arith),
        store-ok (4 * k) 4 (bytes32 (sign_extend (read16 source.bytes (off + 2 * k)))) out
            (omega arith),
      )
      (mono (widen_loop-reads k source off _ (omega arith) (omega arith)) λ b (same, reads). (
        record {
          address = same.address;
          extent = same.extent;
          outside = λ i away.
              same.outside i (omega arith)
              ∙ overwrite-outside (4 * k) 4 _ out.bytes i (omega arith);
        },
        λ i lt. elim (Bool-cases (i == k)) [
          | inl last ↦
              subst
                (λ (j : ℕ).
                  read32 b.bytes (4 * j) ≡ sign_extend (read16 source.bytes (off + 2 * j)))
                (sym (eq_of_test i k last))
                (read32_same (4 * k) same (inr (omega arith))
                  ∙ read32-overwrite_self (4 * k) _ out.bytes
                      (sign_extend-lt _ (read16-lt source.bytes (off + 2 * k))))
          | inr before ↦ reads i (ground arith)
        ],
      ))

-- The characters that a caller gets for the TA's units.
abbrev pub widen : Chars → Chars
widen [] = []
widen (u ∷ us) = sign_extend u ∷ widen us

pub length-widen : (us : Chars) → length (widen us) ≡ length us
length-widen [] = refl
length-widen (u ∷ us) = ap suc (length-widen us)

get_or-widen : (us : Chars) (i : ℕ) → get_or (widen us) i 0 ≡ sign_extend (get_or us i 0)
unfolding sign_extend
get_or-widen [] i = refl
get_or-widen (u ∷ us) zero = refl
get_or-widen (u ∷ us) (suc i) = get_or-widen us i

-- RestoreWideString, given a terminated string of the TA and room for four bytes a unit, writes the
-- widened string with its terminator into the caller's buffer, and nothing behind it.
pub restore_wide_string-HasChars :
    (us : Chars) (source : Block) (off : ℕ) (out : Block)
    → All (λ u. u ≢ 0) us
    → HasUnits source off us
    → off + 2 * (length us + 1) ≤ source.extent
    → 4 * (length us + 1) ≤ out.extent
    → Returns
        (λ b. SameOutside 0 (4 * (length us + 1)) out b × HasChars b (widen us))
        (restore_wide_string source off out)
unfolding restore_wide_string
restore_wide_string-HasChars us source off out ne h fits room =
    rw (count_units-length us source.extent source off ne h fits (omega arith)) (
      mono (widen_loop-reads (suc (length us)) source off out (omega arith) (omega arith))
        λ b (same, reads). (
          record {
            address = same.address;
            extent = same.extent;
            outside = λ i away. same.outside i (omega arith);
          },
          λ i le.
              reads i (omega (arith, length-widen us))
              ∙ ap sign_extend (h i (omega (arith, length-widen us)))
              ∙ sym (get_or-widen us i),
        ))
