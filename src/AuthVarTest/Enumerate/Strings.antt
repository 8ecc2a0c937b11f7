-- ===== src/AuthVarTest/Enumerate/Strings.antt =====
-- StrCmp of a string with one in memory, as the enumeration calls it.
use qemu_pipeline.Base.{
  ℕ, suc, ◌+◌, ◌*◌, ◌≤◌, ◌≡◌, ◌≢◌, refl, ap, ◌∙◌, Bool, true, false, [], ◌∷◌, ◌==◌, ◌&&◌, length,
  get_or, All, arith, inl, inr, Bool-cases,
}
use qemu_pipeline.Outcome.{ok}
use qemu_pipeline.Memory.{Block, read32}
use qemu_pipeline.Memory.Laws.{load32-ok}
use qemu_pipeline.Support.{Chars}
use qemu_pipeline.AuthVarTest.Enumerate.{same_string}

-- The reference: two strings are the same.
abbrev pub same_chars : Chars → Chars → Bool
same_chars [] [] = true
same_chars [] (y ∷ ys) = false
same_chars (x ∷ xs) [] = false
same_chars (x ∷ xs) (y ∷ ys) = (x == y) && same_chars xs ys

-- A string stands at an offset of a block, terminated, and no character of it is a terminator.
pub record StandsAt (b : Block) (off : ℕ) (cs : Chars) : Type 0 where
  pub chars : (i : ℕ) → i ≤ length cs → read32 b.bytes (off + 4 * i) ≡ get_or cs i 0
  pub nonzero : All (λ c. c ≢ 0) cs
  pub ends : off + 4 * (length cs + 1) ≤ b.extent

tail : (b : Block) (off c : ℕ) (cs : Chars) → StandsAt b off (c ∷ cs) → StandsAt b (off + 4) cs
tail b off c cs h = record {
  chars = λ i le. ap (read32 b.bytes) (omega arith) ∙ h.chars (suc i) (omega arith);
  nonzero = h.nonzero.1;
  ends = ground (arith, h.ends);
}

first : (b : Block) (off : ℕ) (cs : Chars) → StandsAt b off cs → read32 b.bytes off ≡ get_or cs 0 0
first b off cs h = ap (read32 b.bytes) same ∙ h.chars 0 (omega arith)
  where
    same : off ≡ off + 4 * 0
    same = omega arith

pub same_string-eq :
    (xs : Chars) (b : Block) (off : ℕ) (cs : Chars)
    → All (λ c. c ≢ 0) xs
    → StandsAt b off cs
    → same_string xs b off ≡ ok (same_chars xs cs)
unfolding same_string
same_string-eq [] b off [] ne h =
    rw (same_string, load32-ok b off (ground (arith, h.ends)), first b off [] h) refl
same_string-eq [] b off (c ∷ cs) ne h =
    rw (same_string, load32-ok b off (ground (arith, h.ends)), first b off (c ∷ cs) h)
      (ground (arith, h.nonzero.0))
same_string-eq (x ∷ xs) b off [] ne h =
    rw (same_string, load32-ok b off (ground (arith, h.ends)), first b off [] h)
      (ground (arith, ne.0))
same_string-eq (x ∷ xs) b off (c ∷ cs) ne h =
    rw
      (
        same_string,
        load32-ok b off (ground (arith, h.ends)),
        first b off (c ∷ cs) h,
        same_string-eq xs b (off + 4) cs ne.1 (tail b off c cs h),
      )
      (elim (Bool-cases (x == c)) [ inl e ↦ rw e refl | inr e ↦ rw e refl ])
