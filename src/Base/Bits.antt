-- ===== src/Base/Bits.antt =====
-- `|` of two numbers with disjoint bits is their sum, at every width.
use Prim.Native.Nat.{
  ℕ, zero, suc, ◌+◌, ◌*◌, ◌/◌, ◌^◌, ◌≤◌, ◌<◌, max, digits, bit_or, bit_or-bitwise,
}
use mathlib.Core.Path.{◌≡◌, refl, ap, ◌∙◌}
use native.Mathlib.Nat.{pow-suc}
use native.Mathlib.Omega.{arith}

-- The digit recursion of `|`, on fuel.
abbrev or_digits : ℕ → ℕ → ℕ → ℕ
or_digits fuel a b = digits (λ y. y) max fuel a b

or_digits-zero : (fuel a : ℕ) → a ≤ fuel → or_digits fuel a 0 ≡ a
or_digits-zero zero zero h = refl
or_digits-zero zero (suc a) h = absurd (omega arith)
or_digits-zero (suc n) zero h = refl
or_digits-zero (suc n) (suc a) h = omega (arith, or_digits-zero n (suc a / 2) (omega arith))

or_digits-eq-add :
    (fuel k q a b : ℕ) → a ≤ fuel → a ≡ q * 2 ^ k → b < 2 ^ k → or_digits fuel a b ≡ a + b
or_digits-eq-add zero k q zero b h e lt = omega arith
or_digits-eq-add zero k q (suc a) b h e lt = absurd (omega arith)
or_digits-eq-add (suc n) k q zero b h e lt = omega arith
or_digits-eq-add (suc n) zero q (suc a) zero h e lt = or_digits-zero (suc n) (suc a) h ∙ omega arith
or_digits-eq-add (suc n) zero q (suc a) (suc b) h e lt = absurd (omega arith)
or_digits-eq-add (suc n) (suc k) q (suc a) b h e lt = omega (
  arith,
  twice,
  pow-suc 2 k,
  or_digits-eq-add n k q (suc a / 2) (b / 2) (omega arith) (omega (arith, twice))
      (omega (arith, pow-suc 2 k)),
)
  where
    twice : suc a ≡ 2 * (q * 2 ^ k)
    twice = omega (arith, ap (λ (t : ℕ). q * t) (pow-suc 2 k))

pub bit_or-eq-add : (k q b : ℕ) → b < 2 ^ k → bit_or (q * 2 ^ k) b ≡ q * 2 ^ k + b
bit_or-eq-add k q b h =
    bit_or-bitwise (q * 2 ^ k) b
    ∙ or_digits-eq-add (q * 2 ^ k) k q (q * 2 ^ k) b (omega arith) refl h
