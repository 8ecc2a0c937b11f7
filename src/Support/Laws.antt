-- ===== src/Support/Laws.antt =====
-- The byte swaps.
use qemu_pipeline.Base.{ℕ, ◌+◌, ◌*◌, ◌/◌, ◌%◌, ◌^◌, ◌<◌, ◌≡◌, arith, ◌∙◌, bit_or-eq-add, u32}
use qemu_pipeline.Memory.{bytes32}
use qemu_pipeline.Support.{swap_bytes16, swap_bytes32}

swap_bytes16_sum : (v : ℕ) → v < 2 ^ 16 → swap_bytes16 v ≡ v % 256 * 256 + v / 256
unfolding swap_bytes16
swap_bytes16_sum v h = omega (arith, bit_or-eq-add 8 v (v / 256))

swap_bytes16-lt : (v : ℕ) → swap_bytes16 v < 2 ^ 16
unfolding swap_bytes16
swap_bytes16-lt v = omega arith

swap_bytes32_sum :
    (v : ℕ)
    → v < 2 ^ 32
    → swap_bytes32 v ≡ swap_bytes16 (v % 65536) * 65536 + swap_bytes16 (v / 65536)
unfolding swap_bytes32
swap_bytes32_sum v h =
    rw (high_half, fits)
      (bit_or-eq-add 16 (swap_bytes16 (v % 65536)) (swap_bytes16 (v / 65536))
        (swap_bytes16-lt (v / 65536)))
  where
    high_half : v / 65536 % 65536 ≡ v / 65536
    high_half = omega arith

    fits : u32 (swap_bytes16 (v % 65536) * 65536) ≡ swap_bytes16 (v % 65536) * 65536
    fits = omega (arith, swap_bytes16-lt (v % 65536))

-- SwapBytes32 reverses the four bytes of a 32-bit value.
pub swap_bytes32_reverses :
    (v : ℕ)
    → v < 2 ^ 32
    → (bytes32 (swap_bytes32 v) 0 ≡ bytes32 v 3)
      × (bytes32 (swap_bytes32 v) 1 ≡ bytes32 v 2)
      × (bytes32 (swap_bytes32 v) 2 ≡ bytes32 v 1)
      × (bytes32 (swap_bytes32 v) 3 ≡ bytes32 v 0)
unfolding bytes32
swap_bytes32_reverses v h =
    omega (arith, swap_bytes32_sum v, swap_bytes16_sum (v % 65536), swap_bytes16_sum (v / 65536))

swap_bytes32-lt : (v : ℕ) → v < 2 ^ 32 → swap_bytes32 v < 2 ^ 32
swap_bytes32-lt v h =
    omega (arith, swap_bytes32_sum v, swap_bytes16-lt (v % 65536), swap_bytes16-lt (v / 65536))

bytes32-injective :
    (v w : ℕ)
    → v < 2 ^ 32
    → w < 2 ^ 32
    → (bytes32 v 0 ≡ bytes32 w 0)
      × (bytes32 v 1 ≡ bytes32 w 1)
      × (bytes32 v 2 ≡ bytes32 w 2)
      × (bytes32 v 3 ≡ bytes32 w 3)
    → v ≡ w
unfolding bytes32
bytes32-injective v w hv hw same = omega arith

-- Swapping a 32-bit value twice gives it back.
pub swap_bytes32_involutive : (v : ℕ) → v < 2 ^ 32 → swap_bytes32 (swap_bytes32 v) ≡ v
swap_bytes32_involutive v h =
    let fits = swap_bytes32-lt v h in
    let (a, b, c, d) = swap_bytes32_reverses v h in
    let (p, q, r, t) = swap_bytes32_reverses (swap_bytes32 v) fits in
    bytes32-injective _ v (swap_bytes32-lt (swap_bytes32 v) fits) h (p ∙ d, q ∙ c, r ∙ b, t ∙ a)
