-- ===== src/Driver/Debug/Laws.antt =====
-- The debug helpers on their digits and buffers.
use qemu_pipeline.Base.{
  ℕ, zero, suc, ◌+◌, ◌-◌, ◌*◌, ◌/◌, ◌^◌, ◌≤◌, ◌<◌, ◌≡◌, ◌↔◌, refl, inl, inr, Bool-cases, leb, ltb,
  ◌==◌, if◌then◌else◌, arith, lt→leb, lt→ltb, u32,
}
use qemu_pipeline.Outcome.{fault}
use qemu_pipeline.Memory.{Block, store, read32}
use qemu_pipeline.Memory.Laws.{load32-ok}
use qemu_pipeline.Driver.Debug.{bits_to_char, dump_loop, hex_dump, fix_loop, fix_buffer}

-- The reference: the hexadecimal digit of a number below 16.
abbrev pub hex_digit : ℕ → ℕ
hex_digit n = if ltb n 10 then b'0' + n else b'A' + (n - 10)

-- BitsToChar gives the hexadecimal digit of a number below 16 exactly if it is below ten.
pub bits_to_char_iff : (n : ℕ) → n < 16 → (bits_to_char n ≡ hex_digit n) ↔ (n < 10)
unfolding bits_to_char
bits_to_char_iff n h = ((λ e. ground arith), λ lt. ground arith)

-- A loop that reaches beyond the block faults.
fix_loop_fault :
    (n i : ℕ) (b : Block) → 4 * i ≤ b.extent → b.extent < 4 * (i + n) → fix_loop n i b ≡ fault
unfolding fix_loop
fix_loop_fault zero i b here beyond = absurd (omega arith)
fix_loop_fault (suc n) i b here beyond = elim (Bool-cases (leb (4 * i + 4) b.extent)) [
  | inr short ↦ rw (fix_loop, short) refl
  | inl fits ↦
      rw (load32-ok b (4 * i) (ground (arith, fits)))
        (elim (Bool-cases (read32 b.bytes (4 * i) == 0)) [
          | inl e ↦ rw (e, fits) (fix_loop_fault n (suc i) _ (ground (arith, fits)) (omega arith))
          | inr e ↦ rw e (fix_loop_fault n (suc i) b (ground (arith, fits)) (omega arith))
        ])
]

-- AuthVarFixBuffer on a buffer of six bytes or more, and less than 2 ^ 32, as long as it says,
-- accesses memory beyond its end.
pub fix_buffer_fault :
    (size : ℕ) (b : Block) → b.extent ≡ size → 6 ≤ size → size < 2 ^ 32 → fix_buffer size b ≡ fault
unfolding fix_buffer
fix_buffer_fault size b e h small =
    fix_loop_fault (u32 (size / 2 + 2 ^ 32 - 1)) 0 b (omega arith) (omega arith)

-- A dump that does not fit the string faults.
dump_loop_fault :
    (n i : ℕ) (buffer string : Block)
    → i + n ≤ buffer.extent
    → string.extent ≤ 2 * (i + n)
    → dump_loop n i buffer string ≡ fault
unfolding dump_loop store
dump_loop_fault zero i buffer string h beyond =
    rw (dump_loop, lt→leb (2 * i + 1) string.extent (omega arith)) refl
dump_loop_fault (suc n) i buffer string h beyond =
    elim (Bool-cases (leb (2 * i + 1) string.extent)) [
      | inr short ↦ rw (dump_loop, lt→ltb i buffer.extent (omega arith), short) refl
      | inl one ↦ elim (Bool-cases (leb (2 * i + 1 + 1) string.extent)) [
        | inr short ↦ rw (dump_loop, lt→ltb i buffer.extent (omega arith), one, short) refl
        | inl two ↦
            rw (dump_loop, lt→ltb i buffer.extent (omega arith), one, two)
              (dump_loop_fault n (suc i) buffer _ (omega arith) (omega arith))
      ]
    ]

-- AuthVarHexDump on 5000 bytes or more writes beyond its string.
pub hex_dump_fault :
    (buffer : Block) (size : ℕ) (string : Block)
    → size ≤ buffer.extent
    → 5000 ≤ size
    → hex_dump buffer size string ≡ fault
unfolding hex_dump
hex_dump_fault buffer size string h large =
    dump_loop_fault size 0 buffer (record string { extent = 10000 }) (omega arith) (omega arith)
