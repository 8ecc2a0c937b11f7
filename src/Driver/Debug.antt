-- ===== src/Driver/Debug.antt =====
-- BitsToChar, AuthVarHexDump and AuthVarFixBuffer (authvars_test/host/edk2_driver/AuthVarsDxe.c).
pub mod Laws
use qemu_pipeline.Base.{
  ℕ, zero, suc, ◌+◌, ◌-◌, ◌*◌, ◌/◌, ◌%◌, ◌^◌, ltb, ◌==◌, if◌then◌else◌, u8, u32,
}
use qemu_pipeline.Outcome.{Outcome, ok, fault, exit, ◌>>=◌}
use qemu_pipeline.Memory.{Block, bytes32, load32, store}

-- BitsToChar: in the other branch the two 'A' cancel.
unfoldable pub bits_to_char : ℕ → ℕ
bits_to_char bits = if ltb bits 0xa then u8 (b'0' + bits) else u8 (b'A' + (bits + 2 ^ 8 - b'A'))

-- The loop of AuthVarHexDump, at byte `i`: two characters go to the string.
unfoldable pub dump_loop : ℕ → ℕ → Block → Block → Outcome Block
unfolding bits_to_char store
dump_loop zero i buffer string = store (2 * i) 1 (λ _. 0) string
dump_loop (suc n) i buffer string =
    if ltb i buffer.extent
    then (do
      let byte = u8 (buffer.bytes i)
      string ← store (2 * i) 1 (λ _. bits_to_char (byte / 16)) string
      string ← store (2 * i + 1) 1 (λ _. bits_to_char (byte % 16)) string
      dump_loop n (suc i) buffer string)
    else fault

abbrev pub dump_room : ℕ
dump_room = 10000

-- AuthVarHexDump, with the string that it prints, an array of its own.
unfoldable pub hex_dump : Block → ℕ → Block → Outcome Block
unfolding dump_loop
hex_dump buffer size string = dump_loop size 0 buffer (record string { extent = dump_room })

-- The loop of AuthVarFixBuffer, at character `i`, which is four bytes wide.
unfoldable pub fix_loop : ℕ → ℕ → Block → Outcome Block
unfolding load32 store
fix_loop zero i b = ok b
fix_loop (suc n) i b = do
  c ← load32 b (4 * i)
  b ← (if c == 0 then store (4 * i) 4 (bytes32 b'_') b else ok b)
  fix_loop n (suc i) b

-- AuthVarFixBuffer: `i < size - 1` on UINT32, once the size has been halved.
unfoldable pub fix_buffer : ℕ → Block → Outcome Block
unfolding fix_loop
fix_buffer size b = fix_loop (u32 (size / 2 + 2 ^ 32 - 1)) 0 b
