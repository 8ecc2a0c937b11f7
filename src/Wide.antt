-- ===== src/Wide.antt =====
-- The conversions between wide strings of 32 bits and the TA's strings of 16 bits
-- (authvars_test/host/edk2/linux_fixup.c).
pub mod Laws
pub mod RoundTrip
use qemu_pipeline.Base.{ℕ, zero, suc, ◌+◌, ◌*◌, [], ◌∷◌, ltb, ◌==◌, if◌then◌else◌, u16}
use qemu_pipeline.Outcome.{Outcome, ok, fault, ◌>>=◌}
use qemu_pipeline.Memory.{Block, bytes16, bytes32, load16, store}
use qemu_pipeline.Support.{Chars}

-- FixWideString: each character and then the terminator is cut to 16 bits and written at the
-- advancing pointer `sc`, here the offset `off` in the block `out`.
unfoldable pub fix_wide_string : Chars → ℕ → Block → Outcome Block
unfolding store
fix_wide_string [] off out = store off 2 (bytes16 0) out
fix_wide_string (c ∷ cs) off out = do
  out ← store off 2 (bytes16 (u16 c)) out
  fix_wide_string cs (off + 2) out

-- A CHAR16 from an INT16: the sign is extended.
unfoldable pub sign_extend : ℕ → ℕ
sign_extend unit = if ltb unit 0x8000 then unit else unit + 0xffff0000

-- `while (*sc) { length++; sc++; }`: the units before the terminator. A string that runs to the
-- end of its block is a fault, and so many rounds are enough to get there.
unfoldable pub count_units : ℕ → Block → ℕ → Outcome ℕ
unfolding load16
count_units zero source off = fault
count_units (suc fuel) source off = do
  unit ← load16 source off
  let rest = count_units fuel source (off + 2)
  if unit == 0 then ok 0 else do n ← rest; ok (suc n)

-- The loop that copies units `k - 1` to 0, the last first.
unfoldable pub widen_loop : ℕ → Block → ℕ → Block → Outcome Block
unfolding load16 store sign_extend
widen_loop zero source off out = ok out
widen_loop (suc k) source off out = do
  unit ← load16 source (off + 2 * k)
  out ← store (4 * k) 4 (bytes32 (sign_extend unit)) out
  widen_loop k source off out

-- RestoreWideString, from offset `off` of the block `source` to the start of `out`.
unfoldable pub restore_wide_string : Block → ℕ → Block → Outcome Block
unfolding count_units widen_loop
restore_wide_string source off out = do
  n ← count_units source.extent source off
  widen_loop (suc n) source off out
