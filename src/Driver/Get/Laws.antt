-- ===== src/Driver/Get/Laws.antt =====
-- What GetVariable does with the answer of the TA, and the bounds that it keeps.
use qemu_pipeline.Base.{
  ℕ, ◌+◌, ◌-◌, ◌≤◌, ◌≡◌, refl, Option, none, some, ltb, leb, ◌==◌, if◌then◌else◌, arith,
}
use qemu_pipeline.Outcome.{Outcome, ok, exit}
use qemu_pipeline.Memory.{Block, read32, overwrite}
use qemu_pipeline.Memory.Laws.{load32-ok, copy_mem-ok}
use qemu_pipeline.Driver.Invoke.{Invoked}
use qemu_pipeline.Driver.Request.{copy_to}
use qemu_pipeline.Driver.Get.{GetResult, get_result, attributes_after, get_receive}

-- A caller's data buffer that can take `n` bytes: NULL only for none.
abbrev pub CanTake : Option Block → ℕ → Type 0
CanTake none n = n ≡ 0
CanTake (some b) n = n ≤ b.extent

-- The buffer after `n` bytes of the answer's data have been copied to its start.
abbrev pub filled : Block → ℕ → Option Block → Option Block
filled answer n none = none
filled answer n (some b) =
    some (record b { bytes = overwrite 0 n (λ i. answer.bytes (12 + i)) b.bytes })

abbrev pub set_if_given : Option ℕ → ℕ → Option ℕ
set_if_given none new = none
set_if_given (some old) new = some new

copy_to-filled :
    (answer : Block) (n : ℕ) (contents : Option Block)
    → 12 + n ≤ answer.extent
    → CanTake contents n
    → copy_to answer 12 n contents ≡ ok (filled answer n contents)
unfolding copy_to
copy_to-filled answer n none fits take = ground arith
copy_to-filled answer n (some b) fits take = rw (copy_mem-ok 0 answer 12 n b fits (omega arith))

-- What the caller gets, by the status of the command, the size that came with it, and the answer
-- in the result buffer. `none` is an ASSERT that fails.
abbrev pub get_answer : Option ℕ → ℕ → Option Block → ℕ → ℕ → Block → Option GetResult
get_answer attributes size contents status needed answer =
    let found = read32 answer.bytes 8 in
    let attributes' = set_if_given attributes (read32 answer.bytes 4) in
    if status == 0
    then some (
        if ltb size found
        then get_result 4 attributes' (some found) contents
        else get_result 0 attributes' (some found) (filled answer found contents))
    else if status == 5
    then (if leb 16 needed
        then some (get_result 5 attributes' (some (needed - 16)) contents)
        else none)
    else some (get_result status attributes' (some size) contents)

abbrev pub returned {ℓ κ} : {A : Type ℓ} {D : Type κ} → Option A → D → Outcome (A × D)
returned none d = exit
returned (some a) d = ok (a, d)

CanTake-le : (contents : Option Block) (m n : ℕ) → m ≤ n → CanTake contents n → CanTake contents m
CanTake-le none m n h t = omega arith
CanTake-le (some b) m n h t = omega arith

attributes_after_lem :
    (attributes : Option ℕ) (answer : Block)
    → 8 ≤ answer.extent
    → attributes_after attributes answer ≡ ok (set_if_given attributes (read32 answer.bytes 4))
attributes_after_lem none answer h = refl
attributes_after_lem (some old) answer h = rw (load32-ok answer 4 (omega arith))

module _ {W : Type 0} where
  -- Where the result buffer holds an answer as long as the size asked for and the caller's buffer
  -- can take that size, GetVariable returns what `get_answer` says, on every status.
  pub get_receive_lem :
      (attributes : Option ℕ) (size : ℕ) (contents : Option Block) (r : Invoked W) (answer : Block)
      → r.driver.result_mem.buffer ≡ some answer
      → 16 + size ≤ answer.extent
      → CanTake contents size
      → get_receive attributes size contents r
        ≡ returned (get_answer attributes size contents r.status r.result_size answer) r.driver
  unfolding get_receive
  get_receive_lem attributes size contents r answer there fits take =
      rw
        (
          there,
          load32-ok answer 8 (omega arith),
          attributes_after_lem attributes answer (omega arith),
        )
        (ground (
          arith,
          copy_to-filled answer (read32 answer.bytes 8) contents,
          CanTake-le contents (read32 answer.bytes 8) size,
        ))
