-- ===== src/Cli/Options.antt =====
-- The words of the command line: build_attributes, set_op and the clean-up of a GUID's text
-- (authvars_test/host/main.c). A word is the list of its characters' codes.
pub mod Laws
pub mod Strip
use qemu_pipeline.Base.{
  ℕ, zero, suc, ◌+◌, Bool, true, false, ◌&&◌, Option, none, some, List, [], ◌∷◌, bit_or, ◌==◌,
  if◌then◌else◌, get_or,
}
use qemu_pipeline.Outcome.{Outcome, ok, fault, exit}
use qemu_pipeline.Efi.Attributes.{
  non_volatile, bootservice_access, runtime_access, hardware_error_record,
  authenticated_write_access, time_based_authenticated_write_access, append_write,
}

abbrev pub Word : Type 0
Word = List ℕ

-- `!strcmp(a, b)`.
unfoldable pub same_word : Word → Word → Bool
same_word [] [] = true
same_word (a ∷ v) (b ∷ w) = (a == b) && same_word v w
same_word _ _ = false

-- The attribute that a word names.
unfoldable pub attribute_of : Word → Option ℕ
unfolding same_word
attribute_of w =
    if same_word w (b'N' ∷ b'V' ∷ [])
    then some non_volatile
    else if same_word w (b'B' ∷ b'S' ∷ [])
    then some bootservice_access
    else if same_word w (b'R' ∷ b'T' ∷ [])
    then some runtime_access
    else if same_word w (b'H' ∷ b'E' ∷ [])
    then some hardware_error_record
    else if same_word w (b'A' ∷ b'W' ∷ [])
    then some authenticated_write_access
    else if same_word w (b'T' ∷ b'A' ∷ [])
    then some time_based_authenticated_write_access
    else if same_word w (b'A' ∷ b'P' ∷ [])
    then some append_write
    else none

-- The loop of build_attributes, on the mask so far. An unknown word ends the process.
unfoldable pub build_attributes_from : ℕ → List Word → Outcome ℕ
unfolding attribute_of
build_attributes_from attributes [] = ok attributes
build_attributes_from attributes (w ∷ ws) = elim (attribute_of w) [
  | none ↦ exit
  | some bit ↦ build_attributes_from (bit_or attributes bit) ws
]

unfoldable pub build_attributes : List Word → Outcome ℕ
unfolding build_attributes_from
build_attributes words = build_attributes_from 0 words

pub data NvOp : Type 0 where
  get set getnext query self_test bin unknown_command : NvOp

unfoldable pub set_op : Word → NvOp
unfolding same_word
set_op w =
    if same_word w (b's' ∷ b'e' ∷ b'l' ∷ b'f' ∷ b't' ∷ b'e' ∷ b's' ∷ b't' ∷ [])
    then self_test
    else if same_word w (b'b' ∷ b'i' ∷ b'n' ∷ [])
    then bin
    else if same_word w (b'g' ∷ b'e' ∷ b't' ∷ [])
    then get
    else if same_word w (b's' ∷ b'e' ∷ b't' ∷ [])
    then set
    else if same_word w (b'q' ∷ b'u' ∷ b'e' ∷ b'r' ∷ b'y' ∷ [])
    then query
    else if same_word w (b'g' ∷ b'e' ∷ b't' ∷ b'n' ∷ b'e' ∷ b'x' ∷ b't' ∷ [])
    then getnext
    else unknown_command

-- The loop of get_guid that squeezes spaces out of a text in place. `text` is the buffer, `i` and
-- `o` are the offsets of `in` and `out`; the terminator at the end is written at `o`.
unfoldable pub write_at : Word → ℕ → ℕ → Word
write_at [] o c = []
write_at (x ∷ xs) zero c = c ∷ xs
write_at (x ∷ xs) (suc o) c = x ∷ write_at xs o c

-- A read beyond the buffer is a fault, and as many rounds as the buffer has bytes get there.
unfoldable pub strip_loop : ℕ → Word → ℕ → ℕ → Outcome Word
unfolding write_at
strip_loop zero text i o = fault
strip_loop (suc left) text i o =
    let c = get_or text i 0 in
    let kept = strip_loop left (write_at text o c) (i + 1) (o + 1) in
    let dropped = strip_loop left text (i + 1) o in
    if c == 0 then ok (write_at text o 0) else if c == b' ' then dropped else kept

-- The text in the buffer afterwards, up to its terminator.
unfoldable pub text_of : Word → Word
text_of [] = []
text_of (c ∷ cs) = if c == 0 then [] else c ∷ text_of cs
