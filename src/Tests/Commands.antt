-- ===== src/Tests/Commands.antt =====
-- The command line on a TA that holds a variable.
use qemu_pipeline.Base.{
  length, ◌++◌, ℕ, suc, ◌+◌, ◌<◌, ◌≡◌, refl, arith, ltb, if◌then◌else◌, ◌↔◌, ◌≢◌, ◌∷◌, [], some,
  get_or,
}
use qemu_pipeline.Outcome.{Returns}
use qemu_pipeline.Memory.{Bytes, Block, read32}
use qemu_pipeline.Driver.Tee.{TeeClient, success, short_buffer}
use qemu_pipeline.Driver.State.{IsReady}
use qemu_pipeline.Driver.Get.Safety.{str_size-eq}
use qemu_pipeline.Driver.Get.Held.{HoldsVariable, SameSession}
use qemu_pipeline.Pool.{Allocator}
use qemu_pipeline.Cli.Command.{variable, process_get}
use qemu_pipeline.Cli.Command.Get.{IsPlain, process_get-held}
use qemu_pipeline.Cli.Options.Strip.{IsText, without_spaces, strip_loop-without_spaces}
use qemu_pipeline.Cli.Options.{Word, strip_loop, text_of, get, unknown_command, set_op}
use qemu_pipeline.Cli.Options.Laws.{word_of, set_op_iff}
use qemu_pipeline.Ftpm.Laws.{IsTested, selftest-IsTested}
use qemu_pipeline.Tests.Demo.{
  demo_block, demo_answer, demo_reply, demo_tee, demo_driver, demo_driver-IsReady, demo_guid,
  demo_guid-IsGuid, demo_name, demo_AllocatesMemory,
}

-- Two bytes, and 18 with the header.
abbrev held_tee : TeeClient (Unit {0})
held_tee = record demo_tee {
  invoke_command = λ w session command operation. record demo_reply {
    result = if ltb operation.output_size 18 then short_buffer else success;
    value_a = 18;
  };
}

abbrev held_bytes : Bytes
held_bytes i = get_or demo_answer (12 + i) 0

held_tee-HoldsVariable : HoldsVariable held_tee demo_name demo_guid 7 2 held_bytes
unfolding read32
held_tee-HoldsVariable = record {
  holds = λ w session operation request there decodes. record {
    attributes_there = refl;
    short = λ lt. (ground arith, refl);
    full = λ le. (ground arith, refl, λ i lt. refl);
  };
}

abbrev demo_heap : Allocator
demo_heap = record {
  malloc = λ n. some (demo_block 0x20000 n);
  calloc = λ n. some (demo_block 0x20000 n);
  realloc = λ old n. some (demo_block 0x20000 n);
}

demo_IsPlain : IsPlain demo_name demo_guid
demo_IsPlain = record { string = omega arith; guid = demo_guid-IsGuid; not_hook = λ size. refl }

process_get-held_example :
    Returns
      (λ (status, shown, d').
        (status ≡ 0)
        × ((c : Block) × (shown ≡ variable demo_guid demo_name 7 2 (some c))
            × ((i : ℕ) → i < 2 → c.bytes i ≡ held_bytes i))
        × IsReady d'
        × SameSession demo_driver d')
      (process_get held_tee demo_heap (some demo_guid) (some demo_name) 0 demo_driver)
process_get-held_example =
    process_get-held held_tee demo_heap demo_name demo_guid 7 2 held_bytes 0 demo_driver
      demo_driver-IsReady (demo_block 0x20000 2) held_tee-HoldsVariable demo_IsPlain refl
      (omega (arith, str_size-eq demo_name (omega arith))) (omega arith) (omega arith) refl
      (omega arith)

set_op_iff_example :
    (set_op (b'g' ∷ b'e' ∷ b't' ∷ []) ≡ get) ↔ (b'g' ∷ b'e' ∷ b't' ∷ [] ≡ word_of get)
set_op_iff_example = set_op_iff (b'g' ∷ b'e' ∷ b't' ∷ []) get get-known
  where
    get-known : get ≢ unknown_command
    get-known e = cc

selftest-IsTested_example : IsTested demo_tee demo_AllocatesMemory tt 1
selftest-IsTested_example = selftest-IsTested demo_tee demo_AllocatesMemory tt 1 refl

-- "1 2 ".
abbrev spaced : Word
spaced = b'1' ∷ b' ' ∷ b'2' ∷ b' ' ∷ []

spaced-IsText : IsText spaced
spaced-IsText = (omega arith, (omega arith, (omega arith, (omega arith, tt))))

strip_loop-without_spaces_example :
    Returns
      (λ left. text_of left ≡ without_spaces spaced)
      (strip_loop (suc (length spaced)) (spaced ++ 0 ∷ []) 0 0)
strip_loop-without_spaces_example = strip_loop-without_spaces spaced spaced-IsText

stripped : without_spaces spaced ≡ b'1' ∷ b'2' ∷ []
unfolding without_spaces
stripped = refl
