-- ===== src/Tests/Next.antt =====
-- The next variable of a TA, by the driver and on the command line.
use qemu_pipeline.Base.{
  ℕ, zero, suc, ◌+◌, ◌*◌, refl, ◌∙◌, ap, List, [], ◌∷◌, get_or, ltb, if◌then◌else◌, none, some,
  arith,
}
use qemu_pipeline.Outcome.{Safe}
use qemu_pipeline.Memory.{read16, read32}
use qemu_pipeline.Efi.Guid.{Guid}
use qemu_pipeline.Wide.Laws.{HasUnits, HasChars}
use qemu_pipeline.Driver.Tee.{TeeClient, success, short_buffer}
use qemu_pipeline.Driver.State.Laws.{IsReady-IsSound}
use qemu_pipeline.Driver.GetNext.{get_next_variable_name}
use qemu_pipeline.Driver.GetNext.Decode.{IsName}
use qemu_pipeline.Driver.GetNext.Sent.{NamesVariables}
use qemu_pipeline.Driver.GetNext.Safety.{NextDone, get_next_variable_name-Safe}
use qemu_pipeline.Driver.GetNext.Held.{GivesNext}
use qemu_pipeline.Pool.{Allocator}
use qemu_pipeline.Cli.Command.{next_loop}
use qemu_pipeline.Pool.{Reallocates}
use qemu_pipeline.Cli.Command.GetNext.{CanAsk, HasNext, next_loop-HasNext}
use qemu_pipeline.Tests.Demo.{
  demo_block, demo_reply, demo_tee, demo_driver, demo_driver-IsReady, demo_guid, demo_guid-IsGuid,
}

-- A TA whose next variable is "A", of an all-zero GUID.
abbrev pub next_answer : List ℕ
next_answer =
    28 ∷ 0 ∷ 0 ∷ 0 ∷ 4 ∷ 0 ∷ 0 ∷ 0 ∷ 0 ∷ 0 ∷ 0 ∷ 0 ∷ 0 ∷ 0 ∷ 0 ∷ 0 ∷ 0 ∷ 0 ∷ 0 ∷ 0 ∷ 0 ∷ 0 ∷ 0 ∷ 0
    ∷ 65 ∷ 0 ∷ 0 ∷ 0 ∷ []

abbrev next_guid : Guid
next_guid = record { data1 = 0; data2 = 0; data3 = 0; data4 = 0 ∷ 0 ∷ 0 ∷ 0 ∷ 0 ∷ 0 ∷ 0 ∷ 0 ∷ [] }

abbrev next_tee : TeeClient (Unit {0})
next_tee = record demo_tee {
  invoke_command =
      λ w session command operation. record demo_reply { output = λ i. get_or next_answer i 0 };
}

pub next_answer-IsName :
    IsName (record { address = 0; extent = 0; bytes = λ i. get_or next_answer i 0 }) (65 ∷ [])
unfolding read16
next_answer-IsName = record { units = two; nonzero = (omega arith, tt); size = refl }
  where
    two :
        HasUnits
          (record { address = 0; extent = 0; bytes = λ i. get_or next_answer i 0 })
          24
          (65 ∷ [])
    two zero le = refl
    two (suc zero) le = refl
    two (suc (suc i)) le = absurd (omega arith)

next_tee_NamesVariables : NamesVariables next_tee
next_tee_NamesVariables = record {
  names = λ w session operation done. (65 ∷ [], next_answer-IsName);
}

pub demo_chars : HasChars (demo_block 0x20000 64) []
unfolding read32
demo_chars zero le = refl
demo_chars (suc i) le = absurd (omega arith)

get_next_variable_name-Safe_example : Safe (NextDone next_tee [] demo_guid demo_driver) (
    get_next_variable_name next_tee
      (some 64)
      (some (demo_block 0x20000 64))
      (some demo_guid)
      demo_driver)
get_next_variable_name-Safe_example =
    get_next_variable_name-Safe next_tee 64 (demo_block 0x20000 64) [] demo_guid demo_driver
      next_tee_NamesVariables demo_chars tt (omega arith) (omega arith) (omega arith)
      demo_guid-IsGuid (IsReady-IsSound demo_driver-IsReady)

-- The same TA, where a buffer of 32 bytes is needed.
abbrev giving_tee : TeeClient (Unit {0})
giving_tee = record demo_tee {
  invoke_command = λ w session command operation. record demo_reply {
    result = if ltb operation.output_size 32 then short_buffer else success;
    value_a = 32;
    output = λ i. get_or next_answer i 0;
  };
}

giving_tee-GivesNext : GivesNext giving_tee [] demo_guid (65 ∷ []) next_guid
unfolding qemu_pipeline.Efi.Guid.read_guid qemu_pipeline.Efi.Guid.guid_of read32 read16
giving_tee-GivesNext = record {
  gives = λ w session operation request there decodes. (
    record {
      short = λ lt. (ground arith, refl);
      full = λ le. (
        ground arith,
        λ b e. record {
          units = λ i le. ap (λ m. read16 m (24 + 2 * i)) e ∙ next_answer-IsName.units i le;
          nonzero = next_answer-IsName.nonzero;
          size = ap (λ m. read16 m 4) e ∙ next_answer-IsName.size;
        },
      );
    },
    λ fits. refl,
  );
}

-- An allocator whose realloc changes the length alone.
abbrev pub moving_heap : Allocator
moving_heap = record {
  malloc = λ n. some (demo_block 0x20000 n);
  calloc = λ n. some (demo_block 0x20000 n);
  realloc = λ old n. elim old [
    | none ↦ some (demo_block 0x20000 n)
    | some b ↦ some (record b { extent = n })
  ];
}

pub moving_heap-Reallocates : Reallocates moving_heap
moving_heap-Reallocates = record {
  moved = λ b n. (record b { extent = n }, refl, omega arith, λ i lt le. refl);
}

demo_CanAsk :
    CanAsk giving_tee moving_heap [] demo_guid
      (65 ∷ [])
      next_guid
      (demo_block 0x20000 64)
      demo_driver
demo_CanAsk = record {
  opened = refl;
  chars = demo_chars;
  nonzero = tt;
  string = omega arith;
  ends = omega arith;
  guid = demo_guid-IsGuid;
  fits = omega arith;
  holds = omega arith;
}

next_loop-HasNext_example : HasNext giving_tee moving_heap [] demo_guid (65 ∷ []) next_guid (
    next_loop giving_tee moving_heap 2
      (some (demo_block 0x20000 64))
      4
      (some demo_guid)
      demo_driver)
next_loop-HasNext_example =
    next_loop-HasNext giving_tee moving_heap [] demo_guid (65 ∷ []) next_guid giving_tee-GivesNext
      moving_heap-Reallocates 0 (demo_block 0x20000 64) 4 demo_driver demo_driver-IsReady
      demo_CanAsk (omega arith) (omega arith) (omega arith)
