-- ===== src/Tests/Demo.antt =====
-- A concrete TA that holds one variable of two bytes, and a driver with an open session.
use qemu_pipeline.Driver.Session.Laws.{AllocatesMemory}
use qemu_pipeline.Driver.SecureBoot.Laws.{Store}
use qemu_pipeline.Base.{
  ℕ, if◌then◌else◌, leb, ◌==◌, length, refl, arith, true, none, some, List, [], ◌∷◌, get_or,
}
use qemu_pipeline.Memory.{Block}
use qemu_pipeline.Efi.Guid.{Guid, IsGuid}
use qemu_pipeline.Support.{Chars}
use qemu_pipeline.Driver.Tee.{success, out_of_memory, mem_input, mem_output, Reply, TeeClient}
use qemu_pipeline.Driver.State.{Driver, IsReady}

abbrev pub demo_block : ℕ → ℕ → Block
demo_block address extent = record { address = address; extent = extent; bytes = λ _. 0 }

-- Attributes 7, two bytes of data: 0xab and 0xcd.
abbrev pub demo_answer : List ℕ
demo_answer = 14 ∷ 0 ∷ 0 ∷ 0 ∷ 7 ∷ 0 ∷ 0 ∷ 0 ∷ 2 ∷ 0 ∷ 0 ∷ 0 ∷ 0xab ∷ 0xcd ∷ []

abbrev pub demo_reply : Reply (Unit {0})
demo_reply = record {
  result = success;
  value_a = 0;
  value_b = 0;
  output = λ i. get_or demo_answer i 0;
  world = tt;
}

abbrev pub demo_tee : TeeClient (Unit {0})
demo_tee = record {
  initialize_context = λ w. (success, w);
  open_session = λ w id. (success, 1, w);
  allocate_shared_memory = λ w n flags.
      if leb n 0x100000 then (success, some (demo_block 0x1000 n), w) else (out_of_memory, none, w);
  invoke_command = λ w session command operation. demo_reply;
  close_session = λ w session. w;
  finalize_context = λ w. w;
  release_shared_memory = λ w m. (record m { buffer = none }, w);
}

abbrev pub demo_driver : Driver (Unit {0})
demo_driver = record {
  world = tt;
  session_id = 1;
  session_opened = true;
  param_mem = record { buffer = some (demo_block 0x1000 32812); size = 32812; flags = mem_input };
  result_mem = record {
    buffer = some (demo_block 0x10000 32812);
    size = 32812;
    flags = mem_output;
  };
  published = true;
}

pub demo_driver-IsReady : IsReady demo_driver
demo_driver-IsReady = record {
  param = demo_block 0x1000 32812;
  result = demo_block 0x10000 32812;
  param_IsBuffer = record { buffer = refl; extent = omega arith; address = omega arith };
  result_IsBuffer = record { buffer = refl; extent = omega arith; address = omega arith };
  param_small = omega arith;
  result_small = omega arith;
}

abbrev pub demo_guid : Guid
demo_guid = record {
  data1 = 0x8BE4DF61;
  data2 = 0x93CA;
  data3 = 0x11D2;
  data4 = 0xAA ∷ 0x0D ∷ 0x00 ∷ 0xE0 ∷ 0x98 ∷ 0x03 ∷ 0x2B ∷ 0x8C ∷ [];
}

pub demo_guid-IsGuid : IsGuid demo_guid
demo_guid-IsGuid = record {
  data1 = omega arith;
  data2 = omega arith;
  data3 = omega arith;
  size = refl;
  bytes = (
    omega arith,
    (
      omega arith,
      (omega arith, (omega arith, (omega arith, (omega arith, (omega arith, (omega arith, tt)))))),
    ),
  );
}

-- L"db".
abbrev pub demo_name : Chars
demo_name = b'd' ∷ b'b' ∷ []

-- The same TA where no memory can be allocated.
abbrev pub poor_tee : TeeClient (Unit {0})
poor_tee = record demo_tee { allocate_shared_memory = λ w n flags. (out_of_memory, none, w) }

-- A store in user mode without "SecureBootEnable" that accepts every write.
abbrev pub demo_store : Store
demo_store = record {
  answer = λ name vendor byte. if length name == 2 then (5, byte) else (14, byte);
  accept = λ log w. 0;
}

-- The result buffer with the answer.
abbrev pub demo_answered : Block
demo_answered = record (demo_block 0x10000 32812) { bytes = demo_reply.output }

pub demo_AllocatesMemory : AllocatesMemory demo_tee
demo_AllocatesMemory = record {
  allocates = λ w n flags e. (demo_block 0x1000 n, ground arith, omega arith, ground arith);
}
