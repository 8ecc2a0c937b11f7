-- ===== src/Cli/Main.antt =====
-- main, test_compile_time_buffer, read_file and get_guid (authvars_test/host/main.c). What swprintf
-- makes of a word, what sscanf reads from a GUID's text, the files and the binary that the build
-- links in are parameters.
pub mod Laws
use qemu_pipeline.Base.{
  ℕ, suc, ◌+◌, ◌*◌, Bool, Option, none, some, List, [], ◌∷◌, ◌++◌, ◌==◌, if◌then◌else◌, length, u32,
  bit_or, not,
}
use qemu_pipeline.Outcome.{Outcome, ok, fault, exit, ◌>>=◌, ◌>>◌}
use qemu_pipeline.Memory.{Block, store}
use qemu_pipeline.Efi.Status.{efi_error}
use qemu_pipeline.Efi.Guid.{Guid}
use qemu_pipeline.Efi.Attributes.{non_volatile, bootservice_access, runtime_access}
use qemu_pipeline.Support.{Chars}
use qemu_pipeline.Driver.Tee.{TeeClient}
use qemu_pipeline.Driver.State.{Driver}
use qemu_pipeline.Driver.SecureBoot.{initialize}
use qemu_pipeline.Firmware.{runtime_services}
use qemu_pipeline.AuthVarTest.{TestState, Platform, Binary}
use qemu_pipeline.AuthVarTest.Main.{uefi_main}
use qemu_pipeline.Harness.{ModuleContext}
use qemu_pipeline.Verify.{Result, done, thrown, running}
use qemu_pipeline.Cli.Options.{
  Word, strip_loop, text_of, build_attributes, NvOp, get, set, getnext, query, self_test, bin,
  unknown_command, set_op,
}
use qemu_pipeline.Cli.Command.{Shown, nothing, process_command}

-- A file as fseek, ftell and fread show it: its size, and what is read with how many bytes.
pub record File : Type 0 where
  pub size : ℕ
  pub contents : Block
  pub count : ℕ

-- What main takes from outside, with the platform of the tests. `parse_guid` is sscanf on a text,
-- and `widen` is swprintf of a word as %s; `pcd` and `byte` are PcdSecureBootEnable and a local of
-- the initialisation.
pub record World (W : Type 0) : Type 0 where
  pub tee : TeeClient W
  pub platform : Platform (Driver W)
  pub widen : Word → Chars
  pub parse_guid : Word → Guid
  pub open_file : Word → Option File
  pub hello_world : Binary
  pub pcd : Bool
  pub byte : ℕ
  pub garbage : ℕ
  pub rounds : ℕ

-- get_guid: the spaces are taken out in place.
unfoldable pub get_guid : {W : Type 0} → World W → Word → Outcome Guid
unfolding strip_loop text_of
get_guid o w = do
  text ← strip_loop (suc (length w)) (w ++ 0 ∷ []) 0 0
  ok (o.parse_guid (text_of text))

-- The checks of read_file, each of which ends the process.
abbrev check : Bool → Outcome (Unit {0})
check b = if b then ok tt else exit

-- A pointer that must not be NULL, or the process ends.
abbrev or_exit : {A : Type 0} → Option A → Outcome A
or_exit none = exit
or_exit (some a) = ok a

unfoldable pub test_bin_guid : Guid
test_bin_guid = record {
  data1 = 0x0d1a33d0;
  data2 = 0x0c94;
  data3 = 0x4ba5;
  data4 = 0xaf ∷ 0x22 ∷ 0xe1 ∷ 0xdc ∷ 0xcb ∷ 0x64 ∷ 0x70 ∷ 0xd3 ∷ [];
}

abbrev pub test_bin_var_name : Chars
test_bin_var_name =
    b't' ∷ b'e' ∷ b's' ∷ b't' ∷ b'_' ∷ b'b' ∷ b'i' ∷ b'n' ∷ b'_' ∷ b'v' ∷ b'a' ∷ b'r' ∷ []

module _ {W : Type 0} (o : World W) where
  abbrev Ran : Type 0
  Ran = Outcome (ℕ × Shown × Driver W)

  -- read_file on a name: the file in memory, and its size as an unsigned int.
  unfoldable pub read_file : Word → Outcome (Block × ℕ)
  unfolding store
  read_file name = do
    file ← or_exit (o.open_file name)
    let size = u32 file.size
    b ← or_exit (o.platform.heap.malloc size)
    check (u32 file.count == size)
    b ← store 0 size file.contents.bytes b
    ok (b, size)

  -- The name of a variable, converted into memory of its size.
  abbrev wide_name : Word → Outcome Chars
  wide_name w = elim (o.platform.heap.malloc (u32 ((length w + 1) * 4))) [
    | none ↦ fault
    | some _ ↦ ok (o.widen w)
  ]

  abbrev command : Option Block → ℕ → NvOp → Option Guid → Option Chars → ℕ → Driver W → Option Ran
  command source size op vendor name attributes d =
      process_command o.tee o.platform.heap o.rounds o.garbage source size op vendor name attributes
        d

  -- A command whose arguments are computed first.
  abbrev with_name : Word → (Chars → Option Ran) → Option Ran
  with_name w run = elim (wide_name w) [
    | ok name ↦ run name
    | fault ↦ some fault
    | exit ↦ some exit
  ]

  abbrev with_guid : Word → (Guid → Option Ran) → Option Ran
  with_guid w run = elim (get_guid o w) [
    | ok guid ↦ run guid
    | fault ↦ some fault
    | exit ↦ some exit
  ]

  abbrev with_attributes : List Word → (ℕ → Option Ran) → Option Ran
  with_attributes ws run = elim (build_attributes ws) [
    | ok attributes ↦ run attributes
    | fault ↦ some fault
    | exit ↦ some exit
  ]

  abbrev with_file : Word → (Block × ℕ → Option Ran) → Option Ran
  with_file w run = elim (read_file w) [
    | ok file ↦ run file
    | fault ↦ some fault
    | exit ↦ some exit
  ]

  -- The next of several commands, where the one before it has succeeded.
  abbrev and_then : Option Ran → (Driver W → Option Ran) → Option Ran
  and_then (some (ok (status, shown, d))) next =
      if status == 0 then next d else some (ok (status, shown, d))
  and_then r next = r

  -- test_compile_time_buffer.
  unfoldable pub test_compile_time_buffer : Driver W → Option Ran
  unfolding process_command test_bin_guid
  test_compile_time_buffer d =
      and_then
        (command (some o.hello_world.contents) o.hello_world.size set (some test_bin_guid)
          (some test_bin_var_name) (bit_or (bit_or non_volatile runtime_access) bootservice_access)
          d)
        (λ d.
          and_then (command none 0 getnext none none 0 d)
            (λ d. command none 0 get (some test_bin_guid) (some test_bin_var_name) 0 d))

  -- What UefiMain returns; nothing that it runs throws to its caller.
  abbrev pub tests_result : Outcome (Result (ℕ × ModuleContext) × TestState (Driver W)) → Option Ran
  tests_result (ok (done (code, _), s)) = some (ok (code, nothing, s.firmware))
  tests_result (ok (thrown, _)) = some fault
  tests_result (ok (running, _)) = none
  tests_result fault = some fault
  tests_result exit = some exit

  -- UefiMain on the driver's services.
  unfoldable pub self_tests : Driver W → Option Ran
  unfolding uefi_main runtime_services
  self_tests d = tests_result (
      uefi_main (record (o.platform) { services = runtime_services o.tee })
        (record { image = none; actual = none; enum_name = none; drawn = 0; firmware = d }))

  -- The switch of main on the operation, with the words behind it; too few words end the process,
  -- as an unknown operation does.
  unfoldable pub dispatch : NvOp → List Word → Driver W → Option Ran
  unfolding self_tests test_compile_time_buffer process_command build_attributes read_file get_guid
  dispatch self_test ws d = self_tests d
  dispatch bin ws d = test_compile_time_buffer d
  dispatch get (name ∷ guid ∷ ws) d =
      with_name name (λ n. with_guid guid (λ g. command none 0 get (some g) (some n) 0 d))
  dispatch set (file ∷ name ∷ guid ∷ ws) d = with_file file (λ (data_in, size). with_name name (λ n.
      with_guid guid (λ g.
        with_attributes ws
          (λ attributes. command (some data_in) size set (some g) (some n) attributes d))))
  dispatch set (file ∷ name ∷ []) d = with_file file (λ _. with_name name (λ _. some exit))
  dispatch set (file ∷ []) d = with_file file (λ _. some exit)
  dispatch get (name ∷ []) d = with_name name (λ _. some exit)
  dispatch query (w ∷ ws) d =
      with_attributes (w ∷ ws) (λ attributes. command none 0 query none none attributes d)
  dispatch getnext (name ∷ guid ∷ []) d =
      with_name name (λ n. with_guid guid (λ g. command none 0 getnext (some g) (some n) 0 d))
  dispatch getnext [] d = command none 0 getnext none none 0 d
  dispatch _ ws d = some exit

  -- The operation and the words behind it; without a word it is the self test.
  unfoldable pub operation : List Word → NvOp × List Word
  unfolding set_op
  operation [] = (self_test, [])
  operation (w ∷ ws) = (set_op w, ws)

  -- main after the initialisation, which ends the process where it fails.
  abbrev pub after_initialize : List Word → Outcome (ℕ × Driver W) → Option Ran
  after_initialize words (ok (status, d)) =
      if efi_error status then some exit else dispatch ((operation words).0) ((operation words).1) d
  after_initialize words fault = some fault
  after_initialize words exit = some exit

  -- main, on the words behind the program's name.
  unfoldable pub main : List Word → Driver W → Option Ran
  unfolding initialize dispatch operation
  main words d = after_initialize words (initialize o.tee o.pcd o.garbage o.byte d)
