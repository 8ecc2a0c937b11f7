-- ===== src/Cli/Command.antt =====
-- process_command and test_compile_time_buffer (authvars_test/host/main.c). What is printed is a
-- value; the allocator of the C library is a parameter.
pub mod Get
pub mod GetNext
use qemu_pipeline.Base.{
  given_or, ℕ, zero, suc, ◌+◌, ◌*◌, Option, none, some, [], ◌∷◌, leb, ◌==◌, if◌then◌else◌, length,
  u32,
}
use qemu_pipeline.Outcome.{Outcome, ok, fault, exit, ◌>>=◌, ◌>>◌}
use qemu_pipeline.Memory.{Block, bytes32, deref, store, copy_mem}
use qemu_pipeline.Efi.Status
use qemu_pipeline.Efi.Status.{efi_error}
use qemu_pipeline.Efi.Guid.{Guid}
use qemu_pipeline.Support.{Chars}
use qemu_pipeline.Pool.{Allocator}
use qemu_pipeline.Driver.Tee.{TeeClient}
use qemu_pipeline.Driver.State.{Driver}
use qemu_pipeline.Driver.Get.{get_variable}
use qemu_pipeline.Driver.GetNext.{NextResult, get_next_variable_name}
use qemu_pipeline.Driver.Set.{set_variable}
use qemu_pipeline.Driver.Query.{QueryResult, query_variable_info}
use qemu_pipeline.Cli.Options.{NvOp, get, set, getnext, query}

-- What a command prints.
pub data Shown : Type 0 where
  nothing : Shown
  variable : Guid → Chars → ℕ → ℕ → Option Block → Shown
  next_name : Option Block → Option Guid → Shown
  storage : QueryResult → Shown

-- print_buffer and print_bytes read `size` bytes of `contents`.
unfoldable pub print_contents : Option Block → ℕ → Outcome (Unit {0})
print_contents none size = if size == 0 then ok tt else fault
print_contents (some b) size = if leb size b.extent then ok tt else fault

abbrev pub empty_guid : Guid
empty_guid = record { data1 = 0; data2 = 0; data3 = 0; data4 = 0 ∷ 0 ∷ 0 ∷ 0 ∷ 0 ∷ 0 ∷ 0 ∷ 0 ∷ [] }

-- wcscpy, from offset `off`.
unfoldable pub copy_chars : Chars → ℕ → Block → Outcome Block
unfolding store
copy_chars [] off b = store off 4 (bytes32 0) b
copy_chars (c ∷ cs) off b = do b ← store off 4 (bytes32 c) b; copy_chars cs (off + 4) b

module _ {W : Type 0} (tee : TeeClient W) (heap : Allocator) where
  abbrev Ran : Type 0
  Ran = Outcome (ℕ × Shown × Driver W)

  -- `case GET`: the size is asked for, then the contents.
  unfoldable pub process_get : Option Guid → Option Chars → ℕ → Driver W → Ran
  unfolding get_variable print_contents
  process_get vendor name attributes d = do
    (out, d) ← get_variable tee name vendor (some attributes) (some 0) none d
    let required_size = given_or (out.data_size) 0
    if out.status == Status.buffer_too_small
        then (do
          (out, d) ←
              get_variable tee name vendor (some (given_or (out.attributes) 0)) (some required_size)
                (heap.malloc required_size) d
          -- print_guid(*guid)
          printed ← elim vendor [ none ↦ fault | some g ↦ ok g ]
          print_contents (out.contents) (given_or (out.data_size) 0)
          ok (
            out.status,
            variable printed (given_or name []) (given_or (out.attributes) 0)
                (given_or (out.data_size) 0) (out.contents),
            d,
          ))
        else ok (out.status, nothing, d)

  -- `case SET`: the data are copied to the heap first.
  unfoldable pub process_set : Option Block → ℕ → Option Guid → Option Chars → ℕ → Driver W → Ran
  unfolding set_variable
  process_set source size vendor name attributes d = do
    temp ← elim source [
      | none ↦ if size == 0 then ok (heap.malloc size) else fault
      | some b ↦ do t ← deref (heap.malloc size); t ← copy_mem 0 b 0 size t; ok (some t)
    ]
    (status, d) ← set_variable tee name vendor attributes size temp d
    ok (status, nothing, d)

  -- The loop of `case GETNEXT`, on fuel; `none` is fuel that has run out.
  unfoldable pub next_loop :
      ℕ → Option Block → ℕ → Option Guid → Driver W → Option (Outcome (NextResult × Driver W))
  unfolding get_next_variable_name
  next_loop zero temp_name name_bytes vendor d = none
  next_loop (suc fuel) temp_name name_bytes vendor d =
      elim (get_next_variable_name tee (some name_bytes) (heap.realloc temp_name name_bytes) vendor
        d) [
          | ok (out, d') ↦
              let rest = next_loop fuel (out.name) (given_or (out.name_size) 0) (out.vendor) d' in
              if out.status == Status.buffer_too_small then rest else some (ok (out, d'))
          | fault ↦ some fault
          | exit ↦ some exit
        ]

  -- The buffer that the loop starts with.
  abbrev pub temp_name : Option Chars → Outcome (Option Block)
  temp_name none = ok (heap.calloc 4)
  temp_name (some name) = do
    b ← deref (heap.calloc (u32 ((length name + 1) * 4)))
    b ← copy_chars name 0 b
    ok (some b)

  unfoldable pub process_getnext : ℕ → Option Guid → Option Chars → Driver W → Option Ran
  unfolding next_loop copy_chars
  process_getnext fuel vendor name d = elim (temp_name name) [
    | ok b ↦
        elim (next_loop fuel b (u32 ((length (given_or name []) + 1) * 4))
          (some (given_or vendor empty_guid)) d) [
            | none ↦ none
            | some fault ↦ some fault
            | some exit ↦ some exit
            | some (ok (out, d')) ↦ some (
                ok (
                  out.status,
                  if out.status == Status.success
                      then next_name (out.name) (out.vendor)
                      else nothing,
                  d',
                ))
          ]
    | fault ↦ some fault
    | exit ↦ some exit
  ]

  -- `case QUERY`: the three locals are not initialised, and are printed on every status.
  unfoldable pub process_query : ℕ → ℕ → Driver W → Ran
  unfolding query_variable_info
  process_query garbage attributes d = do
    (out, d) ← query_variable_info tee attributes (some garbage) (some garbage) (some garbage) d
    ok (out.status, storage out, d)

  -- The switch on the operation; -1, as an unsigned number, is the result of any other.
  unfoldable pub process_command :
      ℕ → ℕ → Option Block → ℕ → NvOp → Option Guid → Option Chars → ℕ → Driver W → Option Ran
  unfolding process_get process_set process_getnext process_query
  process_command fuel garbage source size get vendor name attributes d =
      some (process_get vendor name attributes d)
  process_command fuel garbage source size set vendor name attributes d =
      some (process_set source size vendor name attributes d)
  process_command fuel garbage source size getnext vendor name attributes d =
      process_getnext fuel vendor name d
  process_command fuel garbage source size query vendor name attributes d =
      some (process_query garbage attributes d)
  process_command fuel garbage source size _ vendor name attributes d =
      some (ok (0xffffffff, nothing, d))
