-- ===== src/Tests/Row.antt =====
-- A TA that keeps one variable in order, behind the driver.
use qemu_pipeline.Base.{
  ℕ, ◌+◌, ◌*◌, ◌≤◌, ◌≡◌, refl, sym, ◌∙◌, ap, subst, true, false, List, [], ◌∷◌, ◌==◌, length,
  get_or, ltb, if◌then◌else◌, none, some, arith, Option,
}
use qemu_pipeline.Outcome.{ok}
use qemu_pipeline.Memory.{Block, read16, read32}
use qemu_pipeline.Efi.Guid.{Guid, read_guid, guid_of}
use qemu_pipeline.Support.{Chars}
use qemu_pipeline.Firmware.{runtime_services}
use qemu_pipeline.Driver.Tee.{TeeClient, Reply, success, item_not_found, short_buffer}
use qemu_pipeline.Driver.State.{Driver}
use qemu_pipeline.Driver.Request.Laws.{IsGetParam}
use qemu_pipeline.Driver.GetNext.{name_size_in}
use qemu_pipeline.Driver.GetNext.Decode.{IsName}
use qemu_pipeline.Driver.GetNext.Held.{IsNextReply}
use qemu_pipeline.Driver.GetNext.Ordered.{IsVariable, IsOrderedReply, KeepsOrder, IsServing}
use qemu_pipeline.Verify.{done, thrown}
use qemu_pipeline.AuthVarTest.{TestState, Platform}
use qemu_pipeline.AuthVarTest.Enumerate.{same_bool, verify_variable_enumerable}
use qemu_pipeline.AuthVarTest.Enumerate.Catalog.{Entry, is_listed}
use qemu_pipeline.AuthVarTest.Enumerate.Service.{IsEnumerated}
use qemu_pipeline.AuthVarTest.Enumerate.OnDriver.{
  store_behind, verify_variable_enumerable-on_driver,
}
use qemu_pipeline.Tests.Demo.{
  demo_block, demo_reply, demo_tee, demo_driver, demo_driver-IsReady, demo_guid, demo_guid-IsGuid,
}
use qemu_pipeline.Tests.Next.{next_answer, next_answer-IsName, moving_heap, moving_heap-Reallocates}
use qemu_pipeline.Tests.Shelf.{head_or, rest_of}
use qemu_pipeline.Tests.Services.{shelf_platform, zeroed}

-- The variable "A", of an all-zero GUID.
abbrev pub row_guid : Guid
row_guid = record { data1 = 0; data2 = 0; data3 = 0; data4 = 0 ∷ 0 ∷ 0 ∷ 0 ∷ 0 ∷ 0 ∷ 0 ∷ 0 ∷ [] }

abbrev pub row_entry : Entry
row_entry = (65 ∷ [], row_guid)

abbrev pub row_after : Unit {0} → Chars → Guid → List Entry
row_after w [] g = row_entry ∷ []
row_after w (c ∷ cs) g = []

abbrev row_output : ℕ → ℕ
row_output i = get_or next_answer i 0

-- The reply by the first unit of the name in the request, and the room for the answer.
abbrev row_reply : ℕ → ℕ → Reply (Unit {0})
row_reply unit room =
    if unit == 0
    then record demo_reply {
      result = if ltb room 32 then short_buffer else success;
      value_a = 32;
      output = row_output;
    }
    else record demo_reply { result = item_not_found; output = row_output }

abbrev first_unit : Option Block → ℕ
first_unit none = 0
first_unit (some b) = read16 b.bytes 24

abbrev pub row_tee : TeeClient (Unit {0})
row_tee = record demo_tee {
  invoke_command =
      λ w session command operation. row_reply (first_unit operation.input) operation.output_size;
}

pub row_entry-IsVariable : IsVariable (65 ∷ []) row_guid
row_entry-IsVariable = record {
  narrow = ((omega arith, omega arith), tt);
  guid = record {
    data1 = omega arith;
    data2 = omega arith;
    data3 = omega arith;
    size = refl;
    bytes = ground arith;
  };
  short = omega arith;
}

row_listed :
    (us : Chars) (g : Guid) (next : Entry) (rest : List Entry)
    → row_after tt us g ≡ next ∷ rest
    → (next ≡ row_entry) × (rest ≡ [])
row_listed [] g next rest e = (sym (ap (head_or row_entry) e), sym (ap rest_of e))
row_listed (c ∷ cs) g next rest e = cc

first_unit-eq :
    (o : Option Block) (request : Block) (us : Chars) (g : Guid) (n : ℕ)
    → o ≡ some request
    → IsGetParam request n g us
    → first_unit o ≡ get_or us 0 0
first_unit-eq o request us g n e h = rw e (ap (read16 request.bytes) refl ∙ h.name 0 (omega arith))

pub row-IsName : (b : Block) → b.bytes ≡ row_output → IsName b (65 ∷ [])
row-IsName b e = record {
  units = λ i le. ap (λ m. read16 m (24 + 2 * i)) e ∙ next_answer-IsName.units i le;
  nonzero = next_answer-IsName.nonzero;
  size = ap (λ m. read16 m 4) e ∙ next_answer-IsName.size;
}

row_ordered :
    (us : Chars) (g : Guid) (room : ℕ)
    → IsVariable us g
    → IsOrderedReply (λ w. Unit) (λ w. w) row_after tt us g room (row_reply (get_or us 0 0) room)
unfolding read_guid guid_of read32 read16
row_ordered [] g room v = record {
  ends = λ e. cc;
  next = λ next rest e.
      subst
        (λ n.
          IsNextReply (row_reply 0 room) room (n.0)
          × (28 + 2 * (length (n.0) + 1) ≤ room → read_guid row_output 8 ≡ n.1))
        (sym (row_listed [] g next rest e).0)
        (
          record { short = λ lt. (ground arith, refl); full = λ le. (ground arith, row-IsName) },
          λ le. refl,
        );
  holds = tt;
  same = refl;
}
row_ordered (c ∷ cs) g room v =
    rw other (record { ends = λ e. refl; next = λ next rest e. cc; holds = tt; same = refl })
  where
    other : (c == 0) ≡ false
    other = ground (arith, v.narrow.0)

pub row_tee-KeepsOrder : KeepsOrder row_tee (λ w. Unit) (λ w. w) row_after
row_tee-KeepsOrder = record {
  listed = λ w us g next rest holds e.
      subst (λ n. IsVariable (n.0) (n.1)) (sym (row_listed us g next rest e).0)
        row_entry-IsVariable;
  behind = λ w us g next rest holds e.
      ap (λ n. row_after tt (n.0) (n.1)) (row_listed us g next rest e).0
      ∙ sym (row_listed us g next rest e).1;
  answers = λ w session operation request us g holds v there decodes.
      subst
        (λ u.
          IsOrderedReply (λ w. Unit) (λ w. w) row_after tt us g operation.output_size
            (row_reply u operation.output_size))
        (sym (first_unit-eq operation.input request us g (name_size_in us) there decodes))
        (row_ordered us g operation.output_size v);
}

pub demo_driver-IsServing : IsServing row_tee (λ w. Unit) (λ w. w) row_after demo_driver
demo_driver-IsServing = record {
  ready = demo_driver-IsReady;
  opened = refl;
  published = refl;
  param_size = refl;
  result_size = refl;
  holds = tt;
}

abbrev pub row_platform : Platform (Driver (Unit {0}))
row_platform = record {
  services = runtime_services row_tee;
  heap = moving_heap;
  rand = λ n. n;
  decimal = λ n. b'0' ∷ [];
  garbage = 77;
  garbage_guid = demo_guid;
  test_db = shelf_platform.test_db;
  test_kek = shelf_platform.test_kek;
  rounds = 5;
}

abbrev pub row_state : TestState (Driver (Unit {0}))
row_state = record {
  image = some (demo_block 0x2000 2);
  actual = some (demo_block 0x3000 2);
  enum_name = none;
  drawn = 0;
  firmware = demo_driver;
}

verify_variable_enumerable-on_driver_example :
    (s' : TestState (Driver (Unit {0}))) × (verify_variable_enumerable row_platform
        (65 ∷ [])
        row_guid
        true
        row_state
      ≡ ok (
          if same_bool row_platform true (is_listed (65 ∷ []) row_guid (row_entry ∷ []))
          then (done tt, record s' { enum_name = none })
          else (thrown, s')))
    × IsEnumerated
        (IsServing row_tee (λ w. Unit) (λ w. w) row_after)
        (store_behind (λ w. w))
        row_state
        s'
verify_variable_enumerable-on_driver_example =
    verify_variable_enumerable-on_driver row_tee (λ w. Unit) (λ w. w) row_after row_platform
      (65 ∷ []) row_guid true (demo_block 0x20000 4) row_state refl row_tee-KeepsOrder
      moving_heap-Reallocates (omega arith, tt) demo_driver-IsServing demo_guid-IsGuid refl
      (omega arith) zeroed (omega arith)
