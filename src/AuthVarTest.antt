-- ===== src/AuthVarTest.antt =====
-- The functional tests of the authenticated variables
-- (authvars_test/host/edk2_variable_test/AuthVarTest.c): the state that the tests share, their
-- buffers and their calls of the runtime services. rand(), the allocator, what an uninitialised
-- local holds and the two binaries that the build links in are parameters.
pub mod Enumerate
pub mod Check
pub mod Persist
pub mod Names
pub mod Query
pub mod Overflow
pub mod Blobs
pub mod Main
pub mod Compare
use qemu_pipeline.Base.{
  ℕ, zero, suc, ◌+◌, ◌-◌, Bool, true, false, ◌&&◌, Option, none, some, List, [], ◌∷◌, ◌==◌,
  if◌then◌else◌, u8, ltb,
}
use qemu_pipeline.Outcome.{Outcome, ok, fault, exit, assert}
use qemu_pipeline.Memory.{Bytes, Block, store}
use qemu_pipeline.Efi.Guid.{Guid}
use qemu_pipeline.Support.{Chars}
use qemu_pipeline.Pool.{Allocator}
use qemu_pipeline.Firmware.{RuntimeServices}
use qemu_pipeline.Driver.Get.{GetResult}
use qemu_pipeline.Driver.Query.{QueryResult}
use qemu_pipeline.Verify.{
  Test, Result, done, thrown, running, ◌>>=◌, ◌>>◌, pure, call, lift, verify,
}

-- mImageData, mActualImageData and mEnumVariableName, how many random numbers have been drawn, and
-- the firmware.
pub record TestState (F : Type 0) : Type 0 where
  pub image : Option Block
  pub actual : Option Block
  pub enum_name : Option Block
  pub drawn : ℕ
  pub firmware : F

-- A file that the build links in, as EXTERNAL_BIN of binaries.h gives it.
pub record Binary : Type 0 where
  pub contents : Block
  pub size : ℕ

-- What the tests take from outside: the services behind gRT, the C library (`rand n` is the n-th
-- number of rand(), `decimal` what swprintf prints for %u), the two binaries, and the rounds that
-- the endless loop over the names is given.
pub record Platform (F : Type 0) : Type 0 where
  pub services : RuntimeServices F
  pub heap : Allocator
  pub rand : ℕ → ℕ
  pub decimal : ℕ → Chars
  pub garbage : ℕ
  pub garbage_guid : Guid
  pub test_db : Binary
  pub test_kek : Binary
  pub rounds : ℕ

abbrev pub test_vendor_guid : Guid
test_vendor_guid = record {
  data1 = 0x1fe7ace3;
  data2 = 0xc36d;
  data3 = 0x4ca7;
  data4 = 0xb4 ∷ 0xea ∷ 0x70 ∷ 0xff ∷ 0x5a ∷ 0xdf ∷ 0x97 ∷ 0xdc ∷ [];
}

-- A pointer that a test passes to a helper: into mImageData or mActualImageData, as they are when
-- it is followed, or to an object of its own.
pub data Pointer : Type 0 where
  null : Pointer
  image actual : ℕ → Pointer
  local : Block → Pointer

-- The rest of a block from an offset on.
abbrev pub from_offset : ℕ → Block → Block
from_offset off b = record {
  address = b.address + off;
  extent = b.extent - off;
  bytes = λ i. b.bytes (off + i);
}

abbrev pub offset_in : ℕ → Option Block → Option Block
offset_in off none = none
offset_in off (some b) = some (from_offset off b)

-- The loop of RandomBytes, at index `i`: byte by byte, from a sequence of numbers.
unfoldable pub fill_from : (ℕ → ℕ) → ℕ → ℕ → ℕ → Block → Outcome Block
unfolding store
fill_from source drawn zero i b = ok b
fill_from source drawn (suc n) i b = elim (store i 1 (λ _. u8 (source drawn)) b) [
  | ok b' ↦ fill_from source (suc drawn) n (suc i) b'
  | fault ↦ fault
  | exit ↦ exit
]

-- The loop of VerifyAreEqualBytes, at index `i`; `false` is the jump of its VERIFY_IS_TRUE (FALSE).
unfoldable pub equal_from : ℕ → ℕ → Block → Block → Outcome Bool
equal_from zero i left right = ok true
equal_from (suc n) i left right =
    let rest = equal_from n (suc i) left right in
    if ltb i left.extent && ltb i right.extent
    then (if u8 (left.bytes i) == u8 (right.bytes i) then rest else ok false)
    else fault

module _ {F : Type 0} where
  abbrev pub at_pointer : Pointer → TestState F → Option Block
  at_pointer null s = none
  at_pointer (image off) s = offset_in off s.image
  at_pointer (actual off) s = offset_in off s.actual
  at_pointer (local b) s = some b

  abbrev pub set_image : Option Block → Test (TestState F) (Unit {0})
  set_image b s = ok (done tt, record s { image = b })

  abbrev pub set_actual : Option Block → Test (TestState F) (Unit {0})
  set_actual b s = ok (done tt, record s { actual = b })

  abbrev pub set_enum_name : Option Block → Test (TestState F) (Unit {0})
  set_enum_name b s = ok (done tt, record s { enum_name = b })

  -- VerifyAreEqualBytes, on two pointers as they are when it is called.
  unfoldable pub verify_are_equal_bytes : Pointer → Pointer → ℕ → Test (TestState F) (Unit {0})
  unfolding equal_from verify
  verify_are_equal_bytes left right size s = elim (at_pointer left s) [
    | none ↦ exit
    | some l ↦ elim (at_pointer right s) [
      | none ↦ exit
      | some r ↦ elim (equal_from size 0 l r) [
        | ok same ↦ verify same s
        | fault ↦ fault
        | exit ↦ exit
      ]
    ]
  ]

  module _ (p : Platform F) where
    -- RandomBytes into mImageData.
    unfoldable pub random_bytes : ℕ → Test (TestState F) (Unit {0})
    unfolding fill_from
    random_bytes size s = elim s.image [
      | none ↦ exit
      | some b ↦ elim (fill_from p.rand s.drawn size 0 b) [
        | ok b' ↦ ok (done tt, record s { image = some b'; drawn = s.drawn + size })
        | fault ↦ fault
        | exit ↦ exit
      ]
    ]

    -- gRT->GetVariable with a NULL data buffer and a size of 0.
    abbrev pub ask_variable : Chars → Guid → Option ℕ → Test (TestState F) GetResult
    ask_variable name vendor attributes s =
        elim (p.services.get_variable (some name) (some vendor) attributes (some 0) none
          s.firmware) [
            | ok (out, f) ↦ ok (done out, record s { firmware = f })
            | fault ↦ fault
            | exit ↦ exit
          ]

    -- gRT->GetVariable into mActualImageData, with what the local for the attributes holds.
    abbrev pub fetch_variable : Chars → Guid → ℕ → ℕ → Test (TestState F) GetResult
    fetch_variable name vendor attributes size s =
        elim (p.services.get_variable (some name) (some vendor) (some attributes) (some size)
          s.actual s.firmware) [
            | ok (out, f) ↦ ok (done out, record s { actual = out.contents; firmware = f })
            | fault ↦ fault
            | exit ↦ exit
          ]

    -- gRT->SetVariable.
    abbrev pub write_variable : Option Chars → Guid → ℕ → ℕ → Pointer → Test (TestState F) ℕ
    write_variable name vendor attributes size source s =
        elim (p.services.set_variable name (some vendor) attributes size (at_pointer source s)
          s.firmware) [
            | ok (status, f) ↦ ok (done status, record s { firmware = f })
            | fault ↦ fault
            | exit ↦ exit
          ]

    -- gRT->QueryVariableInfo into three locals, with what they held before.
    abbrev pub query_variables : ℕ → ℕ → ℕ → ℕ → Test (TestState F) QueryResult
    query_variables attributes a b c s =
        elim (p.services.query_variable_info attributes (some a) (some b) (some c) s.firmware) [
          | ok (out, f) ↦ ok (done out, record s { firmware = f })
          | fault ↦ fault
          | exit ↦ exit
        ]
