-- ===== src/AuthVarTest/Enumerate.antt =====
-- VerifyVariableEnumerable (authvars_test/host/edk2_variable_test/AuthVarTest.c).
pub mod Strings
pub mod Catalog
pub mod Frame
pub mod Service
pub mod OnDriver
use qemu_pipeline.Base.{
  ℕ, zero, suc, ◌+◌, Bool, true, false, ◌&&◌, Option, none, some, [], ◌∷◌, ◌==◌, if◌then◌else◌,
  given_or,
}
use qemu_pipeline.Outcome.{Outcome, ok, fault, exit}
use qemu_pipeline.Memory.{Block, load32}
use qemu_pipeline.Efi.Status
use qemu_pipeline.Efi.Guid.{Guid, compare_guid}
use qemu_pipeline.Support.{Chars, sizeof_char16}
use qemu_pipeline.Pool.{allocate_zero_pool, reallocate_pool}
use qemu_pipeline.Driver.GetNext.{NextResult}
use qemu_pipeline.AuthVarTest.{TestState, Platform, set_enum_name}
use qemu_pipeline.Verify.{
  Test, Result, done, thrown, running, ◌>>=◌, ◌>>◌, pure, lift, verify, verify_succeeded,
  verify_is_not_null,
}

-- `StrCmp (s, t) == 0` for a string and one in memory, read from an offset up to the first
-- difference.
unfoldable pub same_string : Chars → Block → ℕ → Outcome Bool
unfolding load32
same_string [] t off = elim (load32 t off) [ ok c ↦ ok (c == 0) | fault ↦ fault | exit ↦ exit ]
same_string (x ∷ xs) t off =
    let rest = same_string xs t (off + 4) in
    elim (load32 t off) [ ok c ↦ if x == c then rest else ok false | fault ↦ fault | exit ↦ exit ]

-- CompareGuid and StrCmp with what a round has returned.
unfoldable pub is_entry_at : Chars → Guid → Option Guid → Option Block → Outcome Bool
unfolding same_string compare_guid
is_entry_at name vendor none found_name = fault
is_entry_at name vendor (some g) found_name =
    if compare_guid vendor g
    then elim found_name [ none ↦ fault | some b ↦ same_string name b 0 ]
    else ok false

module _ {F : Type 0} (p : Platform F) where
  -- gRT->GetNextVariableName on mEnumVariableName and the two locals.
  abbrev pub ask_next_name : ℕ → Option Guid → Test (TestState F) NextResult
  ask_next_name size vendor s =
      elim (p.services.get_next_variable_name (some size) s.enum_name vendor s.firmware) [
        | ok (out, f) ↦ ok (done out, record s { enum_name = out.name; firmware = f })
        | fault ↦ fault
        | exit ↦ exit
      ]

  -- A longer name: mEnumVariableName is reallocated, and the call made again.
  unfoldable pub ask_longer_name : NextResult → Test (TestState F) (NextResult × ℕ)
  unfolding reallocate_pool verify_is_not_null
  ask_longer_name out s =
      let size = given_or (out.name_size) 0 in
      let b = reallocate_pool p.heap size s.enum_name in
      (do
        set_enum_name b
        verify_is_not_null b
        out ← ask_next_name size (out.vendor)
        pure (out, size))
        s

  -- The calls of one round, with the size of the buffer after them.
  unfoldable pub next_entry : ℕ → Option Guid → Test (TestState F) (NextResult × ℕ)
  unfolding ask_longer_name
  next_entry size vendor = do
    out ← ask_next_name size vendor
    if out.status == Status.buffer_too_small then ask_longer_name out else pure (out, size)

  unfoldable pub is_target : Chars → Guid → Option Guid → Test (TestState F) Bool
  unfolding is_entry_at
  is_target name vendor found s = lift (is_entry_at name vendor found s.enum_name) s

  -- The loop, with the value of Found at its end.
  unfoldable pub search : ℕ → Chars → Guid → ℕ → Option Guid → Test (TestState F) Bool
  unfolding next_entry is_target verify_succeeded
  search zero name vendor size found = λ s. ok (running, s)
  search (suc rounds) name vendor size found = do
    (out, size) ← next_entry size found
    if out.status == Status.not_found then pure false else do
      verify_succeeded (out.status)
      same ← is_target name vendor (out.vendor)
      elim same [ true ↦ pure true | false ↦ search rounds name vendor size (out.vendor) ]

  -- VERIFY_ARE_EQUAL on two BOOLEANs.
  abbrev pub same_bool : Bool → Bool → Bool
  same_bool true b = b
  same_bool false true = false
  same_bool false false = true

  unfoldable pub verify_variable_enumerable : Chars → Guid → Bool → Test (TestState F) (Unit {0})
  unfolding search verify allocate_zero_pool
  verify_variable_enumerable name vendor expected_found = do
    set_enum_name (allocate_zero_pool p.heap sizeof_char16)
    found ← search p.rounds name vendor sizeof_char16 (some p.garbage_guid)
    verify (same_bool expected_found found)
    set_enum_name none
