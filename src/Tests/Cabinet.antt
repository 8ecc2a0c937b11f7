-- ===== src/Tests/Cabinet.antt =====
-- A service that keeps one variable, L"d", on which a test runs from its start to its end.
use qemu_pipeline.Base.{
  ℕ, ◌≡◌, refl, true, Option, some, none, [], ◌∷◌, ltb, ◌==◌, if◌then◌else◌, given_or, is_none,
}
use qemu_pipeline.Outcome.{ok}
use qemu_pipeline.Memory.{Block, read32, bytes16, bytes32}
use qemu_pipeline.Efi.Guid.{guid_bytes}
use qemu_pipeline.Firmware.{RuntimeServices}
use qemu_pipeline.Driver.Get.{GetResult, get_result}
use qemu_pipeline.Driver.GetNext.{next_result}
use qemu_pipeline.Driver.Query.{query_result}
use qemu_pipeline.Verify.{done}
use qemu_pipeline.Verify.Laws.{Verified}
use qemu_pipeline.AuthVarTest.{TestState, Platform, image, test_vendor_guid}
use qemu_pipeline.AuthVarTest.Check.{verify_valid_var_write_read_enum_del}
use qemu_pipeline.AuthVarTest.Check.Cycle.{IsCycled, verify_valid_var_write_read_enum_del-Verified}
use qemu_pipeline.Tests.Demo.{demo_block}
use qemu_pipeline.Tests.Next.{moving_heap}
use qemu_pipeline.Tests.Shelf.{shelf_next}
use qemu_pipeline.Tests.Services.{demo_binary}

-- What is kept: the attributes, the size and the data.
abbrev Kept : Type 0
Kept = Option (ℕ × ℕ × Option Block)

abbrev cabinet_get : Option ℕ → ℕ → Option Block → Kept → GetResult
cabinet_get attributes size contents none = get_result 14 attributes (some size) contents
cabinet_get attributes size contents (some (a, n, b)) =
    if ltb size n
    then get_result 5 attributes (some n) contents
    else get_result 0 (some a) (some n) b

abbrev cabinet : RuntimeServices Kept
cabinet = record {
  get_variable = λ name vendor attributes size contents f.
      ok (cabinet_get attributes (given_or size 0) contents f, f);
  get_next_variable_name = λ size b vendor f.
      ok (if is_none f then next_result 14 size b vendor else shelf_next size b vendor, f);
  set_variable = λ name vendor attributes size source f.
      ok (0, if attributes == 0 then none else some (attributes, size, source));
  query_variable_info = λ attributes a b c f. ok (query_result 0 a b c, f);
}

abbrev cabinet_platform : Platform Kept
cabinet_platform = record {
  services = cabinet;
  heap = moving_heap;
  rand = λ n. n;
  decimal = λ n. b'0' ∷ [];
  garbage = 77;
  garbage_guid = test_vendor_guid;
  test_db = demo_binary;
  test_kek = demo_binary;
  rounds = 5;
}

-- mImageData holds two bytes, 1 and 2.
abbrev cabinet_state : TestState Kept
cabinet_state = record {
  image = some (record (demo_block 0x2000 2) { bytes = λ i. if i == 0 then 1 else 2 });
  actual = none;
  enum_name = none;
  drawn = 0;
  firmware = none;
}

-- The sequence goes on to its end.
cabinet_run :
    verify_valid_var_write_read_enum_del cabinet_platform
      (b'd' ∷ [])
      test_vendor_guid
      7
      2
      (image 0)
      true
      cabinet_state
    ≡ ok (done tt, cabinet_state)
unfolding verify_valid_var_write_read_enum_del read32 guid_bytes bytes16 bytes32
cabinet_run = refl

verify_valid_var_write_read_enum_del-Verified_example :
    Verified
      (λ _ _. IsCycled cabinet_platform (b'd' ∷ []) test_vendor_guid 7 2 0 cabinet_state)
      (verify_valid_var_write_read_enum_del cabinet_platform
        (b'd' ∷ [])
        test_vendor_guid
        7
        2
        (image 0)
        true
        cabinet_state)
verify_valid_var_write_read_enum_del-Verified_example =
    verify_valid_var_write_read_enum_del-Verified cabinet_platform (b'd' ∷ []) test_vendor_guid 7 2
      0 cabinet_state
