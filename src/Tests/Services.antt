-- ===== src/Tests/Services.antt =====
-- The tests of the authenticated variables on a service with one variable.
use qemu_pipeline.Base.{◌+◌, ◌≡◌, refl, true, [], ◌∷◌, if◌then◌else◌, none, some, arith}
use qemu_pipeline.Outcome.{ok}
use qemu_pipeline.Memory.{read32}
use qemu_pipeline.Verify.{done, thrown}
use qemu_pipeline.AuthVarTest.{TestState, Platform, Binary, image, actual, test_vendor_guid}
use qemu_pipeline.AuthVarTest.Check.{set_and_check_variable}
use qemu_pipeline.AuthVarTest.Check.Passes.{set_and_check_variable_self}
use qemu_pipeline.AuthVarTest.Enumerate.{same_bool, verify_variable_enumerable}
use qemu_pipeline.AuthVarTest.Enumerate.Catalog.{is_listed}
use qemu_pipeline.AuthVarTest.Enumerate.Service.{IsEnumerated, verify_variable_enumerable-catalog}
use qemu_pipeline.Tests.Demo.{demo_block}
use qemu_pipeline.Tests.Next.{moving_heap, moving_heap-Reallocates}
use qemu_pipeline.Tests.Shelf.{shelf_entry, shelf_after, shelf, shelf-IsCatalog}

abbrev pub demo_binary : Binary
demo_binary = record { contents = demo_block 0x7000 16; size = 16 }

abbrev pub shelf_platform : Platform (Unit {0})
shelf_platform = record {
  services = shelf;
  heap = moving_heap;
  rand = λ n. n;
  decimal = λ n. b'0' ∷ [];
  garbage = 77;
  garbage_guid = test_vendor_guid;
  test_db = demo_binary;
  test_kek = demo_binary;
  rounds = 5;
}

-- mImageData holds two bytes, 1 and 2, mActualImageData two zeroes.
abbrev pub shelf_state : TestState (Unit {0})
shelf_state = record {
  image = some (record (demo_block 0x2000 2) { bytes = λ i. i + 1 });
  actual = some (demo_block 0x3000 2);
  enum_name = none;
  drawn = 0;
  firmware = tt;
}

pub zeroed : read32 (demo_block 0x20000 4).bytes 0 ≡ 0
unfolding read32
zeroed = refl

verify_variable_enumerable-catalog_example :
    (s' : TestState (Unit {0})) × (verify_variable_enumerable shelf_platform
        (b'd' ∷ [])
        test_vendor_guid
        true
        shelf_state
      ≡ ok (
          if same_bool shelf_platform true
            (is_listed (b'd' ∷ []) test_vendor_guid (shelf_entry ∷ []))
          then (done tt, record s' { enum_name = none })
          else (thrown, s')))
    × IsEnumerated (λ f. Unit) (λ f. f) shelf_state s'
verify_variable_enumerable-catalog_example =
    verify_variable_enumerable-catalog shelf_platform (λ f. Unit) (λ e. Unit) 8 (λ f. f) shelf_after
      shelf-IsCatalog moving_heap-Reallocates (b'd' ∷ []) test_vendor_guid true (shelf_entry ∷ [])
      (demo_block 0x20000 4) shelf_state (omega arith, tt) tt tt (omega arith) refl (omega arith)
      zeroed refl (omega arith)

-- Two bytes that differ from those that were written are not noticed.
set_and_check_variable_self_example :
    set_and_check_variable shelf_platform
      (b'd' ∷ [])
      test_vendor_guid
      7
      0
      2
      (image 0)
      2
      (actual 0)
      shelf_state
    ≡ verify_variable_enumerable shelf_platform (b'd' ∷ []) test_vendor_guid true shelf_state
set_and_check_variable_self_example =
    set_and_check_variable_self shelf_platform (b'd' ∷ []) test_vendor_guid 7 0 2 (image 0) 2
      shelf_state (demo_block 0x3000 2) (demo_block 0x3000 2) tt tt refl refl refl (omega arith)
