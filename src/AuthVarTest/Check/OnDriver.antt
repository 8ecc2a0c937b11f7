-- ===== src/AuthVarTest/Check/OnDriver.antt =====
-- VerifyValidVarWriteReadEnumDel on the driver, in front of a TA that keeps a store.
use qemu_pipeline.Base.{ℕ, ◌≤◌, ◌<◌, ◌≡◌, refl, sym, subst, true, none, some, arith}
use qemu_pipeline.Memory.{Block}
use qemu_pipeline.Efi.Guid.{Guid, IsGuid}
use qemu_pipeline.Support.{Chars}
use qemu_pipeline.Wide.RoundTrip.{nonzero-narrow}
use qemu_pipeline.Firmware.{runtime_services}
use qemu_pipeline.Driver.Tee.{TeeClient}
use qemu_pipeline.Driver.State.{Driver}
use qemu_pipeline.Driver.GetNext.Ordered.{IsServing}
use qemu_pipeline.Verify.Passes.{Passes, Passes-mono}
use qemu_pipeline.Store.{VariableStore, bytes_of}
use qemu_pipeline.Store.Laws.{KeepsStore, IsReadable, IsWritable}
use qemu_pipeline.Store.Contract.{driver_contract, Serves, runtime_services-Serves}
use qemu_pipeline.AuthVarTest.{TestState, Platform, image, offset_in}
use qemu_pipeline.AuthVarTest.Enumerate.Service.{IsCatalog}
use qemu_pipeline.AuthVarTest.Enumerate.OnDriver.{IsFit, store_behind, runtime_services-IsCatalog}
use qemu_pipeline.AuthVarTest.Check.{verify_valid_var_write_read_enum_del}
use qemu_pipeline.AuthVarTest.Check.Whole.{
  IsCycle, Allocates, verify_valid_var_write_read_enum_del-Passes,
}

-- VerifyValidVarWriteReadEnumDel, to verify data of one byte or more in mImageData, goes on to its
-- end on the driver with its services published and its session open, in front of a TA that keeps a
-- store on which the variable is absent, is written, read and listed, and is deleted; the driver
-- serves on, with the store as the deletion leaves it, and mImageData is as it was. The name and
-- the data fit the transport buffers, the name is no request for the test hooks, the heap allocates
-- what it is asked for, and the rounds are more than the variables that are listed.
pub verify_valid_var_write_read_enum_del-on_driver :
    {W S : Type 0} (tee : TeeClient W) (Holds : W → Type 0) (store : W → S) (m : VariableStore S)
    (p : Platform (Driver W)) (name : Chars) (g : Guid) (attributes size off : ℕ) (wanted b : Block)
    (v₁ v₂ : S) (s : TestState (Driver W))
    → p.services ≡ runtime_services tee
    → KeepsStore tee Holds store m
    → Allocates p
    → IsGuid p.garbage_guid
    → IsServing tee Holds store m.after s.firmware
    → 0 < size
    → offset_in off s.image ≡ some wanted
    → p.heap.malloc size ≡ some b
    → size ≤ b.extent
    → IsReadable name g 0 none
    → IsReadable name g size (some b)
    → IsWritable name g attributes size (some wanted)
    → IsCycle m name g p.garbage_guid attributes
        (bytes_of size wanted.bytes)
        p.rounds
        (store s.firmware.world)
        v₁
        v₂
    → Passes
        (λ _ s'.
          IsServing tee Holds store m.after s'.firmware
          × (store s'.firmware.world ≡ v₂)
          × (s'.image ≡ s.image))
        (verify_valid_var_write_read_enum_del p name g attributes size (image off) true s)
verify_valid_var_write_read_enum_del-on_driver tee Holds store m p name g attributes size off wanted
      b v₁ v₂ s services k a garbage serving some_bytes content there room asks reads writes cycle =
    Passes-mono
      (verify_valid_var_write_read_enum_del-Passes p (driver_contract tee Holds store m)
        (subst (Serves (driver_contract tee Holds store m)) (sym services)
          (runtime_services-Serves tee Holds store m k))
        IsFit 65568
        (subst
          (λ t.
            IsCatalog t (IsServing tee Holds store m.after) IsFit 65568 (store_behind store)
              m.after)
          (sym services) (runtime_services-IsCatalog tee Holds store m.after k.order))
        a (record { narrow = tt; guid = garbage; short = omega arith }) (omega arith) name g
        attributes size off wanted b (store s.firmware.world) v₁ v₂ s
        (record { good = serving; view = refl; image = refl }) (nonzero-narrow name writes.0.narrow)
        some_bytes content writes.2 there room asks reads writes
        (writes.0, writes.1, writes.2, writes.3, omega arith, writes.5) cycle)
      λ _ s' h. (h.good, h.view, h.image)
