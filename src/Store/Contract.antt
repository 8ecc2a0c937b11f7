-- ===== src/Store/Contract.antt =====
-- Runtime services that keep a store, and the driver as one that does.
use qemu_pipeline.Base.{ℕ, ◌≤◌, ◌<◌, ◌≡◌, Option, none, some, length, get_or}
use qemu_pipeline.Outcome.{Returns}
use qemu_pipeline.Memory.{Block}
use qemu_pipeline.Efi.Guid.{Guid}
use qemu_pipeline.Support.{Chars}
use qemu_pipeline.Firmware.{RuntimeServices, runtime_services}
use qemu_pipeline.Firmware.Laws.{get_variable_published, set_variable_published}
use qemu_pipeline.Driver.Tee.{TeeClient}
use qemu_pipeline.Driver.State.{Driver}
use qemu_pipeline.Driver.Invoke.{status_of}
use qemu_pipeline.Driver.Get.Laws.{set_if_given}
use qemu_pipeline.Driver.Set.Laws.{source_byte}
use qemu_pipeline.Driver.GetNext.Ordered.{IsServing}
use qemu_pipeline.Store.{Value, VariableStore, bytes_of}
use qemu_pipeline.Store.Laws.{KeepsStore, IsReadable, IsWritable}
use qemu_pipeline.Store.Read.{read_missing, read_short, read_full}
use qemu_pipeline.Store.Write.{written}

-- What services promise: a store, the view of it that a state of the firmware gives, the states
-- that the promise is made for, and the arguments of the calls that it is made for.
pub record Contract (F S : Type 0) : Type 1 where
  pub store : VariableStore S
  pub view : F → S
  pub Good : F → Type 0
  pub Readable : Chars → Guid → ℕ → Option Block → Type 0
  pub Writable : Chars → Guid → ℕ → ℕ → Option Block → Type 0

-- GetVariable and SetVariable keep the promise.
pub record Serves {F S : Type 0} (c : Contract F S) (services : RuntimeServices F) : Type 0 where
  pub missing :
      (f : F) (name : Chars) (g : Guid) (old : Option ℕ) (size : ℕ) (contents : Option Block)
      → c.Good f
      → c.Readable name g size contents
      → c.store.read (c.view f) name g ≡ none
      → Returns
          (λ (out, f'). (out.status ≡ 14) × (c.view f' ≡ c.view f) × c.Good f')
          (services.get_variable (some name) (some g) old (some size) contents f)
  pub short :
      (f : F) (name : Chars) (g : Guid) (old : Option ℕ) (size : ℕ) (contents : Option Block)
      (v : Value)
      → c.Good f
      → c.Readable name g size contents
      → c.store.read (c.view f) name g ≡ some v
      → size < length v.contents
      → Returns
          (λ (out, f').
            (out.status ≡ 5)
            × (out.data_size ≡ some (length v.contents))
            × (c.view f' ≡ c.view f)
            × c.Good f')
          (services.get_variable (some name) (some g) old (some size) contents f)
  pub full :
      (f : F) (name : Chars) (g : Guid) (old : Option ℕ) (size : ℕ) (contents : Option Block)
      (v : Value)
      → c.Good f
      → c.Readable name g size contents
      → c.store.read (c.view f) name g ≡ some v
      → length v.contents ≤ size
      → Returns
          (λ (out, f').
            (out.status ≡ 0)
            × (out.attributes ≡ set_if_given old v.attributes)
            × (out.data_size ≡ some (length v.contents))
            × ((b : Block)
                → contents ≡ some b
                → (r : Block) × (out.contents ≡ some r)
                  × (r.extent ≡ b.extent)
                  × ((i : ℕ) → i < length v.contents → r.bytes i ≡ get_or v.contents i 0))
            × (c.view f' ≡ c.view f)
            × c.Good f')
          (services.get_variable (some name) (some g) old (some size) contents f)
  pub written :
      (f : F) (name : Chars) (g : Guid) (attributes size : ℕ) (source : Option Block)
      → c.Good f
      → c.Writable name g attributes size source
      → Returns
          (λ (status, f').
            (status
              ≡ status_of
                  (c.store.write
                    (c.view f)
                    name
                    g
                    attributes
                    (bytes_of size (source_byte source))).0)
            × (c.view f'
                ≡ (c.store.write
                    (c.view f)
                    name
                    g
                    attributes
                    (bytes_of size (source_byte source))).1)
            × c.Good f')
          (services.set_variable (some name) (some g) attributes size source f)

module _ {W S : Type 0} (tee : TeeClient W) (Holds : W → Type 0) (store : W → S)
    (m : VariableStore S) where
  abbrev pub driver_contract : Contract (Driver W) S
  driver_contract = record {
    store = m;
    view = λ d. store d.world;
    Good = IsServing tee Holds store m.after;
    Readable = IsReadable;
    Writable = IsWritable;
  }

  -- The driver in front of a TA that keeps the store keeps the promise.
  pub runtime_services-Serves :
      KeepsStore tee Holds store m → Serves driver_contract (runtime_services tee)
  runtime_services-Serves k = record {
    missing = λ d name g old size contents s v e.
        rw (get_variable_published tee d s.published (some name) (some g) old (some size) contents)
          (read_missing tee Holds store m k name g old size contents d s v e);
    short = λ d name g old size contents value s v e less.
        rw (get_variable_published tee d s.published (some name) (some g) old (some size) contents)
          (read_short tee Holds store m k name g old size contents d s v value e less);
    full = λ d name g old size contents value s v e fits.
        rw (get_variable_published tee d s.published (some name) (some g) old (some size) contents)
          (read_full tee Holds store m k name g old size contents d s v value e fits);
    written = λ d name g attributes size source s v.
        rw (set_variable_published tee d s.published (some name) (some g) attributes size source)
          (written tee Holds store m k name g attributes size source d s v);
  }
