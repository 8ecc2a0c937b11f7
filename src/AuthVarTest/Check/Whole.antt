-- ===== src/AuthVarTest/Check/Whole.antt =====
-- VerifyValidVarWriteReadEnumDel on services that keep a store and list it.
use qemu_pipeline.Base.{
  ℕ, ◌≤◌, ◌<◌, ◌≡◌, ◌≢◌, refl, ap, ◌∙◌, sym, subst, Bool, true, false, Option, none, some, List, [],
  length, All,
}
use qemu_pipeline.Memory.{Block, read32}
use qemu_pipeline.Efi.Guid.{Guid}
use qemu_pipeline.Support.{Chars}
use qemu_pipeline.Pool.{Reallocates}
use qemu_pipeline.Driver.Tee.{success}
use qemu_pipeline.Driver.Set.Laws.{source_byte}
use qemu_pipeline.Verify.Passes.{Passes, passes, Passes-bind, Passes-after, verify_succeeded-of_eq}
use qemu_pipeline.Store.{VariableStore, bytes_of}
use qemu_pipeline.Store.Contract.{Contract, Serves}
use qemu_pipeline.AuthVarTest.{TestState, Platform, image, offset_in}
use qemu_pipeline.AuthVarTest.Enumerate.{same_bool, verify_variable_enumerable}
use qemu_pipeline.AuthVarTest.Enumerate.Catalog.{Entry, is_listed}
use qemu_pipeline.AuthVarTest.Enumerate.Service.{IsCatalog, verify_variable_enumerable-catalog}
use qemu_pipeline.AuthVarTest.Check.{set_and_enumerate, verify_valid_var_write_read_enum_del}
use qemu_pipeline.AuthVarTest.Check.Stored.{
  Stands, write-stored, verify_absent-Passes, read_written-Passes,
}

-- What a store makes of a variable that is written and deleted: it is not there, a write is taken,
-- it is there with its attributes and its data and it is listed, the write without attributes is
-- taken, and it is not there any more. The lists are shorter than the rounds of the enumeration.
pub record IsCycle {S : Type 0} (m : VariableStore S) (name : Chars) (g start : Guid)
    (attributes : ℕ) (bytes : List ℕ) (rounds : ℕ) (v v₁ v₂ : S) : Type 0 where
  pub absent : m.read v name g ≡ none
  pub written : m.write v name g attributes bytes ≡ (success, v₁)
  pub present : m.read v₁ name g ≡ some (record { attributes = attributes; contents = bytes })
  pub listed : is_listed name g (m.after v₁ [] start) ≡ true
  pub few : length (m.after v₁ [] start) < rounds
  pub deleted : m.write v₁ name g 0 bytes ≡ (success, v₂)
  pub gone : m.read v₂ name g ≡ none
  pub unlisted : is_listed name g (m.after v₂ [] start) ≡ false
  pub few_left : length (m.after v₂ [] start) < rounds

-- realloc succeeds and keeps the contents, and calloc returns zeroed memory for the first name.
pub record Allocates {F : Type 0} (p : Platform F) : Type 0 where
  pub moves : Reallocates p.heap
  pub first : Block
  pub there : p.heap.calloc 4 ≡ some first
  pub room : 4 ≤ first.extent
  pub zeroed : read32 first.bytes 0 ≡ 0

module _ {F S : Type 0} (p : Platform F) (c : Contract F S) (k : Serves c p.services)
    (Fit : Entry → Type 0) (limit : ℕ)
    (e : IsCatalog p.services c.Good Fit limit c.view c.store.after) (a : Allocates p)
    (fit : Fit ([], p.garbage_guid)) (le : 4 ≤ limit) where
  same_bool_refl : (x : Bool) → same_bool p x x ≡ true
  same_bool_refl true = refl
  same_bool_refl false = refl

  enumerate-Passes :
      (name : Chars) (g : Guid) (expected : Bool) (v : S) (img : Option Block) (t : TestState F)
      → Stands p c k v img t
      → All (λ x. x ≢ 0) name
      → is_listed name g (c.store.after v [] p.garbage_guid) ≡ expected
      → length (c.store.after v [] p.garbage_guid) < p.rounds
      → Passes (λ _ t'. Stands p c k v img t') (verify_variable_enumerable p name g expected t)
  enumerate-Passes name g expected v img t h ne listed few =
      let (t', done_so, left) =
        verify_variable_enumerable-catalog p c.Good Fit limit c.view c.store.after e a.moves name g
          expected (c.store.after v [] p.garbage_guid) a.first t ne h.good fit le a.there a.room
          a.zeroed (ap (λ w. c.store.after w [] p.garbage_guid) h.view) few in
      rw (done_so, listed, same_bool_refl expected)
        (passes (record {
          good = left.good;
          view = left.same ∙ h.view;
          image = ap (λ (s : TestState F). s.image) left.rest ∙ h.image;
        }))

  set_and_enumerate-Passes :
      (name : Chars) (g : Guid) (attributes size off : ℕ) (expected : Bool) (v v' : S)
      (img : Option Block) (t : TestState F)
      → Stands p c k v img t
      → All (λ x. x ≢ 0) name
      → c.Writable name g attributes size (offset_in off img)
      → c.store.write v name g attributes (bytes_of size (source_byte (offset_in off img)))
        ≡ (success, v')
      → is_listed name g (c.store.after v' [] p.garbage_guid) ≡ expected
      → length (c.store.after v' [] p.garbage_guid) < p.rounds
      → Passes
          (λ _ t'. Stands p c k v' img t')
          (set_and_enumerate p name g attributes size (image off) expected t)
  unfolding set_and_enumerate
  set_and_enumerate-Passes name g attributes size off expected v v' img t h ne w taken listed few =
      Passes-bind (write-stored p c k name g v img t h attributes size off v' w taken)
        λ status t' (status_zero, h').
          Passes-after _ (verify_succeeded-of_eq status t' status_zero)
            (enumerate-Passes name g expected v' img t' h' ne listed few)

  -- The sequence goes on to its end, on data of one byte or more in mImageData.
  pub verify_valid_var_write_read_enum_del-Passes :
      (name : Chars) (g : Guid) (attributes size off : ℕ) (wanted b : Block) (v v₁ v₂ : S)
      (t : TestState F)
      → Stands p c k v t.image t
      → All (λ x. x ≢ 0) name
      → 0 < size
      → offset_in off t.image ≡ some wanted
      → size ≤ wanted.extent
      → p.heap.malloc size ≡ some b
      → size ≤ b.extent
      → c.Readable name g 0 none
      → c.Readable name g size (some b)
      → c.Writable name g attributes size (some wanted)
      → c.Writable name g 0 size (some wanted)
      → IsCycle c.store name g p.garbage_guid attributes
          (bytes_of size wanted.bytes)
          p.rounds
          v
          v₁
          v₂
      → Passes
          (λ _ t'. Stands p c k v₂ t.image t')
          (verify_valid_var_write_read_enum_del p name g attributes size (image off) true t)
  unfolding verify_valid_var_write_read_enum_del
  verify_valid_var_write_read_enum_del-Passes name g attributes size off wanted b v v₁ v₂ t h ne
        some_bytes content long there room asks reads writes deletes y =
      Passes-bind (verify_absent-Passes p c k name g v t.image t h asks y.absent) λ _ t₁ h₁.
        Passes-bind
          (set_and_enumerate-Passes name g attributes size off true v v₁ t.image t₁ h₁ ne
            (in_image (c.Writable name g attributes size) writes)
            (in_image
              (λ o.
                c.store.write v name g attributes (bytes_of size (source_byte o)) ≡ (success, v₁))
              y.written)
            y.listed y.few)
          λ _ t₂ h₂.
            Passes-bind
              (read_written-Passes p c k name g v₁ t.image attributes size off wanted content long
                y.present b t₂ h₂ some_bytes asks there reads room)
              λ _ t₃ h₃.
                Passes-bind
                  (set_and_enumerate-Passes name g 0 size off false v₁ v₂ t.image t₃ h₃ ne
                    (in_image (c.Writable name g 0 size) deletes)
                    (in_image
                      (λ o.
                        c.store.write v₁ name g 0 (bytes_of size (source_byte o)) ≡ (success, v₂))
                      y.deleted)
                    y.unlisted y.few_left)
                  λ _ t₄ h₄. verify_absent-Passes p c k name g v₂ t.image t₄ h₄ asks y.gone
    where
      in_image : (P : Option Block → Type 0) → P (some wanted) → P (offset_in off t.image)
      in_image P = subst P (sym content)
