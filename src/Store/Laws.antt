-- ===== src/Store/Laws.antt =====
-- A TA that keeps a store, and the calls that the driver passes on to it.
use qemu_pipeline.Base.{
  ℕ, ◌+◌, ◌*◌, ◌≤◌, ◌<◌, ◌^◌, ◌≡◌, ◌≢◌, false, Option, none, some, length, get_or, u16,
}
use qemu_pipeline.Memory.{Block, read64}
use qemu_pipeline.Efi.Guid.{Guid}
use qemu_pipeline.Support.{Chars, str_size}
use qemu_pipeline.Outcome.{Returns}
use qemu_pipeline.Firmware.{runtime_services}
use qemu_pipeline.Driver.State.{Driver}
use qemu_pipeline.Driver.Tee.{TeecResult, success, item_not_found, TeeClient, Reply, Operation}
use qemu_pipeline.Driver.Request.Laws.{IsGetParam}
use qemu_pipeline.Driver.Get.{first_char}
use qemu_pipeline.Driver.Get.Laws.{CanTake}
use qemu_pipeline.Driver.Get.Answer.{is_hook}
use qemu_pipeline.Driver.Get.Held.{IsHeldReply}
use qemu_pipeline.Driver.Set.Laws.{IsSetParam, source_byte}
use qemu_pipeline.Driver.Query.Safety.{IsQueryParam}
use qemu_pipeline.Driver.GetNext.Ordered.{IsVariable, KeepsOrder, IsPassed, IsServing}
use qemu_pipeline.Store.{
  Value, VariableStore, bytes_of, Call, read_call, write_call, next_call, query_call, perform,
  answer,
}

-- The reply to a request for a variable: there is none, or its value.
pub record IsReadReply {W : Type 0} (o : Option Value) (reply : Reply W) (room : ℕ) : Type 0 where
  pub missing : o ≡ none → reply.result ≡ item_not_found
  pub held :
      (v : Value)
      → o ≡ some v
      → IsHeldReply reply room v.attributes (length v.contents) (λ i. get_or v.contents i 0)
        × (length v.contents < 2 ^ 31)

-- The reply to a query: the three sizes, where it is answered.
pub record IsSpaceReply {W : Type 0} (o : TeecResult × (ℕ × ℕ × ℕ)) (reply : Reply W) : Type 0 where
  pub result : reply.result ≡ o.0
  pub sizes :
      o.0 ≡ success
      → (read64 reply.output 8 ≡ o.1.0)
        × (read64 reply.output 16 ≡ o.1.1)
        × (read64 reply.output 24 ≡ o.1.2)

abbrev pub IsReadable : Chars → Guid → ℕ → Option Block → Type 0
IsReadable name g size contents =
    IsVariable name g
    × (is_hook name g size ≡ false)
    × CanTake contents size
    × (28 + 4 * (length name + 1) ≤ 32812)
    × (16 + size ≤ 32812)

abbrev pub IsWritable : Chars → Guid → ℕ → ℕ → Option Block → Type 0
IsWritable name g attributes size source =
    IsVariable name g
    × (is_hook name g size ≡ false)
    × CanTake source size
    × (first_char name ≢ 0)
    × (attributes < 2 ^ 32)
    × (44 + 4 * (length name + 1) + size ≤ 32812)

module _ {W S : Type 0} (tee : TeeClient W) (Holds : W → Type 0) (store : W → S)
    (m : VariableStore S) where
  -- The TA keeps the store that its world stands for, in any session: it answers by it, a write
  -- does what the store does with the data of the request, and the other requests leave it alone.
  pub record KeepsStore : Type 0 where
    pub order : KeepsOrder tee Holds store m.after
    pub reads :
        (w : W) (session : ℕ) (operation : Operation) (request : Block) (name : Chars) (g : Guid)
        → Holds w
        → IsVariable name g
        → operation.input ≡ some request
        → IsGetParam request (u16 (str_size name)) g name
        → IsReadReply
            (m.read (store w) name g)
            (tee.invoke_command w session 0 operation)
            operation.output_size
          × (store (tee.invoke_command w session 0 operation).world ≡ store w)
          × Holds (tee.invoke_command w session 0 operation).world
    pub writes :
        (w : W) (session : ℕ) (operation : Operation) (request : Block) (name : Chars) (g : Guid)
        (attributes size : ℕ) (source : Option Block)
        → Holds w
        → IsVariable name g
        → operation.input ≡ some request
        → IsSetParam request (str_size name) g name attributes size source
        → ((tee.invoke_command w session 2 operation).result
            ≡ (m.write (store w) name g attributes (bytes_of size (source_byte source))).0)
          × (store (tee.invoke_command w session 2 operation).world
              ≡ (m.write (store w) name g attributes (bytes_of size (source_byte source))).1)
          × Holds (tee.invoke_command w session 2 operation).world
    pub queries :
        (w : W) (session : ℕ) (operation : Operation) (request : Block) (attributes : ℕ)
        → Holds w
        → operation.input ≡ some request
        → operation.output_size ≡ 32
        → IsQueryParam request attributes
        → IsSpaceReply (m.space (store w) attributes) (tee.invoke_command w session 3 operation)
          × (store (tee.invoke_command w session 3 operation).world ≡ store w)
          × Holds (tee.invoke_command w session 3 operation).world

  -- A call with well-formed arguments that fit the transport buffers, and that is no request for
  -- the test hooks.
  abbrev pub IsValid : Call → Type 0
  IsValid (read_call name g old size contents) = IsReadable name g size contents
  IsValid (write_call name g attributes size source) = IsWritable name g attributes size source
  IsValid (next_call name g size b) =
      IsVariable name g × IsPassed tee Holds store m.after b size name
  IsValid (query_call attributes x y z) = (attributes ≢ 0) × (attributes < 2 ^ 32)

  -- The driver answers a call as the store does, is left with the store that the call leaves, and
  -- serves on.
  abbrev pub Refines : Call → Driver W → Type 0
  Refines c d =
      Returns
        (λ (seen, d').
          (seen ≡ (answer m c (store d.world)).0)
          × (store d'.world ≡ (answer m c (store d.world)).1)
          × IsServing tee Holds store m.after d')
        (perform (runtime_services tee) c d)
