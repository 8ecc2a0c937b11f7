-- ===== src/Driver/Get/Held.antt =====
-- GetVariable with a TA that holds the variable: the size is asked for, then the contents.
use qemu_pipeline.Base.{
  ℕ, ◌+◌, ◌-◌, ◌^◌, ◌≤◌, ◌<◌, ◌≡◌, refl, ◌∙◌, ap, Option, some, le→leb, le→ltb, arith, u16, u32,
}
use qemu_pipeline.Outcome.{Returns, returns}
use qemu_pipeline.Memory.{Bytes, Block, read32, overwrite}
use qemu_pipeline.Memory.Laws.{overwrite-inside}
use qemu_pipeline.Efi.Guid.{Guid}
use qemu_pipeline.Support.{Chars, str_size}
use qemu_pipeline.Wide.Laws.{cut}
use qemu_pipeline.Driver.Tee.{success, item_not_found, short_buffer, TeeClient, Reply, Operation}
use qemu_pipeline.Driver.State.{Driver, IsReady}
use qemu_pipeline.Driver.State.Laws.{SameShape}
use qemu_pipeline.Driver.Invoke.{status_of}
use qemu_pipeline.Driver.Request.Laws.{IsGetParam}
use qemu_pipeline.Driver.Get.{get_result, get_variable}
use qemu_pipeline.Driver.Get.Laws.{filled, set_if_given}
use qemu_pipeline.Driver.Get.Answer.{
  IsAccepted, IsAnswered, driver_after, reply_to, get_operation, get_variable-IsAnswered,
}

-- A reply for a variable of `n` bytes, `payload`: it needs 16 bytes more.
pub record IsHeldReply {W : Type 0} (reply : Reply W) (room attributes n : ℕ) (payload : Bytes)
    : Type 0 where
  pub attributes_there : read32 reply.output 4 ≡ attributes
  pub short : room < 16 + n → (reply.result ≡ short_buffer) × (reply.value_a ≡ 16 + n)
  pub full :
      16 + n ≤ room
      → (reply.result ≡ success)
        × (read32 reply.output 8 ≡ n)
        × ((i : ℕ) → i < n → reply.output (12 + i) ≡ payload i)

module _ {W : Type 0} where
  -- The driver is as ready after the command as before.
  pub driver_after-IsReady :
      (d : Driver W) (h : IsReady d) (request cleared : Block) (reply : Reply W)
      → SameShape h.param request
      → SameShape h.result cleared
      → IsReady (driver_after d request cleared reply)
  driver_after-IsReady d h request cleared reply p r = record {
    param = request;
    result = record cleared { bytes = reply.output };
    param_IsBuffer = record {
      buffer = refl;
      extent = omega (arith, h.param_IsBuffer.extent, p.extent);
      address = omega (arith, h.param_IsBuffer.address, p.address);
    };
    result_IsBuffer = record {
      buffer = refl;
      extent = omega (arith, h.result_IsBuffer.extent, r.extent);
      address = omega (arith, h.result_IsBuffer.address, r.address);
    };
    param_small = h.param_small;
    result_small = h.result_small;
  }

-- The data in the caller's buffer.
filled-reads :
    (answer : Block) (n : ℕ) (contents : Option Block) (payload : Bytes)
    → ((i : ℕ) → i < n → answer.bytes (12 + i) ≡ payload i)
    → (b : Block) → contents ≡ some b
    → (c : Block) × (filled answer n contents ≡ some c)
      × (c.extent ≡ b.extent)
      × ((i : ℕ) → i < n → c.bytes i ≡ payload i)
filled-reads answer n contents payload same b e = rw e (
  record b { bytes = written },
  refl,
  refl,
  λ i lt. ap written (shift i) ∙ overwrite-inside 0 n source b.bytes i lt ∙ same i lt,
)
  where
    source : Bytes
    source j = answer.bytes (12 + j)

    written : Bytes
    written = overwrite 0 n source b.bytes

    shift : (i : ℕ) → i ≡ 0 + i
    shift i = omega arith

-- The same session, the same sizes of the transport buffers and the same services in gRT.
pub record SameSession {W : Type 0} (d d' : Driver W) : Type 0 where
  pub opened : d'.session_opened ≡ d.session_opened
  pub param_size : d'.param_mem.size ≡ d.param_mem.size
  pub result_size : d'.result_mem.size ≡ d.result_mem.size
  pub published : d'.published ≡ d.published

module _ {W : Type 0} (tee : TeeClient W) (name : Chars) (vendor : Guid) (size : ℕ)
    (contents : Option Block) (d : Driver W) (h : IsReady d)
    (a : IsAccepted name vendor size contents d) where
  -- The request, and the reply to it.
  abbrev answered : (old : Option ℕ) → IsAnswered tee name vendor old size contents d h a
  answered old = get_variable-IsAnswered tee name vendor old size contents d h a

  abbrev pub reply_of : Option ℕ → Reply W
  reply_of old = reply_to tee d name size (answered old).request (answered old).cleared

  -- After the call the driver is ready, in the same session, and in the world that the TA has left.
  pub record IsAfter (old : Option ℕ) (d' : Driver W) : Type 0 where
    pub ready : IsReady d'
    pub same : SameSession d d'
    pub world : d'.world ≡ (reply_of old).world

  after_reply :
      (old : Option ℕ)
      → IsAfter old (driver_after d (answered old).request (answered old).cleared (reply_of old))
  after_reply old = record {
    ready =
        driver_after-IsReady d h (answered old).request (answered old).cleared (reply_of old)
          (answered old).request_shape (answered old).cleared_shape;
    same = record { opened = refl; param_size = refl; result_size = refl; published = refl };
    world = refl;
  }

  module _ (old : Option ℕ) (held n : ℕ) (payload : Bytes)
      (r : IsHeldReply (reply_of old) (16 + size) held n payload) (small : 16 + n < 2 ^ 32) where
    unwrapped : u32 (16 + n) ≡ 16 + n
    unwrapped = omega arith

    sixteen_more : (k : ℕ) → 16 + k - 16 ≡ k
    sixteen_more k = omega arith

    pub held-short :
        size < n
        → Returns
            (λ (out, d').
              (out ≡ get_result 5 (set_if_given old held) (some n) contents) × IsAfter old d')
            (get_variable tee (some name) (some vendor) old (some size) contents d)
    unfolding status_of
    held-short less =
        let (failed, needs) = r.short (omega arith) in
        rw
          (
            (answered old).answer,
            failed,
            needs,
            r.attributes_there,
            unwrapped,
            le→leb 16 (16 + n) (omega arith),
          )
          (returns (
            ap (λ k. get_result 5 (set_if_given old held) (some k) contents) (sixteen_more n),
            after_reply old,
          ))

    pub held-full :
        n ≤ size
        → Returns
            (λ (out, d').
              (out.status ≡ 0)
              × (out.attributes ≡ set_if_given old held)
              × (out.data_size ≡ some n)
              × ((b : Block)
                  → contents ≡ some b
                  → (c : Block) × (out.contents ≡ some c)
                    × (c.extent ≡ b.extent)
                    × ((i : ℕ) → i < n → c.bytes i ≡ payload i))
              × IsAfter old d')
            (get_variable tee (some name) (some vendor) old (some size) contents d)
    unfolding status_of
    held-full more =
        let (done, count, bytes) = r.full (omega arith) in
        rw ((answered old).answer, done, r.attributes_there, count, le→ltb size n more)
          (returns (
            refl,
            refl,
            refl,
            filled-reads (record ((answered old).cleared) { bytes = (reply_of old).output }) n
                contents payload bytes,
            after_reply old,
          ))

  -- No such variable.
  pub not_held :
      (old : Option ℕ)
      → (reply_of old).result ≡ item_not_found
      → Returns
          (λ (out, d'). (out.status ≡ 14) × IsAfter old d')
          (get_variable tee (some name) (some vendor) old (some size) contents d)
  unfolding status_of
  not_held old missing = rw ((answered old).answer, missing) (returns (refl, after_reply old))

module _ {W : Type 0} (tee : TeeClient W) (name : Chars) (vendor : Guid) (held n : ℕ)
    (payload : Bytes) where
  -- The TA holds the variable: it answers any request for it, of whatever session, so.
  pub record HoldsVariable : Type 0 where
    pub holds :
        (w : W) (session : ℕ) (operation : Operation) (request : Block)
        → operation.input ≡ some request
        → IsGetParam request (u16 (str_size name)) vendor (cut name)
        → IsHeldReply
            (tee.invoke_command w session 0 operation)
            operation.output_size
            held
            n
            payload

  module _ (t : HoldsVariable) (attributes size : ℕ) (contents : Option Block) (d : Driver W)
      (h : IsReady d) (a : IsAccepted name vendor size contents d) where
    pub HoldsVariable-reply :
        IsHeldReply
          (reply_of tee name vendor size contents d h a (some attributes))
          (16 + size)
          held
          n
          payload
    HoldsVariable-reply =
        let w = get_variable-IsAnswered tee name vendor (some attributes) size contents d h a in
        t.holds d.world d.session_id
          (get_operation w.request (28 + str_size name) w.cleared (16 + size)) w.request refl
          w.decodes
