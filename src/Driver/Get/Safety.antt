-- ===== src/Driver/Get/Safety.antt =====
-- GetVariable on every TA: the request that it makes, no access outside an object, and the
-- invariant of the transport buffers.
use qemu_pipeline.Base.{
  ℕ, ◌+◌, ◌*◌, ◌^◌, ◌≤◌, ◌<◌, ◌≡◌, inl, inr, refl, false, true, not, ◌&&◌, Option, none, some,
  is_none, Bool-cases, ◌==◌, arith, u16, u32, length,
}
use qemu_pipeline.Outcome.{
  ok, Returns, returns, bind, Safe, safe, safe_exit, Safe-bind, Returns-Safe, ◌>>=◌,
}
use qemu_pipeline.Memory.{Block, bytes32, overwrite}
use qemu_pipeline.Memory.Laws.{store-ok, zero_mem-ok, overwrite-cleared}
use qemu_pipeline.Efi.Guid.{Guid, IsGuid}
use qemu_pipeline.Support.{Chars, str_size}
use qemu_pipeline.Wide.Laws.{cut}
use qemu_pipeline.Driver.Tee.{TeeClient}
use qemu_pipeline.Driver.State.{Driver, IsReady}
use qemu_pipeline.Driver.State.Laws.{
  IsSound, SameShape, with_output-IsSound, IsReady_of_buffers, with_buffers-IsSound,
}
use qemu_pipeline.Driver.Invoke.{get_op, param_buffer, result_buffer, Invoked, invoke_command}
use qemu_pipeline.Driver.Request.Laws.{IsGetParam, fill_get_param-IsGetParam}
use qemu_pipeline.Driver.Get.{
  GetResult, get_receive, get_send, get_sized, get_checked, get_variable, no_buffers, too_long,
  no_room, first_char, get_hook, with_param, with_result,
}
use qemu_pipeline.Driver.Get.Laws.{CanTake, returned, get_receive_lem}

-- A string in a 32-bit address space has fewer than 2 ^ 30 characters, the terminator included.
abbrev pub IsString : Chars → Type 0
IsString s = length s + 1 < 2 ^ 30

pub str_size-eq : (s : Chars) → IsString s → str_size s ≡ 4 * (length s + 1)
unfolding str_size
str_size-eq s h = omega arith

module _ {W : Type 0} (tee : TeeClient W) where
  -- The one call of the TA that a request for a variable makes: the parameter buffer holds the
  -- request, the result buffer is cleared, and both keep their place and length.
  pub record GetSent (name : Chars) (g : Guid) (size : ℕ) (d : Driver W) (h : IsReady d)
      (r : Invoked W) : Type 0 where
    pub request : Block
    pub cleared : Block
    pub invoked :
        r
        ≡ invoke_command tee get_op
            (u32 (28 + str_size name))
            (some param_buffer)
            (u32 (16 + size))
            (some result_buffer)
            (with_result cleared (with_param request d))
    pub request_shape : SameShape h.param request
    pub cleared_shape : SameShape h.result cleared
    pub decodes : IsGetParam request (u16 (str_size name)) g (cut name)
    pub zero : (i : ℕ) → i < d.result_mem.size → cleared.bytes i ≡ 0

  pub get_send-GetSent :
      (name : Chars) (vendor : Guid) (size : ℕ) (d : Driver W) (h : IsReady d)
      → IsGuid vendor
      → IsString name
      → 28 + str_size name ≤ d.param_mem.size
      → Returns (GetSent name vendor size d h) (get_send tee name vendor size d)
  unfolding get_send
  get_send-GetSent name vendor size d h v s fits =
      rw
        (
          h.param_IsBuffer.buffer,
          h.result_IsBuffer.buffer,
          zero_mem-ok d.param_mem.size h.param h.param_IsBuffer.extent,
          zero_mem-ok d.result_mem.size h.result h.result_IsBuffer.extent,
        )
        (bind
          (fill_get_param-IsGetParam (str_size name) vendor name
            (record h.param { bytes = overwrite 0 d.param_mem.size (λ _. 0) h.param.bytes }) v
            (omega (arith, str_size-eq name s, h.param_IsBuffer.extent)))
          λ p (shape, decodes). returns (record {
            request = p;
            cleared = record h.result {
              bytes = overwrite 0 d.result_mem.size (λ _. 0) h.result.bytes;
            };
            invoked = refl;
            request_shape = record { address = shape.address; extent = shape.extent };
            cleared_shape = record { address = refl; extent = refl };
            decodes = decodes;
            zero = λ i lt. overwrite-cleared d.result_mem.size h.result.bytes i lt;
          }))

  -- The driver's state after the command is sound, whatever the TA wrote.
  pub GetSent-IsSound :
      {name : Chars} {g : Guid} {size : ℕ} {d : Driver W} {h : IsReady d} {r : Invoked W}
      → GetSent name g size d h r
      → IsSound r.driver
  unfolding invoke_command
  GetSent-IsSound {h} sent = rw sent.invoked (
      with_output-IsSound result_buffer _ _ _
        (with_buffers-IsSound h sent.request_shape sent.cleared_shape))

  -- The answer stands in the result buffer, which is as long as before.
  pub GetSent-answer :
      {name : Chars} {g : Guid} {size : ℕ} {d : Driver W} {h : IsReady d} {r : Invoked W}
      → GetSent name g size d h r
      → (answer : Block) × (r.driver.result_mem.buffer ≡ some answer)
        × (d.result_mem.size ≤ answer.extent)
  unfolding invoke_command
  GetSent-answer {h} sent = rw sent.invoked (
    record (sent.cleared) { bytes = _ },
    refl,
    omega (arith, sent.cleared_shape.extent, h.result_IsBuffer.extent),
  )

-- A caller's pointer is NULL or what it points to has the property.
abbrev pub Given {ℓ κ} : {A : Type ℓ} → (A → Type κ) → Option A → Type κ
Given P none = Unit
Given P (some a) = P a

hook-IsSound :
    {W : Type 0} (d : Driver W) (attributes : Option ℕ) (size : ℕ) (contents : Option Block)
    → IsSound d
    → CanTake contents size
    → (size == 4) ≡ true
    → Safe
        (λ (_, d'). IsSound d')
        (get_hook d.session_id attributes size contents >>= λ out. ok (out, d))
hook-IsSound d attributes size none h take four = absurd (ground arith)
hook-IsSound d attributes size (some b) h take four =
    rw (store-ok 0 4 (bytes32 d.session_id) b (ground arith)) (safe h)

returned-Safe :
    {W : Type 0} (o : Option GetResult) {d : Driver W}
    → IsSound d
    → Safe (λ (_, d'). IsSound d') (returned o d)
returned-Safe none h = safe_exit
returned-Safe (some out) h = safe h

module _ {W : Type 0} (tee : TeeClient W) where
  -- The two tests of sizes keep the sums from wrapping, and leave room for both structures.
  sizes_fit :
      (name : Chars) (size : ℕ) (d : Driver W)
      → IsSound d
      → too_long (str_size name) size d ≡ false
      → no_room (u32 (28 + str_size name)) (u32 (16 + size)) d ≡ false
      → (28 + str_size name ≤ d.param_mem.size) × (16 + size ≤ d.result_mem.size)
  sizes_fit name size d h short room = ground (arith, h.param.small, h.result.small)

  get_receive-Safe :
      {name : Chars} {g : Guid} {d : Driver W} {h : IsReady d} {r : Invoked W}
      (attributes : Option ℕ) (size : ℕ) (contents : Option Block)
      → GetSent tee name g size d h r
      → 16 + size ≤ d.result_mem.size
      → CanTake contents size
      → Safe (λ (_, d'). IsSound d') (get_receive attributes size contents r)
  get_receive-Safe {r} attributes size contents sent holds take =
      let (answer, there, long) = GetSent-answer tee sent in
      rw (get_receive_lem attributes size contents r answer there (omega arith) take)
        (returned-Safe _ (GetSent-IsSound tee sent))

  get_sized-Safe :
      (name : Chars) (vendor : Guid) (attributes : Option ℕ) (size : ℕ) (contents : Option Block)
      (d : Driver W)
      → IsString name
      → IsGuid vendor
      → CanTake contents size
      → IsSound d
      → no_buffers d ≡ false
      → Safe (λ (_, d'). IsSound d') (get_sized tee name vendor attributes size contents d)
  unfolding get_sized
  get_sized-Safe name vendor attributes size contents d s v take h buffers =
      elim (Bool-cases (too_long (str_size name) size d)) [
        | inl long ↦ rw long (safe h)
        | inr short ↦
            rw short (elim (Bool-cases (no_room (u32 (28 + str_size name)) (u32 (16 + size)) d)) [
              | inl full ↦ rw full (safe h)
              | inr room ↦
                  let ready = IsReady_of_buffers d h buffers in
                  let (fits, holds) = sizes_fit name size d h short room in
                  rw room (
                    Safe-bind
                      (Returns-Safe (get_send-GetSent tee name vendor size d ready v s fits))
                      λ r sent. get_receive-Safe attributes size contents sent holds take)
            ])
      ]

  get_checked-Safe :
      (name : Chars) (vendor : Guid) (attributes : Option ℕ) (size : ℕ) (contents : Option Block)
      (d : Driver W)
      → IsString name
      → IsGuid vendor
      → CanTake contents size
      → IsSound d
      → Safe (λ (_, d'). IsSound d') (get_checked tee name vendor attributes size contents d)
  unfolding get_checked
  get_checked-Safe name vendor attributes size contents d s v take h =
      elim (Bool-cases (not (size == 0) && is_none contents)) [
        | inl refused ↦ rw refused (safe h)
        | inr given ↦
            rw given
              (elim (Bool-cases ((first_char name == 1) && (vendor.data1 == 1) && (size == 4))) [
                | inl hook ↦ rw hook (hook-IsSound d attributes size contents h take (ground arith))
                | inr not_hook ↦ rw not_hook (elim (Bool-cases (not d.session_opened)) [
                  | inl closed ↦ rw closed (safe h)
                  | inr opened ↦ rw opened (elim (Bool-cases (no_buffers d)) [
                    | inl missing ↦ rw missing (safe h)
                    | inr buffers ↦
                        rw buffers
                          (get_sized-Safe name vendor attributes size contents d s v take h buffers)
                  ])
                ])
              ])
      ]

  -- GetVariable, with any TA and any arguments that keep to its contract, accesses no memory
  -- outside the objects it is given, and leaves the transport buffers sound; a failing ASSERT is
  -- its only other end.
  pub get_variable-Safe :
      (name : Option Chars) (vendor : Option Guid) (attributes size : Option ℕ)
      (contents : Option Block) (d : Driver W)
      → Given IsString name
      → Given IsGuid vendor
      → Given (CanTake contents) size
      → IsSound d
      → Safe (λ (_, d'). IsSound d') (get_variable tee name vendor attributes size contents d)
  unfolding get_variable
  get_variable-Safe (some name) (some vendor) attributes (some size) contents d s v take h =
      get_checked-Safe name vendor attributes size contents d s v take h
  get_variable-Safe _ _ _ _ _ _ s v take h = safe h
