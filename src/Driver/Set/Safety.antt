-- ===== src/Driver/Set/Safety.antt =====
-- SetVariable on every TA: the request that it makes, no access outside an object where the
-- transport buffers are allocated, and the fault where they are not.
use qemu_pipeline.Base.{
  ℕ, ◌+◌, ◌^◌, ◌≤◌, ◌<◌, ◌≡◌, inl, inr, refl, false, true, not, ◌&&◌, ◌||◌, Option, none, some,
  is_none, Bool-cases, ltb, leb, ◌==◌, arith,
}
use qemu_pipeline.Outcome.{ok, Returns, returns, bind, Safe, safe, Safe-bind, Returns-Safe, ◌>>=◌}
use qemu_pipeline.Memory.{Block, overwrite, deref, load32}
use qemu_pipeline.Efi.Status
use qemu_pipeline.Memory.Laws.{load32-ok, zero_mem-ok}
use qemu_pipeline.Efi.Guid.{Guid, IsGuid}
use qemu_pipeline.Support.{Chars, str_size}
use qemu_pipeline.Wide.Laws.{cut}
use qemu_pipeline.Driver.Tee.{TeeClient}
use qemu_pipeline.Driver.State.{Driver, IsReady}
use qemu_pipeline.Driver.State.Laws.{
  IsSound, SameShape, with_output-IsSound, with_buffers-IsSound, IsReady-IsSound,
}
use qemu_pipeline.Driver.Invoke.{set_op, param_buffer, result_buffer, Invoked, invoke_command}
use qemu_pipeline.Driver.Get.{first_char, with_param, with_result}
use qemu_pipeline.Driver.Get.Laws.{CanTake}
use qemu_pipeline.Driver.Get.Safety.{IsString, str_size-eq, Given}
use qemu_pipeline.Driver.Set.{set_param_size, set_send, set_checked, set_variable}
use qemu_pipeline.Driver.Set.Laws.{IsSetParam, fill_set_param-IsSetParam}

module _ {W : Type 0} (tee : TeeClient W) where
  -- The one call of the TA that a write makes: the parameter buffer holds the request, the result
  -- buffer is cleared and goes along with a size of 4.
  pub record SetSent (name : Chars) (g : Guid) (attributes size : ℕ) (source : Option Block)
      (d : Driver W) (h : IsReady d) (r : Invoked W) : Type 0 where
    pub request : Block
    pub cleared : Block
    pub invoked :
        r
        ≡ invoke_command tee set_op
            (set_param_size name size)
            (some param_buffer)
            0
            none
            (with_result cleared (with_param request d))
    pub request_shape : SameShape h.param request
    pub cleared_shape : SameShape h.result cleared
    pub decodes : IsSetParam request (str_size name) g (cut name) attributes size source

  pub set_send-SetSent :
      (name : Chars) (vendor : Guid) (attributes size : ℕ) (source : Option Block) (d : Driver W)
      (h : IsReady d)
      → IsGuid vendor
      → IsString name
      → attributes < 2 ^ 32
      → CanTake source size
      → 44 + str_size name + size ≤ d.param_mem.size
      → Returns
          (SetSent name vendor attributes size source d h)
          (set_send tee name vendor attributes size source d)
  unfolding set_send
  set_send-SetSent name vendor attributes size source d h v s ha take fits =
      rw
        (
          h.param_IsBuffer.buffer,
          zero_mem-ok d.param_mem.size h.param h.param_IsBuffer.extent,
          h.result_IsBuffer.buffer,
          zero_mem-ok d.result_mem.size h.result h.result_IsBuffer.extent,
        )
        (bind
          (fill_set_param-IsSetParam (str_size name) vendor name attributes size source
            (record h.param { bytes = overwrite 0 d.param_mem.size (λ _. 0) h.param.bytes }) v
            (str_size-eq name s) (omega (arith, h.param_small)) ha (omega (arith, h.param_small))
            take (omega (arith, h.param_IsBuffer.extent)))
          λ p (shape, decodes). returns (record {
            request = p;
            cleared = record h.result {
              bytes = overwrite 0 d.result_mem.size (λ _. 0) h.result.bytes;
            };
            invoked = refl;
            request_shape = record { address = shape.address; extent = shape.extent };
            cleared_shape = record { address = refl; extent = refl };
            decodes = decodes;
          }))

  SetSent-IsSound :
      {name : Chars} {g : Guid} {attributes size : ℕ} {source : Option Block} {d : Driver W}
      {h : IsReady d} {r : Invoked W}
      → SetSent name g attributes size source d h r
      → IsSound r.driver
  unfolding invoke_command
  SetSent-IsSound {h} sent = rw sent.invoked (
      with_output-IsSound result_buffer _ _ _
        (with_buffers-IsSound h sent.request_shape sent.cleared_shape))

  -- The two tests of sizes keep the sum from wrapping, and leave room for the request.
  set_fits :
      (name : Chars) (size : ℕ) (d : Driver W)
      → d.param_mem.size < 2 ^ 30
      → (leb d.param_mem.size (str_size name) || leb d.param_mem.size size) ≡ false
      → ltb d.param_mem.size (set_param_size name size) ≡ false
      → 44 + str_size name + size ≤ d.param_mem.size
  set_fits name size d small short room = ground arith

  hook-IsSound :
      (source : Option Block) (size : ℕ) (d : Driver W)
      → IsSound d
      → CanTake source size
      → (not (size == 0) && is_none source) ≡ false
      → (size == 4) ≡ true
      → Safe {A = ℕ × Driver W}
          (λ (_, d'). IsSound d')
          (do b ← deref source; id ← load32 b 0; ok (Status.success, record d { session_id = id }))
  hook-IsSound none size d h take given four = absurd (ground arith)
  hook-IsSound (some b) size d h take given four =
      rw (load32-ok b 0 (ground arith)) (safe record { param = h.param; result = h.result })

  set_checked-Safe :
      (name : Chars) (vendor : Guid) (attributes size : ℕ) (source : Option Block) (d : Driver W)
      → IsReady d
      → IsString name
      → IsGuid vendor
      → attributes < 2 ^ 32
      → CanTake source size
      → Safe (λ (_, d'). IsSound d') (set_checked tee name vendor attributes size source d)
  unfolding set_checked
  set_checked-Safe name vendor attributes size source d h s v ha take =
      elim (Bool-cases (not (size == 0) && is_none source)) [
        | inl refused ↦ rw refused (safe (IsReady-IsSound h))
        | inr given ↦ rw given (elim (Bool-cases (not d.session_opened)) [
          | inl closed ↦ rw closed (safe (IsReady-IsSound h))
          | inr opened ↦
              rw opened
                (elim (Bool-cases ((first_char name == 1) && (vendor.data1 == 1) && (size == 4))) [
                  | inl hook ↦
                      rw hook
                        (hook-IsSound source size d (IsReady-IsSound h) take given (ground arith))
                  | inr not_hook ↦
                      rw not_hook
                        (elim (Bool-cases
                          (leb d.param_mem.size (str_size name) || leb d.param_mem.size size)) [
                            | inl long ↦ rw long (safe (IsReady-IsSound h))
                            | inr short ↦
                                rw short
                                  (elim (Bool-cases
                                    (ltb d.param_mem.size (set_param_size name size))) [
                                      | inl full ↦ rw full (safe (IsReady-IsSound h))
                                      | inr room ↦ rw room (
                                          Safe-bind
                                            (Returns-Safe (
                                              set_send-SetSent name vendor attributes size source d
                                                h v s ha take
                                                (set_fits name size d h.param_small short room)))
                                            λ r sent. safe (SetSent-IsSound sent))
                                    ])
                          ])
                ])
        ])
      ]

  -- SetVariable, with any TA and any arguments that keep to its contract, accesses no memory
  -- outside the objects it is given while both transport buffers are allocated, and leaves them
  -- sound.
  pub set_variable-Safe :
      (name : Option Chars) (vendor : Option Guid) (attributes size : ℕ) (source : Option Block)
      (d : Driver W)
      → IsReady d
      → Given IsString name
      → Given IsGuid vendor
      → attributes < 2 ^ 32
      → CanTake source size
      → Safe (λ (_, d'). IsSound d') (set_variable tee name vendor attributes size source d)
  unfolding set_variable
  set_variable-Safe (some name) (some vendor) attributes size source d h s v ha take =
      elim (Bool-cases (first_char name == 0)) [
        | inl empty ↦ rw empty (safe (IsReady-IsSound h))
        | inr named ↦ rw named (set_checked-Safe name vendor attributes size source d h s v ha take)
      ]
  set_variable-Safe _ _ _ _ _ _ h _ _ _ _ = safe (IsReady-IsSound h)
