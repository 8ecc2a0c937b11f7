-- ===== src/Driver/GetNext/Sent.antt =====
-- The request that GetNextVariableName sends, and what has come back in the result buffer.
use qemu_pipeline.Base.{
  ℕ, ◌+◌, ◌*◌, ◌/◌, ◌≤◌, ◌≡◌, ◌⊎◌, inl, inr, refl, some, [], ◌∷◌, arith, u16, u32, length,
}
use qemu_pipeline.Outcome.{Returns, returns, bind}
use qemu_pipeline.Memory.{Block}
use qemu_pipeline.Memory.Laws.{set_mem_zero}
use qemu_pipeline.Efi.Guid.{Guid, IsGuid}
use qemu_pipeline.Support.{Chars}
use qemu_pipeline.Wide.Laws.{cut}
use qemu_pipeline.Driver.Tee.{TeeClient, Operation}
use qemu_pipeline.Driver.State.{Driver, IsReady}
use qemu_pipeline.Driver.State.Laws.{IsSound, SameShape, with_output-IsSound, with_buffers-IsSound}
use qemu_pipeline.Driver.Invoke.{
  get_next_var_op, param_buffer, result_buffer, Invoked, invoke_command, status_of,
}
use qemu_pipeline.Driver.Request.Laws.{IsGetParam, fill_get_param-IsGetParam}
use qemu_pipeline.Driver.Get.{with_param, with_result}
use qemu_pipeline.Driver.Get.Answer.{get_operation}
use qemu_pipeline.Driver.Get.Safety.{IsString, str_size-eq}
use qemu_pipeline.Driver.GetNext.{name_size_in, next_send}
use qemu_pipeline.Driver.GetNext.Decode.{IsName}

module _ {W : Type 0} (tee : TeeClient W) where
  -- What the driver relies on: where the TA answers a request for the next name with success, the
  -- answer holds a terminated name and its size.
  pub record NamesVariables : Type 0 where
    pub names :
        (w : W) (session : ℕ) (operation : Operation)
        → status_of (tee.invoke_command w session 1 operation).result ≡ 0
        → (us : Chars) × IsName
            (record {
              address = 0;
              extent = 0;
              bytes = (tee.invoke_command w session 1 operation).output;
            })
            us

  pub record NextSent (cs : Chars) (g : Guid) (size : ℕ) (d : Driver W) (h : IsReady d)
      (r : Invoked W) : Type 0 where
    pub request : Block
    pub invoked :
        r
        ≡ invoke_command tee get_next_var_op
            (u32 (28 + name_size_in cs))
            (some param_buffer)
            (u32 (28 + size / 2))
            (some result_buffer)
            (with_result h.result (with_param request d))
    pub request_shape : SameShape h.param request
    pub decodes : IsGetParam request (u16 (name_size_in cs)) g (cut cs)

  pub name_size_in-eq :
      (cs : Chars) → IsString cs → (name_size_in cs ≡ 0) ⊎ (name_size_in cs ≡ 2 * (length cs + 1))
  name_size_in-eq [] s = inl refl
  name_size_in-eq (c ∷ cs) s = inr (omega (arith, str_size-eq (c ∷ cs) s))

  pub next_send-NextSent :
      (cs : Chars) (vendor : Guid) (size : ℕ) (d : Driver W) (h : IsReady d)
      → IsGuid vendor
      → 24 + 2 * (length cs + 1) ≤ d.param_mem.size
      → Returns (NextSent cs vendor size d h) (next_send tee cs vendor size d)
  unfolding next_send
  next_send-NextSent cs vendor size d h v fits =
      rw
        (
          h.param_IsBuffer.buffer,
          h.result_IsBuffer.buffer,
          set_mem_zero d.param_mem.size h.param h.param_IsBuffer.address,
          set_mem_zero d.result_mem.size h.result h.result_IsBuffer.address,
        )
        (bind
          (fill_get_param-IsGetParam (name_size_in cs) vendor cs h.param v
            (omega (arith, h.param_IsBuffer.extent)))
          λ p (shape, decodes).
            returns
              (record { request = p; invoked = refl; request_shape = shape; decodes = decodes }))

  pub NextSent-IsSound :
      {cs : Chars} {g : Guid} {size : ℕ} {d : Driver W} {h : IsReady d} {r : Invoked W}
      → NextSent cs g size d h r
      → IsSound r.driver
  unfolding invoke_command
  NextSent-IsSound {h} sent = rw sent.invoked (
      with_output-IsSound result_buffer _ _ _ (
        with_buffers-IsSound {r = h.result} h sent.request_shape
          (record { address = refl; extent = refl })))

  -- What the TA has answered to the request for the name behind the caller's, in the driver's
  -- result buffer: `us` is the name in it.
  pub record IsGiven (cs : Chars) (g : Guid) (d d' : Driver W) (answer : Block) (us : Chars)
      : Type 0 where
    pub operation : Operation
    pub request : Block
    pub asked : operation.input ≡ some request
    pub decodes : IsGetParam request (u16 (name_size_in cs)) g (cut cs)
    pub there : d'.result_mem.buffer ≡ some answer
    pub replied : answer.bytes ≡ (tee.invoke_command d.world d.session_id 1 operation).output
    pub named : IsName answer us

  -- The answer, as long as the result buffer, with the TA's name in it on success.
  pub NextSent-answer :
      {cs : Chars} {g : Guid} {size : ℕ} {d : Driver W} {h : IsReady d} {r : Invoked W}
      → NamesVariables
      → NextSent cs g size d h r
      → (answer : Block) × (r.driver.result_mem.buffer ≡ some answer)
        × (d.result_mem.size ≤ answer.extent)
        × (r.status ≡ 0 → (us : Chars) × IsGiven cs g d r.driver answer us)
  unfolding invoke_command
  NextSent-answer {cs} {size} {d} {h} t sent =
      let operation =
        get_operation sent.request (u32 (28 + name_size_in cs)) h.result (u32 (28 + size / 2)) in
      rw sent.invoked (
        record (h.result) { bytes = (tee.invoke_command d.world d.session_id 1 operation).output },
        refl,
        h.result_IsBuffer.extent,
        λ done.
            let (us, named) = t.names d.world d.session_id operation done in
            (
              us,
              record {
                operation = operation;
                request = sent.request;
                asked = refl;
                decodes = sent.decodes;
                there = refl;
                replied = refl;
                named = record { units = named.units; nonzero = named.nonzero; size = named.size };
              },
            ),
      )
