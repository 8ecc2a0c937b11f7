-- ===== src/Driver/Query/Safety.antt =====
-- QueryVariableInfo on every TA: the request, no access outside an object, and the three sizes.
use qemu_pipeline.Base.{
  ℕ, ◌^◌, ◌≤◌, ◌<◌, ◌≡◌, inl, refl, ap, ◌∙◌, false, true, not, some, ◌==◌, if◌then◌else◌, arith,
  u32,
}
use qemu_pipeline.Outcome.{ok, Returns, returns, bind, Returns-eq, ◌>>=◌}
use qemu_pipeline.Memory.{Block, bytes32, read32, read64, overwrite}
use qemu_pipeline.Memory.Laws.{
  store-ok, load64-ok, set_mem_zero, read32-overwrite_self, read32-overwrite_outside,
}
use qemu_pipeline.Driver.Tee.{TeeClient}
use qemu_pipeline.Driver.State.{Driver, IsReady}
use qemu_pipeline.Driver.State.Laws.{IsSound, SameShape, with_output-IsSound, with_buffers-IsSound}
use qemu_pipeline.Driver.Invoke.{
  query_info_op, param_buffer, result_buffer, Invoked, invoke_command,
}
use qemu_pipeline.Driver.Request.{fill_query_param}
use qemu_pipeline.Driver.Get.{no_buffers, no_room, with_param, with_result}
use qemu_pipeline.Driver.Query.{
  query_result, query_decode, query_receive, query_send, query_variable_info,
}

-- VARIABLE_QUERY_PARAM as the TA finds it.
pub record IsQueryParam (b : Block) (attributes : ℕ) : Type 0 where
  pub size : read32 b.bytes 0 ≡ 8
  pub attributes_there : read32 b.bytes 4 ≡ attributes

fill_query_param-IsQueryParam :
    (attributes : ℕ) (b : Block)
    → attributes < 2 ^ 32
    → 8 ≤ b.extent
    → Returns (λ c. SameShape b c × IsQueryParam c attributes) (fill_query_param attributes b)
unfolding fill_query_param
fill_query_param-IsQueryParam attributes b small fits =
    rw
      (
        store-ok 0 4 (bytes32 8) b (omega arith),
        store-ok 4 4 (bytes32 (u32 attributes))
            (record b { bytes = overwrite 0 4 (bytes32 8) b.bytes }) (omega arith),
      )
      (returns (
        record { address = refl; extent = refl },
        record {
          size =
              read32-overwrite_outside 4 4 (bytes32 (u32 attributes)) _ 0 (inl (omega arith))
              ∙ read32-overwrite_self 0 8 b.bytes (omega arith);
          attributes_there = read32-overwrite_self 4 (u32 attributes) _ (omega arith) ∙ omega arith;
        },
      ))

module _ {W : Type 0} (tee : TeeClient W) where
  -- What a query that passes every test comes to: one call of the TA with the attributes in its
  -- request; on success the three sizes of the answer, else the caller's values as they were.
  pub record IsQueried (attributes a b c : ℕ) (d : Driver W) (h : IsReady d) : Type 0 where
    pub request : Block
    pub decodes : IsQueryParam request attributes
    pub request_shape : SameShape h.param request
    pub invoked : Invoked W
    pub invoked_eq :
        invoked
        ≡ invoke_command tee query_info_op 8
            (some param_buffer)
            32
            (some result_buffer)
            (with_result h.result (with_param request d))
    pub answer : Block
    pub answer_there : invoked.driver.result_mem.buffer ≡ some answer
    pub sound : IsSound invoked.driver
    pub result :
        query_variable_info tee attributes (some a) (some b) (some c) d
        ≡ ok (
          (if invoked.status == 0
              then query_result 0
                  (some (read64 answer.bytes 8))
                  (some (read64 answer.bytes 16))
                  (some (read64 answer.bytes 24))
              else query_result invoked.status (some a) (some b) (some c)),
          invoked.driver,
        )

  query_receive_lem :
      (a b c : ℕ) (r : Invoked W) (answer : Block)
      → r.driver.result_mem.buffer ≡ some answer
      → 32 ≤ answer.extent
      → query_receive (some a) (some b) (some c) r
        ≡ ok (
          (if r.status == 0
              then query_result 0
                  (some (read64 answer.bytes 8))
                  (some (read64 answer.bytes 16))
                  (some (read64 answer.bytes 24))
              else query_result r.status (some a) (some b) (some c)),
          r.driver,
        )
  unfolding query_receive query_decode
  query_receive_lem a b c r answer there fits =
      rw
        (
          there,
          load64-ok answer 8 (omega arith),
          load64-ok answer 16 (omega arith),
          load64-ok answer 24 (omega arith),
        )
        (ground arith)

  query_send-Returns :
      (attributes : ℕ) (d : Driver W) (h : IsReady d)
      → attributes < 2 ^ 32
      → 8 ≤ d.param_mem.size
      → Returns
          (λ r.
            (request : Block) × SameShape h.param request
            × IsQueryParam request attributes
            × (r
                ≡ invoke_command tee query_info_op 8
                    (some param_buffer)
                    32
                    (some result_buffer)
                    (with_result h.result (with_param request d))))
          (query_send tee attributes d)
  unfolding query_send
  query_send-Returns attributes d h small room =
      rw
        (
          h.param_IsBuffer.buffer,
          h.result_IsBuffer.buffer,
          set_mem_zero d.param_mem.size h.param h.param_IsBuffer.address,
          set_mem_zero d.result_mem.size h.result h.result_IsBuffer.address,
        )
        (bind
          (fill_query_param-IsQueryParam attributes h.param small
            (omega (arith, h.param_IsBuffer.extent)))
          λ p (shape, decodes). returns (p, shape, decodes, refl))

  answered :
      (d : Driver W) (h : IsReady d) (p : Block) (r : Invoked W)
      → SameShape h.param p
      → r
        ≡ invoke_command tee query_info_op 8
            (some param_buffer)
            32
            (some result_buffer)
            (with_result h.result (with_param p d))
      → (answer : Block) × (r.driver.result_mem.buffer ≡ some answer)
        × (d.result_mem.size ≤ answer.extent)
        × IsSound r.driver
  unfolding invoke_command
  answered d h p r shape e = rw e (
    record (h.result) { bytes = _ },
    refl,
    h.result_IsBuffer.extent,
    with_output-IsSound result_buffer _ _ _
        (with_buffers-IsSound {r = h.result} h shape (record { address = refl; extent = refl })),
  )

  accepted :
      (attributes a b c : ℕ) (d : Driver W)
      → (attributes == 0) ≡ false
      → not d.session_opened ≡ false
      → no_buffers d ≡ false
      → no_room 8 32 d ≡ false
      → query_variable_info tee attributes (some a) (some b) (some c) d
        ≡ (query_send tee attributes d >>= query_receive (some a) (some b) (some c))
  unfolding query_variable_info
  accepted attributes a b c d some_bits opened buffers fits =
      rw (some_bits, opened, buffers, fits) refl

  passes :
      (d : Driver W) (h : IsReady d)
      → 8 ≤ d.param_mem.size
      → 32 ≤ d.result_mem.size
      → (no_buffers d ≡ false) × (no_room 8 32 d ≡ false)
  passes d h room room' = (rw (h.param_IsBuffer.buffer, h.result_IsBuffer.buffer), ground arith)

  -- QueryVariableInfo with attributes, an open session and room for its structures makes one call
  -- of the TA, accesses no memory outside the transport buffers, and returns the status with the
  -- three sizes of the answer on success, and with the caller's values otherwise.
  pub query_variable_info-IsQueried :
      (attributes a b c : ℕ) (d : Driver W) (h : IsReady d)
      → (attributes == 0) ≡ false
      → attributes < 2 ^ 32
      → d.session_opened ≡ true
      → 8 ≤ d.param_mem.size
      → 32 ≤ d.result_mem.size
      → IsQueried attributes a b c d h
  query_variable_info-IsQueried attributes a b c d h some_bits small opened room room' =
      let (r, e, (p, shape, decodes, invoked)) =
        Returns-eq (query_send-Returns attributes d h small room) in
      let (answer, there, long, sound) = answered d h p r shape invoked in
      let (buffers, fits) = passes d h room room' in
      record {
        request = p;
        decodes = decodes;
        request_shape = shape;
        invoked = r;
        invoked_eq = invoked;
        answer = answer;
        answer_there = there;
        sound = sound;
        result =
            accepted attributes a b c d some_bits (ap not opened) buffers fits
            ∙ rw e (query_receive_lem a b c r answer there (omega arith));
      }
