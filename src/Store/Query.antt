-- ===== src/Store/Query.antt =====
-- QueryVariableInfo through the driver, against the store of the TA.
use qemu_pipeline.Base.{ℕ, ◌≡◌, refl, ap, sym, ◌∙◌, some, [], ◌∷◌, ◌==◌, arith, if◌then◌else◌}
use qemu_pipeline.Outcome.{returns}
use qemu_pipeline.Memory.{Bytes, Block}
use qemu_pipeline.Driver.Tee.{TeeClient, Reply, item_not_found}
use qemu_pipeline.Driver.State.{Driver}
use qemu_pipeline.Driver.Invoke.{status_of}
use qemu_pipeline.Driver.GetNext.Ordered.{IsServing}
use qemu_pipeline.Driver.Set.Laws.{source_byte}
use qemu_pipeline.Store.{VariableStore, query_call, see_query, space_answer, perform, answer}
use qemu_pipeline.Store.Laws.{KeepsStore, IsValid, Refines}
use qemu_pipeline.Memory.{read64}
use qemu_pipeline.Driver.Tee.{
  TeecResult, success, short_buffer, out_of_memory, access_denied, other, Operation,
  memref_temp_input, memref_temp_output, value_output, unused,
}
use qemu_pipeline.Driver.Invoke.{
  query_info_op, param_buffer, result_buffer, Invoked, invoke_command,
}
use qemu_pipeline.Driver.Get.{with_param, with_result}
use qemu_pipeline.Driver.Get.Answer.{driver_after}
use qemu_pipeline.Driver.Get.Held.{driver_after-IsReady}
use qemu_pipeline.Driver.Query.{query_result}
use qemu_pipeline.Driver.Query.Safety.{IsQueried, query_variable_info-IsQueried}
use qemu_pipeline.Firmware.Laws.{query_variable_info_published}

-- The operation of a query.
abbrev query_operation : Block → Block → Operation
query_operation request cleared = record {
  param_types = memref_temp_input ∷ memref_temp_output ∷ value_output ∷ unused ∷ [];
  input = some request;
  input_size = 8;
  output = some cleared;
  output_size = 32;
}

-- What a client sees of the sizes in the answer.
seen-eq :
    (o : TeecResult × (ℕ × ℕ × ℕ)) (x y z status : ℕ) (m : Bytes)
    → status ≡ status_of (o.0)
    → (o.0 ≡ success → (read64 m 8 ≡ o.1.0) × (read64 m 16 ≡ o.1.1) × (read64 m 24 ≡ o.1.2))
    → see_query (
        if status == 0
        then query_result 0 (some (read64 m 8)) (some (read64 m 16)) (some (read64 m 24))
        else query_result status (some x) (some y) (some z))
      ≡ space_answer o
unfolding see_query status_of
seen-eq (success, sizes) x y z status m e h = rw (e, (h refl).0, (h refl).1, (h refl).2) refl
seen-eq (item_not_found, sizes) x y z status m e h = rw e refl
seen-eq (short_buffer, sizes) x y z status m e h = rw e refl
seen-eq (out_of_memory, sizes) x y z status m e h = rw e refl
seen-eq (access_denied, sizes) x y z status m e h = rw e refl
seen-eq (other code, sizes) x y z status m e h = rw e refl

module _ {W S : Type 0} (tee : TeeClient W) (Holds : W → Type 0) (store : W → S)
    (m : VariableStore S) (k : KeepsStore tee Holds store m) where
  module _ (attributes x y z : ℕ) (d : Driver W) (s : IsServing tee Holds store m.after d)
      (v : IsValid tee Holds store m (query_call attributes x y z)) where
    queried : IsQueried tee attributes x y z d s.ready
    queried =
        query_variable_info-IsQueried tee attributes x y z d s.ready (ground (arith, v.0)) v.1
          s.opened (omega (arith, s.param_size)) (omega (arith, s.result_size))

    abbrev reply : Reply W
    reply =
        tee.invoke_command d.world d.session_id 3 (query_operation queried.request s.ready.result)

    -- What the invocation has left.
    left :
        (r : Invoked W) (answer : Block)
        → r
          ≡ invoke_command tee query_info_op 8
              (some param_buffer)
              32
              (some result_buffer)
              (with_result s.ready.result (with_param queried.request d))
        → r.driver.result_mem.buffer ≡ some answer
        → (r.status ≡ status_of reply.result)
          × (r.driver ≡ driver_after d queried.request s.ready.result reply)
          × (answer.bytes ≡ reply.output)
    unfolding invoke_command
    left r answer e there = (
      ap (λ (r : Invoked W). r.status) e,
      ap (λ (r : Invoked W). r.driver) e,
      ap (λ o. source_byte o) (sym there ∙ ap (λ (r : Invoked W). r.driver.result_mem.buffer) e),
    )

    pub query_call-Refines : Refines tee Holds store m (query_call attributes x y z) d
    unfolding perform answer
    query_call-Refines =
        let (status, driver, bytes) =
          left queried.invoked queried.answer queried.invoked_eq queried.answer_there in
        let (replied, same, holds) =
          k.queries d.world d.session_id (query_operation queried.request s.ready.result)
            queried.request attributes s.holds refl refl queried.decodes in
        rw
          (
            query_variable_info_published tee d s.published attributes (some x) (some y) (some z),
            queried.result,
            driver,
          )
          (returns (
            seen-eq (m.space (store d.world) attributes) x y z queried.invoked.status
                queried.answer.bytes (status ∙ ap status_of replied.result)
                (λ good.
                  let (a, b, c) = replied.sizes good in
                  (
                    ap (λ t. read64 t 8) bytes ∙ a,
                    ap (λ t. read64 t 16) bytes ∙ b,
                    ap (λ t. read64 t 24) bytes ∙ c,
                  )),
            same,
            record {
              ready =
                  driver_after-IsReady d s.ready queried.request s.ready.result reply
                    queried.request_shape (record { address = refl; extent = refl });
              opened = s.opened;
              published = s.published;
              param_size = s.param_size;
              result_size = s.result_size;
              holds = holds;
            },
          ))
