-- ===== src/Driver/Get/Answer.antt =====
-- GetVariable as a function of the TA's reply, and with a TA that holds the variable.
use qemu_pipeline.Base.{
  ℕ, ◌+◌, ◌≤◌, ◌<◌, ◌≡◌, refl, ◌∙◌, Bool, false, true, not, ◌&&◌, Option, none, some, is_none, [],
  ◌∷◌, ◌==◌, arith, u16, u32,
}
use qemu_pipeline.Outcome.{Returns-eq, ◌>>=◌}
use qemu_pipeline.Memory.{Block}
use qemu_pipeline.Efi.Guid.{Guid, IsGuid}
use qemu_pipeline.Support.{Chars, str_size}
use qemu_pipeline.Wide.Laws.{cut}
use qemu_pipeline.Driver.Tee.{
  TeeClient, Reply, Operation, memref_temp_input, memref_temp_output, value_output, unused,
}
use qemu_pipeline.Driver.State.{Driver, IsReady}
use qemu_pipeline.Driver.State.Laws.{SameShape}
use qemu_pipeline.Driver.Invoke.{Invoked, invoke_command, status_of}
use qemu_pipeline.Driver.Request.Laws.{IsGetParam}
use qemu_pipeline.Driver.Get.{
  get_receive, get_send, get_sized, get_checked, get_variable, too_long, no_room, no_buffers,
  first_char, with_param, with_result,
}
use qemu_pipeline.Driver.Get.Laws.{CanTake, get_answer, returned, get_receive_lem}
use qemu_pipeline.Driver.Get.Safety.{IsString, GetSent, get_send-GetSent}

-- The operation of a request for a variable.
abbrev pub get_operation : Block → ℕ → Block → ℕ → Operation
get_operation request request_size cleared answer_size = record {
  param_types = memref_temp_input ∷ memref_temp_output ∷ value_output ∷ unused ∷ [];
  input = some request;
  input_size = request_size;
  output = some cleared;
  output_size = answer_size;
}

-- The caller does not use the test hook.
abbrev pub is_hook : Chars → Guid → ℕ → Bool
is_hook name vendor size = (first_char name == 1) && (vendor.data1 == 1) && (size == 4)

-- A call that passes every test: an open session, allocated buffers, a well-formed name and GUID, a
-- data buffer as long as it says, not the hook, and room for both structures.
pub record IsAccepted {W : Type 0} (name : Chars) (g : Guid) (n : ℕ) (b : Option Block)
    (d : Driver W) : Type 0 where
  pub opened : d.session_opened ≡ true
  pub string : IsString name
  pub guid : IsGuid g
  pub take : CanTake b n
  pub not_hook : is_hook name g n ≡ false
  pub fits : 28 + str_size name ≤ d.param_mem.size
  pub holds : 16 + n ≤ d.result_mem.size

-- The driver after the TA has replied to the request.
abbrev pub driver_after : {W : Type 0} → Driver W → Block → Block → Reply W → Driver W
driver_after d request cleared reply =
    record (with_result (record cleared { bytes = reply.output }) (with_param request d)) {
      world = reply.world;
    }

abbrev pub reply_to : {W : Type 0} → TeeClient W → Driver W → Chars → ℕ → Block → Block → Reply W
reply_to tee d name size request cleared =
    tee.invoke_command d.world d.session_id 0
      (get_operation request (28 + str_size name) cleared (16 + size))

given_of_take :
    (size : ℕ) (contents : Option Block)
    → CanTake contents size
    → (not (size == 0) && is_none contents) ≡ false
given_of_take size none take = ground arith
given_of_take size (some b) take = ground arith

module _ {W : Type 0} (tee : TeeClient W) (name : Chars) (vendor : Guid) (attributes : Option ℕ)
    (size : ℕ) (contents : Option Block) (d : Driver W) (h : IsReady d)
    (a : IsAccepted name vendor size contents d) where
  passes :
      ((not (size == 0) && is_none contents) ≡ false)
      × (not d.session_opened ≡ false)
      × (no_buffers d ≡ false)
      × (too_long (str_size name) size d ≡ false)
      × (no_room (u32 (28 + str_size name)) (u32 (16 + size)) d ≡ false)
  passes = (
    given_of_take size contents a.take,
    rw a.opened,
    rw (h.param_IsBuffer.buffer, h.result_IsBuffer.buffer),
    ground (arith, a.fits, a.holds),
    ground (arith, a.fits, a.holds, h.param_small, h.result_small),
  )

  accepted :
      get_variable tee (some name) (some vendor) attributes (some size) contents d
      ≡ (get_send tee name vendor size d >>= λ r. get_receive attributes size contents r)
  unfolding get_variable get_checked get_sized
  accepted = rw (passes.0, a.not_hook, passes.1, passes.2, passes.3, passes.4)

  -- What such a call comes to: the request and the cleared result buffer that the TA is given, and
  -- what the caller gets from its reply.
  pub record IsAnswered : Type 0 where
    pub request : Block
    pub cleared : Block
    pub decodes : IsGetParam request (u16 (str_size name)) vendor (cut name)
    pub zero : (i : ℕ) → i < d.result_mem.size → cleared.bytes i ≡ 0
    pub request_shape : SameShape h.param request
    pub cleared_shape : SameShape h.result cleared
    pub answer : get_variable tee (some name) (some vendor) attributes (some size) contents d ≡ (
        let reply = reply_to tee d name size request cleared in
        returned
          (get_answer attributes size contents
            (status_of reply.result)
            (u32 reply.value_a)
            (record cleared { bytes = reply.output }))
          (driver_after d request cleared reply))

  -- The sums of sizes do not wrap.
  unwrapped : (u32 (28 + str_size name) ≡ 28 + str_size name) × (u32 (16 + size) ≡ 16 + size)
  unwrapped = omega (arith, a.fits, a.holds, h.param_small, h.result_small)

  from_sent :
      (r : Invoked W) (sent : GetSent tee name vendor size d h r)
      → get_receive attributes size contents r ≡ (
          let reply = reply_to tee d name size sent.request sent.cleared in
          returned
            (get_answer attributes size contents
              (status_of reply.result)
              (u32 reply.value_a)
              (record (sent.cleared) { bytes = reply.output }))
            (driver_after d sent.request sent.cleared reply))
  unfolding invoke_command
  from_sent r sent =
      rw (sent.invoked, unwrapped.0, unwrapped.1)
        (get_receive_lem attributes size contents _ (record (sent.cleared) { bytes = _ }) refl
          (omega (arith, a.holds, sent.cleared_shape.extent, h.result_IsBuffer.extent)) a.take)

  -- Every call that passes the tests is so answered.
  pub get_variable-IsAnswered : IsAnswered
  get_variable-IsAnswered =
      let (r, e, sent) =
        Returns-eq (get_send-GetSent tee name vendor size d h a.guid a.string a.fits) in
      record {
        request = sent.request;
        cleared = sent.cleared;
        decodes = sent.decodes;
        zero = sent.zero;
        request_shape = sent.request_shape;
        cleared_shape = sent.cleared_shape;
        answer = accepted ∙ rw e (from_sent r sent);
      }
