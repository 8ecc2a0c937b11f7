-- ===== src/Driver/GetNext/Replied.antt =====
-- GetNextVariableName with a call that passes every test: what has come back from the TA.
use qemu_pipeline.Base.{
  ℕ, ◌+◌, ◌*◌, ◌/◌, ◌≤◌, ◌≡◌, ◌≢◌, refl, sym, subst, ◌∙◌, ap, true, false, not, some, All, arith,
  u16, u32, length,
}
use qemu_pipeline.Outcome.{ok, Returns, Returns-eq, ◌>>=◌}
use qemu_pipeline.Memory.{Block, deref, read32}
use qemu_pipeline.Efi.Guid.{Guid, IsGuid}
use qemu_pipeline.Support.{Chars}
use qemu_pipeline.Wide.Laws.{HasChars, cut}
use qemu_pipeline.Driver.Tee.{TeeClient, Reply, Operation}
use qemu_pipeline.Driver.State.{Driver, IsReady}
use qemu_pipeline.Driver.Invoke.{invoke_command, Invoked, status_of}
use qemu_pipeline.Driver.Request.Laws.{IsGetParam}
use qemu_pipeline.Driver.Get.{no_buffers, too_long, no_room}
use qemu_pipeline.Driver.Get.Held.{SameSession, driver_after-IsReady}
use qemu_pipeline.Driver.Get.Answer.{get_operation}
use qemu_pipeline.Driver.Get.Safety.{IsString}
use qemu_pipeline.Driver.GetNext.{
  chars_from, NextResult, name_size_in, next_decode, next_receive, next_send, next_checked,
  get_next_variable_name,
}
use qemu_pipeline.Driver.GetNext.Decode.{chars_from-ok}
use qemu_pipeline.Driver.GetNext.Sent.{NextSent, next_send-NextSent, name_size_in-eq}

module _ {W : Type 0} where
  pub received :
      {P : NextResult × Driver W → Type 0} (size : ℕ) (name : Block) (vendor : Guid) (r : Invoked W)
      (answer : Block)
      → r.driver.result_mem.buffer ≡ some answer
      → Returns P (next_decode size name vendor r.status r.result_size r.driver answer)
      → Returns P (next_receive size name vendor r)
  unfolding next_receive
  received {P} size name vendor r answer there h =
      subst
        (λ o. Returns P (deref o >>= next_decode size name vendor r.status r.result_size r.driver))
        (sym there) h

module _ {W : Type 0} (tee : TeeClient W) (cs : Chars) (vendor : Guid) where
  -- A call that passes every test.
  pub record IsAcceptedNext (size : ℕ) (name : Block) (d : Driver W) : Type 0 where
    pub opened : d.session_opened ≡ true
    pub chars : HasChars name cs
    pub nonzero : All (λ c. c ≢ 0) cs
    pub string : IsString cs
    pub ends : 4 * (length cs + 1) ≤ name.extent
    pub room : size ≤ name.extent
    pub guid : IsGuid vendor
    pub fits : 28 + 2 * (length cs + 1) ≤ d.param_mem.size
    pub holds : 28 + size / 2 ≤ d.result_mem.size

  -- What the TA answers, in the state of its world, to the request for the name after `cs`, with
  -- `room` bytes for the answer.
  pub record Answers (d : Driver W) (room : ℕ) (Q : Reply W → Type 0) : Type 0 where
    pub answers :
        (operation : Operation) (request : Block)
        → operation.input ≡ some request
        → operation.output_size ≡ room
        → IsGetParam request (u16 (name_size_in cs)) vendor (cut cs)
        → Q (tee.invoke_command d.world d.session_id 1 operation)

  -- What has come back from the TA.
  pub record Replied (Q : Reply W → Type 0) (d : Driver W) (r : Invoked W) : Type 0 where
    pub reply : Reply W
    pub holds : Q reply
    pub status : r.status ≡ status_of reply.result
    pub needed : r.result_size ≡ u32 reply.value_a
    pub answer : Block
    pub there : r.driver.result_mem.buffer ≡ some answer
    pub long : d.result_mem.size ≤ answer.extent
    pub bytes : answer.bytes ≡ reply.output
    pub ready : IsReady r.driver
    pub same : SameSession d r.driver
    pub world : r.driver.world ≡ reply.world

  module _ (size : ℕ) (name : Block) (d : Driver W) (h : IsReady d)
      (a : IsAcceptedNext size name d) where
    replied :
        {Q : Reply W → Type 0} (r : Invoked W)
        → Answers d (28 + size / 2) Q
        → NextSent tee cs vendor size d h r
        → Replied Q d r
    unfolding invoke_command
    replied r t sent =
        let operation =
          get_operation sent.request (u32 (28 + name_size_in cs)) h.result (u32 (28 + size / 2)) in
        let reply = tee.invoke_command d.world d.session_id 1 operation in
        rw sent.invoked (record {
          reply = reply;
          holds = t.answers operation sent.request refl unwrapped sent.decodes;
          status = refl;
          needed = refl;
          answer = record (h.result) { bytes = reply.output };
          there = refl;
          long = h.result_IsBuffer.extent;
          bytes = refl;
          ready =
              driver_after-IsReady d h sent.request h.result reply sent.request_shape
                (record { address = refl; extent = refl });
          same = record { opened = refl; param_size = refl; result_size = refl; published = refl };
          world = refl;
        })
      where
        unwrapped : u32 (28 + size / 2) ≡ 28 + size / 2
        unwrapped = omega (arith, a.holds, h.result_small)

    -- The tests that the call passes, with the name read.
    tests :
        (no_buffers d ≡ false)
        × (chars_from name.extent name 0 ≡ ok cs)
        × (too_long (name_size_in cs) (size / 2) d ≡ false)
        × (no_room (u32 (28 + name_size_in cs)) (u32 (28 + size / 2)) d ≡ false)
    tests = (
      rw (h.param_IsBuffer.buffer, h.result_IsBuffer.buffer),
      chars_from-ok cs name.extent name 0 a.nonzero
          (λ i le. ap (read32 name.bytes) (omega arith) ∙ a.chars i le) (omega (arith, a.ends))
          (omega (arith, a.ends)),
      ground (arith, name_size_in-eq tee cs a.string, a.fits, a.holds),
      ground
          (arith, name_size_in-eq tee cs a.string, a.fits, a.holds, h.param_small, h.result_small),
    )

    accepted :
        get_next_variable_name tee (some size) (some name) (some vendor) d
        ≡ (next_send tee cs vendor size d >>= next_receive size name vendor)
    unfolding get_next_variable_name next_checked
    accepted =
        let (buffers, chars, short, room) = tests in
        rw (not_closed, buffers, chars, short, room) refl
      where
        not_closed : not d.session_opened ≡ false
        not_closed = ap not a.opened

    -- The call sends its request, and what is made of the answer is its result.
    pub accepted-Replied :
        {Q : Reply W → Type 0}
        → Answers d (28 + size / 2) Q
        → (r : Invoked W) × Replied Q d r
          × (get_next_variable_name tee (some size) (some name) (some vendor) d
              ≡ next_receive size name vendor r)
    accepted-Replied t =
        let (r, e, sent) =
          Returns-eq (next_send-NextSent tee cs vendor size d h a.guid (omega (arith, a.fits))) in
        (r, replied r t sent, rw (accepted, e) refl)
