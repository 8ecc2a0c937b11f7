-- ===== src/Driver/Set/Answer.antt =====
-- SetVariable as a function of the TA's reply.
use qemu_pipeline.Base.{
  ℕ, ◌+◌, ◌≤◌, ◌<◌, ◌≡◌, ◌≢◌, ◌^◌, refl, ap, ◌∙◌, false, true, not, ◌&&◌, ◌||◌, Option, none, some,
  is_none, [], ◌∷◌, ◌==◌, leb, ltb, arith,
}
use qemu_pipeline.Outcome.{ok, Returns-eq, ◌>>=◌}
use qemu_pipeline.Memory.{Block}
use qemu_pipeline.Efi.Guid.{Guid, IsGuid}
use qemu_pipeline.Support.{Chars, str_size}
use qemu_pipeline.Wide.Laws.{cut}
use qemu_pipeline.Driver.Tee.{
  TeeClient, Reply, Operation, memref_temp_input, memref_temp_output, value_output, unused,
}
use qemu_pipeline.Driver.State.{Driver, IsReady}
use qemu_pipeline.Driver.Invoke.{invoke_command, status_of}
use qemu_pipeline.Driver.Get.{first_char}
use qemu_pipeline.Driver.Get.Laws.{CanTake}
use qemu_pipeline.Driver.Get.Safety.{IsString}
use qemu_pipeline.Driver.Get.Answer.{is_hook, driver_after}
use qemu_pipeline.Driver.Get.Held.{SameSession, driver_after-IsReady}
use qemu_pipeline.Driver.Set.{set_param_size, set_send, set_checked, set_variable}
use qemu_pipeline.Driver.Set.Laws.{IsSetParam}
use qemu_pipeline.Driver.Set.Safety.{set_send-SetSent}

-- The operation of a request to write a variable. The TA may write four bytes of an answer.
abbrev pub set_operation : Block → ℕ → Block → Operation
set_operation request request_size cleared = record {
  param_types = memref_temp_input ∷ memref_temp_output ∷ value_output ∷ unused ∷ [];
  input = some request;
  input_size = request_size;
  output = some cleared;
  output_size = 4;
}

module _ {W : Type 0} (tee : TeeClient W) (name : Chars) (vendor : Guid) (attributes size : ℕ)
    (source : Option Block) (d : Driver W) (h : IsReady d) where
  -- A call that passes every test: an open session, a well-formed name and GUID, a source as long
  -- as it says, not the hook, and room for the request.
  pub record IsAcceptedSet : Type 0 where
    pub opened : d.session_opened ≡ true
    pub named : first_char name ≢ 0
    pub string : IsString name
    pub guid : IsGuid vendor
    pub attributes_small : attributes < 2 ^ 32
    pub take : CanTake source size
    pub not_hook : is_hook name vendor size ≡ false
    pub fits : 44 + str_size name + size ≤ d.param_mem.size

  -- What such a call comes to: the request that the TA is given, and its reply.
  pub record IsAnsweredSet : Type 0 where
    pub request : Block
    pub cleared : Block
    pub decodes : IsSetParam request (str_size name) vendor (cut name) attributes size source
    pub reply : Reply W
    pub replied :
        reply
        ≡ tee.invoke_command d.world d.session_id 2
            (set_operation request (44 + str_size name + size) cleared)
    pub driver : Driver W
    pub ready : IsReady driver
    pub same : SameSession d driver
    pub world : driver.world ≡ reply.world
    pub answer :
        set_variable tee (some name) (some vendor) attributes size source d
        ≡ ok (status_of reply.result, driver)

  module _ (a : IsAcceptedSet) where
    source_given : (not (size == 0) && is_none source) ≡ false
    source_given = given source a.take
      where
        given : (o : Option Block) → CanTake o size → (not (size == 0) && is_none o) ≡ false
        given none take = ground arith
        given (some b) take = ground arith

    accepted :
        set_variable tee (some name) (some vendor) attributes size source d
        ≡ (set_send tee name vendor attributes size source d >>= λ r. ok (r.status, r.driver))
    unfolding set_variable set_checked
    accepted = rw (named, source_given, not_closed, a.not_hook, short, room) refl
      where
        named : (first_char name == 0) ≡ false
        named = ground (arith, a.named)

        not_closed : not d.session_opened ≡ false
        not_closed = ap not a.opened

        short : (leb d.param_mem.size (str_size name) || leb d.param_mem.size size) ≡ false
        short = ground (arith, a.fits)

        room : ltb d.param_mem.size (set_param_size name size) ≡ false
        room = ground (arith, a.fits, h.param_small)

    -- Every call that passes the tests is so answered.
    pub set_variable-IsAnsweredSet : IsAnsweredSet
    unfolding invoke_command
    set_variable-IsAnsweredSet =
        let (r, e, sent) = Returns-eq (
          set_send-SetSent tee name vendor attributes size source d h a.guid a.string
            a.attributes_small a.take a.fits) in
        let reply =
          tee.invoke_command d.world d.session_id 2
            (set_operation sent.request (set_param_size name size) sent.cleared) in
        record {
          request = sent.request;
          cleared = sent.cleared;
          decodes = sent.decodes;
          reply = reply;
          replied =
              ap
                (λ n.
                  tee.invoke_command d.world d.session_id 2
                    (set_operation sent.request n sent.cleared))
                unwrapped;
          driver = driver_after d sent.request sent.cleared reply;
          ready =
              driver_after-IsReady d h sent.request sent.cleared reply sent.request_shape
                sent.cleared_shape;
          same = record { opened = refl; param_size = refl; result_size = refl; published = refl };
          world = refl;
          answer = accepted ∙ rw (e, sent.invoked) refl;
        }
      where
        unwrapped : set_param_size name size ≡ 44 + str_size name + size
        unwrapped = omega (arith, a.fits, h.param_small)
