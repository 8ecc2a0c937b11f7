-- ===== src/Driver/GetNext/Held.antt =====
-- GetNextVariableName by what the TA answers: the size that the name takes, the name, or the end.
use qemu_pipeline.Base.{
  ℕ, ◌+◌, ◌-◌, ◌*◌, ◌/◌, ◌^◌, ◌≤◌, ◌<◌, ◌≡◌, refl, subst, ◌∙◌, ap, some, le→leb, le→ltb, arith, u16,
  u32, length,
}
use qemu_pipeline.Outcome.{ok, Returns, returns, mono}
use qemu_pipeline.Memory.{Block}
use qemu_pipeline.Efi.Guid.{Guid, read_guid}
use qemu_pipeline.Support.{Chars}
use qemu_pipeline.Wide.Laws.{cut}
use qemu_pipeline.Driver.Tee.{success, item_not_found, short_buffer, TeeClient, Reply, Operation}
use qemu_pipeline.Driver.State.{Driver, IsReady}
use qemu_pipeline.Driver.Invoke.{Invoked, status_of}
use qemu_pipeline.Driver.Request.Laws.{IsGetParam}
use qemu_pipeline.Driver.Get.Held.{SameSession}
use qemu_pipeline.Driver.GetNext.{next_result, name_size_in, next_decode, get_next_variable_name}
use qemu_pipeline.Driver.GetNext.Decode.{IsName, IsNext, next_decode-full}
use qemu_pipeline.Driver.GetNext.Replied.{
  received, IsAcceptedNext, Answers, Replied, accepted-Replied,
}

-- A reply for a next name `us`: it needs 28 bytes more than the name with its terminator.
pub record IsNextReply {W : Type 0} (reply : Reply W) (room : ℕ) (us : Chars) : Type 0 where
  pub short :
      room < 28 + 2 * (length us + 1)
      → (reply.result ≡ short_buffer) × (reply.value_a ≡ 28 + 2 * (length us + 1))
  pub full :
      28 + 2 * (length us + 1) ≤ room
      → (reply.result ≡ success) × ((b : Block) → b.bytes ≡ reply.output → IsName b us)

module _ {W : Type 0} where
  decode_short :
      (size : ℕ) (name : Block) (vendor : Guid) (status needed : ℕ) (d : Driver W) (answer : Block)
      (k : ℕ)
      → status ≡ 5
      → needed ≡ 28 + k
      → 2 * k < 2 ^ 32
      → next_decode size name vendor status needed d answer
        ≡ ok (next_result 5 (some (2 * k)) (some name) (some vendor), d)
  unfolding next_decode
  decode_short size name vendor status needed d answer k e n small =
      rw (e, n, le→leb 28 (28 + k) (omega arith))
        (ap (λ m. ok (next_result 5 (some m) (some name) (some vendor), d)) (doubled k small))
    where
      doubled : (k : ℕ) → 2 * k < 2 ^ 32 → u32 ((28 + k - 28) * 2) ≡ 2 * k
      doubled k small = omega arith

  decode_full :
      (size : ℕ) (name : Block) (vendor : Guid) (status needed : ℕ) (d : Driver W) (answer : Block)
      (us : Chars)
      → status ≡ 0
      → 28 + size / 2 ≤ answer.extent
      → size ≤ name.extent
      → IsName answer us
      → 2 * (length us + 1) ≤ size / 2
      → Returns
          (λ (out, d').
            (d' ≡ d)
            × (out.status ≡ 0)
            × IsNext answer out us
            × ((b : Block) × (out.name ≡ some b) × (b.extent ≡ name.extent)))
          (next_decode size name vendor status needed d answer)
  decode_full size name vendor status needed d answer us e fits room h enough = rw e (
      next_decode-full size name vendor needed d answer us fits room h
        (le→ltb (size / 2) (2 * (length us + 1)) enough))

module _ {W : Type 0} (tee : TeeClient W) (cs : Chars) (vendor : Guid) where
  -- The reply for the variable `us` of the GUID `g`, which is in the answer where the name fits.
  abbrev pub IsVariableReply : Chars → Guid → ℕ → Reply W → Type 0
  IsVariableReply us g room reply =
      IsNextReply reply room us × (28 + 2 * (length us + 1) ≤ room → read_guid reply.output 8 ≡ g)

  -- The TA gives `us` with the GUID `g` as the variable after `cs`.
  pub record GivesNext (us : Chars) (g : Guid) : Type 0 where
    pub gives :
        (w : W) (session : ℕ) (operation : Operation) (request : Block)
        → operation.input ≡ some request
        → IsGetParam request (u16 (name_size_in cs)) vendor (cut cs)
        → IsVariableReply us g operation.output_size (tee.invoke_command w session 1 operation)

  pub GivesNext-Answers :
      (us : Chars) (g : Guid) (d : Driver W) (room : ℕ)
      → GivesNext us g
      → Answers tee cs vendor d room (IsVariableReply us g room)
  GivesNext-Answers us g d room t = record {
    answers = λ operation request there e decodes.
        subst (λ k. IsVariableReply us g k (tee.invoke_command d.world d.session_id 1 operation)) e
          (t.gives d.world d.session_id operation request there decodes);
  }

  -- After the call the driver is ready, in the same session, and in the world that the TA has left,
  -- of whose reply `Q` holds.
  pub record IsAfter (Q : Reply W → Type 0) (d d' : Driver W) : Type 0 where
    pub ready : IsReady d'
    pub same : SameSession d d'
    pub reply : Reply W
    pub holds : Q reply
    pub world : d'.world ≡ reply.world

  abbrev Replied-IsAfter :
      {Q : Reply W → Type 0} {d : Driver W} {r : Invoked W}
      → (p : Replied tee cs vendor Q d r) → IsAfter Q d r.driver
  Replied-IsAfter p = record {
    ready = p.ready;
    same = p.same;
    reply = p.reply;
    holds = p.holds;
    world = p.world;
  }

  module _ (size : ℕ) (name : Block) (d : Driver W) (h : IsReady d)
      (a : IsAcceptedNext tee cs vendor size name d) {Q : Reply W → Type 0}
      (t : Answers tee cs vendor d (28 + size / 2) Q) where
    -- A buffer too short for the name: the caller is told the size that it takes.
    pub get_next_variable_name-short :
        (us : Chars)
        → ((reply : Reply W) → Q reply → IsNextReply reply (28 + size / 2) us)
        → size / 2 < 2 * (length us + 1)
        → length us + 1 < 2 ^ 28
        → Returns
            (λ (out, d').
              (out ≡ next_result 5 (some (4 * (length us + 1))) (some name) (some vendor))
              × IsAfter Q d d')
            (get_next_variable_name tee (some size) (some name) (some vendor) d)
    unfolding status_of
    get_next_variable_name-short us named less small =
        let (r, p, e) = accepted-Replied tee cs vendor size name d h a t in
        let (failed, needs) = (named p.reply p.holds).short (omega arith) in
        rw e (
          received size name vendor r p.answer p.there (
            rw
              (decode_short size name vendor r.status r.result_size r.driver p.answer
                (2 * (length us + 1)) (p.status ∙ ap status_of failed)
                (p.needed ∙ ap (λ v. u32 v) needs ∙ omega arith) (omega arith))
              (returns (
                ap (λ k. next_result 5 (some k) (some name) (some vendor)) (four (length us + 1)),
                Replied-IsAfter p,
              ))))
      where
        four : (n : ℕ) → 2 * (2 * n) ≡ 4 * n
        four n = omega arith

    -- A buffer with room for it: the caller finds the name, its size and its GUID.
    pub get_next_variable_name-IsNext :
        (us : Chars)
        → ((reply : Reply W) → Q reply → IsNextReply reply (28 + size / 2) us)
        → 2 * (length us + 1) ≤ size / 2
        → Returns
            (λ (out, d').
              (out.status ≡ 0)
              × (after : IsAfter Q d d') × (answer : Block) × IsNext answer out us
              × (answer.bytes ≡ after.reply.output)
              × ((b : Block) × (out.name ≡ some b) × (b.extent ≡ name.extent)))
            (get_next_variable_name tee (some size) (some name) (some vendor) d)
    unfolding status_of
    get_next_variable_name-IsNext us named enough =
        let (r, p, e) = accepted-Replied tee cs vendor size name d h a t in
        let (done, full) = (named p.reply p.holds).full (omega arith) in
        rw e (
          received size name vendor r p.answer p.there (
            mono
              (decode_full size name vendor r.status r.result_size r.driver p.answer us
                (p.status ∙ ap status_of done) (omega (arith, p.long, a.holds)) a.room
                (full p.answer p.bytes) enough)
              λ (out, d') (same, status, next, kept).
                rw same (status, Replied-IsAfter p, p.answer, next, p.bytes, kept)))

    -- At the end of the TA's variables the caller is told EFI_NOT_FOUND.
    pub get_next_variable_name-end :
        ((reply : Reply W) → Q reply → reply.result ≡ item_not_found)
        → Returns
            (λ (out, d'). (out.status ≡ 14) × IsAfter Q d d')
            (get_next_variable_name tee (some size) (some name) (some vendor) d)
    unfolding status_of next_decode
    get_next_variable_name-end ended =
        let (r, p, e) = accepted-Replied tee cs vendor size name d h a t in
        let status : r.status ≡ 14 = p.status ∙ ap status_of (ended p.reply p.holds) in
        rw e (
          received size name vendor r p.answer p.there
            (rw status (returns (refl, Replied-IsAfter p))))
