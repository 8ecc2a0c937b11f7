-- ===== src/Driver/GetNext/Safety.antt =====
-- GetNextVariableName on a TA that returns well-formed names: no access outside an object, and what
-- the caller finds.
use qemu_pipeline.Base.{
  ℕ, ◌+◌, ◌*◌, ◌/◌, ◌≤◌, ◌≡◌, ◌≢◌, inl, inr, ◌∙◌, ap, false, not, Option, some, [], ◌∷◌, All,
  Bool-cases, ◌==◌, arith, u32, length,
}
use qemu_pipeline.Outcome.{ok, mono, Safe, safe, Safe-bind, Safe-mono, Returns-Safe, ◌>>=◌}
use qemu_pipeline.Memory.{Block, read32, deref}
use qemu_pipeline.Efi.Guid.{Guid, IsGuid}
use qemu_pipeline.Support.{Chars}
use qemu_pipeline.Wide.Laws.{HasChars}
use qemu_pipeline.Driver.Tee.{TeeClient}
use qemu_pipeline.Driver.State.{Driver, IsReady}
use qemu_pipeline.Driver.State.Laws.{IsSound, IsReady_of_buffers}
use qemu_pipeline.Driver.Invoke.{Invoked}
use qemu_pipeline.Driver.Get.{no_buffers, too_long, no_room}
use qemu_pipeline.Driver.Get.Safety.{IsString, str_size-eq}
use qemu_pipeline.Driver.GetNext.{
  chars_from, NextResult, name_size_in, next_decode, next_receive, next_checked,
  get_next_variable_name,
}
use qemu_pipeline.Driver.GetNext.Decode.{
  IsNext, chars_from-ok, next_decode-success, next_decode-error,
}
use qemu_pipeline.Driver.GetNext.Sent.{
  NamesVariables, NextSent, next_send-NextSent, NextSent-IsSound, IsGiven, NextSent-answer,
}

module _ {W : Type 0} (tee : TeeClient W) where
  -- The tests of sizes leave room for the name in the request and for the answer.
  next_fits :
      (cs : Chars) (size : ℕ) (d : Driver W)
      → IsString cs
      → IsReady d
      → too_long (name_size_in cs) (size / 2) d ≡ false
      → no_room (u32 (28 + name_size_in cs)) (u32 (28 + size / 2)) d ≡ false
      → (24 + 2 * (length cs + 1) ≤ d.param_mem.size) × (28 + size / 2 ≤ d.result_mem.size)
  next_fits [] size d s h short room = ground (arith, h.param_small, h.result_small)
  next_fits (c ∷ cs) size d s h short room =
      ground (arith, str_size-eq (c ∷ cs) s, h.param_small, h.result_small)

  -- Where the call has succeeded, the TA has been asked for the variable behind the caller's, and
  -- what the caller finds is the one in its answer.
  abbrev pub NextDone : Chars → Guid → Driver W → NextResult × Driver W → Type 0
  NextDone cs g d (out, d') =
      IsSound d'
      × (out.status ≡ 0
          → (answer : Block) × (us : Chars) × IsGiven tee cs g d d' answer us
            × IsNext answer out us)

  module _ {cs : Chars} {g : Guid} {d : Driver W} where
    next_decode-Safe :
        (size : ℕ) (name : Block) (vendor : Guid) (status result_size : ℕ) (left : Driver W)
        (answer : Block)
        → 28 + size / 2 ≤ answer.extent
        → size ≤ name.extent
        → IsSound left
        → (status ≡ 0 → (us : Chars) × IsGiven tee cs g d left answer us)
        → Safe (NextDone cs g d) (next_decode size name vendor status result_size left answer)
    next_decode-Safe size name vendor status result_size left answer fits room sound given =
        elim (Bool-cases (status == 0)) [
          | inl done ↦
              let e : status ≡ 0 = ground arith in
              let (us, t) = given e in
              rw e (
                Returns-Safe (
                  mono
                    (next_decode-success size name vendor result_size left answer us fits room
                      t.named)
                    λ (out, d') (same, next).
                      (rw same sound, λ ok. (answer, us, rw same t, next ok))))
          | inr failed ↦
              Safe-mono
                (next_decode-error size name vendor status result_size left answer (ground arith))
                λ (out, d') (same, status, _). (rw same sound, λ ok. absurd (ground arith))
        ]

    next_receive-Safe :
        {size : ℕ} {h : IsReady d} {r : Invoked W} (name : Block) (vendor : Guid)
        → NamesVariables tee
        → NextSent tee cs g size d h r
        → 28 + size / 2 ≤ d.result_mem.size
        → size ≤ name.extent
        → Safe (NextDone cs g d) (next_receive size name vendor r)
    unfolding next_receive
    next_receive-Safe {size} {r} name vendor t sent holds room =
        let (answer, there, long, given) = NextSent-answer tee t sent in
        received r.driver.result_mem.buffer answer there (
          next_decode-Safe size name vendor r.status r.result_size r.driver answer (omega arith)
            room (NextSent-IsSound tee sent) given)
      where
        received :
            (o : Option Block) (answer : Block)
            → o ≡ some answer
            → Safe
                (NextDone cs g d)
                (next_decode size name vendor r.status r.result_size r.driver answer)
            → Safe
                (NextDone cs g d)
                (deref o >>= next_decode size name vendor r.status r.result_size r.driver)
        received o answer e h = rw e h

  -- GetNextVariableName, with a caller whose name is terminated within its buffer and whose buffer
  -- is as long as it says, and a TA that returns terminated names, accesses no memory outside the
  -- objects it is given; on success the TA has been sent a request that decodes to the caller's
  -- GUID and its name cut to 16 bits a character, and the caller finds the name in the answer of
  -- the TA, which is in the result buffer, widened, its size in bytes, and the GUID in that answer.
  -- A failing ASSERT is its only other end.
  pub get_next_variable_name-Safe :
      (size : ℕ) (name : Block) (cs : Chars) (vendor : Guid) (d : Driver W)
      → NamesVariables tee
      → HasChars name cs
      → All (λ c. c ≢ 0) cs
      → IsString cs
      → 4 * (length cs + 1) ≤ name.extent
      → size ≤ name.extent
      → IsGuid vendor
      → IsSound d
      → Safe
          (NextDone cs vendor d)
          (get_next_variable_name tee (some size) (some name) (some vendor) d)
  unfolding get_next_variable_name next_checked
  get_next_variable_name-Safe size name cs vendor d t chars ne s ends room v h =
      elim (Bool-cases (not d.session_opened)) [
        | inl closed ↦ rw closed (safe (h, λ ok. absurd (omega arith)))
        | inr opened ↦ rw opened (elim (Bool-cases (no_buffers d)) [
          | inl missing ↦ rw missing (safe (h, λ ok. absurd (omega arith)))
          | inr buffers ↦
              rw (buffers, read_name)
                (elim (Bool-cases (too_long (name_size_in cs) (size / 2) d)) [
                  | inl long ↦ rw long (safe (h, λ ok. absurd (omega arith)))
                  | inr short ↦
                      rw short
                        (elim (Bool-cases
                          (no_room (u32 (28 + name_size_in cs)) (u32 (28 + size / 2)) d)) [
                            | inl full ↦ rw full (safe (h, λ ok. absurd (omega arith)))
                            | inr fits ↦
                                let ready = IsReady_of_buffers d h buffers in
                                let (asked, holds) = next_fits cs size d s ready short fits in
                                rw fits (
                                  Safe-bind
                                    (Returns-Safe
                                      (next_send-NextSent tee cs vendor size d ready v asked))
                                    λ r sent. next_receive-Safe name vendor t sent holds room)
                          ])
                ])
        ])
      ]
    where
      read_name : chars_from name.extent name 0 ≡ ok cs
      read_name =
          chars_from-ok cs name.extent name 0 ne
            (λ i le. ap (read32 name.bytes) (omega arith) ∙ chars i le) (omega arith) (omega arith)
