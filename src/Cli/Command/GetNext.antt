-- ===== src/Cli/Command/GetNext.antt =====
-- The loop of `getnext` on the command line: it ends.
use qemu_pipeline.Base.{
  ℕ, suc, ◌+◌, ◌*◌, ◌/◌, ◌^◌, ◌≤◌, ◌<◌, ◌≡◌, ◌≢◌, inl, inr, refl, ap, ◌∙◌, true, false, Bool-cases,
  Option, some, All, length, ltb, ◌==◌, arith,
}
use qemu_pipeline.Outcome.{Outcome, ok, Returns-eq}
use qemu_pipeline.Memory.{Block, read32}
use qemu_pipeline.Efi.Guid.{Guid, IsGuid, read_guid}
use qemu_pipeline.Support.{Chars}
use qemu_pipeline.Wide.Laws.{HasChars, widen}
use qemu_pipeline.Driver.Tee.{TeeClient}
use qemu_pipeline.Driver.State.{Driver, IsReady}
use qemu_pipeline.Driver.Get.Held.{SameSession}
use qemu_pipeline.Driver.Get.Safety.{IsString}
use qemu_pipeline.Driver.GetNext.{NextResult, next_result, get_next_variable_name}
use qemu_pipeline.Driver.GetNext.Replied.{IsAcceptedNext}
use qemu_pipeline.Driver.GetNext.Held.{
  GivesNext, GivesNext-Answers, get_next_variable_name-short, get_next_variable_name-IsNext,
}
use qemu_pipeline.Pool.{Allocator, Reallocates}
use qemu_pipeline.Cli.Command.{next_loop}

module _ {W : Type 0} (tee : TeeClient W) (heap : Allocator) (cs : Chars) (vendor : Guid)
    (us : Chars) (g : Guid) where
  -- What the loop needs: the caller's name and GUID are well-formed, the session is open, and both
  -- names fit the transport buffers.
  pub record CanAsk (b : Block) (d : Driver W) : Type 0 where
    pub opened : d.session_opened ≡ true
    pub chars : HasChars b cs
    pub nonzero : All (λ c. c ≢ 0) cs
    pub string : IsString cs
    pub ends : 4 * (length cs + 1) ≤ b.extent
    pub guid : IsGuid vendor
    pub fits : 28 + 2 * (length cs + 1) ≤ d.param_mem.size
    pub holds : 28 + 2 * (length us + 1) ≤ d.result_mem.size

  -- After realloc to a size that keeps the name, the call is accepted.
  reallocated :
      (r : Reallocates heap) (b : Block) (n : ℕ) (d : Driver W)
      → CanAsk b d
      → 4 * (length cs + 1) ≤ n
      → 28 + n / 2 ≤ d.result_mem.size
      → IsAcceptedNext tee cs vendor n (r.moved b n).0 d
  unfolding read32
  reallocated r b n d a keeps holds =
      let (c, _, long, same) = r.moved b n in
      record {
        opened = a.opened;
        chars = λ i le. ground (
          arith,
          a.chars i le,
          a.ends,
          same (4 * i),
          same (4 * i + 1),
          same (4 * i + 2),
          same (4 * i + 3),
        );
        nonzero = a.nonzero;
        string = a.string;
        ends = omega arith;
        room = long;
        guid = a.guid;
        fits = a.fits;
        holds = holds;
      }

  -- One round, by what the call returns.
  round_done :
      (fuel : ℕ) (b c : Block) (n : ℕ) (d d' : Driver W) (out : NextResult)
      → heap.realloc (some b) n ≡ some c
      → get_next_variable_name tee (some n) (some c) (some vendor) d ≡ ok (out, d')
      → out.status ≡ 0
      → next_loop tee heap (suc fuel) (some b) n (some vendor) d ≡ some (ok (out, d'))
  unfolding next_loop
  round_done fuel b c n d d' out moved e done = rw (next_loop, moved, e, status) refl
    where
      status : (out.status == 5) ≡ false
      status = ground arith

  round_again :
      (fuel : ℕ) (b c : Block) (n k : ℕ) (d d' : Driver W) (out : NextResult)
      → heap.realloc (some b) n ≡ some c
      → get_next_variable_name tee (some n) (some c) (some vendor) d ≡ ok (out, d')
      → out ≡ next_result 5 (some k) (some c) (some vendor)
      → next_loop tee heap (suc fuel) (some b) n (some vendor) d
        ≡ next_loop tee heap fuel (some c) k (some vendor) d'
  unfolding next_loop
  round_again fuel b c n k d d' out moved e short = rw (next_loop, moved, e, short) refl

  -- The result of the loop: the name `us`, in the caller's encoding, its size in bytes, and the
  -- GUID `g`.
  pub record HasNext (run : Option (Outcome (NextResult × Driver W))) : Type 0 where
    pub out : NextResult
    pub driver : Driver W
    pub ends : run ≡ some (ok (out, driver))
    pub status : out.status ≡ 0
    pub name_size : out.name_size ≡ some (4 * (length us + 1))
    pub name : (b : Block) × (out.name ≡ some b) × HasChars b (widen us)
    pub guid : out.vendor ≡ some g
    pub ready : IsReady driver

  module _ (t : GivesNext tee cs vendor us g) (r : Reallocates heap) where
    round_full :
        (fuel : ℕ) (b : Block) (n : ℕ) (d : Driver W) (h : IsReady d)
        → CanAsk b d
        → 4 * (length cs + 1) ≤ n
        → 28 + n / 2 ≤ d.result_mem.size
        → 2 * (length us + 1) ≤ n / 2
        → HasNext (next_loop tee heap (suc fuel) (some b) n (some vendor) d)
    round_full fuel b n d h a keeps holds enough =
        let (c, moved, _, _) = r.moved b n in
        let ((out, d'), e, (status, left, answer, next, bytes, _)) = Returns-eq (
          get_next_variable_name-IsNext tee cs vendor n c d h (reallocated r b n d a keeps holds)
            (GivesNext-Answers tee cs vendor us g d (28 + n / 2) t) us (λ reply p. p.0) enough) in
        record {
          out = out;
          driver = d';
          ends = round_done fuel b c n d d' out moved e status;
          status = status;
          name_size = next.name_size;
          name = next.name;
          guid =
              next.vendor
              ∙ ap (λ m. some (read_guid m 8)) bytes
              ∙ ap (λ k. some k) (left.holds.1 (omega (arith, enough)));
          ready = left.ready;
        }

    -- The loop ends after two rounds at most, with the name that the TA gives for the caller's,
    -- converted, its size and the GUID that the TA gives with it: the first round asks for the size
    -- where the buffer is too short for it. The TA needs 28 bytes more than the name, the session
    -- is open, the caller's name is terminated in its buffer, both names fit the transport buffers,
    -- and realloc gives as much as is asked for and keeps the contents.
    pub next_loop-HasNext :
        (fuel : ℕ) (b : Block) (n : ℕ) (d : Driver W) (h : IsReady d)
        → CanAsk b d
        → 4 * (length cs + 1) ≤ n
        → 28 + n / 2 ≤ d.result_mem.size
        → length us + 1 < 2 ^ 28
        → HasNext (next_loop tee heap (suc (suc fuel)) (some b) n (some vendor) d)
    next_loop-HasNext fuel b n d h a keeps holds small =
        elim (Bool-cases (ltb (n / 2) (2 * (length us + 1)))) [
          | inr enough ↦ round_full (suc fuel) b n d h a keeps holds (ground arith)
          | inl less ↦
              let (c, moved, _, _) = r.moved b n in
              let accepted = reallocated r b n d a keeps holds in
              let ((out, d'), e, (short, left)) = Returns-eq (
                get_next_variable_name-short tee cs vendor n c d h accepted
                  (GivesNext-Answers tee cs vendor us g d (28 + n / 2) t) us (λ reply p. p.0)
                  (ground arith) small) in
              let same = left.same in
              rw (round_again (suc fuel) b c n (4 * (length us + 1)) d d' out moved e short) (
                round_full fuel c (4 * (length us + 1)) d' left.ready (still accepted a same)
                  (ground arith) (omega (arith, a.holds, same.result_size)) (omega arith))
        ]
      where
        still :
            {b c : Block} {d d' : Driver W} {n : ℕ}
            → IsAcceptedNext tee cs vendor n c d
            → CanAsk b d
            → SameSession d d'
            → CanAsk c d'
        still p a same = record {
          opened = same.opened ∙ a.opened;
          chars = p.chars;
          nonzero = a.nonzero;
          string = a.string;
          ends = p.ends;
          guid = a.guid;
          fits = omega (arith, a.fits, same.param_size);
          holds = omega (arith, a.holds, same.result_size);
        }
