-- ===== src/Cli/Command/Get.antt =====
-- `get` on the command line, with a TA that holds the variable.
use qemu_pipeline.Base.{ℕ, ◌+◌, ◌≤◌, ◌<◌, ◌≡◌, refl, ◌∙◌, true, false, none, some, le→leb, arith}
use qemu_pipeline.Outcome.{ok, Returns, returns, bind}
use qemu_pipeline.Memory.{Bytes, Block}
use qemu_pipeline.Efi.Guid.{Guid, IsGuid}
use qemu_pipeline.Support.{Chars, str_size}
use qemu_pipeline.Driver.Tee.{TeeClient}
use qemu_pipeline.Driver.State.{Driver, IsReady}
use qemu_pipeline.Driver.Get.Safety.{IsString}
use qemu_pipeline.Driver.Get.Answer.{IsAccepted, is_hook}
use qemu_pipeline.Driver.Get.Held.{
  HoldsVariable, HoldsVariable-reply, SameSession, held-short, held-full,
}
use qemu_pipeline.Pool.{Allocator}
use qemu_pipeline.Cli.Command.{variable, print_contents, process_get}

print_contents-ok : (b : Block) (n : ℕ) → n ≤ b.extent → print_contents (some b) n ≡ ok tt
unfolding print_contents
print_contents-ok b n h = rw (le→leb n b.extent h) refl

SameSession-trans :
    {W : Type 0} {a b c : Driver W} → SameSession a b → SameSession b c → SameSession a c
SameSession-trans p q = record {
  opened = q.opened ∙ p.opened;
  param_size = q.param_size ∙ p.param_size;
  published = q.published ∙ p.published;
  result_size = q.result_size ∙ p.result_size;
}

-- A name and a GUID that are no request for the test hook.
pub record IsPlain (name : Chars) (vendor : Guid) : Type 0 where
  pub string : IsString name
  pub guid : IsGuid vendor
  pub not_hook : (size : ℕ) → is_hook name vendor size ≡ false

module _ {W : Type 0} (tee : TeeClient W) (heap : Allocator) (name : Chars) (vendor : Guid)
    (held n : ℕ) (payload : Bytes) where
  -- With a TA that holds a variable of one byte or more, an open session, room for the variable and
  -- an allocator that gives as much as is asked for, `get` succeeds and prints the variable: its
  -- GUID and name, the attributes and the contents that the TA holds.
  pub process_get-held :
      (attributes : ℕ) (d : Driver W) (h : IsReady d) (b : Block)
      → HoldsVariable tee name vendor held n payload
      → IsPlain name vendor
      → d.session_opened ≡ true
      → 28 + str_size name ≤ d.param_mem.size
      → 16 + n ≤ d.result_mem.size
      → 0 < n
      → heap.malloc n ≡ some b
      → n ≤ b.extent
      → Returns
          (λ (status, shown, d').
            (status ≡ 0)
            × ((c : Block) × (shown ≡ variable vendor name held n (some c))
                × ((i : ℕ) → i < n → c.bytes i ≡ payload i))
            × IsReady d'
            × SameSession d d')
          (process_get tee heap (some vendor) (some name) attributes d)
  unfolding process_get
  process_get-held attributes d h b t p opened fits holds some_bytes given room =
      bind
        (held-short tee name vendor 0 none d h first (some attributes) held n payload
          (HoldsVariable-reply tee name vendor held n payload t attributes 0 none d h first)
          (omega (arith, h.result_small)) some_bytes)
        λ (out, d') (answer, left).
          let h' = left.ready in
          let same = left.same in
          rw (answer, given)
            (bind
              (held-full tee name vendor n (some b) d' h' (second d' same) (some held) held n
                payload
                (HoldsVariable-reply tee name vendor held n payload t held n (some b) d' h'
                  (second d' same))
                (omega (arith, h.result_small)) (omega arith))
              λ (out, d'') (status, attributes, count, contents, left').
                let (c, there, long, bytes) = contents b refl in
                rw (status, attributes, count, there, print_contents-ok c n (omega arith))
                  (returns
                    (refl, (c, refl, bytes), left'.ready, SameSession-trans same left'.same)))
    where
      first : IsAccepted name vendor 0 none d
      first = record {
        opened = opened;
        string = p.string;
        guid = p.guid;
        take = refl;
        not_hook = p.not_hook 0;
        fits = fits;
        holds = omega arith;
      }

      second : (d' : Driver W) → SameSession d d' → IsAccepted name vendor n (some b) d'
      second d' same = record {
        opened = same.opened ∙ opened;
        string = p.string;
        guid = p.guid;
        take = room;
        not_hook = p.not_hook n;
        fits = omega (arith, same.param_size);
        holds = omega (arith, same.result_size);
      }
