-- ===== src/Store/Next.antt =====
-- GetNextVariableName through the driver, against the store of the TA.
use qemu_pipeline.Base.{
  ℕ, ◌+◌, ◌*◌, ◌≤◌, ◌≡◌, refl, ap, ◌∙◌, some, List, [], ◌∷◌, inl, inr, Bool-cases, ltb, length,
  arith,
}
use qemu_pipeline.Outcome.{Outcome, ok, Returns, returns, bind, ◌>>=◌}
use qemu_pipeline.Memory.{Block, read32}
use qemu_pipeline.Efi.Guid.{Guid}
use qemu_pipeline.Support.{Chars}
use qemu_pipeline.Wide.Laws.{HasChars}
use qemu_pipeline.Wide.RoundTrip.{nonzero-narrow}
use qemu_pipeline.Firmware.Laws.{get_next_variable_name_published}
use qemu_pipeline.Driver.Tee.{TeeClient}
use qemu_pipeline.Driver.State.{Driver}
use qemu_pipeline.Driver.GetNext.{next_result, get_next_variable_name}
use qemu_pipeline.Driver.GetNext.Decode.{chars_from-ok}
use qemu_pipeline.Driver.GetNext.Ordered.{
  IsVariable, IsServing, get_next_variable_name-at_end, get_next_variable_name-too_small,
  get_next_variable_name-given,
}
use qemu_pipeline.Store.{
  VariableStore, next_call, Seen, seen_name, see_next, name_of, perform, next_answer, answer,
}
use qemu_pipeline.Store.Laws.{KeepsStore, IsValid, Refines}

module _ {W S : Type 0} (tee : TeeClient W) (Holds : W → Type 0) (store : W → S)
    (m : VariableStore S) (k : KeepsStore tee Holds store m) where
  module _ (name : Chars) (g : Guid) (size : ℕ) (b : Block) (d : Driver W)
      (s : IsServing tee Holds store m.after d)
      (v : IsValid tee Holds store m (next_call name g size b)) where
    -- The name that the caller finds in its buffer.
    found_name :
        (next : Chars × Guid) (c : Block) (n : ℕ)
        → IsVariable (next.0) (next.1)
        → HasChars c (next.0)
        → 4 * (length (next.0) + 1) ≤ c.extent
        → see_next (next_result 0 (some n) (some c) (some (next.1)))
          ≡ ok (seen_name (next.0) (next.1))
    unfolding see_next name_of
    found_name next c n w chars room =
        rw
          (chars_from-ok (next.0) c.extent c 0 (nonzero-narrow (next.0) w.narrow)
            (λ i le. ap (read32 c.bytes) (omega arith) ∙ chars i le) (omega (arith, room))
            (omega (arith, room)))
          refl

    called : Outcome (Seen × Driver W)
    called = do
      (out, f) ← get_next_variable_name tee (some size) (some b) (some g) d
      seen ← see_next out
      ok (seen, f)

    -- What the caller sees, by what is behind its name in the store.
    seen :
        (es : List (Chars × Guid))
        → m.after (store d.world) name g ≡ es
        → Returns
            (λ (seen, d').
              (seen ≡ next_answer size es)
              × (store d'.world ≡ store d.world)
              × IsServing tee Holds store m.after d')
            called
    unfolding called see_next
    seen [] e =
        bind
          (get_next_variable_name-at_end tee Holds store m.after k.order size b name g d s v.0 v.1
            e)
          λ (out, d') (status, s', same). rw status (returns (refl, same, s'))
    seen (next ∷ rest) e = elim (Bool-cases (ltb size (4 * (length (next.0) + 1)))) [
      | inl short ↦
          bind
            (get_next_variable_name-too_small tee Holds store m.after k.order size b name g d s v.0
              v.1 next rest e (ground arith))
            λ (out, d') (told, s', same). rw (told, short) (returns (refl, same, s'))
      | inr fits ↦
          bind
            (get_next_variable_name-given tee Holds store m.after k.order size b name g d s v.0 v.1
              next rest e (ground arith))
            λ (out, d') ((c, told, chars, extent), s', same).
              rw
                (
                  told,
                  found_name next c (4 * (length (next.0) + 1))
                      (k.order.listed d.world name g next rest s.holds e) chars
                      (ground (arith, extent, v.1.room)),
                  fits,
                )
                (returns (refl, same, s'))
    ]

    pub next_call-Refines : Refines tee Holds store m (next_call name g size b) d
    unfolding perform answer called
    next_call-Refines =
        rw (get_next_variable_name_published tee d s.published (some size) (some b) (some g))
          (seen (m.after (store d.world) name g) refl)
