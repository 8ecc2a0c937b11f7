-- ===== src/Cli/Options/Strip.antt =====
-- The loop of get_guid that takes the spaces out of a text, in place.
use qemu_pipeline.Base.{
  ℕ, suc, ◌+◌, ◌≡◌, ◌≢◌, inl, inr, refl, sym, false, ◌∙◌, ap, ap₂, length-append, Bool-cases, [],
  ◌∷◌, ◌++◌, All, length, get_or, ◌==◌, if◌then◌else◌, arith,
}
use qemu_pipeline.Outcome.{Returns, returns, mono}
use qemu_pipeline.Cli.Options.{Word, write_at, strip_loop, text_of}

-- A text without its spaces.
unfoldable pub without_spaces : Word → Word
without_spaces [] = []
without_spaces (c ∷ w) = if c == b' ' then without_spaces w else c ∷ without_spaces w

abbrev pub IsText : Word → Type 0
IsText w = All (λ c. c ≢ 0) w

-- A write behind a prefix, and a read behind two.
write_at-append :
    (kept : Word) (x : ℕ) (t : Word) (c : ℕ)
    → write_at (kept ++ x ∷ t) (length kept) c ≡ kept ++ c ∷ t
unfolding write_at
write_at-append [] x t c = refl
write_at-append (k ∷ kept) x t c = ap (λ w. k ∷ w) (write_at-append kept x t c)

get_or-append : (kept : Word) (y : ℕ) (t : Word) → get_or (kept ++ y ∷ t) (length kept) 0 ≡ y
get_or-append [] y t = refl
get_or-append (k ∷ kept) y t = get_or-append kept y t

text_of-append : (kept t : Word) → IsText kept → text_of (kept ++ 0 ∷ t) ≡ kept
unfolding text_of
text_of-append [] t h = refl
text_of-append (k ∷ kept) t h = ground (arith, text_of-append kept t h.1, h.0)

append_assoc : (a b c : Word) → (a ++ b) ++ c ≡ a ++ (b ++ c)
append_assoc [] b c = refl
append_assoc (x ∷ a) b c = ap (λ w. x ∷ w) (append_assoc a b c)

append_nil : (a : Word) → a ++ [] ≡ a
append_nil [] = refl
append_nil (x ∷ a) = ap (λ w. x ∷ w) (append_nil a)

-- What lies between the two offsets after `c` has been moved down.
shift : Word → ℕ → Word
shift [] c = []
shift (x ∷ junk) c = junk ++ c ∷ []

length-shift : (junk : Word) (c : ℕ) → length (shift junk c) ≡ length junk
unfolding shift
length-shift [] c = refl
length-shift (x ∷ junk) c = omega (arith, length-append junk (c ∷ []))

read_step :
    (kept junk : Word) (c : ℕ) (t : Word)
    → get_or (kept ++ (junk ++ c ∷ t)) (length kept + length junk) 0 ≡ c
read_step kept junk c t =
    ap₂ (λ w i. get_or w i 0) (sym (append_assoc kept junk (c ∷ t))) (sym (length-append kept junk))
    ∙ get_or-append (kept ++ junk) c t

write_step :
    (kept junk : Word) (c : ℕ) (t : Word)
    → write_at (kept ++ (junk ++ c ∷ t)) (length kept) c ≡ (kept ++ c ∷ []) ++ (shift junk c ++ t)
unfolding shift
write_step kept [] c t = write_at-append kept c t c ∙ sym (append_assoc kept (c ∷ []) t)
write_step kept (x ∷ junk) c t =
    write_at-append kept x (junk ++ c ∷ t) c
    ∙ sym (append_assoc kept (c ∷ []) (junk ++ c ∷ t))
    ∙ ap (λ w. (kept ++ c ∷ []) ++ w) (sym (append_assoc junk (c ∷ []) t))

end_step :
    (kept junk : Word)
    → IsText kept
    → text_of (write_at (kept ++ (junk ++ 0 ∷ [])) (length kept) 0) ≡ kept
end_step kept [] h = ap text_of (write_at-append kept 0 [] 0) ∙ text_of-append kept [] h
end_step kept (x ∷ junk) h =
    ap text_of (write_at-append kept x (junk ++ 0 ∷ []) 0) ∙ text_of-append kept (junk ++ 0 ∷ []) h

IsText-append : (kept : Word) (c : ℕ) → IsText kept → c ≢ 0 → IsText (kept ++ c ∷ [])
IsText-append [] c h ne = (ne, tt)
IsText-append (k ∷ kept) c h ne = (h.0, IsText-append kept c h.1 ne)

-- The loop, after `kept` has been written and the text up to `rest` has been read.
strip_from :
    (rest kept junk text : Word) (i o : ℕ)
    → text ≡ kept ++ (junk ++ (rest ++ 0 ∷ []))
    → i ≡ length kept + length junk
    → o ≡ length kept
    → IsText kept
    → IsText rest
    → Returns
        (λ left. text_of left ≡ kept ++ without_spaces rest)
        (strip_loop (suc (length rest)) text i o)
unfolding strip_loop without_spaces
strip_from [] kept junk text i o e at here h g =
    rw (terminator, e, here) (returns (end_step kept junk h ∙ sym (append_nil kept)))
  where
    terminator : get_or text i 0 ≡ 0
    terminator = ap₂ (λ w k. get_or w k 0) e at ∙ read_step kept junk 0 []
strip_from (c ∷ rest) kept junk text i o e at here h g =
    rw (read, nonzero)
      (elim (Bool-cases (c == b' ')) [
        | inl space ↦ rw space (
            strip_from rest kept (junk ++ c ∷ []) text (i + 1) o
              (e ∙ ap (λ w. kept ++ w) (sym (append_assoc junk (c ∷ []) (rest ++ 0 ∷ []))))
              (omega (arith, length-append junk (c ∷ []))) here h g.1)
        | inr other ↦ rw other (
            mono
              (strip_from rest (kept ++ c ∷ []) (shift junk c) (write_at text o c) (i + 1) (o + 1)
                (ap₂ (λ w k. write_at w k c) e here ∙ write_step kept junk c (rest ++ 0 ∷ []))
                (omega (arith, length-append kept (c ∷ []), length-shift junk c))
                (omega (arith, length-append kept (c ∷ []))) (IsText-append kept c h g.0) g.1)
              λ left found. found ∙ append_assoc kept (c ∷ []) (without_spaces rest))
      ])
  where
    read : get_or text i 0 ≡ c
    read = ap₂ (λ w k. get_or w k 0) e at ∙ read_step kept junk c (rest ++ 0 ∷ [])

    nonzero : (c == 0) ≡ false
    nonzero = ground (arith, g.0)

-- The loop of get_guid, on a text with its terminator, reads nothing beyond the terminator, and
-- ends with the text without its spaces in the buffer, terminated.
pub strip_loop-without_spaces :
    (w : Word)
    → IsText w
    → Returns
        (λ left. text_of left ≡ without_spaces w)
        (strip_loop (suc (length w)) (w ++ 0 ∷ []) 0 0)
strip_loop-without_spaces w h = strip_from w [] [] (w ++ 0 ∷ []) 0 0 refl refl refl tt h
