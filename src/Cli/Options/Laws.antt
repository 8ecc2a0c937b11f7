-- ===== src/Cli/Options/Laws.antt =====
-- The operation that a word names.
use qemu_pipeline.Base.{
  ◌≡◌, ◌≢◌, ◌↔◌, refl, sym, ◌∙◌, ap, ap₂, true, [], ◌∷◌, ◌⊎◌, inl, inr, Bool-cases, arith,
}
use qemu_pipeline.Cli.Options.{
  Word, same_word, NvOp, get, set, getnext, query, self_test, bin, unknown_command, set_op,
}

same_word_sound : (v w : Word) → same_word v w ≡ true → v ≡ w
unfolding same_word
same_word_sound [] [] h = refl
same_word_sound [] (b ∷ w) h = absurd (ground arith)
same_word_sound (a ∷ v) [] h = absurd (ground arith)
same_word_sound (a ∷ v) (b ∷ w) h = ap₂ ◌∷◌ (ground arith) (same_word_sound v w (ground arith))

-- The word of each operation.
abbrev pub word_of : NvOp → Word
word_of self_test = b's' ∷ b'e' ∷ b'l' ∷ b'f' ∷ b't' ∷ b'e' ∷ b's' ∷ b't' ∷ []
word_of bin = b'b' ∷ b'i' ∷ b'n' ∷ []
word_of get = b'g' ∷ b'e' ∷ b't' ∷ []
word_of set = b's' ∷ b'e' ∷ b't' ∷ []
word_of query = b'q' ∷ b'u' ∷ b'e' ∷ b'r' ∷ b'y' ∷ []
word_of getnext = b'g' ∷ b'e' ∷ b't' ∷ b'n' ∷ b'e' ∷ b'x' ∷ b't' ∷ []
word_of unknown_command = []

set_op-word_of : (op : NvOp) → set_op (word_of op) ≡ op
unfolding set_op same_word
set_op-word_of self_test = refl
set_op-word_of bin = refl
set_op-word_of get = refl
set_op-word_of set = refl
set_op-word_of query = refl
set_op-word_of getnext = refl
set_op-word_of unknown_command = refl

set_op_sound : (w : Word) → (set_op w ≡ unknown_command) ⊎ (w ≡ word_of (set_op w))
unfolding set_op
set_op_sound w = elim (Bool-cases (same_word w (word_of self_test))) [
  | inl e ↦ rw e (inr (same_word_sound w (word_of self_test) e))
  | inr n ↦ rw n (elim (Bool-cases (same_word w (word_of bin))) [
    | inl e ↦ rw e (inr (same_word_sound w (word_of bin) e))
    | inr n ↦ rw n (elim (Bool-cases (same_word w (word_of get))) [
      | inl e ↦ rw e (inr (same_word_sound w (word_of get) e))
      | inr n ↦ rw n (elim (Bool-cases (same_word w (word_of set))) [
        | inl e ↦ rw e (inr (same_word_sound w (word_of set) e))
        | inr n ↦ rw n (elim (Bool-cases (same_word w (word_of query))) [
          | inl e ↦ rw e (inr (same_word_sound w (word_of query) e))
          | inr n ↦ rw n (elim (Bool-cases (same_word w (word_of getnext))) [
            | inl e ↦ rw e (inr (same_word_sound w (word_of getnext) e))
            | inr n ↦ rw n (inl refl)
          ])
        ])
      ])
    ])
  ])
]

-- A word names an operation other than the unknown one exactly where it is that operation's word.
pub set_op_iff : (w : Word) (op : NvOp) → op ≢ unknown_command → (set_op w ≡ op) ↔ (w ≡ word_of op)
set_op_iff w op known = (
  λ e. elim (set_op_sound w) [ inl u ↦ absurd (known (sym e ∙ u)) | inr h ↦ h ∙ ap word_of e ],
  λ e. ap set_op e ∙ set_op-word_of op,
)
