-- ===== src/Verify/Passes.antt =====
-- Tests that go on.
use qemu_pipeline.Base.{ℕ, ◌≡◌, refl}
use qemu_pipeline.Outcome.{Outcome, ok}
use qemu_pipeline.Verify.{Test, Result, done, thread, verify, verify_are_equal, verify_succeeded}
use qemu_pipeline.Verify.Laws.{verify_are_equal_refl}

-- The piece of a test goes on, and its value and its state have the property.
pub data Passes {κ} {A S : Type 0} (P : A → S → Type κ) : Outcome (Result A × S) → Type κ where
  passes : {a : A} {s : S} → P a s → Passes P (ok (done a, s))

module _ {κ} {A S : Type 0} {P : A → S → Type κ} where
  pub Passes-bind {κ₁} :
      {B : Type 0} {Q : B → S → Type κ₁} {o : Outcome (Result A × S)} {f : A → Test S B}
      → Passes P o
      → ((a : A) (s : S) → P a s → Passes Q (f a s))
      → Passes Q (thread o f)
  Passes-bind (passes h) next = next _ _ h

  pub Passes-mono {κ₁} :
      {Q : A → S → Type κ₁} {o : Outcome (Result A × S)}
      → Passes P o
      → ((a : A) (s : S) → P a s → Q a s)
      → Passes Q o
  Passes-mono (passes h) f = passes (f _ _ h)

  -- A check that leaves the state as it is, before the rest.
  pub Passes-after :
      {B : Type 0} {o : Outcome (Result B × S)} {b : B} {s : S} (f : B → Test S A)
      → o ≡ ok (done b, s)
      → Passes P (f b s)
      → Passes P (thread o f)
  Passes-after f e h = rw e h

module _ {S : Type 0} where
  pub verify_are_equal-of_eq : (m n : ℕ) (s : S) → m ≡ n → verify_are_equal m n s ≡ ok (done tt, s)
  verify_are_equal-of_eq m n s e = rw e (verify_are_equal_refl n s)

  pub verify_succeeded-of_eq : (n : ℕ) (s : S) → n ≡ 0 → verify_succeeded n s ≡ ok (done tt, s)
  unfolding verify_succeeded verify
  verify_succeeded-of_eq n s e = rw e refl
