-- ===== src/Verify/Laws.antt =====
-- What a test has verified where it goes on.
use qemu_pipeline.Base.{
  ℕ, ◌≡◌, refl, ap, ◌∙◌, subst, if◌then◌else◌, Bool, true, false, not, ◌==◌, Option, some, arith,
  is_none,
}
use qemu_pipeline.Outcome.{Outcome, ok, fault, exit}
use qemu_pipeline.Verify.{
  Test, Result, done, thrown, running, thread, verify, verify_are_equal, verify_succeeded,
  verify_is_not_null,
}

-- Where the piece of a test goes on, its value and its state have the property.
pub data Verified {κ} {A S : Type 0} (P : A → S → Type κ) : Outcome (Result A × S) → Type κ where
  on_done : {a : A} {s : S} → P a s → Verified P (ok (done a, s))
  on_thrown : {s : S} → Verified P (ok (thrown, s))
  on_running : {s : S} → Verified P (ok (running, s))
  on_fault : Verified P fault
  on_exit : Verified P exit

module _ {κ} {A S : Type 0} {P : A → S → Type κ} where
  pub Verified-bind {κ₁} :
      {B : Type 0} {Q : B → S → Type κ₁} {o : Outcome (Result A × S)} {f : A → Test S B}
      → Verified P o
      → ((a : A) (s : S) → P a s → Verified Q (f a s))
      → Verified Q (thread o f)
  Verified-bind (on_done h) next = next _ _ h
  Verified-bind on_thrown next = on_thrown
  Verified-bind on_running next = on_running
  Verified-bind on_fault next = on_fault
  Verified-bind on_exit next = on_exit

  pub Verified-done : {a : A} {s : S} → Verified P (ok (done a, s)) → P a s
  Verified-done (on_done h) = h

  pub Verified-of_eq :
      {o : Outcome (Result A × S)} {a : A} {s : S} → Verified P o → o ≡ ok (done a, s) → P a s
  Verified-of_eq v e = Verified-done (subst (Verified P) e v)

  pub Verified-mono {κ₁} :
      {Q : A → S → Type κ₁} {o : Outcome (Result A × S)}
      → Verified P o
      → ((a : A) (s : S) → P a s → Q a s)
      → Verified Q o
  Verified-mono (on_done h) f = on_done (f _ _ h)
  Verified-mono on_thrown f = on_thrown
  Verified-mono on_running f = on_running
  Verified-mono on_fault f = on_fault
  Verified-mono on_exit f = on_exit

  pub Verified-if :
      {s : S} (b : Bool) (x y : Test S A)
      → (b ≡ true → Verified P (x s))
      → (b ≡ false → Verified P (y s))
      → Verified P ((if b then x else y) s)
  Verified-if true x y p q = p refl
  Verified-if false x y p q = q refl

-- A piece of a test that goes on is followed by the rest.
pub step :
    {A B S : Type 0} {o : Outcome (Result A × S)} {a : A} {s : S} {r : Outcome (Result B × S)}
    (f : A → Test S B)
    → o ≡ ok (done a, s)
    → f a s ≡ r
    → thread o f ≡ r
step f e rest = ap (λ o. thread o f) e ∙ rest

-- Nothing is claimed of a piece whose value does not matter.
pub Verified-any : {A S : Type 0} (o : Outcome (Result A × S)) → Verified (λ _ _. Unit {0}) o
Verified-any (ok (done a, s)) = on_done tt
Verified-any (ok (thrown, s)) = on_thrown
Verified-any (ok (running, s)) = on_running
Verified-any fault = on_fault
Verified-any exit = on_exit

module _ {S : Type 0} where
  pub verify-Verified : (b : Bool) (s : S) → Verified (λ _ s'. (b ≡ true) × (s' ≡ s)) (verify b s)
  unfolding verify
  verify-Verified true s = on_done (refl, refl)
  verify-Verified false s = on_thrown

  pub verify_are_equal-Verified :
      (m n : ℕ) (s : S) → Verified (λ _ s'. (m ≡ n) × (s' ≡ s)) (verify_are_equal m n s)
  unfolding verify_are_equal
  verify_are_equal-Verified m n s =
      Verified-mono (verify-Verified (m == n) s) (λ _ _ (e, e'). (ground (arith, e), e'))

  pub verify_succeeded-Verified :
      (n : ℕ) (s : S) → Verified (λ _ s'. (n ≡ 0) × (s' ≡ s)) (verify_succeeded n s)
  unfolding verify_succeeded
  verify_succeeded-Verified n s =
      Verified-mono (verify-Verified (not (not (n == 0))) s)
        (λ _ _ (e, e'). (ground (arith, e), e'))

  pub verify_is_not_null-Verified :
      {A : Type 0} (o : Option A) (s : S) → Verified (λ _ s'. s' ≡ s) (verify_is_not_null o s)
  unfolding verify_is_not_null
  verify_is_not_null-Verified o s =
      Verified-mono (verify-Verified (not (is_none o)) s) (λ _ _ (_, e). e)

  pub verify_are_equal_refl : (n : ℕ) (s : S) → verify_are_equal n n s ≡ ok (done tt, s)
  unfolding verify_are_equal verify
  verify_are_equal_refl n s = ap (λ b. ok (if b then done tt else thrown, s)) same
    where
      same : (n == n) ≡ true
      same = ground arith

  pub verify_is_not_null-some :
      {A : Type 0} (o : Option A) (a : A) (s : S)
      → o ≡ some a
      → verify_is_not_null o s ≡ ok (done tt, s)
  unfolding verify_is_not_null verify
  verify_is_not_null-some o a s e = rw e refl
