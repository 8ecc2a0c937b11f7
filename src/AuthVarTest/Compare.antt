-- ===== src/AuthVarTest/Compare.antt =====
-- What VerifyAreEqualBytes verifies.
use qemu_pipeline.Base.{
  ℕ, zero, suc, ◌+◌, ◌≤◌, ◌<◌, ◌≡◌, ◌↔◌, refl, ap, ◌∙◌, subst, Bool, true, false, inl, inr,
  Bool-cases, Option-cases, some, lt→ltb, ◌==◌, arith, u8, if◌then◌else◌,
}
use qemu_pipeline.Outcome.{Outcome, Outcome-cases, ok}
use qemu_pipeline.Memory.{Block}
use qemu_pipeline.Verify.Laws.{Verified, on_exit, on_fault, Verified-mono, verify-Verified}
use qemu_pipeline.Verify.{done, thrown, Result, verify}
use qemu_pipeline.AuthVarTest.{TestState, Pointer, at_pointer, equal_from, verify_are_equal_bytes}

-- The reference: the bytes from `i` on, `n` of them, are the same.
abbrev SameFrom : ℕ → ℕ → Block → Block → Type 0
SameFrom n i l r = (j : ℕ) → i ≤ j → j < i + n → u8 (l.bytes j) ≡ u8 (r.bytes j)

SameFrom-suc :
    (n i : ℕ) (l r : Block)
    → u8 (l.bytes i) ≡ u8 (r.bytes i)
    → SameFrom n (suc i) l r
    → SameFrom (suc n) i l r
SameFrom-suc n i l r here rest j a lt = elim (Bool-cases (i == j)) [
  | inl e ↦ subst (λ k. u8 (l.bytes k) ≡ u8 (r.bytes k)) (ground (arith, e)) here
  | inr e ↦ rest j (ground (arith, e)) (omega arith)
]

-- The loop computes a test that reflects the reference.
equal_from_test :
    (n i : ℕ) (l r : Block)
    → i + n ≤ l.extent
    → i + n ≤ r.extent
    → (b : Bool) × (equal_from n i l r ≡ ok b) × ((b ≡ true) ↔ SameFrom n i l r)
unfolding equal_from
equal_from_test zero i l r hl hr = (true, refl, ((λ _ j a b. absurd (omega arith)), λ _. refl))
equal_from_test (suc n) i l r hl hr =
    let (b, e, (to, from)) = equal_from_test n (suc i) l r (omega arith) (omega arith) in
    elim (Bool-cases (u8 (l.bytes i) == u8 (r.bytes i))) [
      | inl same ↦ (
        b,
        rw (lt→ltb i l.extent (omega arith), lt→ltb i r.extent (omega arith), same, e) refl,
        (
          (λ h. SameFrom-suc n i l r (ground (arith, same)) (to h)),
          λ h. from (λ j a lt. h j (omega arith) (omega arith)),
        ),
      )
      | inr differs ↦ (
        false,
        rw (lt→ltb i l.extent (omega arith), lt→ltb i r.extent (omega arith), differs) refl,
        ((λ h. cc), λ h. absurd (ground (arith, h i (omega arith) (omega arith), differs))),
      )
    ]

-- Where the loop ends with TRUE, the bytes are the same.
equal_from-true : (n i : ℕ) (l r : Block) → equal_from n i l r ≡ ok true → SameFrom n i l r
unfolding equal_from
equal_from-true zero i l r e = λ j a b. absurd (omega arith)
equal_from-true (suc n) i l r e =
    SameFrom-suc n i l r (ground (arith, e)) (equal_from-true n (suc i) l r (ground (arith, e)))

module _ {F : Type 0} where
  -- VerifyAreEqualBytes, on two pointers to as many bytes as it is to compare, goes on exactly
  -- where the bytes are the same, with the state as it was.
  pub verify_are_equal_bytes_iff :
      (left right : Pointer) (size : ℕ) (s : TestState F) (l r : Block)
      → at_pointer left s ≡ some l
      → at_pointer right s ≡ some r
      → size ≤ l.extent
      → size ≤ r.extent
      → (verify_are_equal_bytes left right size s ≡ ok (done tt, s))
        ↔ ((j : ℕ) → j < size → u8 (l.bytes j) ≡ u8 (r.bytes j))
  unfolding verify_are_equal_bytes verify
  verify_are_equal_bytes_iff left right size s l r el er hl hr =
      let (b, e, (to, from)) = equal_from_test size 0 l r (omega arith) (omega arith) in
      rw (verify_are_equal_bytes, el, er, e)
        (
          (λ h j lt. to (passed b h) j (omega arith) (omega arith)),
          λ h. rw (from (λ j _ lt. h j (omega arith))) refl,
        )
    where
      result : Bool → Outcome (Result (Unit {0}) × TestState F)
      result b = ok (if b then done tt else thrown, s)

      passed : (b : Bool) → result b ≡ result true → b ≡ true
      passed true h = refl
      passed false h = cc

  -- Where VerifyAreEqualBytes goes on, neither pointer is NULL and the bytes are the same.
  pub verify_are_equal_bytes-Verified :
      (left right : Pointer) (size : ℕ) (s : TestState F)
      → Verified
          (λ _ s'.
            (s' ≡ s)
            × (l : Block) × (at_pointer left s ≡ some l)
            × (r : Block) × (at_pointer right s ≡ some r)
            × ((j : ℕ) → j < size → u8 (l.bytes j) ≡ u8 (r.bytes j)))
          (verify_are_equal_bytes left right size s)
  unfolding verify_are_equal_bytes verify
  verify_are_equal_bytes-Verified left right size s = elim (Option-cases (at_pointer left s)) [
    | inl e ↦ rw (verify_are_equal_bytes, e) on_exit
    | inr (l, el) ↦ elim (Option-cases (at_pointer right s)) [
      | inl e ↦ rw (verify_are_equal_bytes, el, e) on_exit
      | inr (r, er) ↦ elim (Outcome-cases (equal_from size 0 l r)) [
        | inl (same, e) ↦
            rw (verify_are_equal_bytes, el, er, e)
              (Verified-mono (verify-Verified same s) (λ _ s' (pass, kept). (
                kept,
                l,
                refl,
                r,
                refl,
                λ j lt. equal_from-true size 0 l r (e ∙ ap ok pass) j (omega arith) (omega arith),
              )))
        | inr (inl e) ↦ rw (verify_are_equal_bytes, el, er, e) on_fault
        | inr (inr e) ↦ rw (verify_are_equal_bytes, el, er, e) on_exit
      ]
    ]
  ]
