-- ===== src/Outcome.antt =====
-- How a C function ends: it returns, it accesses memory outside an object (which C leaves
-- undefined), or `errx` ends the process, as ASSERT does (edk2/uefi_types.h).
use qemu_pipeline.Base.{Bool, true, false, ◌≡◌, ◌≢◌, ◌⊎◌, inl, inr, refl, if◌then◌else◌}

pub data Outcome {ℓ} (A : Type ℓ) : Type ℓ where
  ok : A → Outcome A
  fault : Outcome A
  exit : Outcome A

infixl 5 ◌>>=◌ ◌>>◌
abbrev pub ◌>>=◌ {ℓ κ} : {A : Type ℓ} {B : Type κ} → Outcome A → (A → Outcome B) → Outcome B
ok a >>= f = f a
fault >>= f = fault
exit >>= f = exit

abbrev pub ◌>>◌ {ℓ κ} : {A : Type ℓ} {B : Type κ} → Outcome A → Outcome B → Outcome B
m >> k = m >>= λ _. k

-- ASSERT(a) of edk2/uefi_types.h.
abbrev pub assert : Bool → Outcome (Unit {0})
assert true = ok tt
assert false = exit

-- The call returns, and its result has the property.
pub data Returns {ℓ κ} {A : Type ℓ} (P : A → Type κ) : Outcome A → Type (ℓ ⊔ κ) where
  returns : {a : A} → P a → Returns P (ok a)

-- The call does not access memory outside an object: it returns, and its result has the property,
-- or an ASSERT ends the process.
pub data Safe {ℓ κ} {A : Type ℓ} (P : A → Type κ) : Outcome A → Type (ℓ ⊔ κ) where
  safe : {a : A} → P a → Safe P (ok a)
  safe_exit : Safe P exit

module _ {ℓ κ} {A : Type ℓ} {P : A → Type κ} where
  pub bind {κ₁ κ₂} :
      {B : Type κ₁} {Q : B → Type κ₂} {m : Outcome A} {f : A → Outcome B}
      → Returns P m
      → ((a : A) → P a → Returns Q (f a))
      → Returns Q (m >>= f)
  bind (returns p) next = next _ p

  pub mono {κ₁} :
      {Q : A → Type κ₁} {m : Outcome A} → Returns P m → ((a : A) → P a → Q a) → Returns Q m
  mono (returns p) weaken = returns (weaken _ p)

  pub Returns-eq : {m : Outcome A} → Returns P m → (a : A) × (m ≡ ok a) × P a
  Returns-eq (returns {a} p) = (a, refl, p)

  pub Safe-bind {κ₁ κ₂} :
      {B : Type κ₁} {Q : B → Type κ₂} {m : Outcome A} {f : A → Outcome B}
      → Safe P m
      → ((a : A) → P a → Safe Q (f a))
      → Safe Q (m >>= f)
  Safe-bind (safe p) next = next _ p
  Safe-bind safe_exit next = safe_exit

  pub Safe-mono {κ₁} :
      {Q : A → Type κ₁} {m : Outcome A} → Safe P m → ((a : A) → P a → Q a) → Safe Q m
  Safe-mono (safe p) weaken = safe (weaken _ p)
  Safe-mono safe_exit weaken = safe_exit

  pub Returns-Safe : {m : Outcome A} → Returns P m → Safe P m
  Returns-Safe (returns p) = safe p

  pub Safe-of_eq : {m : Outcome A} {a : A} → m ≡ ok a → P a → Safe P m
  Safe-of_eq e p = rw e (safe p)

  pub Safe-if :
      {x y : Outcome A} (b : Bool)
      → (b ≡ true → Safe P x)
      → (b ≡ false → Safe P y)
      → Safe P (if b then x else y)
  Safe-if true p q = p refl
  Safe-if false p q = q refl

pub assert-Safe : (b : Bool) → Safe (λ _. b ≡ true) (assert b)
assert-Safe true = safe refl
assert-Safe false = safe_exit

pub Outcome-cases {ℓ} :
    {A : Type ℓ} (m : Outcome A) → ((a : A) × (m ≡ ok a)) ⊎ ((m ≡ fault) ⊎ (m ≡ exit))
Outcome-cases (ok a) = inl (a, refl)
Outcome-cases fault = inr (inl refl)
Outcome-cases exit = inr (inr refl)

-- A safe call does not fault.
pub Safe-ne-fault {ℓ κ} : {A : Type ℓ} {P : A → Type κ} {m : Outcome A} → Safe P m → m ≢ fault
Safe-ne-fault (safe p) e = cc
Safe-ne-fault safe_exit e = cc
