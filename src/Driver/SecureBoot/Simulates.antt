-- ===== src/Driver/SecureBoot/Simulates.antt =====
-- InitSecureBootVariables on two kinds of services that answer alike
-- (authvars_test/host/edk2_driver/AuthVarsDxe.c).
use qemu_pipeline.Base.{
  ℕ, ◌≡◌, refl, subst, Bool, true, false, not, ◌==◌, ◌<◌, ◌^◌, if◌then◌else◌, arith, inl, inr,
}
use qemu_pipeline.Outcome.{Outcome, ok, ◌>>=◌, Returns, returns}
use qemu_pipeline.Efi.Status
use qemu_pipeline.Efi.Status.{efi_error}
use qemu_pipeline.Efi.Guid.{Guid}
use qemu_pipeline.Support.{Chars}
use qemu_pipeline.Driver.SecureBoot.{
  Services, global_variable, secure_boot_enable_disable, custom_mode_enable, platform_key_name,
  setup_mode_name, secure_boot_mode_name, secure_boot_enable_name, custom_mode_name, bs_rt, nv_bs,
  init_modes, init_enable, init_secure_boot_variables,
}
use qemu_pipeline.Driver.SecureBoot.Names.{
  IsUsed, IsAsked, key-IsUsed, setup-IsUsed, mode-IsUsed, enable-IsUsed, custom-IsUsed,
}

-- What both calls return, and what they return together.
abbrev pub Both : {A B : Type 0} → (A → B → Type 0) → Outcome A → Outcome B → Type 0
Both P x y = Returns (λ a. Returns (λ b. P a b) y) x

pub both :
    {A B C D : Type 0} {P : A → B → Type 0} {Q : C → D → Type 0} {x : Outcome A} {y : Outcome B}
    {f : A → Outcome C} {g : B → Outcome D}
    → Both P x y
    → ((a : A) (b : B) → P a b → Both Q (f a) (g b))
    → Both Q (x >>= f) (y >>= g)
both (returns (returns p)) next = next _ _ p

-- SetupMode, from the status of the read of "PK".
abbrev mode_of : ℕ → ℕ
mode_of status = if status == Status.buffer_too_small then 0 else 1

-- What InitSecureBootVariables does after it has asked for "SecureBootEnable".
abbrev create : {S : Type 0} → Services S → Bool → ℕ → S → Outcome (ℕ × S)
create services pcd setup_mode s = do
  let enable = if pcd then 1 else 0
  (status, s) ← services.set_byte secure_boot_enable_name secure_boot_enable_disable nv_bs enable s
  if efi_error status then ok (status, s) else init_modes services pcd setup_mode enable s

abbrev after : {S : Type 0} → Services S → Bool → ℕ → ℕ → ℕ → S → Outcome (ℕ × S)
after services pcd setup_mode status found s =
    if not (efi_error status)
    then init_modes services pcd setup_mode (if setup_mode == 0 then found else 0) s
    else if setup_mode == 0
    then create services pcd setup_mode s
    else init_modes services pcd setup_mode 0 s

module _ {S T : Type 0} (a : Services S) (b : Services T) (R : S → T → Type 0) where
  abbrev pub Agree : Outcome (ℕ × S) → Outcome (ℕ × T) → Type 0
  Agree x y = Both (λ (status, s) (status', t). (status ≡ status') × R s t) x y

  -- A read of a byte agrees in the status, and in the byte where it has succeeded.
  abbrev pub Found : ℕ × ℕ × S → ℕ × ℕ × T → Type 0
  Found (status, found, s) (status', found', t) =
      (status ≡ status') × (efi_error status ≡ false → found ≡ found') × R s t

  -- The two services agree on states that are related.
  pub record Simulates : Type 0 where
    pub gets :
        (name : Chars) (vendor : Guid) (x y : ℕ) (s : S) (t : T)
        → IsUsed name vendor
        → IsAsked name vendor
        → R s t
        → Both Found (a.get_byte name vendor x s) (b.get_byte name vendor y t)
    pub sets :
        (name : Chars) (vendor : Guid) (attributes value : ℕ) (s : S) (t : T)
        → IsUsed name vendor
        → attributes < 2 ^ 32
        → R s t
        → Agree
            (a.set_byte name vendor attributes value s)
            (b.set_byte name vendor attributes value t)

  either :
      (c : Bool) {x x' : Outcome (ℕ × S)} {y y' : Outcome (ℕ × T)}
      → (c ≡ true → Agree x y)
      → (c ≡ false → Agree x' y')
      → Agree (if c then x else x') (if c then y else y')
  either true p q = p refl
  either false p q = q refl

  -- Both stop at an error.
  unless_error-Agree :
      (status status' : ℕ) (s : S) (t : T) {x : Outcome (ℕ × S)} {y : Outcome (ℕ × T)}
      → (status ≡ status') × R s t
      → Agree x y
      → Agree
          (if efi_error status then ok (status, s) else x)
          (if efi_error status' then ok (status', t) else y)
  unless_error-Agree status status' s t {x} {y} (e, r) next =
      subst
        (λ n.
          Agree (if efi_error status then ok (status, s) else x)
            (if efi_error n then ok (n, t) else y))
        e (by_case (efi_error status))
    where
      by_case :
          (c : Bool) → Agree (if c then ok (status, s) else x) (if c then ok (status, t) else y)
      by_case true = returns (returns (refl, r))
      by_case false = next

  module _ (m : Simulates) (pcd : Bool) where
    init_modes-Agree :
        (setup_mode enable : ℕ) (s : S) (t : T)
        → R s t
        → Agree (init_modes a pcd setup_mode enable s) (init_modes b pcd setup_mode enable t)
    unfolding init_modes
    init_modes-Agree setup_mode enable s t r =
        both (m.sets secure_boot_mode_name global_variable bs_rt _ s t mode-IsUsed (omega arith) r)
          λ (status, s) (status', t) h. unless_error-Agree status status' s t h (
            m.sets custom_mode_name custom_mode_enable nv_bs 0 s t custom-IsUsed (omega arith)
              (h.1))

    -- "SecureBootEnable" is created.
    created :
        (setup_mode : ℕ) (s : S) (t : T)
        → R s t
        → Agree (create a pcd setup_mode s) (create b pcd setup_mode t)
    created setup_mode s t r =
        both
          (m.sets secure_boot_enable_name secure_boot_enable_disable nv_bs _ s t enable-IsUsed
            (omega arith) r)
          λ (status, s) (status', t) h.
            unless_error-Agree status status' s t h (init_modes-Agree setup_mode _ s t (h.1))

    init_enable-Agree :
        (setup_mode x y : ℕ) (s : S) (t : T)
        → R s t
        → Agree (init_enable a pcd setup_mode x s) (init_enable b pcd setup_mode y t)
    unfolding init_enable
    init_enable-Agree setup_mode x y s t r =
        both
          (m.gets secure_boot_enable_name secure_boot_enable_disable x y s t enable-IsUsed
            (inr (refl, refl)) r)
          λ (status, found, s) (status', found', t) (e, same, r).
            subst
              (λ n.
                Agree (after a pcd setup_mode status found s) (after b pcd setup_mode n found' t))
              e
              (either (not (efi_error status))
                (λ fine.
                  subst
                    (λ n.
                      Agree (init_modes a pcd setup_mode (if setup_mode == 0 then found else 0) s)
                        (init_modes b pcd setup_mode (if setup_mode == 0 then n else 0) t))
                    (same (ground (arith, fine))) (init_modes-Agree setup_mode _ s t r))
                λ failed.
                  either (setup_mode == 0) (λ user. created setup_mode s t r)
                    λ setup. init_modes-Agree setup_mode 0 s t r)

    -- Services that agree make InitSecureBootVariables agree, in its status and in what it leaves.
    pub init_secure_boot_variables-Agree :
        (x y : ℕ) (s : S) (t : T)
        → R s t
        → Agree (init_secure_boot_variables a pcd x s) (init_secure_boot_variables b pcd y t)
    unfolding init_secure_boot_variables
    init_secure_boot_variables-Agree x y s t r =
        both (m.gets platform_key_name global_variable x y s t key-IsUsed (inl (refl, refl)) r)
          λ (status, found, s) (status', found', t) (e, same, r).
            both
              (subst
                (λ n.
                  Agree (a.set_byte setup_mode_name global_variable bs_rt (mode_of status) s)
                    (b.set_byte setup_mode_name global_variable bs_rt (mode_of n) t))
                e
                (m.sets setup_mode_name global_variable bs_rt (mode_of status) s t setup-IsUsed
                  (omega arith) r))
              λ (st, s) (st', t) h. unless_error-Agree st st' s t h (
                subst
                  (λ n.
                    Agree (init_enable a pcd (mode_of status) found s)
                      (init_enable b pcd (mode_of n) found' t))
                  e (init_enable-Agree (mode_of status) found found' s t (h.1)))
