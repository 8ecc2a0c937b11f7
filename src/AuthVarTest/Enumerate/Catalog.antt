-- ===== src/AuthVarTest/Enumerate/Catalog.antt =====
-- VerifyVariableEnumerable against the list of the variables that the rounds of its loop return.
use qemu_pipeline.Base.{
  ℕ, zero, suc, ◌<◌, ◌≡◌, ◌≢◌, refl, ap, Bool, false, List, [], ◌∷◌, ◌&&◌, ◌||◌, if◌then◌else◌,
  length, All, arith, inl, inr, Bool-cases, Option, some, none,
}
use qemu_pipeline.Outcome.{ok}
use qemu_pipeline.Memory.{Block}
use qemu_pipeline.Efi.Guid.{Guid, compare_guid}
use qemu_pipeline.Support.{Chars}
use qemu_pipeline.Pool.{allocate_zero_pool}
use qemu_pipeline.Driver.GetNext.{NextResult}
use qemu_pipeline.Verify.{done, thrown, verify, lift}
use qemu_pipeline.Verify.Laws.{step}
use qemu_pipeline.AuthVarTest.{TestState, Platform}
use qemu_pipeline.AuthVarTest.Enumerate.{
  next_entry, is_entry_at, is_target, search, same_bool, verify_variable_enumerable,
}
use qemu_pipeline.AuthVarTest.Enumerate.Strings.{same_chars, StandsAt, same_string-eq}

-- A variable by its name and GUID, and the list that is searched for one.
abbrev pub Entry : Type 0
Entry = Chars × Guid

abbrev pub is_entry : Chars → Guid → Entry → Bool
is_entry name vendor e = compare_guid vendor (e.1) && same_chars name (e.0)

abbrev pub is_listed : Chars → Guid → List Entry → Bool
is_listed name vendor [] = false
is_listed name vendor (e ∷ es) = is_entry name vendor e || is_listed name vendor es

is_entry_at-eq :
    (name : Chars) (vendor g : Guid) (cs : Chars) (b : Block) (found : Option Guid)
    (found_name : Option Block)
    → All (λ c. c ≢ 0) name
    → found ≡ some g
    → found_name ≡ some b
    → StandsAt b 0 cs
    → is_entry_at name vendor found found_name ≡ ok (is_entry name vendor (cs, g))
unfolding is_entry_at
is_entry_at-eq name vendor g cs b found found_name ne e e' h =
    elim (Bool-cases (compare_guid vendor g)) [
      | inl same ↦ rw (is_entry_at, e, e', same, same_string-eq name b 0 cs ne h) refl
      | inr other ↦ rw (is_entry_at, e, e', other) refl
    ]

module _ {F : Type 0} (p : Platform F) (Q : TestState F → Type 0) where
  -- The rounds of the enumeration, from a size of the buffer, a GUID and a state on: what the
  -- service returns, entry by entry, to its end. `Q` holds after each round.
  pub data Lists : List Entry → ℕ → Option Guid → TestState F → Type 0 where
    lists_end :
        {size : ℕ} {vendor : Option Guid} {s s' : TestState F} {out : NextResult} {size' : ℕ}
        → next_entry p size vendor s ≡ ok (done (out, size'), s')
        → out.status ≡ 14
        → Q s'
        → Lists [] size vendor s
    lists_entry :
        {size : ℕ} {vendor : Option Guid} {s s' : TestState F} {out : NextResult} {size' : ℕ}
        {cs : Chars} {g : Guid} {es : List Entry} {b : Block}
        → next_entry p size vendor s ≡ ok (done (out, size'), s')
        → out.status ≡ 0
        → out.vendor ≡ some g
        → s'.enum_name ≡ some b
        → StandsAt b 0 cs
        → Q s'
        → Lists es size' (some g) s'
        → Lists ((cs, g) ∷ es) size vendor s

  is_target-eq :
      (name : Chars) (vendor g : Guid) (cs : Chars) (b : Block) (found : Option Guid)
      (s : TestState F)
      → All (λ c. c ≢ 0) name
      → found ≡ some g
      → s.enum_name ≡ some b
      → StandsAt b 0 cs
      → is_target p name vendor found s ≡ ok (done (is_entry name vendor (cs, g)), s)
  unfolding is_target
  is_target-eq name vendor g cs b found s ne e e' h =
      ap (λ o. lift o s) (is_entry_at-eq name vendor g cs b found s.enum_name ne e e' h)

  -- The loop ends once it has more rounds than the service lists entries, with Found telling
  -- whether the variable is among them.
  search-is_listed :
      (rounds : ℕ) (name : Chars) (target : Guid) (es : List Entry) (size : ℕ)
      (vendor : Option Guid) (s : TestState F)
      → All (λ c. c ≢ 0) name
      → Lists es size vendor s
      → length es < rounds
      → (s' : TestState F) × (search p rounds name target size vendor s
          ≡ ok (done (is_listed name target es), s'))
        × Q s'
  unfolding search
  search-is_listed zero name target es size vendor s ne l lt = absurd (omega arith)
  search-is_listed (suc rounds) name target _ size vendor s ne
        (lists_end {s'} {out} {size'} e end q) lt =
      (s', step _ e (rw end refl), q)
  search-is_listed (suc rounds) name target _ size vendor s ne
        (lists_entry {s'} {out} {size'} {cs} {g} {es} {b} e good vendor' there stands q rest) lt =
      elim (Bool-cases (is_entry name target (cs, g))) [
        | inl found ↦ (
          s',
          step _ e (rw good (step _ (here s' (out.vendor) vendor' there) (rw (found) refl))),
          q,
        )
        | inr other ↦
            let (s'', e', q') =
              search-is_listed rounds name target es size' (some g) s' ne rest (omega arith) in
            (
              s'',
              step _ e
                  (rw good (step _ (here s' (out.vendor) vendor' there) (rw (other, vendor') e'))),
              q',
            )
      ]
    where
      here :
          (t : TestState F) (found : Option Guid)
          → found ≡ some g
          → t.enum_name ≡ some b
          → is_target p name target found t ≡ ok (done (is_entry name target (cs, g)), t)
      here t found v n = is_target-eq name target g cs b found t ne v n stands

  -- On a service that lists its entries to the buffer of one character that the function starts
  -- with, VerifyVariableEnumerable, given more rounds than there are entries, ends: it goes on,
  -- with the buffer released, where the name with its GUID is in the list exactly if it is expected
  -- to be, and throws otherwise; but for the release, `Q` holds of the state that it ends with.
  pub verify_variable_enumerable-refines :
      (name : Chars) (target : Guid) (expected : Bool) (es : List Entry) (s : TestState F)
      → All (λ c. c ≢ 0) name
      → Lists es 4 (some p.garbage_guid) (record s { enum_name = p.heap.calloc 4 })
      → length es < p.rounds
      → (s' : TestState F) × (verify_variable_enumerable p name target expected s
          ≡ ok (
              if same_bool p expected (is_listed name target es)
              then (done tt, record s' { enum_name = none })
              else (thrown, s')))
        × Q s'
  unfolding verify_variable_enumerable verify allocate_zero_pool
  verify_variable_enumerable-refines name target expected es s ne l lt =
      let (s', e, q) =
        search-is_listed p.rounds name target es 4 (some p.garbage_guid)
          (record s { enum_name = p.heap.calloc 4 }) ne l lt in
      elim (Bool-cases (same_bool p expected (is_listed name target es))) [
        | inl same ↦ (s', step _ e (rw same refl), q)
        | inr other ↦ (s', step _ e (rw other refl), q)
      ]
