-- ===== src/AuthVarTest/Enumerate/Service.antt =====
-- GetNextVariableName of the UEFI specification, on variables in an order, and the enumeration on a
-- service that has it.
use qemu_pipeline.Base.{
  ℕ, ◌+◌, ◌*◌, ◌≤◌, ◌<◌, ◌≡◌, ◌≢◌, refl, ap, ◌∙◌, sym, subst, Bool, false, List, [], ◌∷◌, ◌==◌,
  if◌then◌else◌, length, All, arith, inl, inr, Bool-cases, Option, some, none, ltb,
}
use qemu_pipeline.Outcome.{Outcome, ok}
use qemu_pipeline.Memory.{Block, read32}
use qemu_pipeline.Efi.Guid.{Guid}
use qemu_pipeline.Support.{Chars}
use qemu_pipeline.Pool.{Reallocates, reallocate_pool}
use qemu_pipeline.Firmware.{RuntimeServices}
use qemu_pipeline.Driver.GetNext.{NextResult, next_result}
use qemu_pipeline.Verify.{done, thrown}
use qemu_pipeline.Verify.Laws.{step, verify_is_not_null-some}
use qemu_pipeline.AuthVarTest.{TestState, Platform}
use qemu_pipeline.AuthVarTest.Enumerate.{
  ask_next_name, ask_longer_name, next_entry, same_bool, verify_variable_enumerable,
}
use qemu_pipeline.AuthVarTest.Enumerate.Strings.{StandsAt}
use qemu_pipeline.AuthVarTest.Enumerate.Catalog.{
  Entry, Lists, lists_end, lists_entry, is_listed, verify_variable_enumerable-refines,
}

-- What a call of GetNextVariableName finds: a name in the buffer of at least the size that is
-- passed, which holds the name.
pub record IsAsked (b : Block) (size : ℕ) (cs : Chars) : Type 0 where
  pub stands : StandsAt b 0 cs
  pub keeps : 4 * (length cs + 1) ≤ size
  pub room : size ≤ b.extent

-- GetNextVariableName of the UEFI specification, in the states of the firmware that are `Good`, for
-- the variables that are `Fit` and buffers of up to `limit` bytes. `view` is the store that a state
-- stands for, which no call changes, and `after v cs g` are the variables behind the one of that
-- name and GUID: at the end it returns EFI_NOT_FOUND, a buffer that is too small for the next name
-- leaves everything as it is but the size, and otherwise the next name and GUID are given.
pub record IsCatalog {F S : Type 0} (services : RuntimeServices F) (Good : F → Type 0)
    (Fit : Entry → Type 0) (limit : ℕ) (view : F → S) (after : S → Chars → Guid → List Entry)
    : Type 0 where
  pub listed :
      (f : F) (cs : Chars) (g : Guid) (next : Entry) (rest : List Entry)
      → Good f
      → after (view f) cs g ≡ next ∷ rest
      → Fit next × (4 * (length (next.0) + 1) ≤ limit) × (after (view f) (next.0) (next.1) ≡ rest)
  pub at_end :
      (f : F) (b : Block) (size : ℕ) (cs : Chars) (g : Guid)
      → Good f
      → Fit (cs, g)
      → IsAsked b size cs
      → size ≤ limit
      → after (view f) cs g ≡ []
      → (out : NextResult) × (f' : F) × (services.get_next_variable_name
            (some size)
            (some b)
            (some g)
            f
          ≡ ok (out, f'))
        × (out.status ≡ 14)
        × Good f'
        × (view f' ≡ view f)
  pub too_small :
      (f : F) (b : Block) (size : ℕ) (cs : Chars) (g : Guid) (next : Entry) (rest : List Entry)
      → Good f
      → Fit (cs, g)
      → IsAsked b size cs
      → size ≤ limit
      → after (view f) cs g ≡ next ∷ rest
      → size < 4 * (length (next.0) + 1)
      → (f' : F) × (services.get_next_variable_name (some size) (some b) (some g) f
          ≡ ok (next_result 5 (some (4 * (length (next.0) + 1))) (some b) (some g), f'))
        × Good f'
        × (view f' ≡ view f)
  pub given :
      (f : F) (b : Block) (size : ℕ) (cs : Chars) (g : Guid) (next : Entry) (rest : List Entry)
      → Good f
      → Fit (cs, g)
      → IsAsked b size cs
      → size ≤ limit
      → after (view f) cs g ≡ next ∷ rest
      → 4 * (length (next.0) + 1) ≤ size
      → (b' : Block) × (n : ℕ) × (f' : F) × (services.get_next_variable_name
            (some size)
            (some b)
            (some g)
            f
          ≡ ok (next_result 0 (some n) (some b') (some (next.1)), f'))
        × StandsAt b' 0 (next.0)
        × (b'.extent ≡ b.extent)
        × Good f'
        × (view f' ≡ view f)

-- What an enumeration leaves: a good state of the firmware with the same variables, and the state
-- of the tests but for the buffer of the names.
pub record IsEnumerated {F S : Type 0} (Good : F → Type 0) (view : F → S) (s t : TestState F)
    : Type 0 where
  pub good : Good t.firmware
  pub same : view t.firmware ≡ view s.firmware
  pub rest : t ≡ record s { enum_name = t.enum_name; firmware = t.firmware }

module _ {F : Type 0} (p : Platform F) where
  ask_next_name-eq :
      (size : ℕ) (vendor : Option Guid) (s : TestState F) (name : Option Block) (out : NextResult)
      (f : F)
      → s.enum_name ≡ name
      → p.services.get_next_variable_name (some size) name vendor s.firmware ≡ ok (out, f)
      → ask_next_name p size vendor s
        ≡ ok (done out, record s { enum_name = out.name; firmware = f })
  ask_next_name-eq size vendor s name out f e e' =
      rw (ask_next_name, subst (λ n. ask n ≡ ok (out, f)) (sym e) e') refl
    where
      ask : Option Block → Outcome (NextResult × F)
      ask n = p.services.get_next_variable_name (some size) n vendor s.firmware

  -- A round with one call.
  one_call :
      (size : ℕ) (vendor : Option Guid) (s : TestState F) (name : Option Block) (out : NextResult)
      (f : F)
      → s.enum_name ≡ name
      → p.services.get_next_variable_name (some size) name vendor s.firmware ≡ ok (out, f)
      → (out.status == 5) ≡ false
      → next_entry p size vendor s
        ≡ ok (done (out, size), record s { enum_name = out.name; firmware = f })
  unfolding next_entry
  one_call size vendor s name out f e e' status =
      step _ (ask_next_name-eq size vendor s name out f e e') (rw status refl)

  -- A round with a call that finds the buffer too small, and one with a longer buffer.
  two_calls :
      (size n : ℕ) (vendor : Option Guid) (s : TestState F) (b c : Block) (out : NextResult)
      (f f' : F)
      → s.enum_name ≡ some b
      → p.services.get_next_variable_name (some size) (some b) vendor s.firmware
        ≡ ok (next_result 5 (some n) (some b) vendor, f)
      → p.heap.realloc (some b) n ≡ some c
      → p.services.get_next_variable_name (some n) (some c) vendor f ≡ ok (out, f')
      → next_entry p size vendor s
        ≡ ok (done (out, n), record s { enum_name = out.name; firmware = f' })
  unfolding next_entry ask_longer_name reallocate_pool
  two_calls size n vendor s b c out f f' e e' moved e'' =
      step _ (ask_next_name-eq size vendor s (some b) _ f e e') (
        step _ (verify_is_not_null-some (p.heap.realloc (some b) n) c _ moved) (
          step _
            (ask_next_name-eq n vendor
              (record s { enum_name = p.heap.realloc (some b) n; firmware = f }) (some c) out f'
              moved e'')
            refl))

  -- After realloc to a larger size, the name still stands.
  moved-IsAsked :
      (r : Reallocates p.heap) (b : Block) (size n : ℕ) (cs : Chars)
      → IsAsked b size cs
      → size ≤ n
      → IsAsked ((r.moved b n).0) n cs
  unfolding read32
  moved-IsAsked r b size n cs a larger =
      let (c, _, long, same) = r.moved b n in
      let stands = a.stands in
      let keeps = a.keeps in
      let room = a.room in
      record {
        stands = record {
          chars = λ i le. ground (
            arith,
            stands.chars i le,
            same (0 + 4 * i),
            same (0 + 4 * i + 1),
            same (0 + 4 * i + 2),
            same (0 + 4 * i + 3),
          );
          nonzero = stands.nonzero;
          ends = omega arith;
        };
        keeps = omega arith;
        room = long;
      }

  module _ {S : Type 0} (Good : F → Type 0) (Fit : Entry → Type 0) (limit : ℕ) (view : F → S)
      (after : S → Chars → Guid → List Entry) (k : IsCatalog p.services Good Fit limit view after)
      (r : Reallocates p.heap) where
    -- The state after a round.
    IsEnumerated-next :
        (s₀ s : TestState F) (name : Option Block) (f : F)
        → IsEnumerated Good view s₀ s
        → Good f
        → view f ≡ view s.firmware
        → IsEnumerated Good view s₀ (record s { enum_name = name; firmware = f })
    IsEnumerated-next s₀ s name f q good same = record {
      good = good;
      same = same ∙ q.same;
      rest = ap (λ (t : TestState F). record t { enum_name = name; firmware = f }) q.rest;
    }

    -- The service lists what is behind the name that the buffer holds.
    pub catalog-Lists :
        (es : List Entry) (size : ℕ) (cs : Chars) (g : Guid) (b : Block) (s₀ s : TestState F)
        → s.enum_name ≡ some b
        → IsEnumerated Good view s₀ s
        → Fit (cs, g)
        → IsAsked b size cs
        → size ≤ limit
        → after (view s.firmware) cs g ≡ es
        → Lists p (IsEnumerated Good view s₀) es size (some g) s
    catalog-Lists [] size cs g b s₀ s e q fit a le behind =
        let (out, f, e', status, good, same) =
          k.at_end s.firmware b size cs g q.good fit a le behind in
        lists_end (one_call size (some g) s (some b) out f e e' (ground (arith, status))) status
          (IsEnumerated-next s₀ s out.name f q good same)
    catalog-Lists (next ∷ es) size cs g b s₀ s e q fit a le behind =
        let (fit', le', rest) = k.listed s.firmware cs g next es q.good behind in
        elim (Bool-cases (ltb size (4 * (length (next.0) + 1)))) [
          | inl short ↦
              let n : ℕ = 4 * (length (next.0) + 1) in
              let (f, e', good', same) =
                k.too_small s.firmware b size cs g next es q.good fit a le behind
                  (ground (arith, short)) in
              let (c, moved, _, _) = r.moved b n in
              let a' = moved-IsAsked r b size n cs a (ground (arith, short)) in
              let (b', m, f', e'', stands, long, good'', same') =
                k.given f c n cs g next es good' fit a' le' (ap (λ v. after v cs g) same ∙ behind)
                  (omega arith) in
              let q' = IsEnumerated-next s₀ s (some b') f' q good'' (same' ∙ same) in
              lists_entry
                (two_calls size n (some g) s b c (next_result 0 (some m) (some b') (some (next.1)))
                  f f' e e' moved e'')
                refl refl refl stands q'
                (catalog-Lists es n (next.0) (next.1) b' s₀
                  (record s { enum_name = some b'; firmware = f' }) refl q' fit'
                  (record {
                    stands = stands;
                    keeps = omega arith;
                    room = ground (arith, long, a'.room);
                  })
                  le' (ap (λ v. after v (next.0) (next.1)) (same' ∙ same) ∙ rest))
          | inr fits ↦
              let (b', m, f', e', stands, long, good', same) =
                k.given s.firmware b size cs g next es q.good fit a le behind
                  (ground (arith, fits)) in
              let q' = IsEnumerated-next s₀ s (some b') f' q good' same in
              lists_entry
                (one_call size (some g) s (some b)
                  (next_result 0 (some m) (some b') (some (next.1))) f' e e' refl)
                refl refl refl stands q'
                (catalog-Lists es size (next.0) (next.1) b' s₀
                  (record s { enum_name = some b'; firmware = f' }) refl q' fit'
                  (record {
                    stands = stands;
                    keeps = ground (arith, fits);
                    room = ground (arith, long, a.room);
                  })
                  le (ap (λ v. after v (next.0) (next.1)) same ∙ rest))
        ]

    -- VerifyVariableEnumerable, with more rounds than the service has variables, ends on such a
    -- service in a good state: it goes on, with the buffer released, where the name with its GUID
    -- is among the variables exactly if it is expected to be, and throws otherwise; but for the
    -- release, the firmware is left in a good state with the same variables. realloc succeeds and
    -- keeps the contents, calloc returns zeroed memory for the first name, and the service takes an
    -- empty name with the GUID that the test starts with.
    pub verify_variable_enumerable-catalog :
        (name : Chars) (target : Guid) (expected : Bool) (es : List Entry) (b : Block)
        (s : TestState F)
        → All (λ c. c ≢ 0) name
        → Good s.firmware
        → Fit ([], p.garbage_guid)
        → 4 ≤ limit
        → p.heap.calloc 4 ≡ some b
        → 4 ≤ b.extent
        → read32 b.bytes 0 ≡ 0
        → after (view s.firmware) [] p.garbage_guid ≡ es
        → length es < p.rounds
        → (s' : TestState F) × (verify_variable_enumerable p name target expected s
            ≡ ok (
                if same_bool p expected (is_listed name target es)
                then (done tt, record s' { enum_name = none })
                else (thrown, s')))
          × IsEnumerated Good view s s'
    verify_variable_enumerable-catalog name target expected es b s ne good fit le e room zeroed
          behind enough =
        verify_variable_enumerable-refines p (IsEnumerated Good view s) name target expected es s ne
          (catalog-Lists es 4 [] p.garbage_guid b s (record s { enum_name = p.heap.calloc 4 }) e
            (record { good = good; same = refl; rest = refl }) fit
            (record {
              stands = record {
                chars = λ i le. ap (read32 b.bytes) (omega arith) ∙ zeroed;
                nonzero = tt;
                ends = omega arith;
              };
              keeps = omega arith;
              room = room;
            })
            le behind)
          enough
