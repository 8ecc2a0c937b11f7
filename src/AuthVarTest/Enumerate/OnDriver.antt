-- ===== src/AuthVarTest/Enumerate/OnDriver.antt =====
-- The enumeration of the variables on the driver, with a TA that keeps its variables in an order.
use qemu_pipeline.Base.{
  ℕ, ◌+◌, ◌*◌, ◌≤◌, ◌<◌, ◌≡◌, ◌≢◌, refl, ap, ◌∙◌, sym, subst, Bool, [], if◌then◌else◌, length, All,
  arith, some, none,
}
use qemu_pipeline.Outcome.{ok, Returns-eq}
use qemu_pipeline.Memory.{Block, read32}
use qemu_pipeline.Efi.Guid.{Guid, IsGuid}
use qemu_pipeline.Support.{Chars}
use qemu_pipeline.Wide.Laws.{HasChars}
use qemu_pipeline.Wide.RoundTrip.{nonzero-narrow}
use qemu_pipeline.Pool.{Reallocates}
use qemu_pipeline.Firmware.{runtime_services}
use qemu_pipeline.Firmware.Laws.{get_next_variable_name_published}
use qemu_pipeline.Driver.Tee.{TeeClient}
use qemu_pipeline.Driver.State.{Driver}
use qemu_pipeline.Driver.GetNext.Ordered.{
  After, IsVariable, KeepsOrder, IsServing, IsPassed, get_next_variable_name-at_end,
  get_next_variable_name-too_small, get_next_variable_name-given,
}
use qemu_pipeline.Verify.{done, thrown}
use qemu_pipeline.AuthVarTest.{TestState, Platform}
use qemu_pipeline.AuthVarTest.Enumerate.{same_bool, verify_variable_enumerable}
use qemu_pipeline.AuthVarTest.Enumerate.Strings.{StandsAt}
use qemu_pipeline.AuthVarTest.Enumerate.Catalog.{Entry, is_listed}
use qemu_pipeline.AuthVarTest.Enumerate.Service.{
  IsAsked, IsCatalog, IsEnumerated, verify_variable_enumerable-catalog,
}

asked-IsPassed :
    {W S : Type 0} (tee : TeeClient W) (Holds : W → Type 0) (store : W → S) (after : After S)
    (b : Block) (size : ℕ) (cs : Chars)
    → IsAsked b size cs
    → size ≤ 65568
    → IsPassed tee Holds store after b size cs
asked-IsPassed tee Holds store after b size cs a le = record {
  chars = λ i le. ap (read32 b.bytes) (omega arith) ∙ a.stands.chars i le;
  ends = omega (arith, a.keeps, a.room);
  room = a.room;
  limit = le;
}

HasChars-StandsAt :
    (b : Block) (cs : Chars)
    → HasChars b cs
    → All (λ c. c ≢ 0) cs
    → 4 * (length cs + 1) ≤ b.extent
    → StandsAt b 0 cs
HasChars-StandsAt b cs chars ne room = record {
  chars = λ i le. ap (read32 b.bytes) (omega arith) ∙ chars i le;
  nonzero = ne;
  ends = omega (arith, room);
}

abbrev pub IsFit : Entry → Type 0
IsFit e = IsVariable (e.0) (e.1)

-- The store that the world behind the driver stands for.
abbrev pub store_behind : {W S : Type 0} → (W → S) → Driver W → S
store_behind store d = store d.world

module _ {W S : Type 0} (tee : TeeClient W) (Holds : W → Type 0) (store : W → S) (after : After S)
    (k : KeepsOrder tee Holds store after) where
  -- The services that the driver publishes list the TA's variables as the specification says.
  pub runtime_services-IsCatalog :
      IsCatalog
        (runtime_services tee)
        (IsServing tee Holds store after)
        IsFit
        65568
        (store_behind store)
        after
  runtime_services-IsCatalog = record {
    listed = λ d cs g next rest s e.
        let v = k.listed d.world cs g next rest s.holds e in
        (v, omega (arith, v.short), k.behind d.world cs g next rest s.holds e);
    at_end = λ d b size cs g s v a le e.
        let ((out, d'), called, (status, s', same)) = Returns-eq (
          get_next_variable_name-at_end tee Holds store after k size b cs g d s v
            (asked-IsPassed tee Holds store after b size cs a le) e) in
        (
          out,
          d',
          get_next_variable_name_published tee d s.published (some size) (some b) (some g) ∙ called,
          status,
          s',
          same,
        );
    too_small = λ d b size cs g next rest s v a le e short.
        let ((out, d'), called, (told, s', same)) = Returns-eq (
          get_next_variable_name-too_small tee Holds store after k size b cs g d s v
            (asked-IsPassed tee Holds store after b size cs a le) next rest e short) in
        (
          d',
          get_next_variable_name_published tee d s.published (some size) (some b) (some g)
              ∙ called
              ∙ ap (λ o. ok (o, d')) told,
          s',
          same,
        );
    given = λ d b size cs g next rest s v a le e fits.
        let ((out, d'), called, ((c, told, chars, extent), s', same)) = Returns-eq (
          get_next_variable_name-given tee Holds store after k size b cs g d s v
            (asked-IsPassed tee Holds store after b size cs a le) next rest e fits) in
        (
          c,
          4 * (length (next.0) + 1),
          d',
          get_next_variable_name_published tee d s.published (some size) (some b) (some g)
              ∙ called
              ∙ ap (λ o. ok (o, d')) told,
          HasChars-StandsAt c (next.0) chars
              (nonzero-narrow (next.0) (k.listed d.world cs g next rest s.holds e).narrow)
              (omega (arith, extent, a.room)),
          extent,
          s',
          same,
        );
  }

-- VerifyVariableEnumerable on the driver with its services published and its session open, in front
-- of a TA that keeps its variables in an order and answers by it, ends with more rounds than the TA
-- has variables: it goes on, with the buffer released, where the name with its GUID is among the
-- TA's variables exactly if it is expected to be, and throws otherwise; but for the release, the
-- driver serves on with the same variables. realloc succeeds and keeps the contents, and calloc
-- returns zeroed memory for the first name.
pub verify_variable_enumerable-on_driver :
    {W S : Type 0} (tee : TeeClient W) (Holds : W → Type 0) (store : W → S) (after : After S)
    (p : Platform (Driver W)) (name : Chars) (target : Guid) (expected : Bool) (b : Block)
    (s : TestState (Driver W))
    → p.services ≡ runtime_services tee
    → KeepsOrder tee Holds store after
    → Reallocates p.heap
    → All (λ c. c ≢ 0) name
    → IsServing tee Holds store after s.firmware
    → IsGuid p.garbage_guid
    → p.heap.calloc 4 ≡ some b
    → 4 ≤ b.extent
    → read32 b.bytes 0 ≡ 0
    → length (after (store s.firmware.world) [] p.garbage_guid) < p.rounds
    → (s' : TestState (Driver W)) × (verify_variable_enumerable p name target expected s
        ≡ ok (
            if same_bool p expected
              (is_listed name target (after (store s.firmware.world) [] p.garbage_guid))
            then (done tt, record s' { enum_name = none })
            else (thrown, s')))
      × IsEnumerated (IsServing tee Holds store after) (store_behind store) s s'
verify_variable_enumerable-on_driver tee Holds store after p name target expected b s services k r
      ne serving garbage there room zeroed enough =
    verify_variable_enumerable-catalog p (IsServing tee Holds store after) IsFit 65568
      (store_behind store) after
      (subst
        (λ t. IsCatalog t (IsServing tee Holds store after) IsFit 65568 (store_behind store) after)
        (sym services) (runtime_services-IsCatalog tee Holds store after k))
      r name target expected (after (store s.firmware.world) [] p.garbage_guid) b s ne serving
      (record { narrow = tt; guid = garbage; short = omega arith }) (omega arith) there room zeroed
      refl enough
