-- ===== src/Tests/Shelf.antt =====
-- A service with one variable, which it lists as the specification says.
use qemu_pipeline.Base.{
  ℕ, zero, suc, ◌+◌, ◌*◌, ◌≤◌, ◌<◌, ◌≡◌, refl, ap, ◌∙◌, sym, subst, true, false, List, [], ◌∷◌,
  ◌==◌, if◌then◌else◌, length, ltb, get_or, Option, none, some, given_or, arith,
}
use qemu_pipeline.Outcome.{ok}
use qemu_pipeline.Memory.{Block, read32}
use qemu_pipeline.Efi.Guid.{Guid}
use qemu_pipeline.Support.{Chars}
use qemu_pipeline.Firmware.{RuntimeServices}
use qemu_pipeline.Driver.Get.{get_result}
use qemu_pipeline.Driver.GetNext.{NextResult, next_result}
use qemu_pipeline.Driver.Query.{query_result}
use qemu_pipeline.AuthVarTest.{test_vendor_guid}
use qemu_pipeline.AuthVarTest.Enumerate.Catalog.{Entry}
use qemu_pipeline.AuthVarTest.Enumerate.Strings.{StandsAt}
use qemu_pipeline.AuthVarTest.Enumerate.Service.{IsAsked, IsCatalog}
use qemu_pipeline.Tests.Demo.{demo_block}

-- The variable, L"d", and where its name is written.
abbrev pub shelf_entry : Entry
shelf_entry = (b'd' ∷ [], test_vendor_guid)

abbrev pub with_entry : Block → Block
with_entry b = record b { bytes = λ i. if i == 0 then b'd' else 0 }

-- What follows a name: the variable, after the empty one.
abbrev pub shelf_after : Unit {0} → Chars → Guid → List Entry
shelf_after f [] g = shelf_entry ∷ []
shelf_after f (c ∷ cs) g = []

abbrev pub shelf_next : Option ℕ → Option Block → Option Guid → NextResult
shelf_next size none vendor = next_result 2 size none vendor
shelf_next size (some b) vendor =
    if read32 b.bytes 0 == 0
    then if ltb (given_or size 0) 8
      then next_result 5 (some 8) (some b) vendor
      else next_result 0 (some 8) (some (with_entry b)) (some test_vendor_guid)
    else next_result 14 size (some b) vendor

-- The contents are always two zero bytes.
abbrev pub shelf : RuntimeServices (Unit {0})
shelf = record {
  get_variable = λ name vendor attributes size contents f.
      ok (get_result 0 (some 7) (some 2) (some (demo_block 0x3000 2)), f);
  get_next_variable_name = λ size b vendor f. ok (shelf_next size b vendor, f);
  set_variable = λ name vendor attributes size source f. ok (0, f);
  query_variable_info = λ attributes a b c f. ok (query_result 0 a b c, f);
}

-- The first four bytes of the buffer, where it holds a name.
name_start :
    (b : Block) (size : ℕ) (cs : Chars) → IsAsked b size cs → read32 b.bytes 0 ≡ get_or cs 0 0
name_start b size cs a = ap (read32 b.bytes) same ∙ a.stands.chars 0 (omega arith)
  where
    same : 0 ≡ 0 + 4 * 0
    same = omega arith

at_start :
    (b : Block) (size : ℕ) (g : Guid)
    → IsAsked b size []
    → shelf_next (some size) (some b) (some g) ≡ (
        if ltb size 8
        then next_result 5 (some 8) (some b) (some g)
        else next_result 0 (some 8) (some (with_entry b)) (some test_vendor_guid))
at_start b size g a = rw (name_start b size [] a) refl

at_entry :
    (b : Block) (size c : ℕ) (cs : Chars) (g : Guid)
    → IsAsked b size (c ∷ cs)
    → shelf_next (some size) (some b) (some g) ≡ next_result 14 (some size) (some b) (some g)
at_entry b size c cs g a = rw other refl
  where
    other : (read32 b.bytes 0 == 0) ≡ false
    other = ground (arith, name_start b size (c ∷ cs) a, a.stands.nonzero.0)

entry_chars :
    (b : Block) (i : ℕ) → i ≤ 1 → read32 (with_entry b).bytes (0 + 4 * i) ≡ get_or (b'd' ∷ []) i 0
unfolding read32
entry_chars b zero le = refl
entry_chars b (suc zero) le = refl
entry_chars b (suc (suc i)) le = absurd (omega arith)

entry-StandsAt : (b : Block) → 8 ≤ b.extent → StandsAt (with_entry b) 0 (b'd' ∷ [])
unfolding read32
entry-StandsAt b h = record { chars = entry_chars b; nonzero = (omega arith, tt); ends = h }

abbrev pub head_or : Entry → List Entry → Entry
head_or d [] = d
head_or d (e ∷ es) = e

abbrev pub rest_of : List Entry → List Entry
rest_of [] = []
rest_of (e ∷ es) = es

shelf-listed :
    (cs : Chars) (g : Guid) (next : Entry) (rest : List Entry)
    → shelf_after tt cs g ≡ next ∷ rest
    → (4 * (length (next.0) + 1) ≤ 8) × (shelf_after tt (next.0) (next.1) ≡ rest)
shelf-listed [] g next rest e = (
  omega (arith, ap (λ es. length ((head_or shelf_entry es).0)) e),
  ap (λ es. shelf_after tt (head_or shelf_entry es).0 (head_or shelf_entry es).1) (sym e)
      ∙ ap rest_of e,
)
shelf-listed (c ∷ cs) g next rest e = cc

shelf-at_end :
    (b : Block) (size : ℕ) (cs : Chars) (g : Guid)
    → IsAsked b size cs
    → shelf_after tt cs g ≡ []
    → shelf_next (some size) (some b) (some g) ≡ next_result 14 (some size) (some b) (some g)
shelf-at_end b size [] g a e = cc
shelf-at_end b size (c ∷ cs) g a e = at_entry b size c cs g a

shelf-too_small :
    (b : Block) (size : ℕ) (cs : Chars) (g : Guid) (next : Entry) (rest : List Entry)
    → IsAsked b size cs
    → shelf_after tt cs g ≡ next ∷ rest
    → size < 4 * (length (next.0) + 1)
    → shelf_next (some size) (some b) (some g)
      ≡ next_result 5 (some (4 * (length (next.0) + 1))) (some b) (some g)
shelf-too_small b size [] g next rest a e short =
    at_start b size g a
    ∙ rw small (ap (λ n. next_result 5 (some n) (some b) (some g)) (omega (arith, long)))
  where
    long : 1 ≡ length (next.0)
    long = ap (λ es. length ((head_or shelf_entry es).0)) e

    small : ltb size 8 ≡ true
    small = ground (arith, long)
shelf-too_small b size (c ∷ cs) g next rest a e short = cc

shelf-given :
    (b : Block) (size : ℕ) (cs : Chars) (g : Guid) (next : Entry) (rest : List Entry)
    → IsAsked b size cs
    → shelf_after tt cs g ≡ next ∷ rest
    → 4 * (length (next.0) + 1) ≤ size
    → (shelf_next (some size) (some b) (some g)
        ≡ next_result 0 (some 8) (some (with_entry b)) (some (next.1)))
      × StandsAt (with_entry b) 0 (next.0)
shelf-given b size [] g next rest a e fits =
    subst
      (λ n.
        (shelf_next (some size) (some b) (some g)
          ≡ next_result 0 (some 8) (some (with_entry b)) (some (n.1)))
        × StandsAt (with_entry b) 0 (n.0))
      (ap (head_or shelf_entry) e)
      (at_start b size g a ∙ rw large refl, entry-StandsAt b (ground (arith, a.room, large)))
  where
    long : 1 ≡ length (next.0)
    long = ap (λ es. length ((head_or shelf_entry es).0)) e

    large : ltb size 8 ≡ false
    large = ground (arith, long)
shelf-given b size (c ∷ cs) g next rest a e fits = cc

pub shelf-IsCatalog : IsCatalog shelf (λ f. Unit) (λ e. Unit) 8 (λ f. f) shelf_after
shelf-IsCatalog = record {
  listed = λ f cs g next rest good e.
      (tt, (shelf-listed cs g next rest e).0, (shelf-listed cs g next rest e).1);
  at_end = λ f b size cs g good fit a le e. (
    next_result 14 (some size) (some b) (some g),
    f,
    ap (λ out. ok (out, f)) (shelf-at_end b size cs g a e),
    refl,
    tt,
    refl,
  );
  too_small = λ f b size cs g next rest good fit a le e short.
      (f, ap (λ out. ok (out, f)) (shelf-too_small b size cs g next rest a e short), tt, refl);
  given = λ f b size cs g next rest good fit a le e fits.
      let (asked, stands) = shelf-given b size cs g next rest a e fits in
      (with_entry b, 8, f, ap (λ out. ok (out, f)) asked, stands, refl, tt, refl);
}
