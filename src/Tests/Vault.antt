-- ===== src/Tests/Vault.antt =====
-- A TA that keeps one variable, which is read, written, deleted and listed through the driver.
use qemu_pipeline.Base.{
  ℕ, zero, suc, All, ◌≢◌, ◌+◌, ◌*◌, ◌≤◌, ◌<◌, ◌^◌, ◌≡◌, refl, sym, ◌∙◌, ap, subst, Bool, false, inl,
  List, [], ◌∷◌, ◌==◌, ◌&&◌, length, get_or, ltb, leb, if◌then◌else◌, none, some, arith, Option,
}
use qemu_pipeline.Memory.{Bytes, Block, read16, read32, bytes32, overwrite}
use qemu_pipeline.Memory.Laws.{overwrite-inside, read32-overwrite_self, read32-overwrite_outside}
use qemu_pipeline.Efi.Guid.{Guid, compare_guid, read_guid, guid_of}
use qemu_pipeline.Support.{Chars}
use qemu_pipeline.Wide.RoundTrip.{nonzero-narrow}
use qemu_pipeline.Driver.GetNext.{name_size_in}
use qemu_pipeline.Driver.Request.Laws.{IsGetParam}
use qemu_pipeline.Wide.Laws.{HasUnits}
use qemu_pipeline.Driver.Tee.{
  TeecResult, TeeClient, Reply, success, item_not_found, short_buffer, out_of_memory,
}
use qemu_pipeline.Driver.Get.Held.{IsHeldReply}
use qemu_pipeline.Driver.GetNext.Held.{IsNextReply}
use qemu_pipeline.Driver.GetNext.Ordered.{IsVariable, IsOrderedReply, KeepsOrder}
use qemu_pipeline.Store.{Value, VariableStore, bytes_of}
use qemu_pipeline.Store.Laws.{IsReadReply}
use qemu_pipeline.Tests.Demo.{demo_tee}
use qemu_pipeline.Tests.Next.{next_answer}
use qemu_pipeline.Tests.Shelf.{head_or, rest_of}
use qemu_pipeline.Tests.Row.{row_guid, row_entry, row_entry-IsVariable, row-IsName}

-- The variable "A" of an all-zero GUID, of at most 100 bytes. What is written to others is
-- forgotten.
abbrev pub Vault : Type 0
Vault = Option Value

-- By the first two units of the name, and the GUID.
abbrev pub is_kept : ℕ → ℕ → Guid → Bool
is_kept first second g = (first == 65) && (second == 0) && compare_guid g row_guid

-- A write without attributes deletes, as one without data does.
abbrev pub stored : ℕ → List ℕ → Option Value
stored zero xs = none
stored (suc n) [] = none
stored (suc n) (x ∷ xs) = some (record { attributes = suc n; contents = x ∷ xs })

abbrev pub write_kept : Bool → ℕ → List ℕ → Vault → TeecResult × Vault
write_kept kept attributes contents v =
    if kept
    then if leb (length contents) 100
      then (success, stored attributes contents)
      else (out_of_memory, v)
    else (success, v)

abbrev pub listed : Vault → Chars → List (Chars × Guid)
listed none us = []
listed (some v) [] = row_entry ∷ []
listed (some v) (u ∷ us) = []

abbrev pub vault : VariableStore Vault
vault = record {
  read = λ v name g. if is_kept (get_or name 0 0) (get_or name 1 0) g then v else none;
  write = λ v name g attributes contents.
      write_kept (is_kept (get_or name 0 0) (get_or name 1 0) g) attributes contents v;
  after = λ v us g. listed v us;
  space = λ v attributes. (success, (1000, 900, 100));
}

-- The answers of the TA: a value, the listed name, and three numbers of eight bytes.
abbrev value_output : Value → Bytes
value_output v =
    overwrite 12 (length v.contents) (λ i. get_or v.contents i 0)
      (overwrite 8 4 (bytes32 (length v.contents)) (overwrite 4 4 (bytes32 v.attributes) (λ i. 0)))

abbrev pub space_output : Bytes
space_output i =
    if i == 8
    then 0xe8
    else if i == 9
    then 3
    else if i == 16
    then 0x84
    else if i == 17
    then 3
    else if i == 24
    then 100
    else 0

abbrev vault_reply : TeecResult → ℕ → Bytes → Vault → Reply Vault
vault_reply result needed output v = record {
  result = result;
  value_a = needed;
  value_b = 0;
  output = output;
  world = v;
}

abbrev pub value_reply : Vault → ℕ → Vault → Reply Vault
value_reply none room v = vault_reply item_not_found 0 (λ i. 0) v
value_reply (some x) room v =
    vault_reply (if ltb room (16 + length x.contents) then short_buffer else success)
      (16 + length x.contents) (value_output x) v

abbrev name_reply : List (Chars × Guid) → ℕ → Vault → Reply Vault
name_reply [] room v = vault_reply item_not_found 0 (λ i. 0) v
name_reply (e ∷ es) room v =
    vault_reply (if ltb room 32 then short_buffer else success) 32 (λ i. get_or next_answer i 0) v

abbrev first_unit : ℕ → Chars
first_unit u = if u == 0 then [] else u ∷ []

-- The write that a request asks for.
abbrev pub write_of : Vault → Bytes → TeecResult × Vault
write_of v m =
    write_kept (is_kept (read16 m 40) (read16 m 42) (read_guid m 8)) (read32 m 24)
      (bytes_of (read32 m 28) (λ i. m (40 + read32 m 36 + i))) v

-- What the request says of the name, the GUID and the data is all that the TA goes by.
abbrev pub vault_answer : ℕ → Vault → ℕ → Bytes → Reply Vault
vault_answer zero v room m =
    value_reply (if is_kept (read16 m 24) (read16 m 26) (read_guid m 8) then v else none) room v
vault_answer (suc zero) v room m = name_reply (listed v (first_unit (read16 m 24))) room v
vault_answer (suc (suc zero)) v room m =
    let (result, v') = write_of v m in vault_reply result 0 (λ i. 0) v'
vault_answer (suc (suc (suc command))) v room m = vault_reply success 32 space_output v

abbrev pub input_bytes : Option Block → Bytes
input_bytes none i = 0
input_bytes (some b) i = b.bytes i

abbrev pub vault_tee : TeeClient Vault
vault_tee = record {
  initialize_context = λ v. (success, v);
  open_session = λ v id. (success, 1, v);
  allocate_shared_memory = λ v n flags.
      let (result, b, w) = demo_tee.allocate_shared_memory tt n flags in (result, b, v);
  invoke_command = λ v session command operation.
      vault_answer command v operation.output_size (input_bytes operation.input);
  close_session = λ v session. v;
  finalize_context = λ v. v;
  release_shared_memory = λ v m. (record m { buffer = none }, v);
}

-- What holds of the vault: the contents are short, the attributes fit their field.
abbrev pub IsKept : Vault → Type 0
IsKept none = Unit
IsKept (some v) = (length v.contents ≤ 100) × (v.attributes < 2 ^ 32)

-- The two units that are looked at, and the first of them.
pub units_at :
    (b : Block) (off : ℕ) (us : Chars) (g : Guid)
    → HasUnits b off us
    → is_kept (read16 b.bytes off) (read16 b.bytes (off + 2)) g
      ≡ is_kept (get_or us 0 0) (get_or us 1 0) g
units_at b off [] g h =
    rw (ap (read16 b.bytes) {x = off} {y = off + 2 * 0} (omega arith) ∙ h 0 (omega arith)) refl
units_at b off (u ∷ us) g h =
    rw
      (
        ap (read16 b.bytes) {x = off} {y = off + 2 * 0} (omega arith) ∙ h 0 (omega arith),
        h 1 (omega arith),
      )
      refl

pub value_reply-IsReadReply :
    (o v : Vault) (room : ℕ) → IsKept o → IsReadReply o (value_reply o room v) room
value_reply-IsReadReply none v room kept = record { missing = λ e. refl; held = λ x e. cc }
value_reply-IsReadReply (some y) v room kept = record {
  missing = λ e. cc;
  held = λ x e.
      subst
        (λ z.
          IsHeldReply (value_reply (some y) room v) room z.attributes (length z.contents)
            (λ i. get_or z.contents i 0)
          × (length z.contents < 2 ^ 31))
        (same x e) (reads, omega (arith, kept.0));
}
  where
    same : (x : Value) → some y ≡ some x → y ≡ x
    same x e = cc

    reads :
        IsHeldReply
          (value_reply (some y) room v)
          room
          y.attributes
          (length y.contents)
          (λ i. get_or y.contents i 0)
    reads = record {
      attributes_there =
          read32-overwrite_outside 12 (length y.contents) _ _ 4 (inl (omega arith))
          ∙ read32-overwrite_outside 8 4 _ _ 4 (inl (omega arith))
          ∙ read32-overwrite_self 4 y.attributes (λ i. 0) kept.1;
      short = λ lt. (ground arith, refl);
      full = λ le. (
        ground arith,
        read32-overwrite_outside 12 (length y.contents) _ _ 8 (inl (omega arith))
            ∙ read32-overwrite_self 8 (length y.contents) _ (omega (arith, kept.0)),
        λ i lt. overwrite-inside 12 (length y.contents) _ _ i lt,
      );
    }

listed_entry :
    (v : Vault) (us : Chars) (next : Chars × Guid) (rest : List (Chars × Guid))
    → listed v us ≡ next ∷ rest
    → (next ≡ row_entry) × (rest ≡ [])
listed_entry none us next rest e = cc
listed_entry (some v) [] next rest e = (sym (ap (head_or row_entry) e), sym (ap rest_of e))
listed_entry (some v) (u ∷ us) next rest e = cc

listed_behind :
    (v : Vault) (us : Chars) (next : Chars × Guid) (rest : List (Chars × Guid))
    → listed v us ≡ next ∷ rest
    → listed v (next.0) ≡ rest
listed_behind none us next rest e = cc
listed_behind (some v) us next rest e =
    let (entry, end) = listed_entry (some v) us next rest e in
    ap (λ n. listed (some v) (n.0)) entry ∙ sym end

name_reply-IsOrderedReply :
    (v : Vault) (us : Chars) (g : Guid) (room : ℕ)
    → IsKept v
    → IsOrderedReply IsKept
        (λ w. w)
        (λ w us g. listed w us)
        v
        us
        g
        room
        (name_reply (listed v us) room v)
unfolding read_guid guid_of read32 read16
name_reply-IsOrderedReply none us g room kept = record {
  ends = λ e. refl;
  next = λ n rest e. cc;
  holds = kept;
  same = refl;
}
name_reply-IsOrderedReply (some v) (u ∷ us) g room kept = record {
  ends = λ e. refl;
  next = λ n rest e. cc;
  holds = kept;
  same = refl;
}
name_reply-IsOrderedReply (some v) [] g room kept = record {
  ends = λ e. cc;
  next = λ next rest e.
      subst
        (λ n.
          IsNextReply (name_reply (row_entry ∷ []) room (some v)) room (n.0)
          × (28 + 2 * (length (n.0) + 1) ≤ room → read_guid (λ i. get_or next_answer i 0) 8 ≡ n.1))
        (sym (listed_entry (some v) [] next rest e).0)
        (
          record { short = λ lt. (ground arith, refl); full = λ le. (ground arith, row-IsName) },
          λ le. refl,
        );
  holds = kept;
  same = refl;
}

first_unit-listed :
    (v : Vault) (us : Chars)
    → All (λ c. c ≢ 0) us
    → listed v (first_unit (get_or us 0 0)) ≡ listed v us
first_unit-listed none us h = refl
first_unit-listed (some v) [] h = refl
first_unit-listed (some v) (u ∷ us) h = rw other refl
  where
    other : (u == 0) ≡ false
    other = ground (arith, h.0)

vault-IsOrderedReply :
    (v : Vault) (b : Block) (us : Chars) (g : Guid) (n room : ℕ)
    → IsKept v
    → IsVariable us g
    → IsGetParam b n g us
    → IsOrderedReply IsKept
        (λ w. w)
        (λ w us g. listed w us)
        v
        us
        g
        room
        (vault_answer 1 v room b.bytes)
vault-IsOrderedReply v b us g n room kept w h =
    subst
      (λ es.
        IsOrderedReply IsKept (λ w. w) (λ w us g. listed w us) v us g room (name_reply es room v))
      (sym (
        ap (λ u. listed v (first_unit u))
          (ap (read16 b.bytes) (omega arith) ∙ h.name 0 (omega arith))
        ∙ first_unit-listed v us (nonzero-narrow us w.narrow)))
      (name_reply-IsOrderedReply v us g room kept)

pub vault_tee-KeepsOrder : KeepsOrder vault_tee IsKept (λ w. w) (λ w us g. listed w us)
vault_tee-KeepsOrder = record {
  listed = λ v us g next rest kept e.
      subst (λ n. IsVariable (n.0) (n.1)) (sym (listed_entry v us next rest e).0)
        row_entry-IsVariable;
  behind = λ v us g next rest kept e. listed_behind v us next rest e;
  answers = λ v session operation request us g kept w there decodes.
      subst
        (λ o.
          IsOrderedReply IsKept (λ w. w) (λ w us g. listed w us) v us g operation.output_size
            (vault_answer 1 v operation.output_size (input_bytes o)))
        (sym there)
        (vault-IsOrderedReply v request us g (name_size_in us) operation.output_size kept w
          decodes);
}
