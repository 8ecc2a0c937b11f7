-- ===== src/Store.antt =====
-- The variables behind the driver as a client sees them: a store that is read, written and
-- enumerated, and the calls through gRT (authvars_test/host/edk2/uefi_globals.h) that do so.
pub mod Laws
pub mod Read
pub mod Write
pub mod Next
pub mod Query
pub mod Run
pub mod Contract
pub mod SingleByte
pub mod Initialize
use qemu_pipeline.Base.{
  ℕ, zero, suc, ◌+◌, ◌*◌, Option, none, some, List, [], ◌∷◌, ltb, ◌==◌, if◌then◌else◌, length,
  given_or,
}
use qemu_pipeline.Outcome.{Outcome, ok, fault, ◌>>=◌}
use qemu_pipeline.Memory.{Bytes, Block}
use qemu_pipeline.Efi.Guid.{Guid}
use qemu_pipeline.Support.{Chars}
use qemu_pipeline.Firmware.{RuntimeServices}
use qemu_pipeline.Driver.Tee.{TeecResult}
use qemu_pipeline.Driver.Invoke.{status_of}
use qemu_pipeline.Driver.Get.{GetResult}
use qemu_pipeline.Driver.GetNext.{NextResult, chars_from}
use qemu_pipeline.Driver.Query.{QueryResult}
use qemu_pipeline.Driver.Set.Laws.{source_byte}

pub record Value : Type 0 where
  pub attributes : ℕ
  pub contents : List ℕ

-- What the TA is to keep. A write may be refused, and it is up to the store what becomes of a write
-- without data, one that appends, and one that is authenticated.
pub record VariableStore (S : Type 0) : Type 0 where
  pub read : S → Chars → Guid → Option Value
  pub write : S → Chars → Guid → ℕ → List ℕ → TeecResult × S
  pub after : S → Chars → Guid → List (Chars × Guid)
  pub space : S → ℕ → TeecResult × (ℕ × ℕ × ℕ)

-- The first bytes of a memory.
abbrev pub bytes_of : ℕ → Bytes → List ℕ
bytes_of zero m = []
bytes_of (suc n) m = m 0 ∷ bytes_of n (λ i. m (suc i))

-- A client's call of one of the four services, with the objects that it passes.
pub data Call : Type 0 where
  read_call : Chars → Guid → ℕ → ℕ → Option Block → Call
  write_call : Chars → Guid → ℕ → ℕ → Option Block → Call
  next_call : Chars → Guid → ℕ → Block → Call
  query_call : ℕ → ℕ → ℕ → ℕ → Call

-- What a client sees of a call: a status alone, the size that is needed, a value, a name, or the
-- three sizes of the storage.
pub data Seen : Type 0 where
  seen_status : ℕ → Seen
  seen_size : ℕ → Seen
  seen_value : ℕ → List ℕ → Seen
  seen_name : Chars → Guid → Seen
  seen_space : ℕ → ℕ → ℕ → Seen

unfoldable pub see_get : GetResult → Seen
see_get out =
    if out.status == 0
    then seen_value (given_or out.attributes 0)
        (bytes_of (given_or out.data_size 0) (source_byte out.contents))
    else if out.status == 5
    then seen_size (given_or out.data_size 0)
    else seen_status out.status

unfoldable pub name_of : Option Block → Option Guid → Outcome Seen
name_of (some b) (some g) = do cs ← chars_from b.extent b 0; ok (seen_name cs g)
name_of b g = fault

unfoldable pub see_next : NextResult → Outcome Seen
unfolding name_of
see_next out =
    if out.status == 0
    then name_of out.name out.vendor
    else if out.status == 5
    then ok (seen_size (given_or out.name_size 0))
    else ok (seen_status out.status)

unfoldable pub see_query : QueryResult → Seen
see_query out =
    if out.status == 0
    then seen_space (given_or out.maximum_storage 0) (given_or out.remaining_storage 0)
        (given_or out.maximum_size 0)
    else seen_status out.status

module _ {F : Type 0} (services : RuntimeServices F) where
  unfoldable pub perform : Call → F → Outcome (Seen × F)
  unfolding see_get see_next see_query
  perform (read_call name g old size contents) f = do
    (out, f) ← services.get_variable (some name) (some g) (some old) (some size) contents f
    ok (see_get out, f)
  perform (write_call name g attributes size source) f = do
    (status, f) ← services.set_variable (some name) (some g) attributes size source f
    ok (seen_status status, f)
  perform (next_call name g size b) f = do
    (out, f) ← services.get_next_variable_name (some size) (some b) (some g) f
    seen ← see_next out
    ok (seen, f)
  perform (query_call attributes x y z) f = do
    (out, f) ← services.query_variable_info attributes (some x) (some y) (some z) f
    ok (see_query out, f)

  unfoldable pub perform_all : List Call → F → Outcome (List Seen × F)
  unfolding perform
  perform_all [] f = ok ([], f)
  perform_all (c ∷ cs) f = do
    (seen, f) ← perform c f
    (rest, f) ← perform_all cs f
    ok (seen ∷ rest, f)

-- What the store answers.
abbrev pub read_answer : ℕ → Option Value → Seen
read_answer size none = seen_status 14
read_answer size (some v) =
    if ltb size (length v.contents)
    then seen_size (length v.contents)
    else seen_value v.attributes v.contents

abbrev pub next_answer : ℕ → List (Chars × Guid) → Seen
next_answer size [] = seen_status 14
next_answer size (e ∷ es) =
    if ltb size (4 * (length (e.0) + 1))
    then seen_size (4 * (length (e.0) + 1))
    else seen_name (e.0) (e.1)

abbrev pub space_answer : TeecResult × (ℕ × ℕ × ℕ) → Seen
space_answer (result, (x, y, z)) =
    if status_of result == 0 then seen_space x y z else seen_status (status_of result)

module _ {S : Type 0} (m : VariableStore S) where
  unfoldable pub answer : Call → S → Seen × S
  unfolding status_of
  answer (read_call name g old size contents) s = (read_answer size (m.read s name g), s)
  answer (write_call name g attributes size source) s =
      let (result, s') = m.write s name g attributes (bytes_of size (source_byte source)) in
      (seen_status (status_of result), s')
  answer (next_call name g size b) s = (next_answer size (m.after s name g), s)
  answer (query_call attributes x y z) s = (space_answer (m.space s attributes), s)

  unfoldable pub answer_all : List Call → S → List Seen × S
  unfolding answer
  answer_all [] s = ([], s)
  answer_all (c ∷ cs) s =
      let (seen, s') = answer c s in let (rest, s'') = answer_all cs s' in (seen ∷ rest, s'')
