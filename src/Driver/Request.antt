-- ===== src/Driver/Request.antt =====
-- The parameter structures as the driver fills them in
-- (authvars_test/host/edk2_driver/AuthVarsDxe.c). Each block is the parameter buffer.
pub mod Laws
use qemu_pipeline.Base.{ℕ, ◌+◌, u16, u32, Option, none, some, ◌==◌, if◌then◌else◌}
use qemu_pipeline.Outcome.{Outcome, ok, fault, ◌>>=◌}
use qemu_pipeline.Memory.{Block, bytes16, bytes32, store, copy_mem}
use qemu_pipeline.Efi.Guid.{Guid, guid_bytes}
use qemu_pipeline.Support.{Chars}
use qemu_pipeline.Wide.{fix_wide_string}
use qemu_pipeline.Driver.Layout.{sizeof_get_param, sizeof_set_param, sizeof_query_param}

-- `CopyMem` from or to a caller's pointer, which may be NULL where nothing is copied.
unfoldable pub copy_from : Option Block → ℕ → ℕ → Block → Outcome Block
unfolding copy_mem
copy_from none n off dst = if n == 0 then ok dst else fault
copy_from (some source) n off dst = copy_mem off source 0 n dst

unfoldable pub copy_to : Block → ℕ → ℕ → Option Block → Outcome (Option Block)
unfolding copy_mem
copy_to source off n none = if n == 0 then ok none else fault
copy_to source off n (some dst) = do dst ← copy_mem 0 source off n dst; ok (some dst)

-- VARIABLE_GET_PARAM, also of GetNextVariable.
unfoldable pub fill_get_param : ℕ → Guid → Chars → Block → Outcome Block
fill_get_param name_size vendor name b = do
  b ← store 0 4 (bytes32 sizeof_get_param) b
  b ← store 4 2 (bytes16 (u16 name_size)) b
  b ← store 8 16 (guid_bytes vendor) b
  fix_wide_string name 24 b

-- VARIABLE_SET_PARAM, with the name and then the data in the payload.
unfoldable pub fill_set_param : ℕ → Guid → Chars → ℕ → ℕ → Option Block → Block → Outcome Block
unfolding copy_from
fill_set_param name_size vendor name attributes data_size source b = do
  b ← store 0 4 (bytes32 sizeof_set_param) b
  b ← store 4 2 (bytes16 (u16 name_size)) b
  b ← store 24 4 (bytes32 (u32 attributes)) b
  b ← store 28 4 (bytes32 (u32 data_size)) b
  b ← store 32 4 (bytes32 0) b
  b ← store 36 4 (bytes32 (u32 name_size)) b
  b ← store 8 16 (guid_bytes vendor) b
  b ← fix_wide_string name 40 b
  copy_from source data_size (40 + name_size) b

-- VARIABLE_QUERY_PARAM.
unfoldable pub fill_query_param : ℕ → Block → Outcome Block
fill_query_param attributes b = do
  b ← store 0 4 (bytes32 sizeof_query_param) b
  store 4 4 (bytes32 (u32 attributes)) b
