-- ===== src/Driver/Layout.antt =====
-- The structures that the driver and the TA exchange (authvars_test/host/edk2_driver/
-- UEFIVarServices.h), laid out by the C rules for a 32-bit ARM target: a field stands at the next
-- multiple of its alignment, and a structure is as long as a multiple of its largest alignment.
use qemu_pipeline.Base.{ℕ, ◌+◌, ◌-◌, ◌*◌, ◌/◌, ◌≡◌, refl, List, [], ◌∷◌, ltb, if◌then◌else◌}

pub record Field : Type 0 where
  pub size : ℕ
  pub align : ℕ

abbrev field : ℕ → ℕ → Field
field s a = record { size = s; align = a }

abbrev uint8 : Field
uint8 = field 1 1

abbrev uint16 : Field
uint16 = field 2 2

abbrev uint32 : Field
uint32 = field 4 4

abbrev uint64 : Field
uint64 = field 8 8

abbrev guid : Field
guid = field 16 4

abbrev max : ℕ → ℕ → ℕ
max a b = if ltb b a then a else b

align_up : ℕ → ℕ → ℕ
align_up n a = (n + a - 1) / a * a

offsets_from : ℕ → List Field → List ℕ
unfolding align_up
offsets_from at [] = []
offsets_from at (f ∷ fs) = let here = align_up at f.align in here ∷ offsets_from (here + f.size) fs

end_from : ℕ → List Field → ℕ
unfolding align_up
end_from at [] = at
end_from at (f ∷ fs) = end_from (align_up at f.align + f.size) fs

alignment : List Field → ℕ
alignment [] = 1
alignment (f ∷ fs) = max f.align (alignment fs)

offsets : List Field → List ℕ
unfolding offsets_from
offsets = offsets_from 0

sizeof : List Field → ℕ
unfolding end_from alignment align_up
sizeof fs = align_up (end_from 0 fs) (alignment fs)

-- VARIABLE_SET_PARAM: Size, VariableNameSize, VendorGuid, Attributes, DataSize,
-- OffsetVariableName, OffsetData, Payload.
abbrev pub variable_set_param : List Field
variable_set_param = uint32 ∷ uint16 ∷ guid ∷ uint32 ∷ uint32 ∷ uint32 ∷ uint32 ∷ uint8 ∷ []

-- VARIABLE_GET_PARAM, also for the two structures of GetNextVariable: Size, VariableNameSize,
-- VendorGuid, VariableName.
abbrev pub variable_get_param : List Field
variable_get_param = uint32 ∷ uint16 ∷ guid ∷ uint32 ∷ []

-- VARIABLE_GET_RESULT: Size, Attributes, DataSize, Data.
abbrev pub variable_get_result : List Field
variable_get_result = uint32 ∷ uint32 ∷ uint32 ∷ uint8 ∷ []

-- VARIABLE_QUERY_PARAM: Size, Attributes.
abbrev pub variable_query_param : List Field
variable_query_param = uint32 ∷ uint32 ∷ []

-- VARIABLE_QUERY_RESULT: Size, MaximumVariableStorageSize, RemainingVariableStorageSize,
-- MaximumVariableSize.
abbrev pub variable_query_result : List Field
variable_query_result = uint32 ∷ uint64 ∷ uint64 ∷ uint64 ∷ []

-- The sizes that the driver's arithmetic uses.
abbrev pub sizeof_set_param : ℕ
sizeof_set_param = 44

abbrev pub sizeof_get_param : ℕ
sizeof_get_param = 28

abbrev pub sizeof_get_result : ℕ
sizeof_get_result = 16

abbrev pub sizeof_query_param : ℕ
sizeof_query_param = 8

abbrev pub sizeof_query_result : ℕ
sizeof_query_result = 32

-- The union VARIABLE_PARAM is as long as its longest member.
abbrev pub sizeof_variable_param : ℕ
sizeof_variable_param = 44

layouts :
    (offsets variable_set_param ≡ 0 ∷ 4 ∷ 8 ∷ 24 ∷ 28 ∷ 32 ∷ 36 ∷ 40 ∷ [])
    × (offsets variable_get_param ≡ 0 ∷ 4 ∷ 8 ∷ 24 ∷ [])
    × (offsets variable_get_result ≡ 0 ∷ 4 ∷ 8 ∷ 12 ∷ [])
    × (offsets variable_query_param ≡ 0 ∷ 4 ∷ [])
    × (offsets variable_query_result ≡ 0 ∷ 8 ∷ 16 ∷ 24 ∷ [])
unfolding offsets
layouts = (refl, refl, refl, refl, refl)

sizes :
    (sizeof variable_set_param ≡ sizeof_set_param)
    × (sizeof variable_get_param ≡ sizeof_get_param)
    × (sizeof variable_get_result ≡ sizeof_get_result)
    × (sizeof variable_query_param ≡ sizeof_query_param)
    × (sizeof variable_query_result ≡ sizeof_query_result)
    × (sizeof_variable_param
        ≡ max
            (sizeof variable_get_param)
            (max (sizeof variable_set_param) (sizeof variable_query_param)))
unfolding sizeof
sizes = (refl, refl, refl, refl, refl, refl)
