-- ===== src/Idt/ErrorCode.antt =====
-- The error codes that the fault handlers of src/idt.rs take apart.
use titanium.Base.{ℕ, ◌+◌, ◌*◌, ◌/◌, ◌%◌, ◌^◌, ◌≡◌, Bool, true, false, arith}
use titanium.Base.{◌==◌, if◌then◌else◌}

pub data DescriptorTable : Type 0 where
  gdt idt ldt : DescriptorTable

-- `ec & 1 != 0`
unfoldable pub is_external : ℕ → Bool
is_external ec = ec % 2 == 1

-- `match (ec >> 1) & 0x3`
unfoldable pub table_of : ℕ → DescriptorTable
table_of ec = let bits = ec / 2 % 4 in if bits == 0 then gdt else (if bits == 2 then ldt else idt)

-- `(ec >> 3) & 0x1ff`
unfoldable pub index_of : ℕ → ℕ
index_of ec = ec / 8 % 2 ^ 9

-- A selector error code, by the processor's manual: whether the event is external, the table, and
-- thirteen bits of index.
abbrev pub table_bits : DescriptorTable → ℕ
table_bits gdt = 0
table_bits idt = 1
table_bits ldt = 2

abbrev pub if_external : Bool → ℕ
if_external true = 1
if_external false = 0

abbrev pub selector_error : Bool → DescriptorTable → ℕ → ℕ
selector_error external table index = if_external external + 2 * table_bits table + 8 * index

is_external_lem :
    (external : Bool) (table : DescriptorTable) (index : ℕ)
    → is_external (selector_error external table index) ≡ external
unfolding is_external
is_external_lem true gdt i = ground arith
is_external_lem true idt i = ground arith
is_external_lem true ldt i = ground arith
is_external_lem false gdt i = ground arith
is_external_lem false idt i = ground arith
is_external_lem false ldt i = ground arith

table_of_lem :
    (external : Bool) (table : DescriptorTable) (index : ℕ)
    → table_of (selector_error external table index) ≡ table
unfolding table_of
table_of_lem true gdt i = ground arith
table_of_lem true idt i = ground arith
table_of_lem true ldt i = ground arith
table_of_lem false gdt i = ground arith
table_of_lem false idt i = ground arith
table_of_lem false ldt i = ground arith

index_of_lem :
    (external : Bool) (table : DescriptorTable) (index : ℕ)
    → index_of (selector_error external table index) ≡ index % 2 ^ 9
unfolding index_of
index_of_lem true gdt i = omega arith
index_of_lem true idt i = omega arith
index_of_lem true ldt i = omega arith
index_of_lem false gdt i = omega arith
index_of_lem false idt i = omega arith
index_of_lem false ldt i = omega arith

-- The handlers print of a selector error code whether it is external and the table, and of its
-- index, which has thirteen bits, the low nine.
pub selector_error_lem :
    (external : Bool) (table : DescriptorTable) (index : ℕ)
    → let ec = selector_error external table index in
      (is_external ec ≡ external) × (table_of ec ≡ table) × (index_of ec ≡ index % 2 ^ 9)
selector_error_lem external table index = (
  is_external_lem external table index,
  table_of_lem external table index,
  index_of_lem external table index,
)
