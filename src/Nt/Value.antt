-- ===== src/Nt/Value.antt =====
-- `NTDataValue` of src/nt/ntinstance.cpp: its union, its constructors, and `assign`. A floating
-- point number is its bit pattern, and so is an `int64_t`.
pub mod Copy
use pico_radio.Base.{Bool, List, Option, [], if◌then◌else◌, none, not, some, ℕ, ◌%◌, ◌*◌, ◌+◌, ◌/◌}
use pico_radio.Nt.Types.{
  NtDataType, api_type, bin, bool, bool_array, float32, float32_array, float64, float64_array, int,
  int_array, json, msgpack, protobuf, raw, same_type, str, str_array, uint, unassigned,
}

-- `cell` is the word that the union's members share, low byte first in memory.
pub record NtDataValue : Type 0 where
  pub type : NtDataType
  pub cell : ℕ
  pub str : List ℕ
  pub b_array : List Bool
  pub f64_array : List ℕ
  pub i_array : List ℕ
  pub f32_array : List ℕ
  pub str_array : List (List ℕ)
  pub bin : List ℕ

-- A union member of `m` values, read and written.
unfoldable pub read_cell : ℕ → NtDataValue → ℕ
read_cell m v = v.cell % m

unfoldable pub write_cell : ℕ → ℕ → NtDataValue → NtDataValue
write_cell m x v = record v { cell = v.cell / m * m + x % m }

-- The values of `bool`, `float` and the 64-bit members.
abbrev pub size_8 : ℕ
size_8 = 256

abbrev pub size_32 : ℕ
size_32 = 4294967296

abbrev pub size_64 : ℕ
size_64 = 18446744073709551616

unfoldable pub is_valid : NtDataValue → Bool
is_valid v = not (same_type v.type unassigned)

-- A value with this type whose members are not yet written; `cell` is what memory held.
unfoldable pub blank : ℕ → NtDataType → NtDataValue
blank cell t = record {
  type = t;
  cell = cell;
  str = [];
  b_array = [];
  f64_array = [];
  i_array = [];
  f32_array = [];
  str_array = [];
  bin = [];
}

-- The `switch` of `NTDataValue(NTDataType type)`.
unfoldable pub reset_member : NtDataType → NtDataValue → NtDataValue
unfolding write_cell
reset_member bool v = write_cell size_8 0 v
reset_member float64 v = write_cell size_64 0 v
reset_member int v = write_cell size_64 0 v
reset_member float32 v = write_cell size_32 0 v
reset_member str v = record v { str = [] }
reset_member bin v = record v { bin = [] }
reset_member uint v = write_cell size_64 0 v
reset_member json v = record v { str = [] }
reset_member raw v = record v { bin = [] }
reset_member msgpack v = record v { bin = [] }
reset_member protobuf v = record v { bin = [] }
reset_member bool_array v = record v { b_array = [] }
reset_member float64_array v = record v { f64_array = [] }
reset_member int_array v = record v { i_array = [] }
reset_member float32_array v = record v { f32_array = [] }
reset_member str_array v = record v { str_array = [] }
reset_member unassigned v = v

unfoldable pub new_value : ℕ → NtDataType → NtDataValue
unfolding blank reset_member
new_value cell t = reset_member t (blank cell t)

-- The `switch` on `other.type` of the copy constructor and of `assign`.
unfoldable pub copy_member : NtDataType → NtDataValue → NtDataValue → NtDataValue
unfolding write_cell read_cell
copy_member bool other v = write_cell size_8 (read_cell size_8 other) v
copy_member float64 other v = write_cell size_64 (read_cell size_64 other) v
copy_member int other v = write_cell size_64 (read_cell size_64 other) v
copy_member float32 other v = write_cell size_32 (read_cell size_32 other) v
copy_member str other v = record v { str = other.str }
copy_member bin other v = record v { bin = other.bin }
copy_member uint other v = write_cell size_64 (read_cell size_64 other) v
copy_member json other v = record v { str = other.str }
copy_member raw other v = record v { bin = other.bin }
copy_member msgpack other v = record v { bin = other.bin }
copy_member protobuf other v = record v { bin = other.bin }
copy_member bool_array other v = record v { b_array = other.b_array }
copy_member float64_array other v = record v { f64_array = other.f64_array }
copy_member int_array other v = record v { i_array = other.i_array }
copy_member float32_array other v = record v { f32_array = other.f32_array }
copy_member str_array other v = record v { str_array = other.str_array }
copy_member unassigned other v = v

unfoldable pub copy_value : ℕ → NtDataValue → NtDataValue
unfolding blank copy_member
copy_value cell other = copy_member other.type other (blank cell other.type)

-- `none` where the assertion fails.
unfoldable pub assign : NtDataValue → NtDataValue → Option NtDataValue
unfolding is_valid copy_member
assign other v =
    if is_valid other
    then (let v' = if is_valid v then v else record v { type = other.type } in
        some (
          if same_type (api_type v'.type) (api_type other.type)
          then copy_member other.type other v'
          else v'))
    else none

-- The constructors from a value; `cell` is what memory held.
unfoldable pub of_bool : ℕ → Bool → NtDataValue
unfolding write_cell blank
of_bool cell b = write_cell size_8 (if b then 1 else 0) (blank cell bool)

unfoldable pub of_double : ℕ → ℕ → NtDataValue
unfolding write_cell blank
of_double cell f64 = write_cell size_64 f64 (blank cell float64)

unfoldable pub of_int : ℕ → ℕ → NtDataValue
unfolding write_cell blank
of_int cell i = write_cell size_64 i (blank cell int)

unfoldable pub of_float : ℕ → ℕ → NtDataValue
unfolding write_cell blank
of_float cell f32 = write_cell size_32 f32 (blank cell float32)

unfoldable pub of_uint : ℕ → ℕ → NtDataValue
unfolding write_cell blank
of_uint cell ui = write_cell size_64 ui (blank cell uint)

unfoldable pub of_str : ℕ → List ℕ → NtDataValue
unfolding blank
of_str cell s = record (blank cell str) { str = s }

unfoldable pub of_bin : ℕ → List ℕ → NtDataValue
unfolding blank
of_bin cell b = record (blank cell bin) { bin = b }

unfoldable pub of_bool_array : ℕ → List Bool → NtDataValue
unfolding blank
of_bool_array cell a = record (blank cell bool_array) { b_array = a }

unfoldable pub of_double_array : ℕ → List ℕ → NtDataValue
unfolding blank
of_double_array cell a = record (blank cell float64_array) { f64_array = a }

unfoldable pub of_int_array : ℕ → List ℕ → NtDataValue
unfolding blank
of_int_array cell a = record (blank cell int_array) { i_array = a }

unfoldable pub of_float_array : ℕ → List ℕ → NtDataValue
unfolding blank
of_float_array cell a = record (blank cell float32_array) { f32_array = a }

unfoldable pub of_str_array : ℕ → List (List ℕ) → NtDataValue
unfolding blank
of_str_array cell a = record (blank cell str_array) { str_array = a }
