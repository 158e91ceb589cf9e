-- ===== src/Nt/Value/Copy.antt =====
-- What a value holds, whatever its implementation type, and that copying keeps it.
use pico_radio.Base.{
  Bool, Bool-cases, List, ap, arith, if◌then◌else◌, inl, inr, not, refl, some, sym, true, ℕ, ◌==◌,
  ◌||◌, ◌∙◌, ◌≡◌,
}
use pico_radio.Nt.Types.{
  NtDataType, api_type, bin, bool, bool_array, float32, float32_array, float64, float64_array, int,
  int_array, json, msgpack, protobuf, raw, same_type, str, str_array, type_code, uint, unassigned,
}
use pico_radio.Nt.Value.{
  NtDataValue, assign, copy_member, is_valid, read_cell, size_32, size_64, size_8, write_cell,
}

-- What a reader of the API gets: `int` and `uint` are one word, as are `str` and `json`, and all
-- kinds of bytes.
pub data Payload : Type 0 where
  boolean : ℕ → Payload
  double_bits : ℕ → Payload
  integer_bits : ℕ → Payload
  float_bits : ℕ → Payload
  text : List ℕ → Payload
  bytes : List ℕ → Payload
  booleans : List Bool → Payload
  doubles : List ℕ → Payload
  integers : List ℕ → Payload
  floats : List ℕ → Payload
  texts : List (List ℕ) → Payload
  nothing : Payload

unfoldable pub payload_as : NtDataType → NtDataValue → Payload
unfolding read_cell
payload_as bool v = boolean (read_cell size_8 v)
payload_as float64 v = double_bits (read_cell size_64 v)
payload_as int v = integer_bits (read_cell size_64 v)
payload_as float32 v = float_bits (read_cell size_32 v)
payload_as str v = text v.str
payload_as bin v = bytes v.bin
payload_as uint v = integer_bits (read_cell size_64 v)
payload_as json v = text v.str
payload_as raw v = bytes v.bin
payload_as msgpack v = bytes v.bin
payload_as protobuf v = bytes v.bin
payload_as bool_array v = booleans v.b_array
payload_as float64_array v = doubles v.f64_array
payload_as int_array v = integers v.i_array
payload_as float32_array v = floats v.f32_array
payload_as str_array v = texts v.str_array
payload_as unassigned v = nothing

unfoldable pub payload : NtDataValue → Payload
unfolding payload_as
payload v = payload_as v.type v

payload_as-api_type :
    (t : NtDataType) (v : NtDataValue) → payload_as (api_type t) v ≡ payload_as t v
unfolding payload_as api_type
payload_as-api_type bool v = refl
payload_as-api_type float64 v = refl
payload_as-api_type int v = refl
payload_as-api_type float32 v = refl
payload_as-api_type str v = refl
payload_as-api_type bin v = refl
payload_as-api_type uint v = refl
payload_as-api_type json v = refl
payload_as-api_type raw v = refl
payload_as-api_type msgpack v = refl
payload_as-api_type protobuf v = refl
payload_as-api_type bool_array v = refl
payload_as-api_type float64_array v = refl
payload_as-api_type int_array v = refl
payload_as-api_type float32_array v = refl
payload_as-api_type str_array v = refl
payload_as-api_type unassigned v = refl

payload_as-copy_member :
    (t : NtDataType) (other v : NtDataValue)
    → payload_as t (copy_member t other v) ≡ payload_as t other
unfolding payload_as copy_member read_cell write_cell
payload_as-copy_member bool other v = ap boolean (omega arith)
payload_as-copy_member float64 other v = ap double_bits (omega arith)
payload_as-copy_member int other v = ap integer_bits (omega arith)
payload_as-copy_member float32 other v = ap float_bits (omega arith)
payload_as-copy_member str other v = refl
payload_as-copy_member bin other v = refl
payload_as-copy_member uint other v = ap integer_bits (omega arith)
payload_as-copy_member json other v = refl
payload_as-copy_member raw other v = refl
payload_as-copy_member msgpack other v = refl
payload_as-copy_member protobuf other v = refl
payload_as-copy_member bool_array other v = refl
payload_as-copy_member float64_array other v = refl
payload_as-copy_member int_array other v = refl
payload_as-copy_member float32_array other v = refl
payload_as-copy_member str_array other v = refl
payload_as-copy_member unassigned other v = refl

copy_member-type : (t : NtDataType) (other v : NtDataValue) → (copy_member t other v).type ≡ v.type
unfolding copy_member write_cell
copy_member-type bool other v = refl
copy_member-type float64 other v = refl
copy_member-type int other v = refl
copy_member-type float32 other v = refl
copy_member-type str other v = refl
copy_member-type bin other v = refl
copy_member-type uint other v = refl
copy_member-type json other v = refl
copy_member-type raw other v = refl
copy_member-type msgpack other v = refl
copy_member-type protobuf other v = refl
copy_member-type bool_array other v = refl
copy_member-type float64_array other v = refl
copy_member-type int_array other v = refl
copy_member-type float32_array other v = refl
copy_member-type str_array other v = refl
copy_member-type unassigned other v = refl

pub same_type_refl : (t : NtDataType) → same_type t t ≡ true
same_type_refl t = ground arith

same_type_sound : (t u : NtDataType) → same_type t u ≡ true → type_code t ≡ type_code u
same_type_sound t u e = ground (arith, e)

-- The type with this code.
type_of_code : ℕ → NtDataType
type_of_code n =
    if n == 0
    then bool
    else if n == 1
    then float64
    else if n == 2
    then int
    else if n == 3
    then float32
    else if n == 4
    then str
    else if n == 5
    then bin
    else if n == 6
    then uint
    else if n == 7
    then json
    else if n == 8
    then raw
    else if n == 9
    then msgpack
    else if n == 10
    then protobuf
    else if n == 16
    then bool_array
    else if n == 17
    then float64_array
    else if n == 18
    then int_array
    else if n == 19
    then float32_array
    else if n == 20
    then str_array
    else unassigned

type_of_code-type_code : (t : NtDataType) → type_of_code (type_code t) ≡ t
unfolding type_of_code
type_of_code-type_code bool = refl
type_of_code-type_code float64 = refl
type_of_code-type_code int = refl
type_of_code-type_code float32 = refl
type_of_code-type_code str = refl
type_of_code-type_code bin = refl
type_of_code-type_code uint = refl
type_of_code-type_code json = refl
type_of_code-type_code raw = refl
type_of_code-type_code msgpack = refl
type_of_code-type_code protobuf = refl
type_of_code-type_code bool_array = refl
type_of_code-type_code float64_array = refl
type_of_code-type_code int_array = refl
type_of_code-type_code float32_array = refl
type_of_code-type_code str_array = refl
type_of_code-type_code unassigned = refl

pub same_type_eq : (t u : NtDataType) → same_type t u ≡ true → t ≡ u
same_type_eq t u e =
    sym (type_of_code-type_code t)
    ∙ ap type_of_code (same_type_sound t u e)
    ∙ type_of_code-type_code u

payload_as_same :
    (t u : NtDataType) (v : NtDataValue) → api_type t ≡ api_type u → payload_as t v ≡ payload_as u v
payload_as_same t u v e =
    sym (payload_as-api_type t v) ∙ ap (λ a. payload_as a v) e ∙ payload_as-api_type u v

-- The value that `assign` gives to a value of this type.
payload-copy_member :
    (other v : NtDataValue)
    → api_type v.type ≡ api_type other.type
    → payload (copy_member other.type other v) ≡ payload other
unfolding payload
payload-copy_member other v e =
    ap (λ t. payload_as t (copy_member other.type other v)) (copy_member-type other.type other v)
    ∙ payload_as_same v.type other.type (copy_member other.type other v) e
    ∙ payload_as-copy_member other.type other v

-- Behind the assertion, on a value whose type is settled.
settle : NtDataValue → NtDataValue → NtDataValue
settle other v =
    if same_type (api_type v.type) (api_type other.type) then copy_member other.type other v else v

settle_lem :
    (other v : NtDataValue)
    → ((settle other v).type ≡ v.type)
      × (payload (settle other v) ≡ (
          if same_type (api_type v.type) (api_type other.type) then payload other else payload v))
unfolding settle
settle_lem other v = elim (Bool-cases (same_type (api_type v.type) (api_type other.type))) [
  | inl same_kind ↦ rw same_kind (
    copy_member-type other.type other v,
    payload-copy_member other v (same_type_eq _ _ same_kind),
  )
  | inr differ ↦ rw differ (refl, refl)
]

-- `assign` from a valid value: an unassigned target takes type and payload; any other keeps its
-- type, takes the payload if the API types agree, and stays as it is if they differ.
pub payload-assign :
    (other v : NtDataValue)
    → is_valid other ≡ true
    → (v' : NtDataValue) × (assign other v ≡ some v')
      × (v'.type ≡ (if is_valid v then v.type else other.type))
      × (payload v' ≡ (
          if not (is_valid v) || same_type (api_type v.type) (api_type other.type)
          then payload other
          else payload v))
unfolding assign
payload-assign other v valid = elim (Bool-cases (is_valid v)) [
  | inl old ↦
      let (kind, held) = settle_lem other v in
      (settle other v, rw (valid, old) (unfold settle in refl), rw old kind, rw old held)
  | inr new ↦
      let fresh = record v { type = other.type } in
      let (kind, held) = settle_lem other fresh in
      (
        settle other fresh,
        rw (valid, new) (unfold settle in refl),
        rw new kind,
        rw new (held ∙ rw (same_type_refl (api_type other.type))),
      )
]
