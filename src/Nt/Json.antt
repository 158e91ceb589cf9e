-- ===== src/Nt/Json.antt =====
-- `json::Unpacker` of include/nt/ntjson.hpp, which looks for the characters that it needs and skips
-- all others. The pointer is the list of bytes from it on; it may stand one place behind the end.
pub mod Reads
pub mod Shrinks
use pico_radio.Base.{
  Bool, List, Option, [], codes, drop, false, if◌then◌else◌, none, some, starts_with, true, ℕ, ◌==◌,
  ◌||◌, ◌∷◌,
}

pub data DataType : Type 0 where
  array_type array_end_type object_type object_end_type str_type true_type false_type int_type
        null_type :
      DataType

-- `ec` has one error, OutOfRange.
pub record Unpacker : Type 0 where
  pub rest : List ℕ
  pub past : Bool
  pub failed : Bool

-- `set_data`
abbrev pub unpacker : List ℕ → Unpacker
unpacker text = record { rest = text; past = false; failed = false }

-- `safe_increment`
unfoldable pub increment : Unpacker → Unpacker
increment u = elim (u.rest) [
  | x ∷ xs ↦ record u { rest = xs }
  | [] ↦ if u.past then record u { failed = true } else record u { past = true }
]

-- `safe_data` and `safe_increment` in turn up to a character.
unfoldable pub find_after : ℕ → List ℕ → Bool → Bool → Unpacker
unfolding increment
find_after ch [] past failed = increment (record { rest = []; past = past; failed = true })
find_after ch (x ∷ xs) past failed =
    let more = find_after ch xs past failed in
    if failed || x == ch then record { rest = xs; past = past; failed = failed } else more

unfoldable pub safe_find_after : ℕ → Unpacker → Unpacker
unfolding find_after
safe_find_after ch u = find_after ch u.rest u.past u.failed

-- The bytes that are passed over come first.
unfoldable pub find : ℕ → List ℕ → Bool → Bool → List ℕ × Unpacker
unfolding increment
find ch [] past failed =
    let u : Unpacker = record { rest = []; past = past; failed = true } in
    ([], if 0 == ch then u else increment u)
find ch (x ∷ xs) past failed =
    let more = find ch xs past failed in
    if x == ch
    then ([], record { rest = x ∷ xs; past = past; failed = failed })
    else if failed
    then (x ∷ [], record { rest = xs; past = past; failed = failed })
    else (x ∷ more.0, more.1)

unfoldable pub safe_find : ℕ → Unpacker → List ℕ × Unpacker
unfolding find
safe_find ch u = find ch u.rest u.past u.failed

abbrev pub elem : ℕ → List ℕ → Bool
elem x [] = false
elem x (c ∷ cs) = x == c || elem x cs

-- `safe_find` of several characters, which sets `ec` anew.
unfoldable pub find_any : List ℕ → List ℕ → Bool → List ℕ × Unpacker
find_any cs [] past = ([], record { rest = []; past = past; failed = true })
find_any cs (x ∷ xs) past =
    let more = find_any cs xs past in
    if elem x cs
    then ([], record { rest = x ∷ xs; past = past; failed = false })
    else (x ∷ more.0, more.1)

unfoldable pub safe_find_any : List ℕ → Unpacker → List ℕ × Unpacker
unfolding find_any
safe_find_any cs u = find_any cs u.rest u.past

unfoldable pub unpack_array : Unpacker → Unpacker
unfolding safe_find_after
unpack_array u = safe_find_after b'[' u

unfoldable pub unpack_array_end : Unpacker → Unpacker
unfolding safe_find_after
unpack_array_end u = safe_find_after b']' u

unfoldable pub unpack_object : Unpacker → Unpacker
unfolding safe_find_after
unpack_object u = safe_find_after b'{' u

unfoldable pub unpack_object_end : Unpacker → Unpacker
unfolding safe_find_after
unpack_object_end u = safe_find_after b'}' u

-- `unpack_key` and `unpack_string`
unfoldable pub unpack_key : Unpacker → List ℕ × Unpacker
unfolding safe_find_after safe_find increment
unpack_key u =
    let u1 = safe_find_after b'"' u in
    let found = safe_find b'"' u1 in
    if u1.failed
    then ([], u1)
    else if found.1.failed
    then ([], found.1)
    else (found.0, increment found.1)

-- What `std::from_chars` finds: no number, a number that does not fit, or a number of 32 bits.
pub data Parsed : Type 0 where
  invalid_argument : Parsed
  result_out_of_range : Parsed
  number : ℕ → Parsed

abbrev pub number_starts : List ℕ
number_starts = codes "0123456789-."

-- `i` is not initialised: it holds what the memory does.
unfoldable pub unpack_int : (List ℕ → Parsed) → ℕ → Unpacker → ℕ × Unpacker
unfolding safe_find_any
unpack_int from_chars memory u =
    let u1 = (safe_find_any number_starts u).1 in
    let found = safe_find_any (codes ",}") u1 in
    if u1.failed
    then (0, u1)
    else if found.1.failed
    then (0, found.1)
    else elim (from_chars found.0) [
      | invalid_argument ↦ (0, record found.1 { failed = true })
      | result_out_of_range ↦ (memory, found.1)
      | number n ↦ (n, found.1)
    ]

-- The loop of `unpack_bool` where `ec` is no error.
unfoldable pub find_bool : List ℕ → Bool → Bool × Unpacker
find_bool [] past = (false, record { rest = []; past = past; failed = true })
find_bool (x ∷ xs) past =
    let more = find_bool xs past in
    if starts_with (x ∷ xs) (codes "true")
    then (true, record { rest = drop 3 xs; past = past; failed = false })
    else if starts_with (x ∷ xs) (codes "false")
    then (false, record { rest = drop 4 xs; past = past; failed = false })
    else more

unfoldable pub unpack_bool : Unpacker → Bool × Unpacker
unfolding find_bool
unpack_bool u = if u.failed then (false, u) else find_bool u.rest u.past

-- The `switch` of `peek_type`.
unfoldable pub type_at : List ℕ → Option DataType
type_at [] = none
type_at (x ∷ xs) =
    if x == b'['
    then some array_type
    else if x == b']'
    then some array_end_type
    else if x == b'{'
    then some object_type
    else if x == b'}'
    then some object_end_type
    else if x == b'"'
    then some str_type
    else if elem x number_starts
    then some int_type
    else if starts_with (x ∷ xs) (codes "true")
    then some true_type
    else if starts_with (x ∷ xs) (codes "false")
    then some false_type
    else if starts_with (x ∷ xs) (codes "null")
    then some null_type
    else none

-- `peek_type(&type)`, where `none` is OutOfRange. It changes nothing.
unfoldable pub peek_type : List ℕ → Option DataType
unfolding type_at
peek_type [] = none
peek_type (x ∷ xs) =
    let more = peek_type xs in elim (type_at (x ∷ xs)) [ some t ↦ some t | none ↦ more ]

-- `peek_type()`
unfoldable pub type_or_null : Unpacker → DataType
unfolding peek_type
type_or_null u = elim (peek_type u.rest) [ none ↦ null_type | some t ↦ t ]

abbrev pub is_bool : DataType → Bool
is_bool true_type = true
is_bool false_type = true
is_bool _ = false

abbrev pub is_null : DataType → Bool
is_null null_type = true
is_null _ = false

abbrev pub is_bool_or_null : DataType → Bool
is_bool_or_null t = is_bool t || is_null t

-- The value, and whether there was one.
unfoldable pub unpack_default_bool : Bool → Unpacker → Bool × Bool × Unpacker
unfolding type_or_null unpack_bool
unpack_default_bool old u =
    let (b, u') = unpack_bool u in
    if is_null (type_or_null u) then (old, false, u) else (b, true, u')
