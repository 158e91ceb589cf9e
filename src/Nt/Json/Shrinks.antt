-- ===== src/Nt/Json/Shrinks.antt =====
-- `json::Unpacker` only moves on.
use pico_radio.Base.{
  Bool, List, [], arith, codes, drop, length, length-drop, some, ℕ, ◌-◌, ◌<◌, ◌∷◌, ◌≡◌, ◌≤◌,
}
use pico_radio.Nt.Json.{
  DataType, Parsed, Unpacker, find, find_after, find_any, find_bool, increment, number_starts,
  peek_type, safe_find, safe_find_after, safe_find_any, unpack_bool, unpack_default_bool,
  unpack_int, unpack_key,
}

-- The bytes that are left.
abbrev pub left : Unpacker → ℕ
left u = length u.rest

drop-le : (n : ℕ) (xs : List ℕ) → length (drop n xs) ≤ length xs
drop-le n xs = omega (arith, length-drop n xs)

increment-le : (u : Unpacker) → left (increment u) ≤ left u
unfolding increment
increment-le u = ground arith

find_after-le :
    (ch : ℕ) (xs : List ℕ) (past failed : Bool)
    → left (find_after ch xs past failed) ≤ length xs - 1
unfolding find_after increment
find_after-le ch [] past failed = ground arith
find_after-le ch (x ∷ xs) past failed = ground (arith, find_after-le ch xs past failed)

pub safe_find_after-le : (ch : ℕ) (u : Unpacker) → left (safe_find_after ch u) ≤ left u - 1
unfolding safe_find_after
safe_find_after-le ch u = find_after-le ch u.rest u.past u.failed

find-le : (ch : ℕ) (xs : List ℕ) (past failed : Bool) → left (find ch xs past failed).1 ≤ length xs
unfolding find increment
find-le ch [] past failed = ground arith
find-le ch (x ∷ xs) past failed = ground (arith, find-le ch xs past failed)

safe_find-le : (ch : ℕ) (u : Unpacker) → left (safe_find ch u).1 ≤ left u
unfolding safe_find
safe_find-le ch u = find-le ch u.rest u.past u.failed

find_any-le : (cs xs : List ℕ) (past : Bool) → left (find_any cs xs past).1 ≤ length xs
unfolding find_any
find_any-le cs [] past = omega arith
find_any-le cs (x ∷ xs) past = ground (arith, find_any-le cs xs past)

safe_find_any-le : (cs : List ℕ) (u : Unpacker) → left (safe_find_any cs u).1 ≤ left u
unfolding safe_find_any
safe_find_any-le cs u = find_any-le cs u.rest u.past

pub unpack_key-le : (u : Unpacker) → left (unpack_key u).1 ≤ left u - 1
unfolding unpack_key
unpack_key-le u =
    let u1 = safe_find_after b'"' u in
    ground
      (arith, safe_find_after-le b'"' u, safe_find-le b'"' u1, increment-le (safe_find b'"' u1).1)

pub unpack_int-le :
    (from_chars : List ℕ → Parsed) (memory : ℕ) (u : Unpacker)
    → left (unpack_int from_chars memory u).1 ≤ left u
unfolding unpack_int
unpack_int-le from_chars memory u =
    let u1 = (safe_find_any number_starts u).1 in
    ground (arith, safe_find_any-le number_starts u, safe_find_any-le (codes ",}") u1)

find_bool-le : (xs : List ℕ) (past : Bool) → left (find_bool xs past).1 ≤ length xs
unfolding find_bool
find_bool-le [] past = omega arith
find_bool-le (x ∷ xs) past = ground (arith, find_bool-le xs past, drop-le 3 xs, drop-le 4 xs)

pub unpack_bool-le : (u : Unpacker) → left (unpack_bool u).1 ≤ left u
unfolding unpack_bool
unpack_bool-le u = ground (arith, find_bool-le u.rest u.past)

pub unpack_default_bool-le :
    (old : Bool) (u : Unpacker) → left (unpack_default_bool old u).2 ≤ left u
unfolding unpack_default_bool
unpack_default_bool-le old u = ground (arith, unpack_bool-le u)

pub peek_type-left : (xs : List ℕ) (t : DataType) → peek_type xs ≡ some t → 0 < length xs
unfolding peek_type
peek_type-left [] t e = absurd cc
peek_type-left (x ∷ xs) t e = omega arith
