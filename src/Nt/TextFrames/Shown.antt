-- ===== src/Nt/TextFrames/Shown.antt =====
-- How a NetworkTables 4 client writes the parts of its messages, in JSON with no spaces, and how they
-- are read.
use pico_radio.Base.{
  Bool, List, Option, ap, arith, codes, false, refl, some, suc, true, ℕ, ◌++◌, ◌<◌, ◌∙◌, ◌∷◌, ◌≡◌,
}
use pico_radio.Nt.Json.{
  DataType, Parsed, Unpacker, elem, int_type, number, number_starts, peek_type, type_at,
  type_or_null, unpack_int, unpack_key, unpacker,
}
use pico_radio.Nt.Json.Reads.{Avoids, safe_find_any_lem, unpack_key_literal, without}
use pico_radio.Nt.Params.{Reader, goes_on, is_object_end, read_rounds, times}

abbrev pub int32_limit : ℕ
int32_limit = 2147483648

-- A notation of numbers, which is not empty, that `std::from_chars` reads: it is made of digits.
pub record Notation (from_chars : List ℕ → Parsed) : Type 0 where
  pub first : ℕ → ℕ
  pub others : ℕ → List ℕ
  pub starts : (n : ℕ) → elem (first n) number_starts ≡ true
  pub avoids : (n : ℕ) → Avoids (codes ",}") (first n ∷ others n)
  pub reads : (n : ℕ) → n < int32_limit → from_chars (first n ∷ others n) ≡ number n

-- Each function is given the text behind.
unfoldable pub quoted : List ℕ → List ℕ → List ℕ
quoted s rest = b'"' ∷ (s ++ b'"' ∷ rest)

unfoldable pub show_bool : Bool → List ℕ → List ℕ
show_bool true rest = codes "true" ++ rest
show_bool false rest = codes "false" ++ rest

abbrev pub show_number : {from_chars : List ℕ → Parsed} → Notation from_chars → ℕ → List ℕ → List ℕ
show_number d n rest = d.first n ∷ (d.others n ++ rest)

pub unpack_int_lem :
    (r : Reader) (d : Notation r.from_chars) (before ys : List ℕ) (n y : ℕ)
    → n < int32_limit
    → Avoids number_starts before
    → elem y (codes ",}") ≡ true
    → unpack_int r.from_chars r.memory (unpacker (before ++ d.first n ∷ (d.others n ++ y ∷ ys)))
      ≡ (n, unpacker (y ∷ ys))
unfolding unpack_int
unpack_int_lem r d before ys n y small h e = simp (
  safe_find_any_lem number_starts before (d.others n ++ y ∷ ys) (d.first n) h (d.starts n),
  safe_find_any_lem (codes ",}") (d.first n ∷ d.others n) ys y (d.avoids n) e,
  d.reads n small,
)

pub round :
    {A : Type 0} (body : A → Unpacker → A × Unpacker) (ends : DataType → Bool) (n : ℕ) (a a' : A)
    (u u' : Unpacker)
    → goes_on ends u ≡ true
    → body a u ≡ (a', u')
    → read_rounds body ends (suc n) a u ≡ read_rounds body ends n a' u'
unfolding read_rounds
round body ends n a a' u u' on e = rw (on, e)

-- One key and its value in a loop up to a closing brace.
pub key_round :
    {A : Type 0} (body : A → Unpacker → A × Unpacker) (value : A → List ℕ → Unpacker → A × Unpacker)
    → ((a : A) (u : Unpacker) → body a u ≡ value a (unpack_key u).0 (unpack_key u).1)
    → (n : ℕ) (a a' : A) (before key value_text rest : List ℕ) → without b'"' before ≡ true
    → without b'"' key ≡ true
    → goes_on is_object_end (unpacker (before ++ b'"' ∷ (key ++ b'"' ∷ value_text))) ≡ true
    → value a key (unpacker value_text) ≡ (a', unpacker rest)
    → read_rounds body is_object_end
        (suc n)
        a
        (unpacker (before ++ b'"' ∷ (key ++ b'"' ∷ value_text)))
      ≡ read_rounds body is_object_end n a' (unpacker rest)
key_round body value same_body n a a' before key value_text rest f g on e =
    round body is_object_end n a a' (unpacker (before ++ b'"' ∷ (key ++ b'"' ∷ value_text)))
      (unpacker rest) on
      (same_body a _ ∙ ap (λ q. value a q.0 q.1) (unpack_key_literal before key value_text f g) ∙ e)

pub type_at_number :
    (x : ℕ) (xs : List ℕ) → elem x number_starts ≡ true → type_at (x ∷ xs) ≡ some int_type
unfolding type_at
type_at_number x xs e = ground (arith, e)

pub peek_type_number :
    (x : ℕ) (xs : List ℕ) → elem x number_starts ≡ true → peek_type (x ∷ xs) ≡ some int_type
unfolding peek_type
peek_type_number x xs e = rw (type_at_number x xs e, peek_type)

pub peek_type_colon : (xs : List ℕ) → peek_type (b':' ∷ xs) ≡ peek_type xs
unfolding peek_type type_at
peek_type_colon xs = refl

pub type_or_null_lem :
    (u : Unpacker) (t : DataType) → peek_type u.rest ≡ some t → type_or_null u ≡ t
unfolding type_or_null
type_or_null_lem u t e = rw (e, type_or_null)

pub times_step :
    {A : Type 0} (body : A → Unpacker → Option (A × Unpacker)) (n : ℕ) (a a' : A) (u u' : Unpacker)
    → body a u ≡ some (a', u')
    → times body (suc n) a u ≡ times body n a' u'
unfolding times
times_step body n a a' u u' e = rw e
