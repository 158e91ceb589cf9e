-- ===== src/Nt/Json/Reads.antt =====
-- What `json::Unpacker` finds behind bytes that it skips.
use pico_radio.Base.{
  All, Bool, List, [], arith, false, if◌then◌else◌, true, ℕ, ◌++◌, ◌==◌, ◌∷◌, ◌≡◌,
}
use pico_radio.Nt.Json.{
  elem, find, find_after, find_any, increment, safe_find, safe_find_after, safe_find_any,
  unpack_key, unpacker,
}

-- None of the bytes is the character.
abbrev pub Without : ℕ → List ℕ → Type 0
Without ch xs = All (λ x. (x == ch) ≡ false) xs

pub find_after_lem :
    (ch : ℕ) (xs ys : List ℕ)
    → Without ch xs
    → find_after ch (xs ++ ch ∷ ys) false false ≡ unpacker ys
unfolding find_after
find_after_lem ch [] ys h = let e : (ch == ch) ≡ true = ground arith in rw e
find_after_lem ch (x ∷ xs) ys h = rw h.0 (find_after_lem ch xs ys h.1)

pub find_lem :
    (ch : ℕ) (xs ys : List ℕ)
    → Without ch xs
    → find ch (xs ++ ch ∷ ys) false false ≡ (xs, unpacker (ch ∷ ys))
unfolding find
find_lem ch [] ys h = let e : (ch == ch) ≡ true = ground arith in rw e
find_lem ch (x ∷ xs) ys h = rw (h.0, find_lem ch xs ys h.1)

-- A text in quotes is read behind anything that has no quote.
pub unpack_key_lem :
    (before key ys : List ℕ)
    → Without b'"' before
    → Without b'"' key
    → unpack_key (unpacker (before ++ b'"' ∷ (key ++ b'"' ∷ ys))) ≡ (key, unpacker ys)
unfolding unpack_key safe_find_after safe_find increment
unpack_key_lem before key ys h k =
    rw (find_after_lem b'"' before (key ++ b'"' ∷ ys) h, find_lem b'"' key ys k)

-- None of the bytes is one of the characters.
abbrev pub Avoids : List ℕ → List ℕ → Type 0
Avoids cs xs = All (λ x. elem x cs ≡ false) xs

pub find_any_lem :
    (cs xs ys : List ℕ) (y : ℕ)
    → Avoids cs xs
    → elem y cs ≡ true
    → find_any cs (xs ++ y ∷ ys) false ≡ (xs, unpacker (y ∷ ys))
unfolding find_any
find_any_lem cs [] ys y h e = rw e
find_any_lem cs (x ∷ xs) ys y h e = rw (h.0, find_any_lem cs xs ys y h.1 e)

pub safe_find_any_lem :
    (cs xs ys : List ℕ) (y : ℕ)
    → Avoids cs xs
    → elem y cs ≡ true
    → safe_find_any cs (unpacker (xs ++ y ∷ ys)) ≡ (xs, unpacker (y ∷ ys))
unfolding safe_find_any
safe_find_any_lem cs xs ys y h e = find_any_lem cs xs ys y h e

-- The same as tests, which compute at literals.
abbrev pub without : ℕ → List ℕ → Bool
without ch [] = true
without ch (x ∷ xs) = if x == ch then false else without ch xs

pub without→Without : (ch : ℕ) (xs : List ℕ) → without ch xs ≡ true → Without ch xs
without→Without ch [] e = tt
without→Without ch (x ∷ xs) e =
    let differs : (x == ch) ≡ false = ground (arith, e) in
    let on : without ch xs ≡ true = ground (arith, e) in (differs, without→Without ch xs on)

-- A key of the source behind a separator.
pub unpack_key_literal :
    (before key ys : List ℕ)
    → without b'"' before ≡ true
    → without b'"' key ≡ true
    → unpack_key (unpacker (before ++ b'"' ∷ (key ++ b'"' ∷ ys))) ≡ (key, unpacker ys)
unpack_key_literal before key ys h k =
    unpack_key_lem before key ys (without→Without b'"' before h) (without→Without b'"' key k)
