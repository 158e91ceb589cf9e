-- ===== src/Examples/Decimal.antt =====
-- The decimal notation of numbers, as an instance of what the JSON reader is given.
use pico_radio.Base.{
  All, Bool-cases, List, [], ap, arith, codes, false, if◌then◌else◌, inl, inr, ltb, ltb→lt, suc,
  true, zero, ℕ, ◌%◌, ◌*◌, ◌+◌, ◌-◌, ◌/◌, ◌<◌, ◌∙◌, ◌∷◌, ◌≡◌, ◌≤◌,
}
use pico_radio.Nt.Json.{Parsed, elem, invalid_argument, number, number_starts, result_out_of_range}
use pico_radio.Nt.Json.Reads.{Avoids}
use pico_radio.Nt.TextFrames.Shown.{int32_limit}

-- The digits of `n` before others, the first of them apart.
digits : ℕ → ℕ → List ℕ → ℕ × List ℕ
digits zero n rest = (b'0' + n % 10, rest)
digits (suc fuel) n rest = elim (ltb n 10) [
  | true ↦ (b'0' + n, rest)
  | false ↦ digits fuel (n / 10) ((b'0' + n % 10) ∷ rest)
]

value : ℕ → List ℕ → ℕ
value acc [] = acc
value acc (x ∷ xs) = value (10 * acc + (x - b'0')) xs

abbrev pub IsDigit : ℕ → Type 0
IsDigit x = (b'0' ≤ x) × (x ≤ b'9')

unfoldable pub from_decimal : List ℕ → Parsed
unfolding value
from_decimal [] = invalid_argument
from_decimal (x ∷ xs) =
    let n = value 0 (x ∷ xs) in if ltb n int32_limit then number n else result_out_of_range

value-digits :
    (fuel n : ℕ) (rest : List ℕ)
    → n < fuel
    → value 0 ((digits fuel n rest).0 ∷ (digits fuel n rest).1) ≡ value n rest
unfolding digits value
value-digits zero n rest h = absurd (omega arith)
value-digits (suc fuel) n rest h = elim (Bool-cases (ltb n 10)) [
  | inl small ↦
      let e : 10 * 0 + (b'0' + n - b'0') ≡ n = omega arith in
      rw (small, digits) (ap (λ k. value k rest) e)
  | inr large ↦
      let e : 10 * (n / 10) + (b'0' + n % 10 - b'0') ≡ n = omega arith in
      rw (large, digits)
        (value-digits fuel (n / 10) ((b'0' + n % 10) ∷ rest) (ground (arith, large))
          ∙ ap (λ k. value k rest) e)
]

digits-IsDigit :
    (fuel n : ℕ) (rest : List ℕ)
    → n < fuel
    → All IsDigit rest
    → All IsDigit ((digits fuel n rest).0 ∷ (digits fuel n rest).1)
unfolding digits
digits-IsDigit zero n rest h d = absurd (omega arith)
digits-IsDigit (suc fuel) n rest h d = elim (Bool-cases (ltb n 10)) [
  | inl small ↦
      let le : n < 10 = ltb→lt n 10 small in rw (small, digits) ((omega arith, omega arith), d)
  | inr large ↦
      rw (large, digits)
        (digits-IsDigit fuel (n / 10) ((b'0' + n % 10) ∷ rest) (ground (arith, large))
          ((omega arith, omega arith), d))
]

pub digit_starts : (x : ℕ) → IsDigit x → elem x number_starts ≡ true
digit_starts x h = ground arith

pub digit-Avoids : (xs : List ℕ) → All IsDigit xs → Avoids (codes ",}") xs
digit-Avoids [] h = tt
digit-Avoids (x ∷ xs) h =
    let apart : elem x (codes ",}") ≡ false = ground (arith, h.0) in (apart, digit-Avoids xs h.1)

unfoldable pub decimal_first : ℕ → ℕ
unfolding digits
decimal_first n = (digits (suc n) n []).0

unfoldable pub decimal_others : ℕ → List ℕ
unfolding digits
decimal_others n = (digits (suc n) n []).1

pub decimal_reads :
    (n : ℕ) → n < int32_limit → from_decimal (decimal_first n ∷ decimal_others n) ≡ number n
unfolding from_decimal decimal_first decimal_others
decimal_reads n h =
    let d = digits (suc n) n [] in
    let same_value : value 0 (d.0 ∷ d.1) ≡ n =
      unfold value in value-digits (suc n) n [] (omega arith) in
    let small : ltb n int32_limit ≡ true = ground (arith, h) in
    ap (λ k. if ltb k int32_limit then number k else result_out_of_range) same_value
    ∙ ap (λ b. if b then number n else result_out_of_range) small

pub decimal_digits : (n : ℕ) → All IsDigit (decimal_first n ∷ decimal_others n)
unfolding decimal_first decimal_others
decimal_digits n = digits-IsDigit (suc n) n [] (omega arith) tt
