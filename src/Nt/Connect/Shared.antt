-- ===== src/Nt/Connect/Shared.antt =====
-- Names with an `@`.
use pico_radio.Base.{
  Bool-cases, Dict, List, Option, Option-cases, [], ap, arith, false, inl, inr, length, none, refl,
  some, starts_with, true, ℕ, ◌+◌, ◌<◌, ◌==◌, ◌∙◌, ◌∷◌, ◌≡◌, ◌⊎◌,
}
use pico_radio.Nt.Json.{Parsed}
use pico_radio.Nt.State.{ClientRef, Name, null_client, remote, this_client}
use pico_radio.Nt.KeepsTopics.{Ensures}
use pico_radio.Nt.Connect.{index_of, next_client, next_client_with_name, number_behind, separates}

index_of-starts_with :
    (c k : ℕ) (other name : List ℕ)
    → starts_with other name ≡ true
    → index_of c name ≡ some k
    → (index_of c other ≡ some k) × (k < length name)
unfolding index_of
index_of-starts_with c k other [] starts found = absurd cc
index_of-starts_with c k [] (y ∷ name) starts found = absurd cc
index_of-starts_with c k (x ∷ other) (y ∷ name) starts found =
    let head : x ≡ y = ground (arith, starts) in
    let tail : starts_with other name ≡ true = ground (arith, starts) in
    elim (Bool-cases (y == c)) [
      | inl here ↦
          let here' : (x == c) ≡ true = ap (λ a. a == c) head ∙ here in
          let first : ◌≡◌ {A = Option ℕ} (some 0) (some k) = rw here at found in
          let zero_k : 0 ≡ k = cc in (rw here' first, omega (arith, zero_k))
      | inr there ↦ elim (Option-cases (index_of c name)) [
        | inl missing ↦
            let clash : ◌≡◌ {A = Option ℕ} none (some k) = rw (there, missing) at found in absurd cc
        | inr (j, later) ↦
            let there' : (x == c) ≡ false = ap (λ a. a == c) head ∙ there in
            let next : ◌≡◌ {A = Option ℕ} (some (j + 1)) (some k) = rw (there, later) at found in
            let next_k : j + 1 ≡ k = cc in
            let (at, bound) = index_of-starts_with c j other name tail later in
            (rw (there', at) next, omega (arith, bound, next_k))
      ]
    ]

module _ (from_chars : List ℕ → Parsed) (memory : ℕ) where
  number_behind-none :
      (name other : Name) (k : ℕ)
      → index_of b'@' name ≡ some k
      → number_behind from_chars memory name other ≡ none
  unfolding number_behind
  number_behind-none name other k found = elim (Bool-cases (starts_with other name)) [
    | inr differ ↦ rw differ
    | inl starts ↦
        let (at, bound) = index_of-starts_with b'@' k other name starts found in
        let short : (k == length name) ≡ false = ground (arith, bound) in
        let apart : separates other name ≡ false = unfold separates in rw (separates, at, short) in
        rw (starts, apart)
  ]

  next_client-same :
      (name : Name) (k : ℕ)
      → index_of b'@' name ≡ some k
      → (clients : Dict ℕ ClientRef) (num : ℕ)
      → Ensures (λ n. n ≡ num) (next_client from_chars memory name clients num)
  unfolding next_client
  next_client-same name k found [] num = refl
  next_client-same name k found ((guid, null_client) ∷ m) num = tt
  next_client-same name k found ((guid, this_client) ∷ m) num = next_client-same name k found m num
  next_client-same name k found ((guid, remote c) ∷ m) num =
      rw (number_behind-none name c.name k found) (next_client-same name k found m num)

-- Clients that ask for a name with an `@` all get the number 1, whatever clients there are, and so
-- one and the same name, unless the loop over the clients meets a null pointer.
pub next_client_with_name-shared :
    (from_chars : List ℕ → Parsed) (memory : ℕ) (name : Name) (k : ℕ) (clients : Dict ℕ ClientRef)
    → index_of b'@' name ≡ some k
    → (next_client_with_name from_chars memory name clients ≡ some 1)
      ⊎ (next_client_with_name from_chars memory name clients ≡ none)
unfolding next_client_with_name
next_client_with_name-shared from_chars memory name k clients found =
    elim (Option-cases (next_client from_chars memory name clients 1)) [
      | inl null ↦ inr null
      | inr (num, given) ↦
          let one : Ensures (λ n. n ≡ 1) (next_client from_chars memory name clients 1) =
            next_client-same from_chars memory name k found clients 1 in
          let result : num ≡ 1 = rw given at one in inl (given ∙ ap some result)
    ]
