-- ===== src/Nt/Connect/Names.antt =====
-- The names of clients.
use pico_radio.Base.{
  Bool-cases, Dict, List, Option, Option-cases, [], ap, arith, drop, drop-drop, drop_append, get,
  inl, inr, length, none, number_key, some, starts_with, starts_with-append, sym, text_key, true, ℕ,
  ◌%◌, ◌++◌, ◌+◌, ◌-◌, ◌<◌, ◌==◌, ◌^◌, ◌∙◌, ◌∷◌, ◌≡◌, ◌≢◌, ◌≤◌,
}
use pico_radio.Nt.Json.{Parsed, number}
use pico_radio.Nt.State.{ClientData, ClientRef, Name, NtEnv, null_client, remote, this_client}
use pico_radio.Nt.Connect.{
  client_name, index_of, larger, next_client, next_client_with_name, number_behind, separates,
}

larger-left : (a b : ℕ) → a ≤ larger a b
unfolding larger
larger-left a b = ground arith

larger-right : (a b : ℕ) → b ≤ larger a b
unfolding larger
larger-right a b = ground arith

index_of-name :
    (c : ℕ) (name rest : List ℕ)
    → index_of c name ≡ none
    → index_of c (name ++ c ∷ rest) ≡ some (length name)
unfolding index_of
index_of-name c [] rest none_here = let e : (c == c) ≡ true = ground arith in rw e
index_of-name c (x ∷ name) rest none_here = elim (Bool-cases (x == c)) [
  | inl here ↦ let clash : ◌≡◌ {A = Option ℕ} (some 0) none = rw here at none_here in absurd cc
  | inr there ↦ elim (Option-cases (index_of c name)) [
    | inl later ↦ rw (there, index_of-name c name rest later) (ap some (omega arith))
    | inr (k, found) ↦
        let clash : ◌≡◌ {A = Option ℕ} (some (k + 1)) none = rw (there, found) at none_here in
        absurd cc
  ]
]

module _ (from_chars : List ℕ → Parsed) (memory : ℕ) where
  number_behind-client_name :
      (env : NtEnv) (name : Name) (num : ℕ)
      → index_of b'@' name ≡ none
      → from_chars (env.to_string num) ≡ number num
      → number_behind from_chars memory name (client_name env name num) ≡ some num
  unfolding number_behind separates client_name
  number_behind-client_name env name num plain reads =
      let starts : starts_with (name ++ b'@' ∷ env.to_string num) name ≡ true =
        starts_with-append name (b'@' ∷ env.to_string num) in
      let at : index_of b'@' (name ++ b'@' ∷ env.to_string num) ≡ some (length name) =
        index_of-name b'@' name (env.to_string num) plain in
      let here : (length name == length name) ≡ true = ground arith in
      let behind : drop (length name + 1) (name ++ b'@' ∷ env.to_string num) ≡ env.to_string num =
        sym (drop-drop 1 (length name) (name ++ b'@' ∷ env.to_string num))
        ∙ ap (drop 1) (drop_append name (b'@' ∷ env.to_string num)) in
      let apart : separates (name ++ b'@' ∷ env.to_string num) name ≡ true =
        rw (separates, at, here) in
      rw (starts, apart, behind, reads)

  -- The loop does not go below its start.
  next_client-start :
      (name : Name) (clients : Dict ℕ ClientRef) (num next : ℕ)
      → next_client from_chars memory name clients num ≡ some next
      → num ≤ next
  unfolding next_client
  next_client-start name [] num next e = let same : num ≡ next = cc in omega (arith, same)
  next_client-start name ((guid, null_client) ∷ m) num next e = absurd cc
  next_client-start name ((guid, this_client) ∷ m) num next e = next_client-start name m num next e
  next_client-start name ((guid, remote c) ∷ m) num next e =
      elim (Option-cases (number_behind from_chars memory name c.name)) [
        | inl other ↦
            let rest : next_client from_chars memory name m num ≡ some next = rw other at e in
            next_client-start name m num next rest
        | inr (i, found) ↦
            let rest : next_client from_chars memory name m (larger num ((i + 1) % 2 ^ 32))
                ≡ some next =
              rw found at e in
            omega (
              arith,
              larger-left num ((i + 1) % 2 ^ 32),
              next_client-start name m (larger num ((i + 1) % 2 ^ 32)) next rest,
            )
      ]

  -- The number behind the name of a client that the loop sees is below the result.
  next_client-above :
      (name : Name) (guid : ℕ) (c : ClientData) (i : ℕ) (clients : Dict ℕ ClientRef) (num next : ℕ)
      → get guid clients ≡ some (remote c)
      → number_behind from_chars memory name c.name ≡ some i
      → next_client from_chars memory name clients num ≡ some next
      → (i + 1) % 2 ^ 32 ≤ next
  unfolding next_client get
  next_client-above name guid c i [] num next known found e = absurd cc
  next_client-above name guid c i ((g, null_client) ∷ m) num next known found e = absurd cc
  next_client-above name guid c i ((g, this_client) ∷ m) num next known found e =
      elim (Bool-cases (g == guid)) [
        | inl here ↦
            let clash : ◌≡◌ {A = Option ClientRef} (some this_client) (some (remote c)) =
              rw here at known in
            absurd cc
        | inr there ↦
            let later : get guid m ≡ some (remote c) = rw there at known in
            next_client-above name guid c i m num next later found e
      ]
  next_client-above name guid c i ((g, remote d) ∷ m) num next known found e =
      elim (Bool-cases (g == guid)) [
        | inl here ↦
            let same_client : ◌≡◌ {A = Option ClientRef} (some (remote d)) (some (remote c)) =
              rw here at known in
            let same : d ≡ c = cc in
            let found_here : number_behind from_chars memory name d.name ≡ some i =
              ap (λ x. number_behind from_chars memory name x.name) same ∙ found in
            let rest : next_client from_chars memory name m (larger num ((i + 1) % 2 ^ 32))
                ≡ some next =
              rw found_here at e in
            omega (
              arith,
              larger-right num ((i + 1) % 2 ^ 32),
              next_client-start name m (larger num ((i + 1) % 2 ^ 32)) next rest,
            )
        | inr there ↦
            let later : get guid m ≡ some (remote c) = rw there at known in
            next_client-above name guid c i m _ next later found e
      ]

-- Where a client asks for a name without an `@`, the name with the number that
-- `nextClientWithName` gives is not that of any client, if `std::from_chars` reads the number back
-- that `std::to_string` writes, and the number is below the largest of a `size_t` of 32 bits.
pub next_client_with_name-client_name :
    (env : NtEnv) (from_chars : List ℕ → Parsed) (name : Name) (clients : Dict ℕ ClientRef)
    (num guid : ℕ) (c : ClientData)
    → index_of b'@' name ≡ none
    → from_chars (env.to_string num) ≡ number num
    → num < 2 ^ 32 - 1
    → next_client_with_name from_chars env.memory name clients ≡ some num
    → get guid clients ≡ some (remote c)
    → c.name ≢ client_name env name num
unfolding next_client_with_name
next_client_with_name-client_name env from_chars name clients num guid c plain reads small next
      known taken =
    let found : number_behind from_chars env.memory name c.name ≡ some num =
      ap (number_behind from_chars env.memory name) taken
      ∙ number_behind-client_name from_chars env.memory env name num plain reads in
    let above : (num + 1) % 2 ^ 32 ≤ num =
      next_client-above from_chars env.memory name guid c num clients 1 num known found next in
    omega (arith, above, small)
