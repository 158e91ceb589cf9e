-- ===== src/Examples/Clients.antt =====
-- The theorems on the names of clients at concrete inputs.
use pico_radio.Base.{
  List, Option, [], arith, codes, get, none, number_key, refl, some, text_key, ℕ, ◌++◌, ◌∷◌, ◌≡◌,
  ◌≢◌, ◌⊎◌,
}
use pico_radio.Nt.Json.{Parsed, invalid_argument, number}
use pico_radio.Nt.State.{ClientData, ClientRef, remote}
use pico_radio.Nt.Connect.{client_name, index_of, next_client_with_name}
use pico_radio.Nt.Connect.Names.{next_client_with_name-client_name}
use pico_radio.Nt.Connect.Shared.{next_client_with_name-shared}
use pico_radio.Examples.{nt_env, this_data}

-- Numbers of one character.
abbrev read_one : List ℕ → Parsed
read_one [] = invalid_argument
read_one (d ∷ ds) = number d

abbrev named : List ℕ → ClientData
named name = record this_data { guid = 9; name = name }

abbrev clients_of : List ℕ → List (ℕ × ClientRef)
clients_of name = (9, remote (named name)) ∷ []

next_client_with_name-client_name_example :
    (codes "bot" ++ b'@' ∷ 3 ∷ []) ≢ client_name nt_env (codes "bot") 4
next_client_with_name-client_name_example =
    next_client_with_name-client_name nt_env read_one (codes "bot")
      (clients_of (codes "bot" ++ b'@' ∷ 3 ∷ [])) 4 9 (named (codes "bot" ++ b'@' ∷ 3 ∷ []))
      (unfold index_of in refl) refl (omega arith) (unfold next_client_with_name in refl)
      (unfold get in refl)

-- A second client that asks for `a@b`.
abbrev second : Option ℕ
second = next_client_with_name read_one 0 (codes "a@b") (clients_of (codes "a@b" ++ b'@' ∷ 1 ∷ []))

next_client_with_name-shared_example : (second ≡ some 1) ⊎ (second ≡ none)
next_client_with_name-shared_example =
    next_client_with_name-shared read_one 0 (codes "a@b") 1
      (clients_of (codes "a@b" ++ b'@' ∷ 1 ∷ [])) (unfold index_of in refl)
