-- ===== src/Nt/Clients.antt =====
-- What the instance does when the WebSocket server tells it that a client is gone or has sent a
-- value: the handlers `clientDisconnected` and the binary branch of `_handleFrame` in
-- src/nt/ntinstance.cpp.
pub mod Mutex
use pico_radio.Base.{
  Dict, List, Option, [], codes, erase, get, if◌then◌else◌, none, not, number_key, put, some,
  text_key, ℕ, ◌>>=◌, ◌||◌, ◌∷◌,
}
use pico_radio.Nt.Value.{NtDataValue}
use pico_radio.Nt.State.{
  ClientRef, Instance, Name, NtEnv, Publisher, null_client, remote, this_client,
}
use pico_radio.Nt.Cache.{flush_binary, max_client_binary_cache_length}
use pico_radio.Nt.Server.{data_of}
use pico_radio.Nt.Update.{update_meta_topic}
use pico_radio.Nt.Hybrid.{assign_topic, flush_all, is_server, lock, pointer_at, touch, unlock}

-- The loop of `updateClientsMetaTopic` over the server's connections, each with its address: the
-- name and the address of those that are clients.
unfoldable pub connected_names :
    Dict ℕ ClientRef → Instance → Dict ℕ (List ℕ) → Option (List (Name × List ℕ))
unfolding get data_of
connected_names clients s [] = some []
connected_names clients s ((guid, conn) ∷ m) = do
  rest ← connected_names clients s m
  elim (get guid clients) [
    | none ↦ some rest
    | some ref ↦ do c ← data_of ref s; some ((c.name, conn) ∷ rest)
  ]

module _ (env : NtEnv) (pack_clients : List (Name × List ℕ) → List ℕ) where
  unfoldable pub update_clients_meta_topic : Dict ℕ (List ℕ) → Instance → Option Instance
  unfolding connected_names update_meta_topic
  update_clients_meta_topic conns s = do
    names ← connected_names s.clients s conns
    update_meta_topic env (codes "$clients") (pack_clients names) s

  -- The handler of `clientDisconnected`. Behind `clients.find` it returns without giving the
  -- mutex back. An entry that is no object of its own would be followed or deleted.
  unfoldable pub client_disconnected : Dict ℕ (List ℕ) → ℕ → Instance → Option Instance
  unfolding get erase update_clients_meta_topic flush_all flush_binary
  client_disconnected conns guid s = if s.locked then some s else elim (get guid s.clients) [
    | none ↦ some (lock s)
    | some (remote c) ↦ do
      s1 ← update_clients_meta_topic conns (record (lock s) { clients = erase guid s.clients })
      s2 ← flush_all (flush_binary max_client_binary_cache_length) s1
      some (unlock s2)
    | some _ ↦ none
  ]

  -- A value from a client, which only a server takes, for the identifier as an `int32_t`. Here too an unknown client leaves the mutex taken, by the
  -- `break`.
  unfoldable pub set_publishers : ℕ → ClientRef → Dict ℕ (Option Publisher) → Instance → Instance
  unfolding put
  set_publishers guid null_client pubs s = s
  set_publishers guid this_client pubs s = record s { this = record s.this { publishers = pubs } }
  set_publishers guid (remote c) pubs s = record s {
    clients = put guid (remote (record c { publishers = pubs })) s.clients;
  }

  unfoldable pub value_received : ℕ → ℕ → NtDataValue → Instance → Option Instance
  unfolding is_server get data_of pointer_at touch set_publishers assign_topic flush_all
      flush_binary
  value_received guid id value s =
      if not (is_server s.mode) || s.locked then some s else elim (get guid s.clients) [
        | none ↦ some (lock s)
        | some ref ↦ do
          c ← data_of ref s
          s1 ← elim (pointer_at id c.publishers) [
            | none ↦ some (set_publishers guid ref (touch id c.publishers) (lock s))
            | some p ↦ assign_topic env p.topic value none (lock s)
          ]
          s2 ← flush_all (flush_binary max_client_binary_cache_length) s1
          some (unlock s2)
      ]
