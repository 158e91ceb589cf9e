-- ===== src/Nt/Connect.antt =====
-- The handler of `clientConnected` that `startServer` sets, and `nextClientWithName`, in
-- src/nt/ntinstance.cpp.
pub mod Names
pub mod Shared
use pico_radio.Base.{
  Bool, Dict, List, Option, [], codes, drop, false, if◌then◌else◌, length, ltb, none, number_key,
  put, same, some, starts_with, text_key, true, ℕ, ◌%◌, ◌&&◌, ◌++◌, ◌+◌, ◌==◌, ◌>>=◌, ◌^◌, ◌∷◌,
}
use pico_radio.Nt.Json.{Parsed, invalid_argument, number, result_out_of_range}
use pico_radio.Nt.Types.{msgpack}
use pico_radio.Nt.Value.{blank}
use pico_radio.Nt.State.{
  ClientData, ClientRef, Instance, Name, NtEnv, TopicProperties, null_client, remote, this_client,
}
use pico_radio.Nt.Cache.{
  flush_binary, flush_text, max_client_binary_cache_length, max_client_text_cache_length,
}
use pico_radio.Nt.Server.{with_client}
use pico_radio.Nt.Update.{update_client_pub_meta_topic, update_client_sub_meta_topic}
use pico_radio.Nt.Publish.{publish_initial_values, publish_topic}
use pico_radio.Nt.Hybrid.{lock, unlock}
use pico_radio.Nt.Clients.{update_clients_meta_topic}

-- `std::string::find`, of a character and of a text.
unfoldable pub index_of : ℕ → List ℕ → Option ℕ
index_of c [] = none
index_of c (x ∷ xs) =
    let rest = index_of c xs in if x == c then some 0 else (do k ← rest; some (k + 1))

unfoldable pub index_of_text : List ℕ → List ℕ → Option ℕ
index_of_text t [] = if starts_with [] t then some 0 else none
index_of_text t (x ∷ xs) =
    let rest = index_of_text t xs in
    if starts_with (x ∷ xs) t then some 0 else (do k ← rest; some (k + 1))

-- The first `@` stands right behind the name.
unfoldable pub separates : Name → Name → Bool
unfolding index_of
separates other name = elim (index_of b'@' other) [ none ↦ false | some k ↦ k == length name ]

unfoldable pub larger : ℕ → ℕ → ℕ
larger a b = if ltb a b then b else a

-- `from_chars` is `std::from_chars` for a `size_t`, of 32 bits, and `memory` what `i` holds where
-- the number does not fit.
module _ (from_chars : List ℕ → Parsed) (memory : ℕ) where
  unfoldable pub number_behind : Name → Name → Option ℕ
  unfolding separates
  number_behind name other =
      if starts_with other name && separates other name
      then elim (from_chars (drop (length name + 1) other)) [
        | invalid_argument ↦ none
        | result_out_of_range ↦ some memory
        | number n ↦ some n
      ]
      else none

  -- The loop of `nextClientWithName`, which starts with 1. A null client is followed.
  unfoldable pub next_client : Name → Dict ℕ ClientRef → ℕ → Option ℕ
  unfolding number_behind larger
  next_client name [] num = some num
  next_client name ((guid, null_client) ∷ m) num = none
  next_client name ((guid, this_client) ∷ m) num = next_client name m num
  next_client name ((guid, remote c) ∷ m) num =
      next_client name m
        (elim (number_behind name c.name) [ none ↦ num | some i ↦ larger num ((i + 1) % 2 ^ 32) ])

  unfoldable pub next_client_with_name : Name → Dict ℕ ClientRef → Option ℕ
  unfolding next_client
  next_client_with_name name clients = next_client name clients 1

-- `requestedPath.substr(requestedPath.find("/nt/") + 4)`: `npos` plus 4 is 3, and a start behind the
-- end of the path is an exception.
unfoldable pub name_start : List ℕ → ℕ
unfolding index_of_text
name_start path = elim (index_of_text (codes "/nt/") path) [ none ↦ 3 | some k ↦ k + 4 ]

unfoldable pub name_of_path : List ℕ → Option Name
unfolding name_start
name_of_path path =
    let start = name_start path in if ltb (length path) start then none else some (drop start path)

unfoldable pub client_name : NtEnv → Name → ℕ → Name
client_name env name num = name ++ b'@' ∷ env.to_string num

unfoldable pub new_client : ℕ → Name → ClientData
new_client guid name = record {
  guid = guid;
  name = name;
  subscriptions = [];
  publishers = [];
  topic_data = [];
  next_topic_id_assigned = 0;
  text_cache = [];
  binary_cache = [];
}

abbrev pub meta_properties : TopicProperties
meta_properties = record { persistent = false; retained = true; cached = true }

abbrev pub rtt_protocol : List ℕ
rtt_protocol = codes "rtt.networktables.first.wpi.edu"

-- `conns` are the server's connections with their addresses, the new one among them.
module _ (env : NtEnv) (from_chars : List ℕ → Parsed) (pack_clients : List (Name × List ℕ) → List ℕ)
    (conns : Dict ℕ (List ℕ)) where
  unfoldable pub join_client : ℕ → Name → Instance → Option Instance
  unfolding next_client_with_name client_name new_client put publish_topic blank
      update_clients_meta_topic update_client_sub_meta_topic update_client_pub_meta_topic
      with_client flush_text publish_initial_values flush_binary
  join_client guid name s = do
    num ← next_client_with_name from_chars env.memory name s.clients
    let full = client_name env name num
    let s0 = record s { clients = put guid (remote (new_client guid full)) s.clients }
    (sub_ok, s1) ←
        publish_topic env (codes "$clientsub$" ++ full) (blank env.memory msgpack) meta_properties
          s0
    (pub_ok, s2) ←
        publish_topic env (codes "$clientpub$" ++ full) (blank env.memory msgpack) meta_properties
          s1
    s3 ← update_clients_meta_topic env pack_clients conns s2
    s4 ← update_client_sub_meta_topic env guid s3
    s5 ← update_client_pub_meta_topic env guid s4
    s6 ← with_client guid (flush_text max_client_text_cache_length) s5
    s7 ← publish_initial_values env guid s6
    with_client guid (flush_binary max_client_binary_cache_length) s7

  unfoldable pub client_connected : ℕ → List ℕ → List ℕ → Instance → Option Instance
  unfolding name_of_path join_client
  client_connected guid protocol path s = if same protocol rtt_protocol then some s else (do
    name ← name_of_path path
    if s.locked then some s else (do s' ← join_client guid name (lock s); some (unlock s')))
