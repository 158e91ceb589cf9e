-- ===== src/Nt/Messages.antt =====
-- What a server does with the text messages of a client: the text branch of `_handleFrame` in
-- src/nt/ntinstance.cpp, from the parameters that its JSON reader has found in a message on.
pub mod MetaNames
pub mod Release
use pico_radio.Base.{
  Bool, Dict, List, Option, [], contains, erase, get, if◌then◌else◌, map, none, not, number_key,
  put, some, starts_with, text_key, ℕ, ◌&&◌, ◌>>=◌, ◌||◌, ◌∷◌,
}
use pico_radio.Nt.Types.{NtDataType}
use pico_radio.Nt.Value.{new_value}
use pico_radio.Nt.State.{
  ClientData, ClientRef, Instance, Name, NtEnv, Subscription, SubscriptionOptions, Topic,
  TopicProperties, null_client, remote, this_client,
}
use pico_radio.Nt.Cache.{
  announce_publisher, flush_binary, flush_text, max_client_binary_cache_length,
  max_client_text_cache_length,
}
use pico_radio.Nt.Subscribed.{dollar, is_subscribed_to}
use pico_radio.Nt.Server.{announce_cached_topics, data_of, with_client}
use pico_radio.Nt.Update.{
  update_client_pub_meta_topic, update_client_sub_meta_topic, update_topic_pub_meta_topic,
  update_topic_sub_meta_topic,
}
use pico_radio.Nt.Publish.{publish_initial_values, publish_topic_from, update_topic_properties}
use pico_radio.Nt.Hybrid.{flush_all, is_server, lock, pointer_at, touch, unlock}

-- A message with its parameters. The properties of an update are those that it sets.
pub data ClientMessage : Type 0 where
  subscribe_message : List Name → ℕ → SubscriptionOptions → ClientMessage
  publish_message : Name → ℕ → NtDataType → TopicProperties → ClientMessage
  unsubscribe_message : ℕ → ClientMessage
  unpublish_message : ℕ → ClientMessage
  set_properties_message : Name → Option Bool → Option Bool → Option Bool → ClientMessage
  other_message : ClientMessage

-- `clients[guid]`, changed.
unfoldable pub set_client : ℕ → ClientRef → ClientData → Instance → Instance
unfolding put
set_client guid null_client c s = s
set_client guid this_client c s = record s { this = c }
set_client guid (remote old) c s = record s { clients = put guid (remote c) s.clients }

-- The loop that updates the meta topics of the topics that a subscription names.
unfoldable pub update_subscribed : NtEnv → Subscription → List Name → Instance → Option Instance
unfolding is_subscribed_to update_topic_sub_meta_topic
update_subscribed env sub [] s = some s
update_subscribed env sub (name ∷ names) s = do
  s' ←
      (if not (starts_with name dollar) && is_subscribed_to sub name
        then update_topic_sub_meta_topic env name s
        else some s)
  update_subscribed env sub names s'

unfoldable pub names_of : Dict Name (Option Topic) → List Name
names_of m = map (λ e. e.0) m

unfoldable pub client_subscribes :
    NtEnv → ℕ → List Name → ℕ → SubscriptionOptions → Instance → Option Instance
unfolding get put data_of set_client update_client_sub_meta_topic update_subscribed names_of
    announce_cached_topics
client_subscribes env guid topics subuid options s = do
  ref ← get guid s.clients
  c ← data_of ref s
  let sub : Subscription = record { uid = subuid; topics = topics; options = options }
  s1 ←
      update_client_sub_meta_topic env guid
        (set_client guid ref (record c { subscriptions = put subuid (some sub) c.subscriptions }) s)
  s2 ← update_subscribed env sub (names_of s1.topics) s1
  announce_cached_topics env guid s2

-- The topic of a publish message: it is published, or the client is told of it.
unfoldable pub answer_publish :
    NtEnv → ℕ → Name → ℕ → NtDataType → TopicProperties → Instance → Option Instance
unfolding get new_value publish_topic_from with_client announce_publisher
answer_publish env guid name pubuid type properties s = elim (get name s.topics) [
  | none ↦ do
    (ok, s') ← publish_topic_from env name (new_value env.memory type) guid pubuid properties s
    some s'
  | some entry ↦ do topic ← entry; with_client guid (announce_publisher env topic pubuid) s
]

unfoldable pub client_publishes :
    NtEnv → ℕ → Name → ℕ → NtDataType → TopicProperties → Instance → Option Instance
unfolding get put data_of set_client answer_publish update_client_pub_meta_topic
    update_topic_pub_meta_topic
client_publishes env guid name pubuid type properties s = do
  ref ← get guid s.clients
  c ← data_of ref s
  let pubs = put pubuid (some (record { uid = pubuid; topic = name })) c.publishers
  s1 ←
      answer_publish env guid name pubuid type properties
        (set_client guid ref (record c { publishers = pubs }) s)
  s2 ← update_client_pub_meta_topic env guid s1
  update_topic_pub_meta_topic env name s2

unfoldable pub client_unsubscribes : NtEnv → ℕ → ℕ → Instance → Option Instance
unfolding get erase data_of set_client pointer_at touch update_client_sub_meta_topic
    update_subscribed names_of
client_unsubscribes env guid subuid s = do
  ref ← get guid s.clients
  c ← data_of ref s
  elim (pointer_at subuid c.subscriptions) [
    | none ↦
        some (set_client guid ref (record c { subscriptions = touch subuid c.subscriptions }) s)
    | some sub ↦ do
      s1 ←
          update_client_sub_meta_topic env guid
            (set_client guid ref (record c { subscriptions = erase subuid c.subscriptions }) s)
      update_subscribed env sub (names_of s1.topics) s1
  ]

unfoldable pub client_unpublishes : NtEnv → ℕ → ℕ → Instance → Option Instance
unfolding get erase data_of set_client pointer_at touch update_client_pub_meta_topic
    update_topic_pub_meta_topic
client_unpublishes env guid pubuid s = do
  ref ← get guid s.clients
  c ← data_of ref s
  elim (pointer_at pubuid c.publishers) [
    | none ↦ some (set_client guid ref (record c { publishers = touch pubuid c.publishers }) s)
    | some p ↦ do
      s1 ←
          update_client_pub_meta_topic env guid
            (set_client guid ref (record c { publishers = erase pubuid c.publishers }) s)
      update_topic_pub_meta_topic env p.topic s1
  ]

-- A property that the update does not have keeps its value.
abbrev keep : Option Bool → Bool → Bool
keep none old = old
keep (some new) old = new

unfoldable pub client_sets_properties :
    NtEnv → ℕ → Name → Option Bool → Option Bool → Option Bool → Instance → Option Instance
unfolding get put update_topic_properties
client_sets_properties env guid name persistent retained cached s = elim (get name s.topics) [
  | none ↦ some (record s { topics = put name none s.topics })
  | some none ↦ some s
  | some (some topic) ↦ do
    let old = topic.properties
    let topic' = record topic {
      properties = record {
        persistent = keep persistent old.persistent;
        retained = keep retained old.retained;
        cached = keep cached old.cached;
      };
    }
    (ok, s') ←
        update_topic_properties env topic' (some guid)
          (record s { topics = put name (some topic') s.topics })
    some s'
]

-- The `switch` on the method. Each case breaks where the instance is no server, takes the mutex, or
-- returns, and gives it back at its own end.
unfoldable pub handle_client_message : NtEnv → ℕ → ClientMessage → Instance → Option Instance
unfolding is_server client_subscribes client_publishes client_unsubscribes client_unpublishes
    client_sets_properties
handle_client_message env guid (subscribe_message topics uid options) s =
    if not (is_server s.mode) || s.locked
    then some s
    else (do s' ← client_subscribes env guid topics uid options (lock s); some (unlock s'))
handle_client_message env guid (publish_message name uid type p) s =
    if not (is_server s.mode) || s.locked
    then some s
    else (do s' ← client_publishes env guid name uid type p (lock s); some (unlock s'))
handle_client_message env guid (unsubscribe_message uid) s =
    if not (is_server s.mode) || s.locked
    then some s
    else (do s' ← client_unsubscribes env guid uid (lock s); some (unlock s'))
handle_client_message env guid (unpublish_message uid) s =
    if not (is_server s.mode) || s.locked
    then some s
    else (do s' ← client_unpublishes env guid uid (lock s); some (unlock s'))
handle_client_message env guid (set_properties_message name p r c) s =
    if not (is_server s.mode) || s.locked
    then some s
    else (do s' ← client_sets_properties env guid name p r c (lock s); some (unlock s'))
handle_client_message env guid other_message s = some s

-- Behind the last message.
unfoldable pub finish_locked : NtEnv → ℕ → Instance → Option Instance
unfolding flush_all flush_text flush_binary publish_initial_values
finish_locked env guid s = do
  s1 ← flush_all (flush_text max_client_text_cache_length) s
  s2 ← publish_initial_values env guid s1
  flush_all (flush_binary max_client_binary_cache_length) s2

-- The messages of a frame in turn. Where the mutex cannot be taken the function returns, at the
-- latest behind the last message.
unfoldable pub handle_messages : NtEnv → ℕ → List ClientMessage → Instance → Option Instance
unfolding handle_client_message
handle_messages env guid [] s =
    if s.locked then some s else (do s' ← finish_locked env guid (lock s); some (unlock s'))
handle_messages env guid (m ∷ ms) s =
    if s.locked
    then some s
    else (do s' ← handle_client_message env guid m s; handle_messages env guid ms s')

-- `case WebSocketOpCode::TextFrame`
unfoldable pub text_received : NtEnv → ℕ → List ClientMessage → Instance → Option Instance
unfolding contains
text_received env guid messages s =
    if contains guid s.clients then handle_messages env guid messages s else some s
