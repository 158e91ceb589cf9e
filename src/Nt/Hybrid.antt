-- ===== src/Nt/Hybrid.antt =====
-- The hybrid functions of `NetworkTableInstance`, with the mutex around them: src/nt/ntinstance.cpp.
-- `xSemaphoreTake` fails while another task holds the mutex.
pub mod NullEntries
pub mod Release
use pico_radio.Base.{
  Bool, Dict, List, Option, [], erase, false, get, if◌then◌else◌, none, number_key, put, some,
  text_key, true, ℕ, ◌++◌, ◌>>=◌, ◌∷◌,
}
use pico_radio.Nt.Types.{NtDataType}
use pico_radio.Nt.Value.{NtDataValue, assign, new_value}
use pico_radio.Nt.State.{
  AnnouncedTopic, ClientData, ClientRef, Instance, Message, Name, NetworkMode, NtEnv, Subscription,
  SubscriptionOptions, TopicProperties, client_mode, null_client, remote, server_mode, server_time,
  starting, this_client,
}
use pico_radio.Nt.Cache.{flush_binary, max_client_binary_cache_length}
use pico_radio.Nt.Server.{announce_cached_topics_self, announce_topic_self_sync}
use pico_radio.Nt.Update.{
  send_topic_update, update_server_pub_meta_topic, update_server_sub_meta_topic,
}
use pico_radio.Nt.Publish.{
  no_topic, publish_initial_values_self, publish_topic_self_sync, update_topic_properties,
}

-- A function's body under the mutex has its name and `_locked`.
abbrev pub lock : Instance → Instance
lock s = record s { locked = true }

abbrev pub unlock : Instance → Instance
unlock s = record s { locked = false }

-- `switch (networkMode)`, whose other cases do nothing.
unfoldable pub is_server : NetworkMode → Bool
is_server server_mode = true
is_server client_mode = false
is_server starting = false

-- `subscribe`, `unsubscribe`, `unpublish`, `updateTopic` and `flush` take the mutex, and give it back
-- once, behind the `switch`, of which only the server's case has a body.
unfoldable pub guarded : (Instance → Option Instance) → Instance → Option Instance
unfolding is_server
guarded body s =
    if s.locked
    then some s
    else (do s' ← (if is_server s.mode then body (lock s) else some (lock s)); some (unlock s'))

-- `map[key]` on pointers: a missing key gets a null pointer.
unfoldable pub pointer_at : {V : Type 0} → ℕ → Dict ℕ (Option V) → Option V
unfolding get
pointer_at k m = elim (get k m) [ none ↦ none | some p ↦ p ]

unfoldable pub touch : {V : Type 0} → ℕ → Dict ℕ (Option V) → Dict ℕ (Option V)
unfolding get put
touch k m = elim (get k m) [ none ↦ put k none m | some p ↦ m ]

unfoldable pub set_subscription : Subscription → Instance → Instance
unfolding put
set_subscription sub s = record s {
  this = record s.this { subscriptions = put sub.uid (some sub) s.this.subscriptions };
}

unfoldable pub subscribe_locked :
    NtEnv → List Name → ℕ → SubscriptionOptions → Instance → Option Instance
unfolding set_subscription update_server_sub_meta_topic announce_cached_topics_self
    publish_initial_values_self
subscribe_locked env topics subuid options s0 = do
  s1 ←
      update_server_sub_meta_topic env
        (set_subscription (record { uid = subuid; topics = topics; options = options }) s0)
  s2 ← announce_cached_topics_self env s1
  publish_initial_values_self env s2

unfoldable pub subscribe : NtEnv → List Name → ℕ → SubscriptionOptions → Instance → Option Instance
unfolding guarded subscribe_locked
subscribe env topics subuid options s = guarded (subscribe_locked env topics subuid options) s

unfoldable pub unsubscribe_locked : NtEnv → ℕ → Instance → Option Instance
unfolding pointer_at touch erase update_server_sub_meta_topic
unsubscribe_locked env subuid s0 = elim (pointer_at subuid s0.this.subscriptions) [
  | none ↦
      some
        (record s0 { this = record s0.this { subscriptions = touch subuid s0.this.subscriptions } })
  | some sub ↦
      update_server_sub_meta_topic env
        (record s0 { this = record s0.this { subscriptions = erase subuid s0.this.subscriptions } })
]

unfoldable pub unsubscribe : NtEnv → ℕ → Instance → Option Instance
unfolding guarded unsubscribe_locked
unsubscribe env subuid s = guarded (unsubscribe_locked env subuid) s

-- The part of `publish` that runs on a server. The identifier of a topic that is known is that
-- of `announceTopicSelfSync`.
unfoldable pub publish_on_server :
    NtEnv → Name → ℕ → NtDataType → TopicProperties → Instance → Option (AnnouncedTopic × Instance)
unfolding get put new_value publish_topic_self_sync announce_topic_self_sync
    update_server_pub_meta_topic
publish_on_server env name pubuid type properties s = do
  let s0 = record s {
    this = record s.this {
      publishers = put pubuid (some (record { uid = pubuid; topic = name })) s.this.publishers;
    };
  }
  (topic, s1) ← elim (get name s0.topics) [
    | none ↦ publish_topic_self_sync env name (new_value env.memory type) properties s0
    | some entry ↦ do topic ← entry; some (announce_topic_self_sync topic s0)
  ]
  s2 ← update_server_pub_meta_topic env s1
  some (topic, s2)

unfoldable pub publish :
    NtEnv → Name → ℕ → NtDataType → TopicProperties → Instance → Option (AnnouncedTopic × Instance)
unfolding is_server publish_on_server
publish env name pubuid type properties s =
    if s.locked
    then some (no_topic properties, s)
    else if is_server s.mode
    then (do
      (topic, s') ← publish_on_server env name pubuid type properties (lock s)
      some (topic, unlock s'))
    else some (no_topic properties, unlock (lock s))

unfoldable pub unpublish_locked : NtEnv → ℕ → Instance → Option Instance
unfolding pointer_at touch erase update_server_pub_meta_topic
unpublish_locked env pubuid s0 = elim (pointer_at pubuid s0.this.publishers) [
  | none ↦
      some (record s0 { this = record s0.this { publishers = touch pubuid s0.this.publishers } })
  | some p ↦
      update_server_pub_meta_topic env
        (record s0 { this = record s0.this { publishers = erase pubuid s0.this.publishers } })
]

unfoldable pub unpublish : NtEnv → ℕ → Instance → Option Instance
unfolding guarded unpublish_locked
unpublish env pubuid s = guarded (unpublish_locked env pubuid) s

-- `setProperties`; it answers with `update` on every path.
unfoldable pub set_properties_locked : NtEnv → Name → TopicProperties → Instance → Option Instance
unfolding get put update_topic_properties
set_properties_locked env name update s0 = elim (get name s0.topics) [
  | none ↦ some (record s0 { topics = put name none s0.topics })
  | some none ↦ some s0
  | some (some topic) ↦ do
    let topic' = record topic { properties = update }
    (ok, s1) ←
        update_topic_properties env topic' none
          (record s0 { topics = put name (some topic') s0.topics })
    some s1
]

unfoldable pub set_properties : NtEnv → Name → TopicProperties → Instance → Option Instance
unfolding is_server set_properties_locked
set_properties env name update s =
    if s.locked
    then some s
    else if is_server s.mode
    then (do s' ← set_properties_locked env name update (lock s); some (unlock s'))
    else some (unlock (lock s))

-- The time of an update: the one given, or that of the server.
unfoldable pub time_or_now : NtEnv → Option ℕ → Instance → ℕ × Instance
unfolding server_time
time_or_now env none s = server_time env s
time_or_now env (some time) s = (time, s)

-- `topics[publisher->topic]`, assigned and sent on; a name that is not there gets a null entry.
unfoldable pub assign_topic : NtEnv → Name → NtDataValue → Option ℕ → Instance → Option Instance
unfolding get put assign time_or_now send_topic_update
assign_topic env name value time s = elim (get name s.topics) [
  | none ↦ some (record s { topics = put name none s.topics })
  | some none ↦ some s
  | some (some topic) ↦ do
    value' ← assign value topic.value
    let topic' = record topic { value = value' }
    let (at, s0) = time_or_now env time (record s { topics = put name (some topic') s.topics })
    (ok, s1) ← send_topic_update env topic' at s0
    some s1
]

-- `updateTopic(id, value, time)`
unfoldable pub update_topic_locked : NtEnv → ℕ → NtDataValue → ℕ → Instance → Option Instance
unfolding pointer_at touch assign_topic
update_topic_locked env id value time s0 = elim (pointer_at id s0.this.publishers) [
  | none ↦ some (record s0 { this = record s0.this { publishers = touch id s0.this.publishers } })
  | some p ↦ assign_topic env p.topic value (some time) s0
]

unfoldable pub update_topic : NtEnv → ℕ → NtDataValue → ℕ → Instance → Option Instance
unfolding guarded update_topic_locked
update_topic env id value time s = guarded (update_topic_locked env id value time) s

-- `updateTopic(id, value)`
unfoldable pub update_topic_now : NtEnv → ℕ → NtDataValue → Instance → Option Instance
unfolding server_time update_topic
update_topic_now env id value s =
    let (time, s') = server_time env s in update_topic env id value time s'

-- `flushText()` and `flushBinary()` over the clients.
unfoldable pub flush_clients :
    (ClientData → List Message × ClientData)
    → Dict ℕ ClientRef
    → Option (List Message × Dict ℕ ClientRef)
flush_clients f [] = some ([], [])
flush_clients f ((guid, null_client) ∷ m) = none
flush_clients f ((guid, this_client) ∷ m) = do
  (messages, m') ← flush_clients f m
  some (messages, (guid, this_client) ∷ m')
flush_clients f ((guid, remote c) ∷ m) = do
  (messages, m') ← flush_clients f m
  let (own, c') = f c
  some (own ++ messages, (guid, remote c') ∷ m')

unfoldable pub flush_all : (ClientData → List Message × ClientData) → Instance → Option Instance
unfolding flush_clients
flush_all f s = do
  (messages, clients') ← flush_clients f s.clients
  some (record s { clients = clients'; sent = s.sent ++ messages })

unfoldable pub flush_locked : Instance → Option Instance
unfolding flush_all flush_binary
flush_locked s = flush_all (flush_binary max_client_binary_cache_length) s

unfoldable pub flush : Instance → Option Instance
unfolding guarded flush_locked
flush s = guarded flush_locked s
