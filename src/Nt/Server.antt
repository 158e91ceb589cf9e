-- ===== src/Nt/Server.antt =====
-- The server functions of `NetworkTableInstance` that go over the clients: src/nt/ntinstance.cpp.
-- Callbacks are recorded and do not call back into the instance.
use pico_radio.Base.{
  Bool, Dict, List, Option, [], false, get, if◌then◌else◌, map, none, number_key, put, some,
  text_key, true, ℕ, ◌&&◌, ◌++◌, ◌==◌, ◌>>=◌, ◌∷◌,
}
use pico_radio.Nt.State.{
  AnnouncedTopic, ClientData, ClientRef, Instance, Message, Name, NtEnv, Topic, emit_event,
  null_client, remote, this_client, topic_announced,
}
use pico_radio.Nt.Cache.{announce_publisher, announce_to, assign_id, topic_id}
use pico_radio.Nt.Subscribed.{is_subscribed}

-- What the pointer points to.
unfoldable pub data_of : ClientRef → Instance → Option ClientData
data_of null_client s = none
data_of this_client s = some s.this
data_of (remote c) s = some c

-- The object behind `clients[guid]`, which is asserted to be there, is changed by `f`; the messages
-- are sent in turn.
unfoldable pub with_client :
    ℕ → (ClientData → List Message × ClientData) → Instance → Option Instance
unfolding get put
with_client guid f s = do
  ref ← get guid s.clients
  elim ref [
    | null_client ↦ none
    | this_client ↦
        let (messages, c') = f s.this in some (record s { this = c'; sent = s.sent ++ messages })
    | remote c ↦
        let (messages, c') = f c in
        some (record s { clients = put guid (remote c') s.clients; sent = s.sent ++ messages })
  ]

-- `for (auto client : clients)`: the body is given the key, for the objects change on the way.
unfoldable pub for_clients :
    (ℕ → Instance → Option (Bool × Instance)) → List ℕ → Instance → Option (Bool × Instance)
for_clients body [] s = some (true, s)
for_clients body (guid ∷ guids) s = do
  (ok, s') ← body guid s
  (rest, s'') ← for_clients body guids s'
  some (ok && rest, s'')

unfoldable pub keys : {V : Type 0} → Dict ℕ V → List ℕ
keys m = map (λ e. e.0) m

-- `announceTopicSelfSync`, and `announceTopicSelf` with the callback behind it.
unfoldable pub announced_topic : Topic → ClientData → AnnouncedTopic × ClientData
unfolding assign_id topic_id
announced_topic topic c =
    let (id, c') = topic_id topic.name (assign_id topic.name c) in
    (
      record {
        name = topic.name;
        id = some id;
        type = topic.value.type;
        properties = topic.properties;
      },
      c',
    )

unfoldable pub announce_topic_self_sync : Topic → Instance → AnnouncedTopic × Instance
unfolding announced_topic
announce_topic_self_sync topic s =
    let (t, c) = announced_topic topic s.this in (t, record s { this = c })

unfoldable pub announce_topic_self : NtEnv → Topic → Instance → Bool × Instance
unfolding announce_topic_self_sync emit_event
announce_topic_self env topic s =
    let (t, s') = announce_topic_self_sync topic s in
    elim env.announced_callback [
      | none ↦ (true, s')
      | some callback ↦ (callback t, emit_event (topic_announced t) s')
    ]

-- The body of `announceTopic(topic)`.
unfoldable pub announce_client : NtEnv → Topic → ℕ → Instance → Option (Bool × Instance)
unfolding get data_of is_subscribed announce_topic_self with_client announce_to
announce_client env topic guid s = do
  ref ← get guid s.clients
  c ← data_of ref s
  subscribed ← is_subscribed c.subscriptions topic.name false
  if subscribed
      then elim ref [
        | this_client ↦ some (announce_topic_self env topic s)
        | _ ↦ do s' ← with_client guid (announce_to env topic) s; some (true, s')
      ]
      else some (true, s)

unfoldable pub announce_topic : NtEnv → Topic → Instance → Option (Bool × Instance)
unfolding for_clients announce_client keys
announce_topic env topic s = for_clients (announce_client env topic) (keys s.clients) s

-- `announceTopic(topic, publisherGuid, pubuid)`
unfoldable pub announce_topic_from : NtEnv → Topic → ℕ → ℕ → Instance → Option (Bool × Instance)
unfolding for_clients announce_client keys with_client announce_publisher
announce_topic_from env topic publisher pubuid s =
    for_clients
      (λ guid s'.
        if guid == publisher
        then (do s'' ← with_client guid (announce_publisher env topic pubuid) s'; some (true, s''))
        else announce_client env topic guid s')
      (keys s.clients) s

-- `announceCachedTopicsSelf` and `announceCachedTopics(guid)`: the loop over the topics.
unfoldable pub for_topics :
    (Topic → Instance → Option Instance) → List (Name × Option Topic) → Instance → Option Instance
for_topics body [] s = some s
for_topics body ((name, none) ∷ topics) s = none
for_topics body ((name, some topic) ∷ topics) s = do s' ← body topic s; for_topics body topics s'

unfoldable pub announce_cached_topics_self : NtEnv → Instance → Option Instance
unfolding for_topics is_subscribed announce_topic_self
announce_cached_topics_self env s =
    for_topics
      (λ topic s'.
        if topic.properties.cached
        then (do
          subscribed ← is_subscribed s'.this.subscriptions topic.name false
          let (ok, s'') = announce_topic_self env topic s'
          some (if subscribed then s'' else s'))
        else some s')
      s.topics s

unfoldable pub announce_cached_topics : NtEnv → ℕ → Instance → Option Instance
unfolding for_topics is_subscribed with_client announce_to get data_of
announce_cached_topics env guid s = do
  client ← get guid s.clients
  c0 ← data_of client s
  for_topics
      (λ topic s'.
        if topic.properties.cached
        then (do
          ref ← get guid s'.clients
          c ← data_of ref s'
          subscribed ← is_subscribed c.subscriptions topic.name false
          if subscribed then with_client guid (announce_to env topic) s' else some s')
        else some s')
      s.topics s
