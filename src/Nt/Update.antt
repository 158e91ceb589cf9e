-- ===== src/Nt/Update.antt =====
-- Topic updates, property updates and the meta topics: src/nt/ntinstance.cpp.
use pico_radio.Base.{
  Bool, Dict, List, Option, [], codes, false, get, if◌then◌else◌, none, number_key, put, same, some,
  text_key, true, ℕ, ◌++◌, ◌>>=◌, ◌∷◌,
}
use pico_radio.Nt.Types.{api_type}
use pico_radio.Nt.Value.{assign, new_value}
use pico_radio.Nt.State.{
  ClientRef, Instance, Name, NtEnv, Publisher, Topic, TopicPublisher, TopicSubscription, emit_event,
  null_client, remote, server_time, this_client, topic_updated,
}
use pico_radio.Nt.Cache.{topic_id, topic_update}
use pico_radio.Nt.Subscribed.{find_subscription, is_subscribed}
use pico_radio.Nt.Server.{data_of, keys, with_client}

-- `sendTopicUpdateSelf(topic, time)`: the callback gets a value of the API type.
unfoldable pub send_topic_update_self : NtEnv → Topic → ℕ → Instance → Option (Bool × Instance)
unfolding topic_id new_value assign emit_event
send_topic_update_self env topic time s = elim env.update_callback [
  | none ↦ some (true, s)
  | some callback ↦ do
    let (id, c) = topic_id topic.name s.this
    value ← assign topic.value (new_value env.memory (api_type topic.value.type))
    some (callback id time value, emit_event (topic_updated id time value) (record s { this = c }))
]

-- The loop of `sendTopicUpdate(topic, time)`, which returns at the first failure.
unfoldable pub update_clients :
    (ℕ → Instance → Option (Bool × Instance)) → List ℕ → Instance → Option (Bool × Instance)
update_clients body [] s = some (true, s)
update_clients body (guid ∷ guids) s = do
  (ok, s') ← body guid s
  let rest = update_clients body guids s'
  if ok then rest else some (false, s')

-- Its body: clients that have been told of the topic, and have had a value or want one.
unfoldable pub update_client : NtEnv → Topic → ℕ → ℕ → Instance → Option (Bool × Instance)
unfolding get data_of is_subscribed with_client topic_update send_topic_update_self
update_client env topic time guid s = do
  ref ← get guid s.clients
  c ← data_of ref s
  elim (get topic.name c.topic_data) [
    | none ↦ some (true, s)
    | some d ↦ do
      wanted ←
          (if d.initial_publish then some true else is_subscribed c.subscriptions topic.name true)
      if wanted
          then elim ref [
            | this_client ↦ send_topic_update_self env topic time s
            | _ ↦ do s' ← with_client guid (topic_update env topic time) s; some (true, s')
          ]
          else some (true, s)
  ]

unfoldable pub send_topic_update : NtEnv → Topic → ℕ → Instance → Option (Bool × Instance)
unfolding update_clients update_client keys
send_topic_update env topic time s =
    update_clients (update_client env topic time) (keys s.clients) s

-- `t->value.bin = packer.vector(); sendTopicUpdate(t)`, the end of each `update…MetaTopic`.
unfoldable pub update_meta_topic : NtEnv → Name → List ℕ → Instance → Option Instance
unfolding get put server_time send_topic_update
update_meta_topic env name bytes s = do
  entry ← get name s.topics
  topic ← entry
  let topic' = record topic { value = record topic.value { bin = bytes } }
  let (time, s') = server_time env (record s { topics = put name (some topic') s.topics })
  (ok, s'') ← send_topic_update env topic' time s'
  some s''

-- The objects of a map, whose pointers are followed.
unfoldable pub objects : {V : Type 0} → Dict ℕ (Option V) → Option (List V)
objects [] = some []
objects ((k, none) ∷ m) = none
objects ((k, some v) ∷ m) = do vs ← objects m; some (v ∷ vs)

unfoldable pub update_server_sub_meta_topic : NtEnv → Instance → Option Instance
unfolding objects update_meta_topic
update_server_sub_meta_topic env s = do
  subs ← objects s.this.subscriptions
  update_meta_topic env (codes "$serversub") (env.pack_subscriptions subs) s

unfoldable pub update_server_pub_meta_topic : NtEnv → Instance → Option Instance
unfolding objects update_meta_topic
update_server_pub_meta_topic env s = do
  pubs ← objects s.this.publishers
  update_meta_topic env (codes "$serverpub") (env.pack_publishers pubs) s

unfoldable pub update_client_sub_meta_topic : NtEnv → ℕ → Instance → Option Instance
unfolding get data_of objects update_meta_topic
update_client_sub_meta_topic env guid s = do
  ref ← get guid s.clients
  c ← data_of ref s
  subs ← objects c.subscriptions
  update_meta_topic env (codes "$clientsub$" ++ c.name) (env.pack_subscriptions subs) s

unfoldable pub update_client_pub_meta_topic : NtEnv → ℕ → Instance → Option Instance
unfolding get data_of objects update_meta_topic
update_client_pub_meta_topic env guid s = do
  ref ← get guid s.clients
  c ← data_of ref s
  pubs ← objects c.publishers
  update_meta_topic env (codes "$clientpub$" ++ c.name) (env.pack_publishers pubs) s

-- The loops over the clients of `updateTopicSubMetaTopic` and of `updateTopicPubMetaTopic`.
unfoldable pub topic_subscriptions : Name → Dict ℕ ClientRef → Option (List TopicSubscription)
unfolding find_subscription
topic_subscriptions name [] = some []
topic_subscriptions name ((guid, null_client) ∷ m) = none
topic_subscriptions name ((guid, this_client) ∷ m) = topic_subscriptions name m
topic_subscriptions name ((guid, remote c) ∷ m) = do
  found ← find_subscription c.subscriptions name false
  rest ← topic_subscriptions name m
  some (elim found [
    | none ↦ rest
    | some sub ↦ record { client = c.name; subuid = sub.uid; options = sub.options } ∷ rest
  ])

unfoldable pub publishers_of : Name → Name → List Publisher → List TopicPublisher
publishers_of name client [] = []
publishers_of name client (p ∷ pubs) =
    let rest = publishers_of name client pubs in
    if same p.topic name then record { client = client; pubuid = p.uid } ∷ rest else rest

unfoldable pub topic_publishers : Name → Dict ℕ ClientRef → Option (List TopicPublisher)
unfolding objects publishers_of
topic_publishers name [] = some []
topic_publishers name ((guid, null_client) ∷ m) = none
topic_publishers name ((guid, this_client) ∷ m) = topic_publishers name m
topic_publishers name ((guid, remote c) ∷ m) = do
  pubs ← objects c.publishers
  rest ← topic_publishers name m
  some (publishers_of name c.name pubs ++ rest)

unfoldable pub update_topic_sub_meta_topic : NtEnv → Name → Instance → Option Instance
unfolding topic_subscriptions update_meta_topic
update_topic_sub_meta_topic env name s = do
  subs ← topic_subscriptions name s.clients
  update_meta_topic env (codes "$sub$" ++ name) (env.pack_topic_subscriptions subs) s

unfoldable pub update_topic_pub_meta_topic : NtEnv → Name → Instance → Option Instance
unfolding topic_publishers update_meta_topic
update_topic_pub_meta_topic env name s = do
  pubs ← topic_publishers name s.clients
  update_meta_topic env (codes "$pub$" ++ name) (env.pack_topic_publishers pubs) s
