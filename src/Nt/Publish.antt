-- ===== src/Nt/Publish.antt =====
-- Publishing topics, their properties and their first values: src/nt/ntinstance.cpp.
use pico_radio.Base.{
  Bool, Dict, Option, [], codes, false, get, if◌then◌else◌, none, not, number_key, put, some,
  starts_with, text_key, true, ℕ, ◌++◌, ◌==◌, ◌>>=◌, ◌∷◌,
}
use pico_radio.Nt.Types.{bool, msgpack}
use pico_radio.Nt.Value.{NtDataValue, blank}
use pico_radio.Nt.State.{
  AnnouncedTopic, ClientTopicData, Instance, Name, NtEnv, Topic, TopicProperties, emit_event,
  properties_updated, server_time, this_client,
}
use pico_radio.Nt.Cache.{property_update, topic_id, topic_update}
use pico_radio.Nt.Subscribed.{dollar, is_subscribed}
use pico_radio.Nt.Server.{
  announce_topic, announce_topic_from, data_of, for_clients, keys, with_client,
}
use pico_radio.Nt.Update.{
  send_topic_update_self, update_topic_pub_meta_topic, update_topic_sub_meta_topic,
}

-- `getOrCreateTopic`; a null entry is handed on and followed at once.
unfoldable pub get_or_create_topic :
    Name → NtDataValue → TopicProperties → Instance → Option (Topic × Instance)
unfolding get put
get_or_create_topic name value properties s = elim (get name s.topics) [
  | some entry ↦ do topic ← entry; some (topic, s)
  | none ↦
      let topic : Topic = record { name = name; value = value; properties = properties } in
      some (topic, record s { topics = put name (some topic) s.topics })
]

-- `publishTopic` of a meta topic, whose name starts with a dollar sign.
unfoldable pub publish_meta_topic : NtEnv → Name → Instance → Option (Bool × Instance)
unfolding get_or_create_topic blank announce_topic
publish_meta_topic env name s = do
  (topic, s') ←
      get_or_create_topic name (blank env.memory msgpack)
        (record { persistent = false; retained = true; cached = true }) s
  announce_topic env topic s'

-- The branch for other names of the three functions `publishTopic…`.
unfoldable pub publish_meta_topics : NtEnv → Name → Instance → Option (Bool × Instance)
unfolding publish_meta_topic update_topic_sub_meta_topic update_topic_pub_meta_topic
publish_meta_topics env name s = do
  (sub_ok, s1) ← publish_meta_topic env (codes "$sub$" ++ name) s
  if sub_ok
      then (do
        (pub_ok, s2) ← publish_meta_topic env (codes "$pub$" ++ name) s1
        if pub_ok
            then (do
              s3 ← update_topic_sub_meta_topic env name s2
              s4 ← update_topic_pub_meta_topic env name s3
              some (true, s4))
            else some (false, s2))
      else some (false, s1)

-- Behind the call of `announceTopic`.
unfoldable pub finish_publish : NtEnv → Name → Bool → Instance → Option (Bool × Instance)
unfolding publish_meta_topics
finish_publish env name ok s =
    if not ok
    then some (false, s)
    else if starts_with name dollar
    then some (true, s)
    else publish_meta_topics env name s

-- `publishTopic(name, value, properties)`
unfoldable pub publish_topic :
    NtEnv → Name → NtDataValue → TopicProperties → Instance → Option (Bool × Instance)
unfolding get_or_create_topic announce_topic finish_publish
publish_topic env name value properties s = do
  (topic, s1) ← get_or_create_topic name value properties s
  (ok, s2) ← announce_topic env topic s1
  finish_publish env name ok s2

-- `publishTopic(name, value, publisherGuid, pubuid, properties)`
unfoldable pub publish_topic_from :
    NtEnv → Name → NtDataValue → ℕ → ℕ → TopicProperties → Instance → Option (Bool × Instance)
unfolding get_or_create_topic announce_topic_from finish_publish
publish_topic_from env name value publisher pubuid properties s = do
  (topic, s1) ← get_or_create_topic name value properties s
  (ok, s2) ← announce_topic_from env topic publisher pubuid s1
  finish_publish env name ok s2

-- `{{}, -1, NTDataType::Bool, properties}`
abbrev pub no_topic : TopicProperties → AnnouncedTopic
no_topic properties = record { name = []; id = none; type = bool; properties = properties }

abbrev zero_properties : TopicProperties
zero_properties = record { persistent = false; retained = false; cached = false }

-- `publishTopicSelfSync`, whose `*out_success` the caller does not read. The identifier is that of
-- `thisClient.topicData[name]`, made if there is none.
unfoldable pub publish_topic_self_sync :
    NtEnv → Name → NtDataValue → TopicProperties → Instance → Option (AnnouncedTopic × Instance)
unfolding get_or_create_topic announce_topic finish_publish topic_id
publish_topic_self_sync env name value properties s = do
  (topic, s1) ← get_or_create_topic name value properties s
  (ok, s2) ← announce_topic env topic s1
  (done, s3) ← finish_publish env name ok s2
  let (id, c) = topic_id topic.name s3.this
  some (
      if done
      then (
        record {
          name = topic.name;
          id = some id;
          type = topic.value.type;
          properties = topic.properties;
        },
        record s3 { this = c },
      )
      else (no_topic zero_properties, s3))

-- The body of `updateTopicProperties`, for the client that asked for the update, if one did.
unfoldable pub update_properties_client :
    NtEnv → Topic → Option ℕ → ℕ → Instance → Option (Bool × Instance)
unfolding get data_of is_subscribed with_client property_update emit_event
update_properties_client env topic updater guid s = do
  ref ← get guid s.clients
  c ← data_of ref s
  subscribed ← is_subscribed c.subscriptions topic.name false
  if subscribed
      then elim ref [
        | this_client ↦ elim env.properties_callback [
          | none ↦ some (true, s)
          | some callback ↦ some (
            callback topic.name topic.properties,
            emit_event (properties_updated topic.name topic.properties) s,
          )
        ]
        | _ ↦ do
          let ack : Bool = elim updater [ none ↦ false | some u ↦ guid == u ]
          s' ← with_client guid (property_update topic ack) s
          some (true, s')
      ]
      else some (true, s)

unfoldable pub update_topic_properties :
    NtEnv → Topic → Option ℕ → Instance → Option (Bool × Instance)
unfolding for_clients update_properties_client keys
update_topic_properties env topic updater s =
    for_clients (update_properties_client env topic updater) (keys s.clients) s

-- `publishInitialValuesSelf` and `publishInitialValues(guid)`: the loop over `topicData`.
unfoldable pub publish_values :
    (Name → Instance → Option Bool)
    → (Topic → Instance → Option Instance)
    → Dict Name ClientTopicData
    → Instance
    → Option Instance
unfolding get
publish_values wants body [] s = some s
publish_values wants body ((name, d) ∷ m) s = do
  wanted ← (if d.initial_publish then some false else wants name s)
  s' ← (if wanted then (do entry ← get name s.topics; topic ← entry; body topic s) else some s)
  publish_values wants body m s'

unfoldable pub publish_initial_values_self : NtEnv → Instance → Option Instance
unfolding publish_values is_subscribed server_time send_topic_update_self
publish_initial_values_self env s =
    publish_values (λ name s'. is_subscribed s'.this.subscriptions name true)
      (λ topic s'. do
        let (time, s1) = server_time env s'
        (ok, s2) ← send_topic_update_self env topic time s1
        some s2)
      s.this.topic_data s

unfoldable pub publish_initial_values : NtEnv → ℕ → Instance → Option Instance
unfolding publish_values get data_of is_subscribed server_time with_client topic_update
publish_initial_values env guid s = do
  ref ← get guid s.clients
  c ← data_of ref s
  publish_values (λ name s'. is_subscribed c.subscriptions name true)
      (λ topic s'. do
        let (time, s1) = server_time env s'
        with_client guid (topic_update env topic time) s1)
      c.topic_data s
