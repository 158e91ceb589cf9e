-- ===== src/Nt/Cache.antt =====
-- The caches of a client and what is written into them: `flushText`, `flushBinary`, and the
-- `announceTopic`, `unannounceTopic`, `sendPropertyUpdate` and `sendTopicUpdate` of
-- src/nt/ntinstance.cpp that are given a client. Each gives the messages that it sends.
pub mod Bounds
pub mod Ids
pub mod Again
use pico_radio.Base.{
  Bool, List, Option, [], codes, contains, false, get, if◌then◌else◌, length, ltb, none, number_key,
  put, some, text_key, true, ℕ, ◌&&◌, ◌++◌, ◌+◌, ◌∷◌,
}
use pico_radio.Nt.Types.{api_type, serialize_data_type}
use pico_radio.Nt.State.{
  ClientData, ClientTopicData, Message, Name, NtEnv, Topic, TopicProperties, binary_message,
  text_message,
}

-- MAX_CLIENT_TEXT_CACHE_LENGTH and MAX_CLIENT_BINARY_CACHE_LENGTH
abbrev pub max_client_text_cache_length : ℕ
max_client_text_cache_length = 512

abbrev pub max_client_binary_cache_length : ℕ
max_client_binary_cache_length = 512

unfoldable pub flush_text : ℕ → ClientData → List Message × ClientData
flush_text uncached_size c =
    if ltb 0 (length c.text_cache)
      && ltb max_client_text_cache_length (length c.text_cache + uncached_size + 2)
    then (
      text_message c.guid (codes "[" ++ c.text_cache ++ codes "]") ∷ [],
      record c { text_cache = [] },
    )
    else ([], c)

unfoldable pub flush_binary : ℕ → ClientData → List Message × ClientData
flush_binary uncached_size c =
    if ltb 0 (length c.binary_cache)
      && ltb max_client_binary_cache_length (length c.binary_cache + uncached_size)
    then (binary_message c.guid c.binary_cache ∷ [], record c { binary_cache = [] })
    else ([], c)

-- The last lines of each function that sends a text.
unfoldable pub queue_text : List ℕ → ClientData → List Message × ClientData
unfolding flush_text
queue_text text c =
    let (messages, c') = flush_text (length text) c in
    let comma = if ltb 0 (length c'.text_cache) then codes "," else [] in
    (messages, record c' { text_cache = c'.text_cache ++ comma ++ text })

unfoldable pub queue_binary : List ℕ → ClientData → List Message × ClientData
unfolding flush_binary
queue_binary bytes c =
    let (messages, c') = flush_binary (length bytes) c in
    (messages, record c' { binary_cache = c'.binary_cache ++ bytes })

-- A name that the client has not heard of gets the next identifier.
unfoldable pub assign_id : Name → ClientData → ClientData
unfolding contains put
assign_id name c = if contains name c.topic_data then c else record c {
  topic_data =
      put name (record { id = c.next_topic_id_assigned; initial_publish = false }) c.topic_data;
  next_topic_id_assigned = c.next_topic_id_assigned + 1;
}

-- `topicData[name].id`, which makes an entry of zeros if there is none.
abbrev pub zero_data : ClientTopicData
zero_data = record { id = 0; initial_publish = false }

unfoldable pub topic_id : Name → ClientData → ℕ × ClientData
unfolding get put
topic_id name c = elim (get name c.topic_data) [
  | none ↦ (0, record c { topic_data = put name zero_data c.topic_data })
  | some d ↦ (d.id, c)
]

json_bool : Bool → List ℕ
json_bool b = if b then codes "true" else codes "false"

properties_text : TopicProperties → List ℕ
unfolding json_bool
properties_text p =
    codes "{\"persistent\":"
    ++ json_bool p.persistent
    ++ codes ",\"retained\":"
    ++ json_bool p.retained
    ++ codes ",\"cached\":"
    ++ json_bool p.cached
    ++ codes "}}}"

unfoldable pub announce_text : NtEnv → Topic → ℕ → Option ℕ → List ℕ
unfolding properties_text serialize_data_type
announce_text env topic id pubuid =
    codes "{\"method\":\"announce\",\"params\":{\"name\":\""
    ++ topic.name
    ++ codes "\",\"id\":"
    ++ env.to_string id
    ++ codes ",\"type\":\""
    ++ serialize_data_type topic.value.type
    ++ elim pubuid [ none ↦ codes "\"" | some uid ↦ codes "\",\"pubuid\":" ++ env.to_string_32 uid ]
    ++ codes ",\"properties\":"
    ++ properties_text topic.properties

-- `announceTopic(guid, topic)`: a name that was announced before is passed over.
unfoldable pub announce_to : NtEnv → Topic → ClientData → List Message × ClientData
unfolding contains assign_id topic_id announce_text queue_text
announce_to env topic c =
    if contains topic.name c.topic_data
    then ([], c)
    else (let (id, c') = topic_id topic.name (assign_id topic.name c) in
        queue_text (announce_text env topic id none) c')

-- `announceTopic(guid, topic, pubuid)`: the publisher always gets an answer.
unfoldable pub announce_publisher : NtEnv → Topic → ℕ → ClientData → List Message × ClientData
unfolding assign_id topic_id announce_text queue_text
announce_publisher env topic pubuid c =
    let (id, c') = topic_id topic.name (assign_id topic.name c) in
    queue_text (announce_text env topic id (some pubuid)) c'

unfoldable pub unannounce_to : NtEnv → Topic → ClientData → Bool × List Message × ClientData
unfolding get queue_text
unannounce_to env topic c = elim (get topic.name c.topic_data) [
  | none ↦ (false, [], c)
  | some d ↦
      let (messages, c') =
        queue_text
          (codes "{\"method\":\"unannounce\",\"params\":{\"name\":\""
            ++ topic.name
            ++ codes "\",\"id\":"
            ++ env.to_string d.id
            ++ codes "}}")
          c in
      (true, messages, c')
]

unfoldable pub property_update : Topic → Bool → ClientData → List Message × ClientData
unfolding properties_text queue_text
property_update topic ack c =
    queue_text
      (codes "{\"method\":\"properties\",\"params\":{\"name\":\""
        ++ topic.name
        ++ (if ack then codes "\",\"ack\":true" else codes "\"")
        ++ codes ",\"update\":"
        ++ properties_text topic.properties)
      c

-- `sendTopicUpdate(guid, topic, time)`
unfoldable pub topic_update : NtEnv → Topic → ℕ → ClientData → List Message × ClientData
unfolding topic_id put api_type queue_binary
topic_update env topic time c =
    let (id, c') = topic_id topic.name c in
    queue_binary (env.pack_update id time (api_type topic.value.type) topic.value) (record c' {
      topic_data = put topic.name (record { id = id; initial_publish = true }) c'.topic_data;
    })
