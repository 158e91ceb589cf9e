-- ===== src/Nt/Cache/Again.antt =====
-- Announcing a topic more than once.
use pico_radio.Base.{
  Bool-cases, Dict, List, Option-cases, [], ap, contains, false, get, get-put, inl, inr, length,
  ltb, none, number_key, some, text_key, true, ℕ, ◌&&◌, ◌+◌, ◌∙◌, ◌≡◌,
}
use pico_radio.Nt.State.{ClientData, ClientTopicData, Message, Name, NtEnv, Topic}
use pico_radio.Nt.Cache.{
  announce_text, announce_to, assign_id, flush_text, max_client_text_cache_length, queue_text,
  topic_id, zero_data,
}

queue_text-topic_data :
    (text : List ℕ) (c : ClientData) → (queue_text text c).1.topic_data ≡ c.topic_data
unfolding queue_text flush_text
queue_text-topic_data text c =
    elim (Bool-cases (
      ltb 0 (length c.text_cache)
      && ltb max_client_text_cache_length (length c.text_cache + length text + 2))) [
        | inl full ↦ rw full
        | inr room ↦ rw room
      ]

contains-some :
    (name : Name) (d : ClientTopicData) (m : Dict Name ClientTopicData)
    → get name m ≡ some d
    → contains name m ≡ true
unfolding contains
contains-some name d m e = rw (contains, e)

topic_id-kept : (name : Name) (c : ClientData) → contains name (topic_id name c).1.topic_data ≡ true
unfolding topic_id
topic_id-kept name c = elim (Option-cases (get name c.topic_data)) [
  | inl missing ↦
      rw (topic_id, missing) (contains-some name zero_data _ (get-put name zero_data c.topic_data))
  | inr (d, found) ↦ rw (topic_id, found) (contains-some name d c.topic_data found)
]

announce_to-new :
    (env : NtEnv) (topic : Topic) (c : ClientData)
    → contains topic.name c.topic_data ≡ false
    → announce_to env topic c
      ≡ queue_text
          (announce_text env topic (topic_id topic.name (assign_id topic.name c)).0 none)
          (topic_id topic.name (assign_id topic.name c)).1
unfolding announce_to
announce_to-new env topic c new = simp new

announce_to-known :
    (env : NtEnv) (topic : Topic) (c : ClientData)
    → contains topic.name c.topic_data ≡ true
    → announce_to env topic c ≡ ([], c)
unfolding announce_to
announce_to-known env topic c known = simp known

announce_to-contains :
    (env : NtEnv) (topic : Topic) (c : ClientData)
    → contains topic.name (announce_to env topic c).1.topic_data ≡ true
announce_to-contains env topic c = elim (Bool-cases (contains topic.name c.topic_data)) [
  | inl known ↦
      ap (λ (r : List Message × ClientData). contains topic.name r.1.topic_data)
        (announce_to-known env topic c known)
      ∙ known
  | inr new ↦
      ap (λ (r : List Message × ClientData). contains topic.name r.1.topic_data)
        (announce_to-new env topic c new)
      ∙ ap (contains topic.name)
          (queue_text-topic_data _ (topic_id topic.name (assign_id topic.name c)).1)
      ∙ topic_id-kept topic.name (assign_id topic.name c)
]

-- A client is told of a topic once: announcing it a second time queues and sends nothing and
-- leaves the client as it is.
pub announce_to-announce_to :
    (env : NtEnv) (topic : Topic) (c : ClientData)
    → announce_to env topic (announce_to env topic c).1 ≡ ([], (announce_to env topic c).1)
announce_to-announce_to env topic c =
    announce_to-known env topic (announce_to env topic c).1 (announce_to-contains env topic c)
