-- ===== src/Nt/Messages/MetaNames.antt =====
-- Clients that publish under the name of a meta topic.
use pico_radio.Base.{
  Bool, Bool-cases, Dict, List, Option, Option-cases, ap, arith, codes, false, get, get-put_other,
  inl, inr, length, none, number_key, put, refl, same, same_eq, some, starts_with, sym, text_key,
  true, ℕ, ◌++◌, ◌+◌, ◌∙◌, ◌≡◌,
}
use pico_radio.Nt.Types.{NtDataType}
use pico_radio.Nt.Value.{NtDataValue, new_value}
use pico_radio.Nt.State.{Instance, Name, NtEnv, Topic, TopicProperties, server_time, shift_time}
use pico_radio.Nt.Cache.{announce_publisher}
use pico_radio.Nt.Subscribed.{dollar}
use pico_radio.Nt.Server.{announce_topic_from, data_of, keys, with_client}
use pico_radio.Nt.Update.{
  objects, send_topic_update, topic_publishers, update_client, update_client_pub_meta_topic,
  update_clients, update_meta_topic, update_topic_pub_meta_topic,
}
use pico_radio.Nt.Publish.{finish_publish, get_or_create_topic, publish_topic_from}
use pico_radio.Nt.Messages.{answer_publish, client_publishes, set_client}
use pico_radio.Nt.KeepsTopics.{
  Ensures, Ensures-any, Ensures-bind, Ensures-none, SameTopics, SameTopicsOf,
  announce_topic_from-topics, bind-none, set_client-topics, update_client-topics,
  update_clients-topics, with_client-topics,
}

-- No topic has this name.
abbrev Lacks : Name → Instance → Type 0
Lacks k s = get k s.topics ≡ none

put-Lacks :
    (k name : Name) (old new : Option Topic) (m : Dict Name (Option Topic))
    → get k m ≡ none
    → get name m ≡ some old
    → get k (put name new m) ≡ none
put-Lacks k name old new m missing there = elim (Bool-cases (same name k)) [
  | inl e ↦
      let clash : ◌≡◌ {A = Option (Option Topic)} none (some old) =
        sym missing ∙ ap (λ n. get n m) (sym (same_eq name k e)) ∙ there in
      absurd cc
  | inr differ ↦ get-put_other name k new m differ ∙ missing
]

update_meta_topic-Lacks :
    (env : NtEnv) (k name : Name) (bytes : List ℕ) (s : Instance)
    → Lacks k s
    → Ensures (Lacks k) (update_meta_topic env name bytes s)
unfolding update_meta_topic server_time send_topic_update
update_meta_topic-Lacks env k name bytes s missing = elim (Option-cases (get name s.topics)) [
  | inl absent ↦ rw absent tt
  | inr (none, null) ↦ rw null tt
  | inr (some topic, there) ↦
      let topic' : Topic = record topic { value = record topic.value { bin = bytes } } in
      let next : Instance = record s {
        topics = put name (some topic') s.topics;
        ticks = s.ticks + 1;
      } in
      let time = shift_time s.server_time_offset (env.clock s.ticks) in
      rw there (
        Ensures-bind (SameTopicsOf next) (Lacks k)
          (update_clients (update_client env topic' time) (keys s.clients) next) _
          (update_clients-topics (update_client env topic' time)
            (λ guid s'. update_client-topics env topic' time guid s') (keys s.clients) next)
          (λ r kept.
            ap (get k) kept ∙ put-Lacks k name (some topic) (some topic') s.topics missing there))
]

update_topic_pub_meta_topic-none :
    (env : NtEnv) (name : Name) (s : Instance)
    → Lacks (codes "$pub$" ++ name) s
    → update_topic_pub_meta_topic env name s ≡ none
unfolding update_topic_pub_meta_topic update_meta_topic
update_topic_pub_meta_topic-none env name s missing =
    bind-none (topic_publishers name s.clients) _ (λ pubs. rw missing)

update_client_pub_meta_topic-Lacks :
    (env : NtEnv) (k : Name) (guid : ℕ) (s : Instance)
    → Lacks k s
    → Ensures (Lacks k) (update_client_pub_meta_topic env guid s)
update_client_pub_meta_topic-Lacks env k guid s missing =
    unfold update_client_pub_meta_topic in
    Ensures-any (Lacks k) (get guid s.clients) _ (λ ref.
      Ensures-any (Lacks k) (data_of ref s) _ (λ c.
        Ensures-any (Lacks k) (objects c.publishers) _ (λ pubs.
          update_meta_topic-Lacks env k (codes "$clientpub$" ++ c.name) (env.pack_publishers pubs) s
            missing)))

pub_name_differs : (name : Name) → same name (codes "$pub$" ++ name) ≡ false
pub_name_differs name = elim (Bool-cases (same name (codes "$pub$" ++ name))) [
  | inl e ↦
      absurd (omega (arith, ap (λ (l : List ℕ). length l) (same_eq name (codes "$pub$" ++ name) e)))
  | inr differ ↦ differ
]

finish_publish-meta :
    (env : NtEnv) (name : Name) (ok : Bool) (s : Instance)
    → starts_with name dollar ≡ true
    → finish_publish env name ok s ≡ some (ok, s)
unfolding finish_publish
finish_publish-meta env name false s meta = refl
finish_publish-meta env name true s meta = rw meta

Ensures-some :
    {B : Type 0} → (P : B → Type 0) (o : Option B) (b : B) → o ≡ some b → P b → Ensures P o
Ensures-some P o b e h = rw e h

get_or_create_topic-new :
    (name : Name) (value : NtDataValue) (p : TopicProperties) (s : Instance)
    → get name s.topics ≡ none
    → get_or_create_topic name value p s
      ≡ some (
        (record { name = name; value = value; properties = p }),
        record s {
          topics = put name (some (record { name = name; value = value; properties = p })) s.topics;
        },
      )
unfolding get_or_create_topic
get_or_create_topic-new name value p s absent = rw (get_or_create_topic, absent) refl

get_or_create_topic-Lacks :
    (name : Name) (value : NtDataValue) (p : TopicProperties) (s : Instance)
    → Lacks name s
    → Lacks (codes "$pub$" ++ name) s
    → Ensures
        (λ (r : Topic × Instance). Lacks (codes "$pub$" ++ name) r.1)
        (get_or_create_topic name value p s)
get_or_create_topic-Lacks name value p s absent missing =
    Ensures-some (λ (r : Topic × Instance). Lacks (codes "$pub$" ++ name) r.1)
      (get_or_create_topic name value p s)
      (topic, record s { topics = put name (some topic) s.topics })
      (get_or_create_topic-new name value p s absent)
      (get-put_other name (codes "$pub$" ++ name) (some topic) s.topics (pub_name_differs name)
        ∙ missing)
  where
    topic : Topic
    topic = record { name = name; value = value; properties = p }

publish_topic_from-Lacks :
    (env : NtEnv) (name : Name) (value : NtDataValue) (guid pubuid : ℕ) (p : TopicProperties)
    (s : Instance)
    → starts_with name dollar ≡ true
    → Lacks name s
    → Lacks (codes "$pub$" ++ name) s
    → Ensures
        (λ (r : Bool × Instance). Lacks (codes "$pub$" ++ name) r.1)
        (publish_topic_from env name value guid pubuid p s)
publish_topic_from-Lacks env name value guid pubuid p s meta absent missing =
    unfold publish_topic_from in
    Ensures-bind (λ (r : Topic × Instance). Lacks k r.1) P (get_or_create_topic name value p s) _
      (get_or_create_topic-Lacks name value p s absent missing)
      (λ t l1.
        Ensures-bind (SameTopicsOf t.1) P (announce_topic_from env t.0 guid pubuid t.1) _
          (announce_topic_from-topics env t.0 guid pubuid t.1)
          (λ r kept.
            Ensures-some P (finish_publish env name r.0 r.1) r
              (finish_publish-meta env name r.0 r.1 meta) (ap (get k) kept ∙ l1)))
  where
    k : Name
    k = codes "$pub$" ++ name

    P : Bool × Instance → Type 0
    P r = Lacks (codes "$pub$" ++ name) r.1

answer_publish-Lacks :
    (env : NtEnv) (guid : ℕ) (name : Name) (pubuid : ℕ) (type : NtDataType) (p : TopicProperties)
    (s : Instance)
    → starts_with name dollar ≡ true
    → Lacks (codes "$pub$" ++ name) s
    → Ensures (Lacks (codes "$pub$" ++ name)) (answer_publish env guid name pubuid type p s)
unfolding answer_publish
answer_publish-Lacks env guid name pubuid type p s meta missing =
    elim (Option-cases (get name s.topics)) [
      | inl absent ↦
          rw (answer_publish, Ensures, absent)
            (Ensures-bind (λ (r : Bool × Instance). Lacks k r.1) (Lacks k)
              (publish_topic_from env name (new_value env.memory type) guid pubuid p s) _
              (publish_topic_from-Lacks env name (new_value env.memory type) guid pubuid p s meta
                absent missing)
              (λ r lacks. lacks))
      | inr (none, null) ↦ rw (answer_publish, Ensures, null) tt
      | inr (some topic, there) ↦
          rw (answer_publish, Ensures, there)
            (weaken (with_client guid (announce_publisher env topic pubuid) s)
              (with_client-topics guid (announce_publisher env topic pubuid) s))
    ]
  where
    k : Name
    k = codes "$pub$" ++ name

    weaken :
        (o : Option Instance) → Ensures (SameTopics s) o → Ensures (Lacks (codes "$pub$" ++ name)) o
    weaken none kept = tt
    weaken (some s') kept = ap (get (codes "$pub$" ++ name)) kept ∙ missing

-- A client's publish message for a name that starts with a dollar sign, as those of meta topics do,
-- always ends in a failed assertion or a null pointer where there is no topic of that name behind
-- `$pub$`.
pub client_publishes-meta :
    (env : NtEnv) (guid : ℕ) (name : Name) (pubuid : ℕ) (type : NtDataType) (p : TopicProperties)
    (s : Instance)
    → starts_with name dollar ≡ true
    → get (codes "$pub$" ++ name) s.topics ≡ none
    → client_publishes env guid name pubuid type p s ≡ none
unfolding client_publishes
client_publishes-meta env guid name pubuid type p s meta missing =
    bind-none (get guid s.clients) _ (λ ref. bind-none (data_of ref s) _ (λ c.
      let pubs = put pubuid (some (record { uid = pubuid; topic = name })) c.publishers in
      let s0 = set_client guid ref (record c { publishers = pubs }) s in
      let kept : Lacks k s0 =
        ap (get k) (set_client-topics guid ref (record c { publishers = pubs }) s) ∙ missing in
      Ensures-none (Lacks k) (answer_publish env guid name pubuid type p s0) _
        (answer_publish-Lacks env guid name pubuid type p s0 meta kept)
        (λ s1 l1.
          Ensures-none (Lacks k) (update_client_pub_meta_topic env guid s1) _
            (update_client_pub_meta_topic-Lacks env k guid s1 l1)
            (λ s2 l2. update_topic_pub_meta_topic-none env name s2 l2))))
  where
    k : Name
    k = codes "$pub$" ++ name
