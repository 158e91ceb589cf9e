-- ===== src/Nt/KeepsOwn.antt =====
-- The operations of src/nt/ntinstance.cpp that leave the mode and the instance's own publishers as
-- they are.
use pico_radio.Base.{
  Bool, Dict, List, Option, Option-cases, [], ap, codes, false, get, if◌then◌else◌, inl, inr, none,
  number_key, put, refl, some, text_key, true, ℕ, ◌++◌, ◌>>=◌, ◌∙◌, ◌∷◌, ◌≡◌,
}
use pico_radio.Nt.Types.{api_type}
use pico_radio.Nt.Value.{assign, new_value}
use pico_radio.Nt.State.{
  ClientData, ClientRef, Instance, Message, Name, NetworkMode, NtEnv, Publisher, Topic,
  binary_message, emit_event, null_client, remote, server_time, this_client,
}
use pico_radio.Nt.Cache.{flush_binary, queue_binary, topic_id, topic_update}
use pico_radio.Nt.Subscribed.{is_subscribed}
use pico_radio.Nt.Server.{data_of, keys, with_client}
use pico_radio.Nt.Update.{
  objects, send_topic_update, send_topic_update_self, update_client, update_meta_topic,
  update_server_pub_meta_topic,
}
use pico_radio.Nt.KeepsTopics.{Ensures, Ensures-any, Ensures-bind, SameView, update_clients-view}

abbrev pub own : Instance → NetworkMode × Dict ℕ (Option Publisher)
own s = (s.mode, s.this.publishers)

abbrev SameOwn : Instance → Instance → Type 0
SameOwn s s' = own s' ≡ own s

topic_id-publishers : (name : Name) (c : ClientData) → (topic_id name c).1.publishers ≡ c.publishers
unfolding topic_id
topic_id-publishers name c = elim (Option-cases (get name c.topic_data)) [
  | inl missing ↦ rw (topic_id, missing)
  | inr (d, found) ↦ rw (topic_id, found)
]

queue_binary-publishers :
    (bytes : List ℕ) (c : ClientData) → (queue_binary bytes c).1.publishers ≡ c.publishers
unfolding queue_binary flush_binary
queue_binary-publishers bytes c =
    either_branch _ (binary_message c.guid c.binary_cache ∷ [], record c { binary_cache = [] })
      ([], c) refl refl
  where
    either_branch :
        (b : Bool) (x y : List Message × ClientData)
        → x.1.publishers ≡ c.publishers
        → y.1.publishers ≡ c.publishers
        → (if b then x else y).1.publishers ≡ c.publishers
    either_branch true x y h k = h
    either_branch false x y h k = k

topic_update-publishers :
    (env : NtEnv) (topic : Topic) (time : ℕ) (c : ClientData)
    → (topic_update env topic time c).1.publishers ≡ c.publishers
unfolding topic_update
topic_update-publishers env topic time c =
    let (id, c') = topic_id topic.name c in
    queue_binary-publishers (env.pack_update id time (api_type topic.value.type) topic.value)
      (record c' {
        topic_data = put topic.name (record { id = id; initial_publish = true }) c'.topic_data;
      })
    ∙ topic_id-publishers topic.name c

with_client-own :
    (guid : ℕ) (f : ClientData → List Message × ClientData) (s : Instance)
    → ((c : ClientData) → (f c).1.publishers ≡ c.publishers)
    → Ensures (SameOwn s) (with_client guid f s)
unfolding with_client
with_client-own guid f s h = Ensures-any (SameOwn s) (get guid s.clients) _ (λ ref. cases ref)
  where
    cases :
        (ref : ClientRef)
        → Ensures (SameOwn s) (elim ref [
          | null_client ↦ none
          | this_client ↦
              let (messages, c') = f s.this in
              some (record s { this = c'; sent = s.sent ++ messages })
          | remote c ↦
              let (messages, c') = f c in
              some
                (record s { clients = put guid (remote c') s.clients; sent = s.sent ++ messages })
        ])
    cases null_client = tt
    cases this_client = ap (λ p. (s.mode, p)) (h s.this)
    cases (remote c) = refl

send_topic_update_self-own :
    (env : NtEnv) (topic : Topic) (time : ℕ) (s : Instance)
    → Ensures (SameView own s) (send_topic_update_self env topic time s)
unfolding send_topic_update_self emit_event
send_topic_update_self-own env topic time s = elim (Option-cases env.update_callback) [
  | inl missing ↦ rw missing refl
  | inr (callback, set_callback) ↦ rw set_callback (
      Ensures-any (SameView own s)
        (assign topic.value (new_value env.memory (api_type topic.value.type))) _
        (λ value. ap (λ p. (s.mode, p)) (topic_id-publishers topic.name s.this)))
]

update_client-own :
    (env : NtEnv) (topic : Topic) (time guid : ℕ) (s : Instance)
    → Ensures (SameView own s) (update_client env topic time guid s)
unfolding update_client
update_client-own env topic time guid s =
    Ensures-any (SameView own s) (get guid s.clients) _ (λ ref.
      Ensures-any (SameView own s) (data_of ref s) _ (λ c.
        elim (Option-cases (get topic.name c.topic_data)) [
          | inl untold ↦ rw untold refl
          | inr (d, told) ↦ rw told (
              Ensures-any (SameView own s)
                (if d.initial_publish
                  then some true
                  else is_subscribed c.subscriptions topic.name true)
                _ (λ wanted. round wanted ref))
        ]))
  where
    change :
        Ensures
          (SameView own s)
          (do s' ← with_client guid (topic_update env topic time) s; some (true, s'))
    change =
        Ensures-bind (SameOwn s) (SameView own s) (with_client guid (topic_update env topic time) s)
          _
          (with_client-own guid (topic_update env topic time) s
            (topic_update-publishers env topic time))
          (λ s' kept. kept)

    round :
        (wanted : Bool) (ref : ClientRef)
        → Ensures (SameView own s) (
            if wanted
            then elim ref [
              | this_client ↦ send_topic_update_self env topic time s
              | _ ↦ do s' ← with_client guid (topic_update env topic time) s; some (true, s')
            ]
            else some (true, s))
    round false ref = refl
    round true null_client = change
    round true this_client = send_topic_update_self-own env topic time s
    round true (remote c) = change

send_topic_update-own :
    (env : NtEnv) (topic : Topic) (time : ℕ) (s : Instance)
    → Ensures (SameView own s) (send_topic_update env topic time s)
unfolding send_topic_update
send_topic_update-own env topic time s =
    update_clients-view own (update_client env topic time) (update_client-own env topic time)
      (keys s.clients) s

update_meta_topic-own :
    (env : NtEnv) (name : Name) (bytes : List ℕ) (s : Instance)
    → Ensures (SameOwn s) (update_meta_topic env name bytes s)
unfolding update_meta_topic server_time
update_meta_topic-own env name bytes s = Ensures-any (SameOwn s) (get name s.topics) _ (λ entry.
    Ensures-any (SameOwn s) entry _ (λ topic.
      let topic' = record topic { value = record topic.value { bin = bytes } } in
      let (time, s') = server_time env (record s { topics = put name (some topic') s.topics }) in
      Ensures-bind (SameView own s') (SameOwn s) (send_topic_update env topic' time s')
        (λ r. some r.1) (send_topic_update-own env topic' time s') (λ r kept. kept)))

pub update_server_pub_meta_topic-own :
    (env : NtEnv) (s : Instance) → Ensures (SameOwn s) (update_server_pub_meta_topic env s)
unfolding update_server_pub_meta_topic
update_server_pub_meta_topic-own env s =
    Ensures-any (SameOwn s) (objects s.this.publishers) _
      (λ pubs. update_meta_topic-own env (codes "$serverpub") (env.pack_publishers pubs) s)
