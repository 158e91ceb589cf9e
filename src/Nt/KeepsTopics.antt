-- ===== src/Nt/KeepsTopics.antt =====
-- The operations of src/nt/ntinstance.cpp that leave the table of topics as it is.
use pico_radio.Base.{
  Bool, Bool-cases, List, Option, Option-cases, [], false, get, if◌then◌else◌, inl, inr, none,
  number_key, put, refl, some, text_key, true, ℕ, ◌++◌, ◌==◌, ◌>>=◌, ◌∙◌, ◌∷◌, ◌≡◌,
}
use pico_radio.Nt.Types.{api_type}
use pico_radio.Nt.Value.{assign, new_value}
use pico_radio.Nt.State.{
  ClientData, ClientRef, Instance, Message, NtEnv, Topic, null_client, remote, this_client,
}
use pico_radio.Nt.Cache.{announce_publisher, announce_to, topic_update}
use pico_radio.Nt.Subscribed.{is_subscribed}
use pico_radio.Nt.Server.{
  announce_client, announce_topic_from, announce_topic_self, data_of, for_clients, keys,
  with_client,
}
use pico_radio.Nt.Update.{send_topic_update_self, update_client, update_clients}
use pico_radio.Nt.Messages.{set_client}

-- What holds of a result, if there is one.
abbrev pub Ensures : {A : Type 0} → (A → Type 0) → Option A → Type 0
Ensures P none = Unit
Ensures P (some a) = P a

pub Ensures-weaken :
    {A : Type 0} (Q P : A → Type 0) (o : Option A)
    → Ensures Q o
    → ((a : A) → Q a → P a)
    → Ensures P o
Ensures-weaken Q P none q h = tt
Ensures-weaken Q P (some a) q h = h a q

module _ {A B : Type 0} where
  pub Ensures-bind :
      (Q : A → Type 0) (P : B → Type 0) (o : Option A) (f : A → Option B)
      → Ensures Q o
      → ((a : A) → Q a → Ensures P (f a))
      → Ensures P (o >>= f)
  Ensures-bind Q P none f q h = tt
  Ensures-bind Q P (some a) f q h = h a q

  pub Ensures-any :
      (P : B → Type 0) (o : Option A) (f : A → Option B)
      → ((a : A) → Ensures P (f a))
      → Ensures P (o >>= f)
  Ensures-any P none f h = tt
  Ensures-any P (some a) f h = h a

module _ {A B : Type 0} where
  pub bind-none : (o : Option A) (f : A → Option B) → ((a : A) → f a ≡ none) → (o >>= f) ≡ none
  bind-none none f h = refl
  bind-none (some a) f h = h a

  pub Ensures-none :
      (Q : A → Type 0) (o : Option A) (f : A → Option B)
      → Ensures Q o
      → ((a : A) → Q a → f a ≡ none)
      → (o >>= f) ≡ none
  Ensures-none Q none f q h = refl
  Ensures-none Q (some a) f q h = h a q

abbrev pub SameTopics : Instance → Instance → Type 0
SameTopics s s' = s'.topics ≡ s.topics

pub with_client-topics :
    (guid : ℕ) (f : ClientData → List Message × ClientData) (s : Instance)
    → Ensures (SameTopics s) (with_client guid f s)
unfolding with_client
with_client-topics guid f s = Ensures-any (SameTopics s) (get guid s.clients) _ (λ ref. cases ref)
  where
    cases :
        (ref : ClientRef)
        → Ensures (SameTopics s) (elim ref [
          | null_client ↦ none
          | this_client ↦
              let (messages, c') = f s.this in
              some (record s { this = c'; sent = s.sent ++ messages })
          | remote c ↦
              let (messages, c') = f c in
              some
                (record s { clients = put guid (remote c') s.clients; sent = s.sent ++ messages })
        ])
    cases null_client = tt
    cases this_client = refl
    cases (remote c) = refl

abbrev pub SameTopicsOf : Instance → Bool × Instance → Type 0
SameTopicsOf s r = r.1.topics ≡ s.topics

send_topic_update_self-topics :
    (env : NtEnv) (topic : Topic) (time : ℕ) (s : Instance)
    → Ensures (SameTopicsOf s) (send_topic_update_self env topic time s)
unfolding send_topic_update_self
send_topic_update_self-topics env topic time s = elim (Option-cases env.update_callback) [
  | inl missing ↦ rw missing refl
  | inr (callback, set_callback) ↦ rw set_callback (
      Ensures-any (SameTopicsOf s)
        (assign topic.value (new_value env.memory (api_type topic.value.type))) _ (λ value. refl))
]

-- A change of one client, as the last step of a round of a loop.
change_client-topics :
    (guid : ℕ) (f : ClientData → List Message × ClientData) (s : Instance)
    → Ensures (SameTopicsOf s) (do s' ← with_client guid f s; some (true, s'))
change_client-topics guid f s =
    Ensures-bind (SameTopics s) (SameTopicsOf s) (with_client guid f s) _
      (with_client-topics guid f s) (λ s' kept. kept)

-- The round of a loop for one client, which the instance's own entry takes in another way.
round-topics :
    (guid : ℕ) (f : ClientData → List Message × ClientData) (own : Option (Bool × Instance))
    (s : Instance)
    → Ensures (SameTopicsOf s) own
    → (wanted : Bool) (ref : ClientRef)
    → Ensures (SameTopicsOf s) (
        if wanted
        then elim ref [ this_client ↦ own | _ ↦ do s' ← with_client guid f s; some (true, s') ]
        else some (true, s))
round-topics guid f own s h false ref = refl
round-topics guid f own s h true null_client = change_client-topics guid f s
round-topics guid f own s h true this_client = h
round-topics guid f own s h true (remote c) = change_client-topics guid f s

announce_topic_self-topics :
    (env : NtEnv) (topic : Topic) (s : Instance)
    → (announce_topic_self env topic s).1.topics ≡ s.topics
unfolding announce_topic_self
announce_topic_self-topics env topic s = elim (Option-cases env.announced_callback) [
  | inl missing ↦ rw missing refl
  | inr (callback, set_callback) ↦ rw set_callback refl
]

pub update_client-topics :
    (env : NtEnv) (topic : Topic) (time guid : ℕ) (s : Instance)
    → Ensures (SameTopicsOf s) (update_client env topic time guid s)
unfolding update_client
update_client-topics env topic time guid s =
    Ensures-any (SameTopicsOf s) (get guid s.clients) _ (λ ref.
      Ensures-any (SameTopicsOf s) (data_of ref s) _ (λ c.
        elim (Option-cases (get topic.name c.topic_data)) [
          | inl untold ↦ rw untold refl
          | inr (d, told) ↦ rw told (
              Ensures-any (SameTopicsOf s)
                (if d.initial_publish
                  then some true
                  else is_subscribed c.subscriptions topic.name true)
                _
                (λ wanted.
                  round-topics guid (topic_update env topic time)
                    (send_topic_update_self env topic time s) s
                    (send_topic_update_self-topics env topic time s) wanted ref))
        ]))

-- A loop that goes on only after a success keeps what its body keeps.
module _ {X : Type 0} (view : Instance → X) where
  abbrev pub SameView : Instance → Bool × Instance → Type 0
  SameView s r = view r.1 ≡ view s

  stop-view :
      (s : Instance) (rest : Option (Bool × Instance)) (r : Bool × Instance)
      → SameView s r
      → Ensures (SameView r.1) rest
      → Ensures (SameView s) (if r.0 then rest else some (false, r.1))
  stop-view s rest (false, s1) kept h = kept
  stop-view s none (true, s1) kept h = tt
  stop-view s (some q) (true, s1) kept h = h ∙ kept

  pub update_clients-view :
      (body : ℕ → Instance → Option (Bool × Instance))
      → ((guid : ℕ) (s : Instance) → Ensures (SameView s) (body guid s))
      → (guids : List ℕ) (s : Instance) → Ensures (SameView s) (update_clients body guids s)
  unfolding update_clients
  update_clients-view body h [] s = refl
  update_clients-view body h (guid ∷ guids) s =
      Ensures-bind (SameView s) (SameView s) (body guid s) _ (h guid s) (λ r kept.
        stop-view s (update_clients body guids r.1) r kept (update_clients-view body h guids r.1))

pub update_clients-topics :
    (body : ℕ → Instance → Option (Bool × Instance))
    → ((guid : ℕ) (s : Instance) → Ensures (SameTopicsOf s) (body guid s))
    → (guids : List ℕ) (s : Instance) → Ensures (SameTopicsOf s) (update_clients body guids s)
update_clients-topics body h guids s = update_clients-view (λ t. t.topics) body h guids s

announce_client-topics :
    (env : NtEnv) (topic : Topic) (guid : ℕ) (s : Instance)
    → Ensures (SameTopicsOf s) (announce_client env topic guid s)
unfolding announce_client
announce_client-topics env topic guid s =
    Ensures-any (SameTopicsOf s) (get guid s.clients) _ (λ ref.
      Ensures-any (SameTopicsOf s) (data_of ref s) _ (λ c.
        Ensures-any (SameTopicsOf s) (is_subscribed c.subscriptions topic.name false) _ (λ b.
          round-topics guid (announce_to env topic) (some (announce_topic_self env topic s)) s
            (announce_topic_self-topics env topic s) b ref)))

for_clients-topics :
    (body : ℕ → Instance → Option (Bool × Instance))
    → ((guid : ℕ) (s : Instance) → Ensures (SameTopicsOf s) (body guid s))
    → (guids : List ℕ) (s : Instance) → Ensures (SameTopicsOf s) (for_clients body guids s)
unfolding for_clients
for_clients-topics body h [] s = refl
for_clients-topics body h (guid ∷ guids) s =
    Ensures-bind (SameTopicsOf s) (SameTopicsOf s) (body guid s) _ (h guid s) (λ r kept.
      Ensures-bind (SameTopicsOf r.1) (SameTopicsOf s) (for_clients body guids r.1) _
        (for_clients-topics body h guids r.1) (λ q same_then. same_then ∙ kept))

pub announce_topic_from-topics :
    (env : NtEnv) (topic : Topic) (publisher pubuid : ℕ) (s : Instance)
    → Ensures (SameTopicsOf s) (announce_topic_from env topic publisher pubuid s)
unfolding announce_topic_from
announce_topic_from-topics env topic publisher pubuid s =
    for_clients-topics _
      (λ guid s'. elim (Bool-cases (guid == publisher)) [
        | inl own ↦ rw own (change_client-topics guid (announce_publisher env topic pubuid) s')
        | inr other ↦ rw other (announce_client-topics env topic guid s')
      ])
      (keys s.clients) s

pub set_client-topics :
    (guid : ℕ) (ref : ClientRef) (c : ClientData) (s : Instance)
    → (set_client guid ref c s).topics ≡ s.topics
unfolding set_client
set_client-topics guid null_client c s = refl
set_client-topics guid this_client c s = refl
set_client-topics guid (remote old) c s = refl
