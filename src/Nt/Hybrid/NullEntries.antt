-- ===== src/Nt/Hybrid/NullEntries.antt =====
-- Null entries that `operator[]` leaves in the maps, and what follows them.
use pico_radio.Base.{
  Bool-cases, Dict, List, Option, Option-cases, [], arith, false, get, get-put, get-put_other, inl,
  inr, none, number_key, put, refl, same, some, text_key, ℕ, ◌==◌, ◌>>=◌, ◌∙◌, ◌∷◌, ◌≡◌,
}
use pico_radio.Nt.State.{
  Instance, Name, NtEnv, Subscription, SubscriptionOptions, Topic, TopicProperties, server_mode,
}
use pico_radio.Nt.Server.{announce_cached_topics, announce_cached_topics_self, data_of, for_topics}
use pico_radio.Nt.Update.{objects, update_server_sub_meta_topic}
use pico_radio.Nt.KeepsTopics.{bind-none}
use pico_radio.Nt.Hybrid.{
  guarded, is_server, lock, pointer_at, set_properties, set_properties_locked, set_subscription,
  subscribe, touch, unlock, unsubscribe,
}

module _ {V : Type 0} where
  pub objects-null : (k : ℕ) (m : Dict ℕ (Option V)) → get k m ≡ some none → objects m ≡ none
  unfolding objects get
  objects-null k [] e = absurd cc
  objects-null k ((j, none) ∷ m) e = refl
  objects-null k ((j, some v) ∷ m) e = elim (Bool-cases (j == k)) [
    | inl here ↦
        let clash : ◌≡◌ {A = Option (Option V)} (some (some v)) (some none) = rw here at e in
        absurd cc
    | inr there ↦ let later : get k m ≡ some none = rw there at e in rw (objects-null k m later)
  ]

for_topics-null :
    (body : Topic → Instance → Option Instance) (name : Name) (m : Dict Name (Option Topic))
    (s : Instance)
    → get name m ≡ some none
    → for_topics body m s ≡ none
unfolding for_topics get
for_topics-null body name [] s e = absurd cc
for_topics-null body name ((n, none) ∷ m) s e = refl
for_topics-null body name ((n, some topic) ∷ m) s e = elim (Bool-cases (same n name)) [
  | inl here ↦
      let clash : ◌≡◌ {A = Option (Option Topic)} (some (some topic)) (some none) = rw here at e in
      absurd cc
  | inr there ↦
      let later : get name m ≡ some none = rw there at e in
      elim (Option-cases (body topic s)) [
        | inl fault ↦ rw fault
        | inr (s', done) ↦ rw done (for_topics-null body name m s' later)
      ]
]

subscribe-null :
    (env : NtEnv) (k uid : ℕ) (topics : List Name) (options : SubscriptionOptions) (t : Instance)
    → t.locked ≡ false
    → t.mode ≡ server_mode
    → get k t.this.subscriptions ≡ some none
    → (uid == k) ≡ false
    → subscribe env topics uid options t ≡ none
unfolding subscribe guarded is_server set_subscription update_server_sub_meta_topic
subscribe-null env k uid topics options t free serving null other =
    let sub : Option Subscription =
      some (record { uid = uid; topics = topics; options = options }) in
    let kept : get k (put uid sub t.this.subscriptions) ≡ some none =
      get-put_other uid k sub t.this.subscriptions other ∙ null in
    simp (free, serving, objects-null k (put uid sub t.this.subscriptions) kept)

-- What `unsubscribe` leaves where the identifier is not in use.
with_null : ℕ → Instance → Instance
with_null k s = record s {
  this = record s.this { subscriptions = put k none s.this.subscriptions };
}

unsubscribe-unused :
    (env : NtEnv) (k : ℕ) (s : Instance)
    → s.locked ≡ false
    → s.mode ≡ server_mode
    → get k s.this.subscriptions ≡ none
    → unsubscribe env k s ≡ some (unlock (with_null k (lock s)))
unfolding unsubscribe guarded is_server with_null
unsubscribe-unused env k s free serving new =
    let looked : pointer_at k s.this.subscriptions ≡ none = rw (pointer_at, new) in
    let touched : touch k s.this.subscriptions ≡ put k none s.this.subscriptions =
      rw (touch, new) in
    ground (arith, free, serving, looked, touched)

-- On a server whose mutex is free, `unsubscribe` with an identifier that is not in use leaves a null
-- subscription behind, which a `subscribe` with another identifier then follows.
pub unsubscribe-subscribe :
    (env : NtEnv) (unused uid : ℕ) (topics : List Name) (options : SubscriptionOptions)
    (s : Instance)
    → s.locked ≡ false
    → s.mode ≡ server_mode
    → get unused s.this.subscriptions ≡ none
    → (uid == unused) ≡ false
    → (do s' ← unsubscribe env unused s; subscribe env topics uid options s') ≡ none
unfolding with_null
unsubscribe-subscribe env unused uid topics options s free serving new other =
    simp (unsubscribe-unused env unused s free serving new) (
      subscribe-null env unused uid topics options (unlock (with_null unused (lock s))) refl serving
        (unfold with_null in get-put unused none s.this.subscriptions) other)

announce_cached_topics-null :
    (env : NtEnv) (guid : ℕ) (name : Name) (s : Instance)
    → get name s.topics ≡ some none
    → announce_cached_topics env guid s ≡ none
unfolding announce_cached_topics
announce_cached_topics-null env guid name s null =
    bind-none (get guid s.clients) _
      (λ client. bind-none (data_of client s) _ (λ c0. for_topics-null _ name s.topics s null))

-- On a server whose mutex is free, `setProperties` for a name that is no topic leaves a null topic
-- behind, and announcing the cached topics then, to a client or to the instance itself, follows it.
pub set_properties-announce_cached_topics :
    (env : NtEnv) (name : Name) (update : TopicProperties) (guid : ℕ) (s : Instance)
    → s.locked ≡ false
    → s.mode ≡ server_mode
    → get name s.topics ≡ none
    → ((do s' ← set_properties env name update s; announce_cached_topics env guid s') ≡ none)
      × ((do s' ← set_properties env name update s; announce_cached_topics_self env s') ≡ none)
unfolding set_properties is_server announce_cached_topics_self
set_properties-announce_cached_topics env name update guid s free serving new =
    let left : get name (put name none s.topics) ≡ some none = get-put name none s.topics in
    (
      rw (free, serving, set_properties_locked, new)
          (announce_cached_topics-null env guid name _ left),
      rw (free, serving, set_properties_locked, new) (for_topics-null _ name _ _ left),
    )
