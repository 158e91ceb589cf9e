-- ===== src/Nt/Hybrid/Release.antt =====
-- The hybrid functions give the mutex back.
use pico_radio.Base.{
  Bool-cases, List, Option, Option-cases, [], ap, false, if◌then◌else◌, inl, inr, none, some, sym,
  ℕ, ◌>>=◌, ◌∙◌, ◌∷◌, ◌≡◌,
}
use pico_radio.Nt.Types.{NtDataType}
use pico_radio.Nt.Value.{NtDataValue}
use pico_radio.Nt.State.{
  AnnouncedTopic, Instance, Name, NtEnv, SubscriptionOptions, TopicProperties,
}
use pico_radio.Nt.Publish.{no_topic}
use pico_radio.Nt.Hybrid.{
  flush, flush_locked, guarded, is_server, lock, publish, publish_on_server, set_properties,
  set_properties_locked, subscribe, subscribe_locked, unlock, unpublish, unpublish_locked,
  unsubscribe, unsubscribe_locked, update_topic, update_topic_locked,
}

-- A call of one of the hybrid functions.
pub data Call : Type 0 where
  call_subscribe : List Name → ℕ → SubscriptionOptions → Call
  call_unsubscribe : ℕ → Call
  call_publish : Name → ℕ → NtDataType → TopicProperties → Call
  call_unpublish : ℕ → Call
  call_set_properties : Name → TopicProperties → Call
  call_update_topic : ℕ → NtDataValue → ℕ → Call
  call_flush : Call

unfoldable pub run_call : NtEnv → Call → Instance → Option Instance
run_call env (call_subscribe topics uid options) s = subscribe env topics uid options s
run_call env (call_unsubscribe uid) s = unsubscribe env uid s
run_call env (call_publish name uid type p) s = do
  (topic, s') ← publish env name uid type p s
  some s'
run_call env (call_unpublish uid) s = unpublish env uid s
run_call env (call_set_properties name update) s = set_properties env name update s
run_call env (call_update_topic id value time) s = update_topic env id value time s
run_call env call_flush s = flush s

-- Calls in turn.
unfoldable pub run_calls : NtEnv → List Call → Instance → Option Instance
run_calls env [] s = some s
run_calls env (call ∷ calls) s = do s' ← run_call env call s; run_calls env calls s'

pub unlocked :
    (r : Option Instance) (s' : Instance)
    → (do s ← r; some (unlock s)) ≡ some s'
    → s'.locked ≡ false
unlocked none s' e = absurd cc
unlocked (some s) s' e = let same_state : unlock s ≡ s' = cc in sym (ap (λ x. x.locked) same_state)

pub guarded-releases :
    (body : Instance → Option Instance) (s s' : Instance)
    → s.locked ≡ false
    → guarded body s ≡ some s'
    → s'.locked ≡ false
unfolding guarded
guarded-releases body s s' free e =
    unlocked (if is_server s.mode then body (lock s) else some (lock s)) s' (simp free at e)

published :
    (r : Option (AnnouncedTopic × Instance)) (s' : Instance)
    → (do (topic, s2) ← (do (topic, s1) ← r; some (topic, unlock s1)); some s2) ≡ some s'
    → s'.locked ≡ false
published none s' e = absurd cc
published (some (topic, s)) s' e =
    let same_state : unlock s ≡ s' = cc in sym (ap (λ x. x.locked) same_state)

publish-releases :
    (env : NtEnv) (name : Name) (uid : ℕ) (type : NtDataType) (p : TopicProperties)
    (s s' : Instance)
    → s.locked ≡ false
    → run_call env (call_publish name uid type p) s ≡ some s'
    → s'.locked ≡ false
unfolding run_call publish
publish-releases env name uid type p s s' free e = elim (Bool-cases (is_server s.mode)) [
  | inl serving ↦
      published (publish_on_server env name uid type p (lock s)) s' (simp (free, serving) at e)
  | inr other ↦ published (some (no_topic p, lock s)) s' (simp (free, other) at e)
]

set_properties-releases :
    (env : NtEnv) (name : Name) (update : TopicProperties) (s s' : Instance)
    → s.locked ≡ false
    → set_properties env name update s ≡ some s'
    → s'.locked ≡ false
unfolding set_properties
set_properties-releases env name update s s' free e = elim (Bool-cases (is_server s.mode)) [
  | inl serving ↦
      unlocked (set_properties_locked env name update (lock s)) s' (simp (free, serving) at e)
  | inr other ↦ unlocked (some (lock s)) s' (simp (free, other) at e)
]

run_call-releases :
    (env : NtEnv) (call : Call) (s s' : Instance)
    → s.locked ≡ false
    → run_call env call s ≡ some s'
    → s'.locked ≡ false
unfolding run_call subscribe unsubscribe unpublish update_topic flush
run_call-releases env (call_subscribe topics uid options) s s' free e =
    guarded-releases (subscribe_locked env topics uid options) s s' free e
run_call-releases env (call_unsubscribe uid) s s' free e =
    guarded-releases (unsubscribe_locked env uid) s s' free e
run_call-releases env (call_publish name uid type p) s s' free e =
    publish-releases env name uid type p s s' free e
run_call-releases env (call_unpublish uid) s s' free e =
    guarded-releases (unpublish_locked env uid) s s' free e
run_call-releases env (call_set_properties name update) s s' free e =
    set_properties-releases env name update s s' free e
run_call-releases env (call_update_topic id value time) s s' free e =
    guarded-releases (update_topic_locked env id value time) s s' free e
run_call-releases env call_flush s s' free e = guarded-releases flush_locked s s' free e

-- Any sequence of calls of the hybrid functions that starts with the mutex free and meets no fault
-- ends with the mutex free, whatever the mode and the branches taken.
pub run_calls-releases :
    (env : NtEnv) (calls : List Call) (s s' : Instance)
    → s.locked ≡ false
    → run_calls env calls s ≡ some s'
    → s'.locked ≡ false
unfolding run_calls
run_calls-releases env [] s s' free e =
    let same_state : s ≡ s' = cc in ap (λ x. x.locked) (sym same_state) ∙ free
run_calls-releases env (call ∷ calls) s s' free e = elim (Option-cases (run_call env call s)) [
  | inl fault ↦ let clash : ◌≡◌ {A = Option Instance} none (some s') = rw fault at e in absurd cc
  | inr (s1, done) ↦
      run_calls-releases env calls s1 s' (run_call-releases env call s s1 free done) (rw done at e)
]
