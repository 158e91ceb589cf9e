-- ===== src/Nt/Messages/Release.antt =====
-- The mutex behind a text frame.
use pico_radio.Base.{
  Bool-cases, List, Option, Option-cases, [], ap, contains, false, if◌then◌else◌, inl, inr, none,
  not, number_key, some, sym, text_key, ℕ, ◌>>=◌, ◌||◌, ◌∙◌, ◌∷◌, ◌≡◌,
}
use pico_radio.Nt.State.{Instance, NtEnv}
use pico_radio.Nt.Hybrid.{is_server, lock, unlock}
use pico_radio.Nt.Hybrid.Release.{unlocked}
use pico_radio.Nt.Messages.{
  ClientMessage, client_publishes, client_sets_properties, client_subscribes, client_unpublishes,
  client_unsubscribes, finish_locked, handle_client_message, handle_messages, other_message,
  publish_message, set_properties_message, subscribe_message, text_received, unpublish_message,
  unsubscribe_message,
}

released :
    (a b : Instance)
    → a.locked ≡ false
    → ◌≡◌ {A = Option Instance} (some a) (some b)
    → b.locked ≡ false
released a b free e = let same_state : a ≡ b = cc in ap (λ x. x.locked) (sym same_state) ∙ free

-- A case of the `switch` whose body is given by a function.
case-releases :
    (body : Option Instance) (s s' : Instance)
    → s.locked ≡ false
    → (if not (is_server s.mode) || s.locked then some s else (do s1 ← body; some (unlock s1)))
      ≡ some s'
    → s'.locked ≡ false
case-releases body s s' free e = elim (Bool-cases (is_server s.mode)) [
  | inl serving ↦ unlocked body s' (simp (free, serving) at e)
  | inr other ↦
      let same_state : ◌≡◌ {A = Option Instance} (some s) (some s') = simp (free, other) at e in
      released s s' free same_state
]

handle_client_message-releases :
    (env : NtEnv) (guid : ℕ) (m : ClientMessage) (s s' : Instance)
    → s.locked ≡ false
    → handle_client_message env guid m s ≡ some s'
    → s'.locked ≡ false
unfolding handle_client_message
handle_client_message-releases env guid (subscribe_message topics uid options) s s' free e =
    case-releases (client_subscribes env guid topics uid options (lock s)) s s' free e
handle_client_message-releases env guid (publish_message name uid type p) s s' free e =
    case-releases (client_publishes env guid name uid type p (lock s)) s s' free e
handle_client_message-releases env guid (unsubscribe_message uid) s s' free e =
    case-releases (client_unsubscribes env guid uid (lock s)) s s' free e
handle_client_message-releases env guid (unpublish_message uid) s s' free e =
    case-releases (client_unpublishes env guid uid (lock s)) s s' free e
handle_client_message-releases env guid (set_properties_message name p r c) s s' free e =
    case-releases (client_sets_properties env guid name p r c (lock s)) s s' free e
handle_client_message-releases env guid other_message s s' free e = released s s' free e

handle_messages-releases :
    (env : NtEnv) (guid : ℕ) (messages : List ClientMessage) (s s' : Instance)
    → s.locked ≡ false
    → handle_messages env guid messages s ≡ some s'
    → s'.locked ≡ false
unfolding handle_messages
handle_messages-releases env guid [] s s' free e =
    unlocked (finish_locked env guid (lock s)) s' (simp free at e)
handle_messages-releases env guid (m ∷ ms) s s' free e =
    elim (Option-cases (handle_client_message env guid m s)) [
      | inl fault ↦
          let clash : ◌≡◌ {A = Option Instance} none (some s') = simp (free, fault) at e in
          absurd cc
      | inr (s1, done) ↦
          handle_messages-releases env guid ms s1 s'
            (handle_client_message-releases env guid m s s1 free done) (simp (free, done) at e)
    ]

-- A text frame that is handled with the mutex free, whoever sent it and whatever its messages, and
-- meets no fault leaves the mutex free.
pub text_received-releases :
    (env : NtEnv) (guid : ℕ) (messages : List ClientMessage) (s s' : Instance)
    → s.locked ≡ false
    → text_received env guid messages s ≡ some s'
    → s'.locked ≡ false
unfolding text_received
text_received-releases env guid messages s s' free e = elim (Bool-cases (contains guid s.clients)) [
  | inl known ↦ handle_messages-releases env guid messages s s' free (simp known at e)
  | inr unknown ↦
      let same_state : ◌≡◌ {A = Option Instance} (some s) (some s') = simp unknown at e in
      released s s' free same_state
]
