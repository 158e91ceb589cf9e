-- ===== src/Nt/TextFrames/Ends.antt =====
-- The loops over a text frame come to an end.
use pico_radio.Base.{
  Bool, Bool-cases, List, Option, arith, codes, if◌then◌else◌, inl, inr, length, none, not, refl,
  same, some, suc, true, zero, ℕ, ◌&&◌, ◌-◌, ◌<◌, ◌>>=◌, ◌∷◌, ◌≡◌, ◌≤◌,
}
use pico_radio.Nt.Types.{
  MessageMethod, parse_message_method, publish_method, set_properties_method, subscribe_method,
  unpublish_method, unsubscribe_method,
}
use pico_radio.Nt.Json.Shrinks.{left, safe_find_after-le, unpack_int-le, unpack_key-le}
use pico_radio.Nt.Json.{
  Unpacker, unpack_array, unpack_array_end, unpack_key, unpack_object, unpack_object_end, unpacker,
}
use pico_radio.Nt.Params.{
  PublishParams, Reader, SetPropertiesParams, SubscribeParams, goes_on, is_array_end, is_object_end,
  read_option, read_property, read_publish_param, read_publish_value, read_set_properties_param,
  read_set_properties_value, read_subscribe_param, read_subscribe_value, read_topic, read_uid,
  read_update, times,
}
use pico_radio.Nt.Messages.{ClientMessage, other_message}
use pico_radio.Nt.TextFrames.Rounds.{
  Ends, Ends-bind, Ends-if, Ends-le, goes_on-left, read_option-le, read_property-le, read_topic-le,
  read_until-then, read_update-le, times-Ends,
}
use pico_radio.Nt.TextFrames.{
  blank_publish, blank_set_properties, blank_subscribe, publish_of, read_loop, read_message,
  read_messages, read_params, set_properties_of, subscribe_of,
}

unpack_array-le : (u : Unpacker) → left (unpack_array u) ≤ left u - 1
unfolding unpack_array
unpack_array-le u = safe_find_after-le b'[' u

unpack_array_end-le : (u : Unpacker) → left (unpack_array_end u) ≤ left u
unfolding unpack_array_end
unpack_array_end-le u = omega (arith, safe_find_after-le b']' u)

unpack_object-le : (u : Unpacker) → left (unpack_object u) ≤ left u - 1
unfolding unpack_object
unpack_object-le u = safe_find_after-le b'{' u

unpack_object_end-le : (u : Unpacker) → left (unpack_object_end u) ≤ left u
unfolding unpack_object_end
unpack_object_end-le u = omega (arith, safe_find_after-le b'}' u)

read_subscribe_param-Ends :
    (r : Reader) (p : SubscribeParams) (u : Unpacker) → Ends (left u) (read_subscribe_param r p u)
unfolding read_subscribe_param read_subscribe_value
read_subscribe_param-Ends r p u =
    let u1 = (unpack_key u).1 in
    let key = (unpack_key u).0 in
    let topics =
      read_until-then read_topic is_array_end (λ b. record p { topics = b }) unpack_array_end
        p.topics u (unpack_array u1) read_topic-le unpack_array_end-le
        (omega (arith, unpack_key-le u, unpack_array-le u1)) in
    let options =
      read_until-then (read_option r) is_object_end (λ b. record p { options = b })
        unpack_object_end p.options u (unpack_object u1) (read_option-le r) unpack_object_end-le
        (omega (arith, unpack_key-le u, unpack_object-le u1)) in
    elim (Bool-cases (same key (codes "topics"))) [
      | inl e0 ↦ rw e0 topics
      | inr e0 ↦ elim (Bool-cases (same key (codes "subuid"))) [
        | inl e1 ↦
            rw (e0, e1) (omega (arith, unpack_key-le u, unpack_int-le r.from_chars r.memory u1))
        | inr e1 ↦ elim (Bool-cases (same key (codes "options"))) [
          | inl e2 ↦ rw (e0, e1, e2) options
          | inr e2 ↦ rw (e0, e1, e2) (omega (arith, unpack_key-le u))
        ]
      ]
    ]

read_publish_param-Ends :
    (r : Reader) (p : PublishParams) (u : Unpacker) → Ends (left u) (read_publish_param r p u)
unfolding read_publish_param read_publish_value
read_publish_param-Ends r p u =
    let u1 = (unpack_key u).1 in
    let key = (unpack_key u).0 in
    let text : left (unpack_key u1).1 ≤ left u = omega (arith, unpack_key-le u, unpack_key-le u1) in
    let properties =
      read_until-then read_property is_object_end (λ b. record p { properties = b })
        unpack_object_end p.properties u (unpack_object u1) read_property-le unpack_object_end-le
        (omega (arith, unpack_key-le u, unpack_object-le u1)) in
    elim (Bool-cases (same key (codes "name"))) [
      | inl e0 ↦ rw e0 text
      | inr e0 ↦ elim (Bool-cases (same key (codes "pubuid"))) [
        | inl e1 ↦
            rw (e0, e1) (omega (arith, unpack_key-le u, unpack_int-le r.from_chars r.memory u1))
        | inr e1 ↦ elim (Bool-cases (same key (codes "type"))) [
          | inl e2 ↦ rw (e0, e1, e2) text
          | inr e2 ↦ elim (Bool-cases (same key (codes "properties"))) [
            | inl e3 ↦ rw (e0, e1, e2, e3) properties
            | inr e3 ↦ rw (e0, e1, e2, e3) (omega (arith, unpack_key-le u))
          ]
        ]
      ]
    ]

read_set_properties_param-Ends :
    (p : SetPropertiesParams) (u : Unpacker) → Ends (left u) (read_set_properties_param p u)
unfolding read_set_properties_param read_set_properties_value
read_set_properties_param-Ends p u =
    let u1 = (unpack_key u).1 in
    let key = (unpack_key u).0 in
    let update =
      read_until-then read_update is_object_end (λ b. record p { update = b }) unpack_object_end
        p.update u (unpack_object u1) read_update-le unpack_object_end-le
        (omega (arith, unpack_key-le u, unpack_object-le u1)) in
    elim (Bool-cases (same key (codes "name"))) [
      | inl e0 ↦ rw e0 (omega (arith, unpack_key-le u, unpack_key-le u1))
      | inr e0 ↦ elim (Bool-cases (same key (codes "update"))) [
        | inl e1 ↦ rw (e0, e1) update
        | inr e1 ↦ rw (e0, e1) (omega (arith, unpack_key-le u))
      ]
    ]

read_uid-le : (r : Reader) (name : List ℕ) (u : Unpacker) → left (read_uid r name u).1 ≤ left u
unfolding read_uid
read_uid-le r name u =
    ground (arith, unpack_key-le u, unpack_int-le r.from_chars r.memory (unpack_key u).1)

-- A result that is put into a message.
Ends-map :
    {A B : Type 0} (n : ℕ) (o : Option (A × Unpacker)) (k : A → B)
    → Ends n o
    → Ends n (do (a, u') ← o; some (k a, u'))
Ends-map n none k e = e
Ends-map n (some r) k e = e

read_params-Ends :
    (r : Reader) (m : MessageMethod) (u : Unpacker) → Ends (left u) (read_params r m u)
unfolding read_params
read_params-Ends r subscribe_method u =
    Ends-map (left u) (times (read_subscribe_param r) 3 (blank_subscribe r) u) subscribe_of
      (times-Ends (read_subscribe_param r) (read_subscribe_param-Ends r) 3 (blank_subscribe r) u)
read_params-Ends r publish_method u =
    Ends-map (left u) (times (read_publish_param r) 4 (blank_publish r) u) publish_of
      (times-Ends (read_publish_param r) (read_publish_param-Ends r) 4 (blank_publish r) u)
read_params-Ends r unsubscribe_method u = read_uid-le r (codes "subuid") u
read_params-Ends r unpublish_method u = read_uid-le r (codes "pubuid") u
read_params-Ends r set_properties_method u =
    Ends-map (left u) (times read_set_properties_param 2 blank_set_properties u) set_properties_of
      (times-Ends read_set_properties_param read_set_properties_param-Ends 2 blank_set_properties u)
read_params-Ends r _ u = omega arith

pub read_message-Ends :
    (r : Reader) (serving : Bool) (u : Unpacker) → Ends (left u - 1) (read_message r serving u)
unfolding read_message
read_message-Ends r serving u =
    let u0 = (unpack_key (unpack_object u)).1 in
    let u1 = (unpack_key u0).1 in
    let u2 = unpack_object (unpack_key u1).1 in
    let shorter : left u2 ≤ left u - 1 = omega (
      arith,
      unpack_object-le u,
      unpack_key-le (unpack_object u),
      unpack_key-le u0,
      unpack_key-le u1,
      unpack_object-le (unpack_key u1).1,
    ) in
    Ends-bind (left u2) (left u - 1)
      (if serving
        then read_params r (parse_message_method (unpack_key u0).0) u2
        else some (other_message, u2))
      _
      (Ends-if (left u2) serving _ _
        (read_params-Ends r (parse_message_method (unpack_key u0).0) u2) (omega arith))
      (λ p le.
        omega (arith, unpack_object_end-le p.1, unpack_object_end-le (unpack_object_end p.1)))

read_loop-Ends :
    (n : ℕ) (r : Reader) (serving : Bool) (u : Unpacker)
    → left u < n
    → Ends (left u) (read_loop n r serving u)
unfolding read_loop
read_loop-Ends zero r serving u h = absurd (omega arith)
read_loop-Ends (suc n) r serving u h =
    Ends-bind (left u - 1) (left u) (read_message r serving u) _ (read_message-Ends r serving u)
      (λ p le. elim (Bool-cases (not p.1.failed && goes_on is_array_end p.1)) [
        | inl on ↦
            let more : 0 < left p.1 =
              goes_on-left is_array_end p.1 (and_right (not p.1.failed) _ on) in
            rw on (
              Ends-map (left u) (read_loop n r serving p.1) (λ ms. p.0 ∷ ms)
                (Ends-le (left p.1) (left u) (read_loop n r serving p.1) (omega arith)
                  (read_loop-Ends n r serving p.1 (omega arith))))
        | inr stop ↦ rw stop (omega arith)
      ])
  where
    and_right : (a b : Bool) → (a && b) ≡ true → b ≡ true
    and_right a b e = ground (arith, e)

-- Whatever its bytes are, a frame is read to the end.
pub read_messages_total :
    (r : Reader) (serving : Bool) (text : List ℕ)
    → (ms : List ClientMessage) × (read_messages r serving text ≡ some ms)
unfolding read_messages
read_messages_total r serving text =
    result (read_loop (suc (length text)) r serving (unpack_array (unpacker text))) (
      read_loop-Ends (suc (length text)) r serving (unpack_array (unpacker text))
        (omega (arith, unpack_array-le (unpacker text))))
  where
    result :
        (o : Option (List ClientMessage × Unpacker))
        → Ends (left (unpack_array (unpacker text))) o
        → (ms : List ClientMessage) × ((do (ms, u) ← o; some ms) ≡ some ms)
    result none e = absurd e
    result (some p) e = (p.0, refl)
