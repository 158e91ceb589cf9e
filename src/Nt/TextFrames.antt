-- ===== src/Nt/TextFrames.antt =====
-- How the text branch of `_handleFrame` in src/nt/ntinstance.cpp reads a frame, from its bytes to
-- the messages that it acts on.
pub mod Shown
pub mod Subscribe
pub mod Publish
pub mod Updates
pub mod Printed
pub mod Handled
pub mod Nulls
pub mod Rounds
pub mod Ends
use pico_radio.Base.{
  Bool, List, Option, [], codes, contains, false, if◌then◌else◌, length, none, not, number_key,
  some, suc, text_key, true, zero, ℕ, ◌&&◌, ◌>>=◌, ◌∷◌,
}
use pico_radio.Nt.Types.{
  MessageMethod, parse_message_method, publish_method, set_properties_method, subscribe_method,
  unpublish_method, unsubscribe_method,
}
use pico_radio.Nt.State.{Instance, NtEnv, subscription_options_default, topic_properties_default}
use pico_radio.Nt.Json.{
  Unpacker, unpack_array, unpack_key, unpack_object, unpack_object_end, unpacker,
}
use pico_radio.Nt.Params.{
  PropertyUpdate, PublishParams, Reader, SetPropertiesParams, SubscribeParams, goes_on,
  is_array_end, read_publish_param, read_set_properties_param, read_subscribe_param, read_uid,
  times,
}
use pico_radio.Nt.Hybrid.{is_server}
use pico_radio.Nt.Messages.{
  ClientMessage, other_message, publish_message, set_properties_message, subscribe_message,
  text_received, unpublish_message, unsubscribe_message,
}

abbrev pub given : Bool → Bool → Option Bool
given has b = if has then some b else none

abbrev pub no_update : PropertyUpdate
no_update = record {
  properties = topic_properties_default;
  has_persistent = false;
  has_retained = false;
  has_cached = false;
}

-- The variables before the first key, and the message that they make behind the last.
abbrev pub blank_subscribe : Reader → SubscribeParams
blank_subscribe r = record {
  topics = [];
  subuid = r.memory;
  options = subscription_options_default;
}

abbrev pub subscribe_of : SubscribeParams → ClientMessage
subscribe_of p = subscribe_message p.topics p.subuid p.options

abbrev pub blank_publish : Reader → PublishParams
blank_publish r = record {
  topic = [];
  pubuid = r.memory;
  type = r.memory_type;
  properties = topic_properties_default;
}

abbrev pub publish_of : PublishParams → ClientMessage
publish_of p = publish_message p.topic p.pubuid p.type p.properties

abbrev pub blank_set_properties : SetPropertiesParams
blank_set_properties = record { topic = []; update = no_update }

abbrev pub set_properties_of : SetPropertiesParams → ClientMessage
set_properties_of p =
    let up = p.update in
    set_properties_message p.topic (given up.has_persistent up.properties.persistent)
      (given up.has_retained up.properties.retained) (given up.has_cached up.properties.cached)

unfoldable pub read_params : Reader → MessageMethod → Unpacker → Option (ClientMessage × Unpacker)
unfolding times read_subscribe_param read_publish_param read_set_properties_param read_uid
read_params r subscribe_method u = do
  (p, u') ← times (read_subscribe_param r) 3 (blank_subscribe r) u
  some (subscribe_of p, u')
read_params r publish_method u = do
  (p, u') ← times (read_publish_param r) 4 (blank_publish r) u
  some (publish_of p, u')
read_params r unsubscribe_method u =
    let (n, u') = read_uid r (codes "subuid") u in some (unsubscribe_message n, u')
read_params r unpublish_method u =
    let (n, u') = read_uid r (codes "pubuid") u in some (unpublish_message n, u')
read_params r set_properties_method u = do
  (p, u') ← times read_set_properties_param 2 blank_set_properties u
  some (set_properties_of p, u')
read_params r _ u = some (other_message, u)

-- One round of the loop over the messages.
unfoldable pub read_message : Reader → Bool → Unpacker → Option (ClientMessage × Unpacker)
unfolding unpack_object unpack_object_end unpack_key parse_message_method read_params
read_message r serving u = do
  let (method, u1) = unpack_key (unpack_key (unpack_object u)).1
  let u2 = unpack_object (unpack_key u1).1
  (m, u3) ←
      (if serving then read_params r (parse_message_method method) u2 else some (other_message, u2))
  some (m, unpack_object_end (unpack_object_end u3))

-- `do … while`
unfoldable pub read_loop : ℕ → Reader → Bool → Unpacker → Option (List ClientMessage × Unpacker)
unfolding read_message goes_on
read_loop zero r serving u = none
read_loop (suc n) r serving u = do
  (m, u') ← read_message r serving u
  let more = read_loop n r serving u'
  if not u'.failed && goes_on is_array_end u'
      then (do (ms, v) ← more; some (m ∷ ms, v))
      else some (m ∷ [], u')

unfoldable pub read_messages : Reader → Bool → List ℕ → Option (List ClientMessage)
unfolding unpack_array read_loop
read_messages r serving text = do
  (ms, u) ← read_loop (suc (length text)) r serving (unpack_array (unpacker text))
  some ms

-- A text frame from its bytes on.
unfoldable pub handle_text_frame : NtEnv → Reader → ℕ → List ℕ → Instance → Option Instance
handle_text_frame env r guid text s = elim (contains guid s.clients) [
  | false ↦ some s
  | true ↦ do ms ← read_messages r (is_server s.mode) text; text_received env guid ms s
]
