-- ===== src/Nt/State.antt =====
-- The state of a `NetworkTableInstance` that serves: include/nt/ntinstance.h. A pointer in a map
-- may be null, which `operator[]` makes it for a key that is not there. Identifiers of 32 bits and
-- GUIDs are numbers.
use pico_radio.Base.{
  Bool, Dict, List, Option, [], false, negsuc, pos, true, ℕ, ℤ, ◌%◌, ◌++◌, ◌+◌, ◌-◌, ◌^◌, ◌∷◌,
}
use pico_radio.Nt.Types.{NtDataType}
use pico_radio.Nt.Value.{NtDataValue}

abbrev pub Name : Type 0
Name = List ℕ

pub record TopicProperties : Type 0 where
  pub persistent : Bool
  pub retained : Bool
  pub cached : Bool

abbrev pub topic_properties_default : TopicProperties
topic_properties_default = record { persistent = false; retained = false; cached = true }

pub record SubscriptionOptions : Type 0 where
  pub periodic : ℕ
  pub all : Bool
  pub topicsonly : Bool
  pub prefix : Bool

abbrev pub subscription_options_default : SubscriptionOptions
subscription_options_default = record {
  periodic = 100;
  all = false;
  topicsonly = false;
  prefix = false;
}

-- An identifier of -1 is `none`.
pub record AnnouncedTopic : Type 0 where
  pub name : Name
  pub id : Option ℕ
  pub type : NtDataType
  pub properties : TopicProperties

pub record Topic : Type 0 where
  pub name : Name
  pub value : NtDataValue
  pub properties : TopicProperties

pub record Subscription : Type 0 where
  pub uid : ℕ
  pub topics : List Name
  pub options : SubscriptionOptions

pub record TopicSubscription : Type 0 where
  pub client : Name
  pub subuid : ℕ
  pub options : SubscriptionOptions

pub record TopicPublisher : Type 0 where
  pub client : Name
  pub pubuid : ℕ

pub record Publisher : Type 0 where
  pub uid : ℕ
  pub topic : Name

pub record ClientTopicData : Type 0 where
  pub id : ℕ
  pub initial_publish : Bool

pub record ClientData : Type 0 where
  pub guid : ℕ
  pub name : Name
  pub subscriptions : Dict ℕ (Option Subscription)
  pub publishers : Dict ℕ (Option Publisher)
  pub topic_data : Dict Name ClientTopicData
  pub next_topic_id_assigned : ℕ
  pub text_cache : List ℕ
  pub binary_cache : List ℕ

-- A `ClientData *` of the map of clients: null, `&thisClient`, or an object of its own.
pub data ClientRef : Type 0 where
  null_client : ClientRef
  this_client : ClientRef
  remote : ClientData → ClientRef

pub data NetworkMode : Type 0 where
  starting client_mode server_mode : NetworkMode

-- A call of `server->send`: to whom, and a text or a binary message.
pub data Message : Type 0 where
  text_message : ℕ → List ℕ → Message
  binary_message : ℕ → List ℕ → Message

-- A call of one of the user's callbacks.
pub data NtEvent : Type 0 where
  topic_announced : AnnouncedTopic → NtEvent
  topic_unannounced : Name → ℕ → NtEvent
  topic_updated : ℕ → ℕ → NtDataValue → NtEvent
  properties_updated : Name → TopicProperties → NtEvent

-- `locked` tells whether a task holds `stateMutex`, and `ticks` counts the readings of the clock.
pub record Instance : Type 0 where
  pub mode : NetworkMode
  pub locked : Bool
  pub server_time_offset : ℤ
  pub topics : Dict Name (Option Topic)
  pub clients : Dict ℕ ClientRef
  pub this : ClientData
  pub sent : List Message
  pub events : List NtEvent
  pub ticks : ℕ

-- What the code calls and does not decide. `clock n` is the n-th reading of the time, of 64 bits,
-- and `memory` what an uninitialised union holds. A callback that is set has a result; `packer` is
-- the MessagePack encoder, `to_string` the library's, for a signed number of 32 bits and for one
-- of 64 bits.
pub record NtEnv : Type 0 where
  pub clock : ℕ → ℕ
  pub memory : ℕ
  pub to_string_32 : ℕ → List ℕ
  pub to_string : ℕ → List ℕ
  pub announced_callback : Option (AnnouncedTopic → Bool)
  pub unannounced_callback : Option (Name → ℕ → Bool)
  pub update_callback : Option (ℕ → ℕ → NtDataValue → Bool)
  pub properties_callback : Option (Name → TopicProperties → Bool)
  pub pack_update : ℕ → ℕ → NtDataType → NtDataValue → List ℕ
  pub pack_subscriptions : List Subscription → List ℕ
  pub pack_publishers : List Publisher → List ℕ
  pub pack_topic_subscriptions : List TopicSubscription → List ℕ
  pub pack_topic_publishers : List TopicPublisher → List ℕ

unfoldable pub emit_event : NtEvent → Instance → Instance
emit_event e s = record s { events = s.events ++ e ∷ [] }

-- A time of 64 bits, shifted.
unfoldable pub shift_time : ℤ → ℕ → ℕ
shift_time (pos n) now = (now + n) % 2 ^ 64
shift_time (negsuc n) now = (now + (2 ^ 64 - (n + 1))) % 2 ^ 64

-- `getServerTime`
unfoldable pub server_time : NtEnv → Instance → ℕ × Instance
server_time env s =
    (shift_time s.server_time_offset (env.clock s.ticks), record s { ticks = s.ticks + 1 })
