-- ===== src/Nt/Entry.antt =====
-- `NTEntry` of src/nt/ntentry.cpp, and the constructors and `close` of `NTPublisher` in
-- src/nt/ntpublisher.cpp. The getters of an entry are its subscriber's.
pub mod Destroyed
pub mod Lifetime
use pico_radio.Base.{Bool, Option, false, if◌then◌else◌, none, not, some, true, ℕ, ◌+◌, ◌>>=◌}
use pico_radio.Nt.Value.{NtDataValue}
use pico_radio.Nt.State.{Instance, Name, NtEnv, TopicProperties}
use pico_radio.Nt.Hybrid.{publish, unpublish}
use pico_radio.Nt.Publisher.{NtPublisher, Setter, set, set_typed, value_of}

-- A constructor with a value: `time` is `none` where it has no time, and `next` is
-- NEXT_PUBLISHER_ID. The result of `set` is not looked at.
unfoldable pub make_publisher :
    NtEnv
    → Name
    → NtDataValue
    → Option ℕ
    → TopicProperties
    → ℕ
    → Instance
    → Option (NtPublisher × ℕ × Instance)
unfolding set
make_publisher env name value time properties next s = do
  (announced, s1) ← publish env name next value.type properties s
  let p : NtPublisher = record { pubuid = next; topic_type = announced.type }
  (ok, s2) ← set env time value p s1
  some (p, next + 1, s2)

-- `NTPublisher::close`. A publisher made by the constructor without arguments is `none`: it has no
-- instance.
unfoldable pub close_publisher : NtEnv → Option NtPublisher → Instance → Option (Bool × Instance)
close_publisher env none s = none
close_publisher env (some p) s = do s' ← unpublish env p.pubuid s; some (true, s')

-- `topic` is the name that the subscriber's topic has.
pub record NtEntry : Type 0 where
  pub topic : Name
  pub publishing : Bool
  pub pub_properties : TopicProperties
  pub publisher : Option NtPublisher

-- The constructors with no default value.
unfoldable pub new_entry : Name → TopicProperties → NtEntry
new_entry topic properties = record {
  topic = topic;
  publishing = false;
  pub_properties = properties;
  publisher = none;
}

-- The constructors with a default value.
unfoldable pub new_publishing_entry :
    NtEnv → Name → NtDataValue → TopicProperties → ℕ → Instance → Option (NtEntry × ℕ × Instance)
unfolding make_publisher
new_publishing_entry env topic value properties next s = do
  (p, next', s') ← make_publisher env topic value none properties next s
  some (
    record { topic = topic; publishing = true; pub_properties = properties; publisher = some p },
    next',
    s',
  )

-- What a setter gives: its result, the entry, NEXT_PUBLISHER_ID and the instance.
abbrev pub SetResult : Type 0
SetResult = Bool × NtEntry × ℕ × Instance

-- A setter of an entry that does not publish yet: its publisher is made with the value.
unfoldable pub first_set :
    NtEnv → Option ℕ → NtDataValue → NtEntry → ℕ → Instance → Option SetResult
unfolding make_publisher
first_set env time value e next s = do
  (p, next', s') ← make_publisher env e.topic value time e.pub_properties next s
  some (true, record e { publishing = true; publisher = some p }, next', s')

-- `NTEntry::set`, with a time or without.
unfoldable pub entry_set :
    NtEnv → Option ℕ → NtDataValue → NtEntry → ℕ → Instance → Option SetResult
unfolding first_set set
entry_set env time value e next s =
    if not e.publishing
    then first_set env time value e next s
    else (do p ← e.publisher; (ok, s') ← set env time value p s; some (ok, e, next, s'))

-- The typed setters.
unfoldable pub entry_set_typed :
    NtEnv → Option ℕ → Setter → NtEntry → ℕ → Instance → Option SetResult
unfolding first_set value_of set_typed
entry_set_typed env time setter e next s =
    if not e.publishing
    then first_set env time (value_of env.memory setter) e next s
    else (do p ← e.publisher; (ok, s') ← set_typed env time setter p s; some (ok, e, next, s'))

-- `NTEntry::unpublish`
unfoldable pub entry_unpublish : NtEnv → NtEntry → Instance → Option (Bool × NtEntry × Instance)
unfolding close_publisher
entry_unpublish env e s =
    if e.publishing
    then (do
      (ok, s') ← close_publisher env e.publisher s
      some (ok, record e { publishing = false }, s'))
    else some (false, e, s)

-- The destructor, the end of the subscriber left aside: `unpublish`, and then the destructor of the
-- publisher, which is `close`.
unfoldable pub destroy_entry : NtEnv → NtEntry → Instance → Option Instance
unfolding entry_unpublish close_publisher
destroy_entry env e s = do
  (ok, e', s1) ← entry_unpublish env e s
  (closed, s2) ← close_publisher env e'.publisher s1
  some s2
