-- ===== src/Nt/Entry/Lifetime.antt =====
-- The first value of an entry.
use pico_radio.Base.{Option, false, some, true, ℕ, ◌+◌, ◌≡◌, ◌≢◌}
use pico_radio.Nt.Types.{api_type}
use pico_radio.Nt.Value.{NtDataValue}
use pico_radio.Nt.State.{AnnouncedTopic, Instance, NtEnv}
use pico_radio.Nt.Hybrid.{publish}
use pico_radio.Nt.Publisher.{NtPublisher, Setter, value_of}
use pico_radio.Nt.Publisher.Setters.{set-implementation_type}
use pico_radio.Nt.Entry.{NtEntry, entry_set, entry_set_typed, first_set, make_publisher}

-- Where `publish` gives a topic of an implementation type, such as `uint`, the first typed set of an
-- entry returns true and makes a publisher, and its value is lost: the instance is the one that
-- `publish` leaves. Every later `set` of that entry returns false and changes nothing.
pub entry_set_typed-implementation_type :
    (env : NtEnv) (time : Option ℕ) (setter : Setter) (e : NtEntry) (next : ℕ) (s : Instance)
    (t : AnnouncedTopic) (s1 : Instance)
    → e.publishing ≡ false
    → publish env e.topic next (value_of env.memory setter).type e.pub_properties s ≡ some (t, s1)
    → api_type t.type ≢ t.type
    → (e' : NtEntry) × (entry_set_typed env time setter e next s ≡ some (true, e', next + 1, s1))
      × ((later : Option ℕ) (value : NtDataValue) (next' : ℕ) (s' : Instance)
          → entry_set env later value e' next' s' ≡ some (false, e', next', s'))
entry_set_typed-implementation_type env time setter e next s t s1 silent published inner =
    let p : NtPublisher = record { pubuid = next; topic_type = t.type } in
    let e' : NtEntry = record e { publishing = true; publisher = some p } in
    (
      e',
      (unfold entry_set_typed first_set make_publisher in
          rw (
            silent,
            published,
            set-implementation_type env time (value_of env.memory setter) p s1 inner,
          )),
      λ later value next' s'.
          unfold entry_set in rw (set-implementation_type env later value p s' inner),
    )
