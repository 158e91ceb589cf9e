-- ===== src/Examples/Entries.antt =====
-- The theorems on entries at concrete inputs.
use pico_radio.Base.{
  Option, [], codes, false, get, none, number_key, refl, some, text_key, true, ℕ, ◌∷◌, ◌≡◌,
}
use pico_radio.Nt.Types.{api_type, int, uint}
use pico_radio.Nt.Value.{NtDataValue, of_uint}
use pico_radio.Nt.State.{AnnouncedTopic, Instance, Topic, topic_properties_default}
use pico_radio.Nt.Hybrid.{publish, unpublish}
use pico_radio.Nt.Publish.{no_topic}
use pico_radio.Nt.Publisher.{NtPublisher, set_uint, value_of}
use pico_radio.Nt.Entry.{NtEntry, destroy_entry, entry_set, entry_set_typed}
use pico_radio.Nt.Entry.Destroyed.{destroy_entry-destroy_entry}
use pico_radio.Nt.Entry.Lifetime.{entry_set_typed-implementation_type}
use pico_radio.Examples.{instance_data, nt_env, number_value, this_data}

abbrev meta_topic : Topic
meta_topic = record {
  name = codes "$serverpub";
  value = number_value;
  properties = topic_properties_default;
}

abbrev listed : Instance
listed = record instance_data { topics = (codes "$serverpub", some meta_topic) ∷ [] }

abbrev entry : NtEntry
entry = record {
  topic = codes "/x";
  publishing = false;
  pub_properties = topic_properties_default;
  publisher = none;
}

abbrev or_else :
    AnnouncedTopic × Instance → Option (AnnouncedTopic × Instance) → AnnouncedTopic × Instance
or_else d none = d
or_else d (some r) = r

-- What `publish` gives for the entry's topic.
abbrev published : AnnouncedTopic × Instance
unfolding publish
published =
    or_else (no_topic topic_properties_default, listed)
      (publish nt_env entry.topic 3 uint topic_properties_default listed)

entry_set_typed-implementation_type_example :
    (e' : NtEntry) × (entry_set_typed nt_env none (set_uint 7) entry 3 listed
      ≡ some (true, e', 4, published.1))
    × ((later : Option ℕ) (value : NtDataValue) (next' : ℕ) (s' : Instance)
        → entry_set nt_env later value e' next' s' ≡ some (false, e', next', s'))
entry_set_typed-implementation_type_example =
    entry_set_typed-implementation_type nt_env none (set_uint 7) entry 3 listed published.0
      published.1 refl (unfold publish published value_of of_uint in refl)
      (unfold api_type published publish in λ e. cc)

-- Two entries that publish, on an instance that knows their publishers.
abbrev publisher_of : ℕ → NtPublisher
publisher_of n = record { pubuid = n; topic_type = int }

abbrev entry_of : ℕ → NtEntry
entry_of n = record entry { publishing = true; publisher = some (publisher_of n) }

abbrev two_publishers : Instance
two_publishers = record listed {
  this = record this_data {
    publishers =
        (0, some (record { uid = 0; topic = codes "/x" }))
        ∷ (1, some (record { uid = 1; topic = codes "/y" }))
        ∷ [];
  };
}

abbrev instance_or : Instance → Option Instance → Instance
instance_or d none = d
instance_or d (some s) = s

abbrev destroyed : Instance
unfolding destroy_entry
destroyed = instance_or two_publishers (destroy_entry nt_env (entry_of 0) two_publishers)

destroy_entry-destroy_entry_example : destroy_entry nt_env (entry_of 1) destroyed ≡ none
destroy_entry-destroy_entry_example =
    destroy_entry-destroy_entry nt_env (entry_of 0) (entry_of 1) (publisher_of 0) (publisher_of 1)
      (record { uid = 1; topic = codes "/y" }) two_publishers destroyed refl refl refl refl refl
      refl refl (unfold get in refl) (unfold destroy_entry destroyed unpublish in refl)
