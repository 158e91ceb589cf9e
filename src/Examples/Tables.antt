-- ===== src/Examples/Tables.antt =====
-- The theorems on NetworkTables at concrete inputs.
use pico_radio.Base.{
  List, [], codes, false, get, if◌then◌else◌, length, none, not, number_key, refl, some, text_key,
  true, ℕ, ◌++◌, ◌>>=◌, ◌||◌, ◌∷◌, ◌≡◌,
}
use pico_radio.Nt.Types.{api_type, int, same_type, uint}
use pico_radio.Nt.Value.{NtDataValue, assign, is_valid}
use pico_radio.Nt.Value.Copy.{payload, payload-assign}
use pico_radio.Nt.State.{
  ClientData, ClientTopicData, Instance, Name, NtEnv, Subscription, Topic, remote,
  topic_properties_default,
}
use pico_radio.Nt.Cache.{announce_to, assign_id, queue_binary, topic_id}
use pico_radio.Nt.Cache.Bounds.{binary_bytes, queue_binary-bytes}
use pico_radio.Nt.Cache.Again.{announce_to-announce_to}
use pico_radio.Nt.Hybrid.Release.{
  Call, call_set_properties, call_unsubscribe, run_call, run_calls, run_calls-releases,
}
use pico_radio.Nt.Cache.Ids.{IsNumbered, assign_id-IsNumbered, topic_id-collides}
use pico_radio.Nt.Subscribed.{any_subscribed, entries, is_subscribed}
use pico_radio.Nt.Subscribed.Rules.{is_subscribed-entries}
use pico_radio.Nt.Server.{announce_cached_topics, announce_cached_topics_self}
use pico_radio.Nt.Hybrid.{set_properties, subscribe, unsubscribe}
use pico_radio.Nt.Hybrid.NullEntries.{set_properties-announce_cached_topics, unsubscribe-subscribe}
use pico_radio.Nt.Messages.{client_publishes}
use pico_radio.Nt.Messages.MetaNames.{client_publishes-meta}
use pico_radio.Examples.{
  hello, instance_data, no_options, nt_env, number_value, prefix_options, this_data,
}

abbrev word_value : NtDataValue
word_value = record number_value { type = int; cell = 1 }

payload-assign_example :
    (v' : NtDataValue) × (assign number_value word_value ≡ some v')
    × (v'.type ≡ (if is_valid word_value then int else uint))
    × (payload v' ≡ (
        if not (is_valid word_value) || same_type (api_type int) (api_type uint)
        then payload number_value
        else payload word_value))
payload-assign_example = payload-assign number_value word_value (unfold is_valid in refl)

-- A server with a callback for updates that takes them all.
abbrev heard_env : NtEnv
heard_env = record nt_env { update_callback = some (λ id time v. true) }

abbrev number_topic : Topic
number_topic = record {
  name = codes "/n";
  value = number_value;
  properties = topic_properties_default;
}

numbered : IsNumbered this_data
unfolding get
numbered = record { below = λ name d e. absurd cc; distinct = λ n m d e p q i. absurd cc }

assign_id-IsNumbered_example : IsNumbered (assign_id (codes "/a") this_data)
assign_id-IsNumbered_example = assign_id-IsNumbered (codes "/a") this_data numbered

abbrev first_data : ClientTopicData
first_data = record { id = 0; initial_publish = true }

abbrev with_first : ClientData
with_first = record this_data {
  topic_data = (codes "/a", first_data) ∷ [];
  next_topic_id_assigned = 1;
}

topic_id-collides_example :
    ((topic_id (codes "/b") with_first).0 ≡ 0) × ¬ IsNumbered (topic_id (codes "/b") with_first).1
unfolding get
topic_id-collides_example =
    topic_id-collides (codes "/b") (codes "/a") first_data with_first refl refl refl

queue_binary-bytes_example :
    binary_bytes (queue_binary hello this_data).0 ++ (queue_binary hello this_data).1.binary_cache
    ≡ hello
queue_binary-bytes_example = queue_binary-bytes hello this_data

abbrev everything : Subscription
everything = record { uid = 3; topics = [] ∷ []; options = prefix_options }

is_subscribed-entries_example :
    is_subscribed (entries (everything ∷ [])) (codes "/a") true
    ≡ some (any_subscribed true (codes "/a") (everything ∷ []))
is_subscribed-entries_example = is_subscribed-entries (everything ∷ []) (codes "/a") true

unsubscribe-subscribe_example :
    (do s' ← unsubscribe nt_env 5 instance_data; subscribe nt_env [] 6 no_options s') ≡ none
unfolding get
unsubscribe-subscribe_example =
    unsubscribe-subscribe nt_env 5 6 [] no_options instance_data refl refl refl refl

set_properties_example :
    ((do
      s' ← set_properties nt_env (codes "/x") topic_properties_default instance_data
      announce_cached_topics nt_env 4 s')
      ≡ none)
    × ((do
      s' ← set_properties nt_env (codes "/x") topic_properties_default instance_data
      announce_cached_topics_self nt_env s')
        ≡ none)
unfolding get
set_properties_example =
    set_properties-announce_cached_topics nt_env (codes "/x") topic_properties_default 4
      instance_data refl refl refl

abbrev pack_names : List (Name × List ℕ) → List ℕ
pack_names names = length names ∷ []

abbrev topic : Topic
topic = record { name = codes "/a"; value = number_value; properties = topic_properties_default }

announce_to_example :
    announce_to nt_env topic (announce_to nt_env topic this_data).1
    ≡ ([], (announce_to nt_env topic this_data).1)
announce_to_example = announce_to-announce_to nt_env topic this_data

abbrev two_calls : List Call
two_calls = call_unsubscribe 4 ∷ call_set_properties (codes "/x") topic_properties_default ∷ []

abbrev after_calls : Instance
after_calls = record instance_data {
  topics = (codes "/x", none) ∷ [];
  this = record this_data { subscriptions = (4, none) ∷ [] };
}

run_calls_example : after_calls.locked ≡ false
run_calls_example =
    run_calls-releases nt_env two_calls instance_data after_calls refl
      (unfold run_calls run_call unsubscribe set_properties in refl)

abbrev served_instance : Instance
served_instance = record instance_data {
  topics = (codes "$clientpub$c", some (record topic { name = codes "$clientpub$c" })) ∷ [];
  clients = (9, remote (record this_data { guid = 9; name = codes "c" })) ∷ [];
}

client_publishes_example :
    client_publishes nt_env 9 (codes "$x") 1 int topic_properties_default served_instance ≡ none
client_publishes_example =
    client_publishes-meta nt_env 9 (codes "$x") 1 int topic_properties_default served_instance refl
      (unfold get in refl)
