-- ===== src/Nt/Publisher.antt =====
-- `NTPublisher`: `set` and the typed setters of src/nt/ntpublisher.cpp, each in the form with a
-- time and in the one without.
pub mod Setters
use pico_radio.Base.{
  Bool, List, Option, false, if◌then◌else◌, none, not, some, true, ℕ, ◌>>=◌, ◌||◌,
}
use pico_radio.Nt.Types.{
  NtDataType, api_type, bin, bool, bool_array, float32, float32_array, float64, float64_array, int,
  int_array, json, same_type, str, str_array, uint,
}
use pico_radio.Nt.Value.{
  NtDataValue, of_bin, of_bool, of_bool_array, of_double, of_double_array, of_float, of_float_array,
  of_int, of_int_array, of_str, of_str_array, of_uint,
}
use pico_radio.Nt.State.{Instance, NtEnv}
use pico_radio.Nt.Hybrid.{update_topic, update_topic_now}

-- `pubuid`, and the type of the `NTTopic` that `publish` gave.
pub record NtPublisher : Type 0 where
  pub pubuid : ℕ
  pub topic_type : NtDataType

-- `updateTopic(pubuid, value)` or, with a time, `updateTopic(pubuid, value, time)`.
unfoldable pub hand_on : NtEnv → Option ℕ → ℕ → NtDataValue → Instance → Option Instance
unfolding update_topic update_topic_now
hand_on env none pubuid value s = update_topic_now env pubuid value s
hand_on env (some time) pubuid value s = update_topic env pubuid value time s

unfoldable pub set :
    NtEnv → Option ℕ → NtDataValue → NtPublisher → Instance → Option (Bool × Instance)
unfolding api_type hand_on
set env time value p s =
    if not (same_type p.topic_type (api_type value.type))
    then some (false, s)
    else (do s' ← hand_on env time p.pubuid value s; some (true, s'))

-- The typed setters.
pub data Setter : Type 0 where
  set_boolean : Bool → Setter
  set_double : ℕ → Setter
  set_float : ℕ → Setter
  set_int : ℕ → Setter
  set_uint : ℕ → Setter
  set_string : List ℕ → Setter
  set_boolean_array : List Bool → Setter
  set_double_array : List ℕ → Setter
  set_float_array : List ℕ → Setter
  set_int_array : List ℕ → Setter
  set_string_array : List (List ℕ) → Setter
  set_raw : List ℕ → Setter

-- The test on `topic.getType()` of each.
unfoldable pub accepts : Setter → NtDataType → Bool
accepts (set_boolean value) t = same_type t bool
accepts (set_double value) t = same_type t float64
accepts (set_float value) t = same_type t float32
accepts (set_int value) t = same_type t int
accepts (set_uint value) t = same_type t int || same_type t uint
accepts (set_string value) t = same_type t str || same_type t json
accepts (set_boolean_array value) t = same_type t bool_array
accepts (set_double_array value) t = same_type t float64_array
accepts (set_float_array value) t = same_type t float32_array
accepts (set_int_array value) t = same_type t int_array
accepts (set_string_array value) t = same_type t str_array
accepts (set_raw value) t = same_type t bin

-- `{value}` of each.
unfoldable pub value_of : ℕ → Setter → NtDataValue
unfolding of_bool of_double of_float of_int of_uint of_str of_bool_array of_double_array
    of_float_array of_int_array of_str_array of_bin
value_of cell (set_boolean value) = of_bool cell value
value_of cell (set_double value) = of_double cell value
value_of cell (set_float value) = of_float cell value
value_of cell (set_int value) = of_int cell value
value_of cell (set_uint value) = of_uint cell value
value_of cell (set_string value) = of_str cell value
value_of cell (set_boolean_array value) = of_bool_array cell value
value_of cell (set_double_array value) = of_double_array cell value
value_of cell (set_float_array value) = of_float_array cell value
value_of cell (set_int_array value) = of_int_array cell value
value_of cell (set_string_array value) = of_str_array cell value
value_of cell (set_raw value) = of_bin cell value

unfoldable pub set_typed :
    NtEnv → Option ℕ → Setter → NtPublisher → Instance → Option (Bool × Instance)
unfolding accepts value_of hand_on
set_typed env time setter p s =
    if not (accepts setter p.topic_type)
    then some (false, s)
    else (do s' ← hand_on env time p.pubuid (value_of env.memory setter) s; some (true, s'))
