-- ===== src/Nt/Subscriber.antt =====
-- `NTSubscriber`: the map of updates that its callbacks fill, and the typed getters of
-- src/nt/ntsubscriber.cpp. A `bool` is read as its byte.
pub mod Delivered
use pico_radio.Base.{
  Bool, Dict, List, Option, get, if◌then◌else◌, none, not, number_key, put, some, text_key, ℕ, ◌||◌,
}
use pico_radio.Nt.Types.{
  api_type, bin, bool, bool_array, float32, float32_array, float64, float64_array, int, int_array,
  same_type, str, str_array, uint, unassigned,
}
use pico_radio.Nt.Value.{NtDataValue, is_valid, new_value, read_cell, size_32, size_64, size_8}

pub record UpdateData : Type 0 where
  pub value : NtDataValue
  pub timestamp : ℕ

-- `NT_topicUpdateCallback`
unfoldable pub topic_updated_callback : ℕ → ℕ → NtDataValue → Dict ℕ UpdateData → Dict ℕ UpdateData
unfolding put
topic_updated_callback id timestamp value updates =
    put id (record { value = value; timestamp = timestamp }) updates

-- `NTSubscriber::get`, for the identifier of the subscriber's topic, which is -1 until the topic is
-- announced.
unfoldable pub latest : ℕ → Option ℕ → Dict ℕ UpdateData → NtDataValue
unfolding get new_value
latest memory none updates = new_value memory unassigned
latest memory (some id) updates = elim (get id updates) [
  | none ↦ new_value memory unassigned
  | some update ↦ update.value
]

-- The getters, of the value that `get` gives: the default where the type is another.
unfoldable pub get_boolean : ℕ → NtDataValue → ℕ
unfolding is_valid api_type read_cell
get_boolean default v =
    if not (is_valid v) || not (same_type (api_type v.type) bool)
    then default
    else read_cell size_8 v

unfoldable pub get_double : ℕ → NtDataValue → ℕ
unfolding is_valid api_type read_cell
get_double default v =
    if not (is_valid v) || not (same_type (api_type v.type) float64)
    then default
    else read_cell size_64 v

unfoldable pub get_float : ℕ → NtDataValue → ℕ
unfolding is_valid api_type read_cell
get_float default v =
    if not (is_valid v) || not (same_type (api_type v.type) float32)
    then default
    else read_cell size_32 v

unfoldable pub get_int : ℕ → NtDataValue → ℕ
unfolding is_valid read_cell
get_int default v =
    if not (is_valid v) || not (same_type v.type int) then default else read_cell size_64 v

unfoldable pub get_uint : ℕ → NtDataValue → ℕ
unfolding is_valid read_cell
get_uint default v =
    if not (is_valid v) || not (same_type v.type uint) then default else read_cell size_64 v

unfoldable pub get_string : List ℕ → NtDataValue → List ℕ
unfolding is_valid api_type
get_string default v =
    if not (is_valid v) || not (same_type (api_type v.type) str) then default else v.str

unfoldable pub get_boolean_array : List Bool → NtDataValue → List Bool
unfolding is_valid api_type
get_boolean_array default v =
    if not (is_valid v) || not (same_type (api_type v.type) bool_array) then default else v.b_array

unfoldable pub get_double_array : List ℕ → NtDataValue → List ℕ
unfolding is_valid api_type
get_double_array default v =
    if not (is_valid v) || not (same_type (api_type v.type) float64_array)
    then default
    else v.f64_array

unfoldable pub get_float_array : List ℕ → NtDataValue → List ℕ
unfolding is_valid api_type
get_float_array default v =
    if not (is_valid v) || not (same_type (api_type v.type) float32_array)
    then default
    else v.f32_array

unfoldable pub get_int_array : List ℕ → NtDataValue → List ℕ
unfolding is_valid api_type
get_int_array default v =
    if not (is_valid v) || not (same_type (api_type v.type) int_array) then default else v.i_array

unfoldable pub get_string_array : List (List ℕ) → NtDataValue → List (List ℕ)
unfolding is_valid api_type
get_string_array default v =
    if not (is_valid v) || not (same_type (api_type v.type) str_array) then default else v.str_array

unfoldable pub get_raw : List ℕ → NtDataValue → List ℕ
unfolding is_valid api_type
get_raw default v =
    if not (is_valid v) || not (same_type (api_type v.type) bin) then default else v.bin
