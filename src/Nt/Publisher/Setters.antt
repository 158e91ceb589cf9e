-- ===== src/Nt/Publisher/Setters.antt =====
-- Which values a publisher takes.
use pico_radio.Base.{Bool-cases, Option, ap, false, inl, inr, some, sym, true, ℕ, ◌∙◌, ◌≡◌, ◌≢◌}
use pico_radio.Nt.Types.{
  NtDataType, api_type, api_type-api_type, bin, bool, bool_array, float32, float32_array, float64,
  float64_array, int, int_array, json, same_type, str, str_array, uint,
}
use pico_radio.Nt.Value.{
  NtDataValue, blank, of_bin, of_bool, of_bool_array, of_double, of_double_array, of_float,
  of_float_array, of_int, of_int_array, of_str, of_str_array, of_uint, write_cell,
}
use pico_radio.Nt.Value.Copy.{same_type_eq}
use pico_radio.Nt.State.{Instance, NtEnv}
use pico_radio.Nt.Publisher.{
  NtPublisher, Setter, accepts, set, set_boolean, set_boolean_array, set_double, set_double_array,
  set_float, set_float_array, set_int, set_int_array, set_raw, set_string, set_string_array,
  set_uint, value_of,
}

same_type_differ : (t u : NtDataType) → t ≢ u → same_type t u ≡ false
same_type_differ t u differ = elim (Bool-cases (same_type t u)) [
  | inl e ↦ absurd (differ (same_type_eq t u e))
  | inr e ↦ e
]

-- `NTPublisher::set` on a topic of an implementation type, such as `uint`, `json` or `msgpack`,
-- fails for every value and changes nothing: it compares the type itself with the value's API type.
pub set-implementation_type :
    (env : NtEnv) (time : Option ℕ) (value : NtDataValue) (p : NtPublisher) (s : Instance)
    → api_type p.topic_type ≢ p.topic_type
    → set env time value p s ≡ some (false, s)
unfolding set
set-implementation_type env time value p s inner = rw (
    same_type_differ p.topic_type (api_type value.type)
      (λ e. inner (ap api_type e ∙ api_type-api_type value.type ∙ sym e)))

-- The value that a typed setter hands on has the API type of the topic, so that `assign` does not
-- drop it.
pub accepts-value_of :
    (cell : ℕ) (setter : Setter) (t : NtDataType)
    → accepts setter t ≡ true
    → api_type (value_of cell setter).type ≡ api_type t
unfolding accepts value_of of_bool of_double of_int of_float of_uint of_str of_bin of_bool_array
    of_double_array of_int_array of_float_array of_str_array blank write_cell
accepts-value_of cell (set_boolean value) t e = ap api_type (sym (same_type_eq t bool e))
accepts-value_of cell (set_double value) t e = ap api_type (sym (same_type_eq t float64 e))
accepts-value_of cell (set_float value) t e = ap api_type (sym (same_type_eq t float32 e))
accepts-value_of cell (set_int value) t e = ap api_type (sym (same_type_eq t int e))
accepts-value_of cell (set_boolean_array value) t e =
    ap api_type (sym (same_type_eq t bool_array e))
accepts-value_of cell (set_double_array value) t e =
    ap api_type (sym (same_type_eq t float64_array e))
accepts-value_of cell (set_float_array value) t e =
    ap api_type (sym (same_type_eq t float32_array e))
accepts-value_of cell (set_int_array value) t e = ap api_type (sym (same_type_eq t int_array e))
accepts-value_of cell (set_string_array value) t e = ap api_type (sym (same_type_eq t str_array e))
accepts-value_of cell (set_raw value) t e = ap api_type (sym (same_type_eq t bin e))
accepts-value_of cell (set_uint value) t e = elim (Bool-cases (same_type t int)) [
  | inl word ↦ unfold api_type in sym (ap api_type (same_type_eq t int word))
  | inr other ↦ ap api_type (sym (same_type_eq t uint (rw other at e)))
]
accepts-value_of cell (set_string value) t e = elim (Bool-cases (same_type t str)) [
  | inl plain ↦ ap api_type (sym (same_type_eq t str plain))
  | inr other ↦ unfold api_type in sym (ap api_type (same_type_eq t json (rw other at e)))
]
