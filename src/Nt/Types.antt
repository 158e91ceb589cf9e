-- ===== src/Nt/Types.antt =====
-- The names of messages and of data types on the wire: src/nt/ntinstance.cpp, its first functions,
-- and the enumerations of include/nt/ntinstance.h.
use pico_radio.Base.{Bool, List, [], codes, if◌then◌else◌, refl, same, ℕ, ◌==◌, ◌≡◌, ◌≢◌}

pub data MessageMethod : Type 0 where
  unknown_method publish_method unpublish_method set_properties_method subscribe_method
        unsubscribe_method announce_method unannounce_method properties_method :
      MessageMethod

unfoldable pub parse_message_method : List ℕ → MessageMethod
parse_message_method name =
    if same name (codes "publish")
    then publish_method
    else if same name (codes "unpublish")
    then unpublish_method
    else if same name (codes "setproperties")
    then set_properties_method
    else if same name (codes "subscribe")
    then subscribe_method
    else if same name (codes "unsubscribe")
    then unsubscribe_method
    else if same name (codes "announce")
    then announce_method
    else if same name (codes "unannounce")
    then unannounce_method
    else if same name (codes "properties")
    then properties_method
    else unknown_method

unfoldable pub serialize_message_method : MessageMethod → List ℕ
serialize_message_method unknown_method = []
serialize_message_method publish_method = codes "publish"
serialize_message_method unpublish_method = codes "unpublish"
serialize_message_method set_properties_method = codes "setproperties"
serialize_message_method subscribe_method = codes "subscribe"
serialize_message_method unsubscribe_method = codes "unsubscribe"
serialize_message_method announce_method = codes "announce"
serialize_message_method unannounce_method = codes "unannounce"
serialize_message_method properties_method = codes "properties"

pub data NtDataType : Type 0 where
  bool float64 int float32 str bin uint json raw msgpack protobuf bool_array float64_array int_array
        float32_array str_array unassigned :
      NtDataType

-- The enumerators' values.
abbrev pub type_code : NtDataType → ℕ
type_code bool = 0
type_code float64 = 1
type_code int = 2
type_code float32 = 3
type_code str = 4
type_code bin = 5
type_code uint = 6
type_code json = 7
type_code raw = 8
type_code msgpack = 9
type_code protobuf = 10
type_code bool_array = 16
type_code float64_array = 17
type_code int_array = 18
type_code float32_array = 19
type_code str_array = 20
type_code unassigned = 99

unfoldable pub serialize_data_type : NtDataType → List ℕ
serialize_data_type bool = codes "boolean"
serialize_data_type float64 = codes "double"
serialize_data_type int = codes "int"
serialize_data_type float32 = codes "float"
serialize_data_type str = codes "string"
serialize_data_type bin = codes "raw"
serialize_data_type uint = codes "int"
serialize_data_type json = codes "json"
serialize_data_type raw = codes "raw"
serialize_data_type msgpack = codes "msgpack"
serialize_data_type protobuf = codes "protobuf"
serialize_data_type bool_array = codes "boolean[]"
serialize_data_type float64_array = codes "double[]"
serialize_data_type int_array = codes "int[]"
serialize_data_type float32_array = codes "float[]"
serialize_data_type str_array = codes "string[]"
serialize_data_type unassigned = []

unfoldable pub parse_data_type : List ℕ → NtDataType
parse_data_type name =
    if same name (codes "boolean")
    then bool
    else if same name (codes "double")
    then float64
    else if same name (codes "int")
    then int
    else if same name (codes "float")
    then float32
    else if same name (codes "string")
    then str
    else if same name (codes "json")
    then json
    else if same name (codes "raw")
    then bin
    else if same name (codes "msgpack")
    then msgpack
    else if same name (codes "protobuf")
    then protobuf
    else if same name (codes "boolean[]")
    then bool_array
    else if same name (codes "double[]")
    then float64_array
    else if same name (codes "int[]")
    then int_array
    else if same name (codes "float[]")
    then float32_array
    else if same name (codes "string[]")
    then str_array
    else bin

-- `NTDataValue::getAPIType`, of the value's type.
unfoldable pub api_type : NtDataType → NtDataType
api_type bool = bool
api_type float64 = float64
api_type int = int
api_type float32 = float32
api_type str = str
api_type bin = bin
api_type uint = int
api_type json = str
api_type raw = bin
api_type msgpack = bin
api_type protobuf = bin
api_type bool_array = bool_array
api_type float64_array = float64_array
api_type int_array = int_array
api_type float32_array = float32_array
api_type str_array = str_array
api_type unassigned = unassigned

abbrev pub same_type : NtDataType → NtDataType → Bool
same_type t u = type_code t == type_code u

-- Every method that the code writes, it reads back.
pub parse-serialize_message_method :
    (m : MessageMethod) → parse_message_method (serialize_message_method m) ≡ m
unfolding parse_message_method serialize_message_method
parse-serialize_message_method unknown_method = refl
parse-serialize_message_method publish_method = refl
parse-serialize_message_method unpublish_method = refl
parse-serialize_message_method set_properties_method = refl
parse-serialize_message_method subscribe_method = refl
parse-serialize_message_method unsubscribe_method = refl
parse-serialize_message_method announce_method = refl
parse-serialize_message_method unannounce_method = refl
parse-serialize_message_method properties_method = refl

-- A data type other than the empty one that is announced by its name and published back under it
-- keeps its API type.
pub parse-serialize_data_type :
    (t : NtDataType)
    → t ≢ unassigned
    → api_type (parse_data_type (serialize_data_type t)) ≡ api_type t
unfolding parse_data_type serialize_data_type api_type
parse-serialize_data_type bool v = refl
parse-serialize_data_type float64 v = refl
parse-serialize_data_type int v = refl
parse-serialize_data_type float32 v = refl
parse-serialize_data_type str v = refl
parse-serialize_data_type bin v = refl
parse-serialize_data_type uint v = refl
parse-serialize_data_type json v = refl
parse-serialize_data_type raw v = refl
parse-serialize_data_type msgpack v = refl
parse-serialize_data_type protobuf v = refl
parse-serialize_data_type bool_array v = refl
parse-serialize_data_type float64_array v = refl
parse-serialize_data_type int_array v = refl
parse-serialize_data_type float32_array v = refl
parse-serialize_data_type str_array v = refl
parse-serialize_data_type unassigned v = absurd (v refl)

pub api_type-api_type : (t : NtDataType) → api_type (api_type t) ≡ api_type t
unfolding api_type
api_type-api_type bool = refl
api_type-api_type float64 = refl
api_type-api_type int = refl
api_type-api_type float32 = refl
api_type-api_type str = refl
api_type-api_type bin = refl
api_type-api_type uint = refl
api_type-api_type json = refl
api_type-api_type raw = refl
api_type-api_type msgpack = refl
api_type-api_type protobuf = refl
api_type-api_type bool_array = refl
api_type-api_type float64_array = refl
api_type-api_type int_array = refl
api_type-api_type float32_array = refl
api_type-api_type str_array = refl
api_type-api_type unassigned = refl
