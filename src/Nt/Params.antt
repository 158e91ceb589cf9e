-- ===== src/Nt/Params.antt =====
-- The parameters of a client's text messages: the `for` loops over their keys in `_handleFrame` of
-- src/nt/ntinstance.cpp.
use pico_radio.Base.{
  Bool, List, Option, [], codes, false, if◌then◌else◌, length, none, not, same, some, suc, true,
  zero, ℕ, ◌&&◌, ◌++◌, ◌>>=◌, ◌∷◌,
}
use pico_radio.Nt.Types.{NtDataType, parse_data_type}
use pico_radio.Nt.State.{Name, SubscriptionOptions, TopicProperties}
use pico_radio.Nt.Json.{
  DataType, Parsed, Unpacker, array_end_type, int_type, is_bool, is_bool_or_null, object_end_type,
  peek_type, type_or_null, unpack_array, unpack_array_end, unpack_bool, unpack_default_bool,
  unpack_int, unpack_key, unpack_object, unpack_object_end,
}

-- `std::from_chars`, and what is in the memory of variables that are not initialised.
pub record Reader : Type 0 where
  pub from_chars : List ℕ → Parsed
  pub memory : ℕ
  pub memory_type : NtDataType

abbrev pub is_int : DataType → Bool
is_int int_type = true
is_int _ = false

abbrev pub is_array_end : DataType → Bool
is_array_end array_end_type = true
is_array_end _ = false

abbrev pub is_object_end : DataType → Bool
is_object_end object_end_type = true
is_object_end _ = false

-- Whether a loop that ends at a closing bracket goes on.
unfoldable pub goes_on : (DataType → Bool) → Unpacker → Bool
unfolding peek_type
goes_on ends u = elim (peek_type u.rest) [ none ↦ false | some t ↦ not (ends t) ]

-- The `while` loops up to a closing bracket; `none` means that the fuel ran out.
module _ {A : Type 0} (body : A → Unpacker → A × Unpacker) (ends : DataType → Bool) where
  unfoldable pub read_rounds : ℕ → A → Unpacker → Option (A × Unpacker)
  unfolding goes_on
  read_rounds zero a u = none
  read_rounds (suc n) a u =
      let more = read_rounds n (body a u).0 (body a u).1 in
      if goes_on ends u then more else some (a, u)

  unfoldable pub read_until : A → Unpacker → Option (A × Unpacker)
  unfolding read_rounds
  read_until a u = read_rounds (suc (length u.rest)) a u

-- `for (int i = 0; i < n; i++)`
unfoldable pub times :
    {A : Type 0} → (A → Unpacker → Option (A × Unpacker)) → ℕ → A → Unpacker → Option (A × Unpacker)
times body zero a u = some (a, u)
times body (suc n) a u = do (a', u') ← body a u; times body n a' u'

unfoldable pub read_topic : List Name → Unpacker → List Name × Unpacker
unfolding unpack_key
read_topic topics u = let (name, u') = unpack_key u in (topics ++ name ∷ [], u')

-- The value of one key.
unfoldable pub read_option_value :
    Reader → SubscriptionOptions → List ℕ → Unpacker → SubscriptionOptions × Unpacker
unfolding type_or_null unpack_int unpack_bool
read_option_value r options key u1 =
    let t = type_or_null u1 in
    let (n, after_int) = unpack_int r.from_chars r.memory u1 in
    let (b, after_bool) = unpack_bool u1 in
    if same key (codes "periodic") && is_int t
    then (record options { periodic = n }, after_int)
    else if same key (codes "all") && is_bool t
    then (record options { all = b }, after_bool)
    else if same key (codes "topicsonly") && is_bool t
    then (record options { topicsonly = b }, after_bool)
    else if same key (codes "prefix") && is_bool t
    then (record options { prefix = b }, after_bool)
    else (options, u1)

unfoldable pub read_option :
    Reader → SubscriptionOptions → Unpacker → SubscriptionOptions × Unpacker
unfolding unpack_key read_option_value
read_option r options u = let (key, u1) = unpack_key u in read_option_value r options key u1

pub record SubscribeParams : Type 0 where
  pub topics : List Name
  pub subuid : ℕ
  pub options : SubscriptionOptions

-- The value of one key.
unfoldable pub read_subscribe_value :
    Reader → SubscribeParams → List ℕ → Unpacker → Option (SubscribeParams × Unpacker)
unfolding unpack_key unpack_array unpack_array_end unpack_object unpack_object_end unpack_int
    read_until read_topic read_option
read_subscribe_value r p key u1 =
    if same key (codes "topics")
    then (do
      (topics, u2) ← read_until read_topic is_array_end p.topics (unpack_array u1)
      some (record p { topics = topics }, unpack_array_end u2))
    else if same key (codes "subuid")
    then (let (n, u2) = unpack_int r.from_chars r.memory u1 in some (record p { subuid = n }, u2))
    else if same key (codes "options")
    then (do
      (options, u2) ← read_until (read_option r) is_object_end p.options (unpack_object u1)
      some (record p { options = options }, unpack_object_end u2))
    else some (p, u1)

unfoldable pub read_subscribe_param :
    Reader → SubscribeParams → Unpacker → Option (SubscribeParams × Unpacker)
unfolding unpack_key read_subscribe_value
read_subscribe_param r p u = let (key, u1) = unpack_key u in read_subscribe_value r p key u1

-- The value of one key.
unfoldable pub read_property_value :
    TopicProperties → List ℕ → Unpacker → TopicProperties × Unpacker
unfolding type_or_null unpack_bool
read_property_value p key u1 =
    let t = type_or_null u1 in
    let (b, u2) = unpack_bool u1 in
    if same key (codes "persistent") && is_bool t
    then (record p { persistent = b }, u2)
    else if same key (codes "retained") && is_bool t
    then (record p { retained = b }, u2)
    else if same key (codes "cached") && is_bool t
    then (record p { cached = b }, u2)
    else (p, u1)

unfoldable pub read_property : TopicProperties → Unpacker → TopicProperties × Unpacker
unfolding unpack_key read_property_value
read_property p u = let (key, u1) = unpack_key u in read_property_value p key u1

pub record PublishParams : Type 0 where
  pub topic : Name
  pub pubuid : ℕ
  pub type : NtDataType
  pub properties : TopicProperties

-- The value of one key.
unfoldable pub read_publish_value :
    Reader → PublishParams → List ℕ → Unpacker → Option (PublishParams × Unpacker)
unfolding unpack_key unpack_object unpack_object_end unpack_int parse_data_type read_until
    read_property
read_publish_value r p key u1 =
    let (text, u2) = unpack_key u1 in
    if same key (codes "name")
    then some (record p { topic = text }, u2)
    else if same key (codes "pubuid")
    then (let (n, u3) = unpack_int r.from_chars r.memory u1 in some (record p { pubuid = n }, u3))
    else if same key (codes "type")
    then some (record p { type = parse_data_type text }, u2)
    else if same key (codes "properties")
    then (do
      (properties, u3) ← read_until read_property is_object_end p.properties (unpack_object u1)
      some (record p { properties = properties }, unpack_object_end u3))
    else some (p, u1)

unfoldable pub read_publish_param :
    Reader → PublishParams → Unpacker → Option (PublishParams × Unpacker)
unfolding unpack_key read_publish_value
read_publish_param r p u = let (key, u1) = unpack_key u in read_publish_value r p key u1

-- The properties of an update, and which of them it has.
pub record PropertyUpdate : Type 0 where
  pub properties : TopicProperties
  pub has_persistent : Bool
  pub has_retained : Bool
  pub has_cached : Bool

-- The value of one key.
unfoldable pub read_update_value : PropertyUpdate → List ℕ → Unpacker → PropertyUpdate × Unpacker
unfolding type_or_null unpack_default_bool
read_update_value p key u1 =
    let t = type_or_null u1 in
    let old = p.properties in
    if same key (codes "persistent") && is_bool_or_null t
    then (let (b, has, u2) = unpack_default_bool old.persistent u1 in
        (record p { properties = record old { persistent = b }; has_persistent = has }, u2))
    else if same key (codes "retained") && is_bool_or_null t
    then (let (b, has, u2) = unpack_default_bool old.retained u1 in
        (record p { properties = record old { retained = b }; has_retained = has }, u2))
    else if same key (codes "cached") && is_bool_or_null t
    then (let (b, has, u2) = unpack_default_bool old.cached u1 in
        (record p { properties = record old { cached = b }; has_cached = has }, u2))
    else (p, u1)

unfoldable pub read_update : PropertyUpdate → Unpacker → PropertyUpdate × Unpacker
unfolding unpack_key read_update_value
read_update p u = let (key, u1) = unpack_key u in read_update_value p key u1

pub record SetPropertiesParams : Type 0 where
  pub topic : Name
  pub update : PropertyUpdate

-- The value of one key.
unfoldable pub read_set_properties_value :
    SetPropertiesParams → List ℕ → Unpacker → Option (SetPropertiesParams × Unpacker)
unfolding unpack_key unpack_object unpack_object_end read_until read_update
read_set_properties_value p key u1 =
    if same key (codes "name")
    then (let (name, u2) = unpack_key u1 in some (record p { topic = name }, u2))
    else if same key (codes "update")
    then (do
      (update, u2) ← read_until read_update is_object_end p.update (unpack_object u1)
      some (record p { update = update }, unpack_object_end u2))
    else some (p, u1)

unfoldable pub read_set_properties_param :
    SetPropertiesParams → Unpacker → Option (SetPropertiesParams × Unpacker)
unfolding unpack_key read_set_properties_value
read_set_properties_param p u = let (key, u1) = unpack_key u in read_set_properties_value p key u1

-- The parameter of an `unsubscribe` or `unpublish` message.
unfoldable pub read_uid : Reader → List ℕ → Unpacker → ℕ × Unpacker
unfolding unpack_key unpack_int
read_uid r name u =
    let (key, u1) = unpack_key u in
    if same key name then unpack_int r.from_chars r.memory u1 else (r.memory, u1)
