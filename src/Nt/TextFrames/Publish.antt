-- ===== src/Nt/TextFrames/Publish.antt =====
-- Publish messages, and those that only have an identifier, are read as they are written.
use pico_radio.Base.{
  Bool, List, [], ap, codes, drop, false, if◌then◌else◌, length, refl, same, same_refl, some, suc,
  true, ℕ, ◌++◌, ◌<◌, ◌>>=◌, ◌∙◌, ◌∷◌, ◌≡◌,
}
use pico_radio.Nt.Types.{NtDataType, bool, parse_data_type, publish_method, serialize_data_type}
use pico_radio.Nt.State.{Name, TopicProperties}
use pico_radio.Nt.Json.{
  Parsed, find_bool, peek_type, type_at, type_or_null, unpack_bool, unpack_int, unpack_object,
  unpack_object_end, unpacker,
}
use pico_radio.Nt.Json.Reads.{Without, unpack_key_lem, unpack_key_literal, without, without→Without}
use pico_radio.Nt.Params.{
  PublishParams, Reader, goes_on, is_object_end, read_property, read_property_value,
  read_publish_param, read_publish_value, read_rounds, read_uid, read_until, times,
}
use pico_radio.Nt.Messages.{publish_message}
use pico_radio.Nt.TextFrames.Shown.{
  Notation, int32_limit, key_round, quoted, show_bool, show_number, times_step, unpack_int_lem,
}
use pico_radio.Nt.TextFrames.{blank_publish, publish_of, read_params}

name_param :
    (r : Reader) (p : PublishParams) (name rest : List ℕ)
    → Without b'"' name
    → read_publish_param r p (unpacker (codes "\"name\":" ++ quoted name rest))
      ≡ some (record p { topic = name }, unpacker rest)
unfolding read_publish_param read_publish_value quoted
name_param r p name rest plain =
    ap (λ q. read_publish_value r p q.0 q.1)
      (unpack_key_literal [] (codes "name") (codes ":" ++ quoted name rest) refl refl)
    ∙ ap (λ q. some (record p { topic = q.0 }, q.1))
        (unpack_key_lem (codes ":") name rest (refl, tt) plain)

pubuid_param :
    (r : Reader) (d : Notation r.from_chars) (p : PublishParams) (n : ℕ) (rest : List ℕ)
    → n < int32_limit
    → read_publish_param r p (unpacker (codes ",\"pubuid\":" ++ show_number d n (b',' ∷ rest)))
      ≡ some (record p { pubuid = n }, unpacker (b',' ∷ rest))
unfolding read_publish_param read_publish_value
pubuid_param r d p n rest small =
    ap (λ q. read_publish_value r p q.0 q.1)
      (unpack_key_literal (codes ",") (codes "pubuid") (codes ":" ++ show_number d n (b',' ∷ rest))
        refl refl)
    ∙ ap (λ q. some (record p { pubuid = q.0 }, q.1))
        (unpack_int_lem r d (codes ":") rest n b',' small (refl, tt) refl)

type_param :
    (r : Reader) (p : PublishParams) (name rest : List ℕ)
    → Without b'"' name
    → read_publish_param r p (unpacker (codes ",\"type\":" ++ quoted name rest))
      ≡ some (record p { type = parse_data_type name }, unpacker rest)
unfolding read_publish_param read_publish_value quoted
type_param r p name rest plain =
    ap (λ q. read_publish_value r p q.0 q.1)
      (unpack_key_literal (codes ",") (codes "type") (codes ":" ++ quoted name rest) refl refl)
    ∙ ap (λ q. some (record p { type = parse_data_type q.0 }, q.1))
        (unpack_key_lem (codes ":") name rest (refl, tt) plain)

serialize_data_type-Without : (t : NtDataType) → Without b'"' (serialize_data_type t)
unfolding serialize_data_type
serialize_data_type-Without bool = without→Without b'"' (codes "boolean") refl
serialize_data_type-Without t = without→Without b'"' (serialize_data_type t) refl

persistent_value :
    (p : TopicProperties) (b : Bool) (rest : List ℕ)
    → read_property_value p (codes "persistent") (unpacker (b':' ∷ show_bool b rest))
      ≡ (record p { persistent = b }, unpacker rest)
unfolding read_property_value show_bool type_or_null peek_type type_at unpack_bool find_bool
persistent_value p true rest = refl
persistent_value p false rest = refl

retained_value :
    (p : TopicProperties) (b : Bool) (rest : List ℕ)
    → read_property_value p (codes "retained") (unpacker (b':' ∷ show_bool b rest))
      ≡ (record p { retained = b }, unpacker rest)
unfolding read_property_value show_bool type_or_null peek_type type_at unpack_bool find_bool
retained_value p true rest = refl
retained_value p false rest = refl

cached_value :
    (p : TopicProperties) (b : Bool) (rest : List ℕ)
    → read_property_value p (codes "cached") (unpacker (b':' ∷ show_bool b rest))
      ≡ (record p { cached = b }, unpacker rest)
unfolding read_property_value show_bool type_or_null peek_type type_at unpack_bool find_bool
cached_value p true rest = refl
cached_value p false rest = refl

property_round :
    (n : ℕ) (p p' : TopicProperties) (before key value_text rest : List ℕ)
    → without b'"' before ≡ true
    → without b'"' key ≡ true
    → goes_on is_object_end (unpacker (before ++ b'"' ∷ (key ++ b'"' ∷ value_text))) ≡ true
    → read_property_value p key (unpacker value_text) ≡ (p', unpacker rest)
    → read_rounds read_property is_object_end
        (suc n)
        p
        (unpacker (before ++ b'"' ∷ (key ++ b'"' ∷ value_text)))
      ≡ read_rounds read_property is_object_end n p' (unpacker rest)
property_round = key_round read_property read_property_value (λ a u. unfold read_property in refl)

unfoldable pub show_properties : TopicProperties → List ℕ → List ℕ
unfolding show_bool
show_properties p rest =
    codes "\"persistent\":"
    ++ show_bool p.persistent (
        codes ",\"retained\":"
        ++ show_bool p.retained (codes ",\"cached\":" ++ show_bool p.cached (b'}' ∷ rest)))

property_rounds :
    (p p' : TopicProperties) (n : ℕ) (rest : List ℕ)
    → read_rounds read_property is_object_end
        (suc (suc (suc (suc n))))
        p'
        (unpacker (show_properties p rest))
      ≡ some (p, unpacker (b'}' ∷ rest))
unfolding show_properties
property_rounds p p' n rest =
    let cached_text = codes ":" ++ show_bool p.cached (b'}' ∷ rest) in
    let retained_text = codes ":" ++ show_bool p.retained (codes ",\"cached\"" ++ cached_text) in
    let persistent_text =
      codes ":" ++ show_bool p.persistent (codes ",\"retained\"" ++ retained_text) in
    let p1 : TopicProperties = record p' { persistent = p.persistent } in
    let p2 : TopicProperties = record p1 { retained = p.retained } in
    property_round (suc (suc (suc n))) p' p1 [] (codes "persistent") persistent_text
      (codes ",\"retained\"" ++ retained_text) refl refl (unfold goes_on peek_type type_at in refl)
      (persistent_value p' p.persistent (codes ",\"retained\"" ++ retained_text))
    ∙ property_round (suc (suc n)) p1 p2 (codes ",") (codes "retained") retained_text
        (codes ",\"cached\"" ++ cached_text) refl refl (unfold goes_on peek_type type_at in refl)
        (retained_value p1 p.retained (codes ",\"cached\"" ++ cached_text))
    ∙ property_round (suc n) p2 p (codes ",") (codes "cached") cached_text (b'}' ∷ rest) refl refl
        (unfold goes_on peek_type type_at in refl) (cached_value p2 p.cached (b'}' ∷ rest))
    ∙ (unfold read_rounds goes_on peek_type type_at in refl)

properties_param :
    (r : Reader) (p : PublishParams) (o : TopicProperties) (rest : List ℕ)
    → read_publish_param r p
        (unpacker (codes ",\"properties\":{" ++ show_properties o (b'}' ∷ rest)))
      ≡ some (record p { properties = o }, unpacker (b'}' ∷ rest))
unfolding read_publish_param read_publish_value unpack_object unpack_object_end read_until
    show_properties
properties_param r p o rest =
    ap (λ q. read_publish_value r p q.0 q.1)
      (unpack_key_literal (codes ",") (codes "properties")
        (codes ":{" ++ show_properties o (b'}' ∷ rest)) refl refl)
    ∙ ap
        (λ o. do
          (properties, u) ← o
          some (record p { properties = properties }, unpack_object_end u))
        (property_rounds o p.properties (length (drop 3 (show_properties o (b'}' ∷ rest))))
          (b'}' ∷ rest))

unfoldable pub show_publish :
    {from_chars : List ℕ → Parsed}
    → Notation from_chars
    → Name
    → ℕ
    → NtDataType
    → TopicProperties
    → List ℕ
    → List ℕ
unfolding quoted show_properties serialize_data_type
show_publish d name uid type p rest =
    codes "\"name\":"
    ++ quoted name (
        codes ",\"pubuid\":"
        ++ show_number d uid (
            codes ",\"type\":"
            ++ quoted (serialize_data_type type)
                (codes ",\"properties\":{" ++ show_properties p (b'}' ∷ rest))))

pub read_publish :
    (r : Reader) (d : Notation r.from_chars) (name : Name) (uid : ℕ) (type : NtDataType)
    (o : TopicProperties) (rest : List ℕ)
    → Without b'"' name
    → uid < int32_limit
    → parse_data_type (serialize_data_type type) ≡ type
    → read_params r publish_method (unpacker (show_publish d name uid type o rest))
      ≡ some (publish_message name uid type o, unpacker (b'}' ∷ rest))
unfolding read_params show_publish
read_publish r d name uid type o rest plain small known =
    let p1 : PublishParams = record (blank_publish r) { topic = name } in
    let p2 : PublishParams = record p1 { pubuid = uid } in
    let p3 : PublishParams = record p2 { type = type } in
    let body = read_publish_param r in
    let properties_text = codes ",\"properties\":{" ++ show_properties o (b'}' ∷ rest) in
    let type_text = codes "\"type\":" ++ quoted (serialize_data_type type) properties_text in
    let uid_text = codes ",\"pubuid\":" ++ show_number d uid (b',' ∷ type_text) in
    ap (λ o. do (p, u) ← o; some (publish_of p, u))
      (times_step body 3 (blank_publish r) p1 (unpacker (show_publish d name uid type o rest))
          (unpacker uid_text) (name_param r (blank_publish r) name uid_text plain)
        ∙ times_step body 2 p1 p2 (unpacker uid_text) (unpacker (b',' ∷ type_text))
            (pubuid_param r d p1 uid type_text small)
        ∙ times_step body 1 p2 p3 (unpacker (b',' ∷ type_text)) (unpacker properties_text) (
            type_param r p2 (serialize_data_type type) properties_text
              (serialize_data_type-Without type)
            ∙ ap (λ t. some (record p2 { type = t }, unpacker properties_text)) known)
        ∙ times_step body 0 p3 (record p3 { properties = o }) (unpacker properties_text)
            (unpacker (b'}' ∷ rest)) (properties_param r p3 o rest)
        ∙ (unfold times in refl))

pub read_uid_lem :
    (r : Reader) (d : Notation r.from_chars) (key : List ℕ) (uid : ℕ) (rest : List ℕ)
    → without b'"' key ≡ true
    → uid < int32_limit
    → read_uid r key (unpacker (quoted key (b':' ∷ show_number d uid (b'}' ∷ rest))))
      ≡ (uid, unpacker (b'}' ∷ rest))
unfolding read_uid quoted
read_uid_lem r d key uid rest plain small =
    let u = unpacker (b':' ∷ show_number d uid (b'}' ∷ rest)) in
    let n = unpack_int r.from_chars r.memory u in
    ap (λ q. if same q.0 key then unpack_int r.from_chars r.memory q.1 else (r.memory, q.1))
      (unpack_key_literal [] key u.rest refl plain)
    ∙ ap (λ b. if b then n else (r.memory, u)) (same_refl key)
    ∙ unpack_int_lem r d (codes ":") rest uid b'}' small (refl, tt) refl
