-- ===== src/Nt/TextFrames/Printed.antt =====
-- Text frames of NetworkTables 4 are read as they are written.
use pico_radio.Base.{
  All, List, Option, [], ap, arith, codes, if◌then◌else◌, length, not, refl, some, suc, true, zero,
  ℕ, ◌&&◌, ◌++◌, ◌<◌, ◌>>=◌, ◌∙◌, ◌∷◌, ◌≡◌,
}
use pico_radio.Nt.Types.{
  MessageMethod, parse-serialize_message_method, parse_data_type, parse_message_method,
  publish_method, serialize_data_type, serialize_message_method, set_properties_method,
  subscribe_method, unknown_method, unpublish_method, unsubscribe_method,
}
use pico_radio.Nt.Json.{
  Parsed, Unpacker, find_after, peek_type, safe_find_after, type_at, unpack_array, unpack_key,
  unpack_object, unpack_object_end, unpacker,
}
use pico_radio.Nt.Json.Reads.{
  Without, find_after_lem, unpack_key_lem, unpack_key_literal, without→Without,
}
use pico_radio.Nt.Params.{Reader, goes_on, is_array_end}
use pico_radio.Nt.Messages.{
  ClientMessage, other_message, publish_message, set_properties_message, subscribe_message,
  unpublish_message, unsubscribe_message,
}
use pico_radio.Nt.TextFrames.Shown.{Notation, int32_limit, quoted, show_number}
use pico_radio.Nt.TextFrames.Subscribe.{read_subscribe, show_subscribe}
use pico_radio.Nt.TextFrames.Publish.{read_publish, read_uid_lem, show_publish}
use pico_radio.Nt.TextFrames.Updates.{read_set_properties, show_update}
use pico_radio.Nt.TextFrames.Ends.{read_message-Ends}
use pico_radio.Nt.TextFrames.{read_loop, read_message, read_messages, read_params}

method_of : ClientMessage → MessageMethod
method_of (subscribe_message names uid o) = subscribe_method
method_of (publish_message name uid t p) = publish_method
method_of (unsubscribe_message uid) = unsubscribe_method
method_of (unpublish_message uid) = unpublish_method
method_of (set_properties_message name p r c) = set_properties_method
method_of other_message = unknown_method

module _ {from_chars : List ℕ → Parsed} (d : Notation from_chars) where
  -- What stands between the braces of the parameters, and the brace that ends them.
  show_params : ClientMessage → List ℕ → List ℕ
  unfolding show_subscribe show_publish show_update quoted
  show_params (subscribe_message names uid o) rest = show_subscribe d names uid o rest
  show_params (publish_message name uid t p) rest = show_publish d name uid t p rest
  show_params (unsubscribe_message uid) rest =
      quoted (codes "subuid") (b':' ∷ show_number d uid (b'}' ∷ rest))
  show_params (unpublish_message uid) rest =
      quoted (codes "pubuid") (b':' ∷ show_number d uid (b'}' ∷ rest))
  show_params (set_properties_message name p r c) rest = show_update name p r c rest
  show_params other_message rest = b'}' ∷ rest

  show_message : ClientMessage → List ℕ → List ℕ
  unfolding show_params method_of serialize_message_method quoted
  show_message m rest =
      codes "{\"method\":"
      ++ quoted (serialize_message_method (method_of m))
          (codes ",\"params\":{" ++ show_params m (b'}' ∷ rest))

  show_messages : List ClientMessage → List ℕ
  unfolding show_message
  show_messages [] = codes "]"
  show_messages (m ∷ ms) = codes "," ++ show_message m (show_messages ms)

  -- A frame of at least one message.
  unfoldable pub show_frame : ClientMessage → List ClientMessage → List ℕ
  unfolding show_message show_messages
  show_frame m ms = codes "[" ++ show_message m (show_messages ms)

-- The identifiers fit into 31 bits, the names have no quotes, which JSON would escape, and the type
-- is one that has a name of its own. Other messages are not ones that a server reads.
abbrev pub IsPlain : ClientMessage → Type 0
IsPlain (subscribe_message names uid o) =
    All (Without b'"') names × (uid < int32_limit) × (o.periodic < int32_limit)
IsPlain (publish_message name uid t p) =
    Without b'"' name × (uid < int32_limit) × (parse_data_type (serialize_data_type t) ≡ t)
IsPlain (unsubscribe_message uid) = uid < int32_limit
IsPlain (unpublish_message uid) = uid < int32_limit
IsPlain (set_properties_message name p r c) = Without b'"' name
IsPlain other_message = ⊥

read_show_params :
    (r : Reader) (d : Notation r.from_chars) (m : ClientMessage) (rest : List ℕ)
    → IsPlain m
    → read_params r (method_of m) (unpacker (show_params d m rest))
      ≡ some (m, unpacker (b'}' ∷ rest))
unfolding method_of show_params
read_show_params r d (subscribe_message names uid o) rest h =
    read_subscribe r d names uid o rest h.0 h.1 h.2
read_show_params r d (publish_message name uid t p) rest h =
    read_publish r d name uid t p rest h.0 h.1 h.2
read_show_params r d (unsubscribe_message uid) rest h =
    unfold read_params in
    ap (λ q. some (unsubscribe_message q.0, q.1))
      (read_uid_lem r d (codes "subuid") uid rest refl h)
read_show_params r d (unpublish_message uid) rest h =
    unfold read_params in
    ap (λ q. some (unpublish_message q.0, q.1)) (read_uid_lem r d (codes "pubuid") uid rest refl h)
read_show_params r d (set_properties_message name p q c) rest h =
    read_set_properties r name p q c rest h
read_show_params r d other_message rest h = absurd h

method_known :
    (m : ClientMessage)
    → IsPlain m
    → parse_message_method (serialize_message_method (method_of m)) ≡ method_of m
method_known m h = parse-serialize_message_method (method_of m)

method_plain : (m : ClientMessage) → Without b'"' (serialize_message_method (method_of m))
unfolding method_of serialize_message_method
method_plain (subscribe_message names uid o) = without→Without b'"' (codes "subscribe") refl
method_plain (publish_message name uid t p) = without→Without b'"' (codes "publish") refl
method_plain (unsubscribe_message uid) = without→Without b'"' (codes "unsubscribe") refl
method_plain (unpublish_message uid) = without→Without b'"' (codes "unpublish") refl
method_plain (set_properties_message name p r c) = without→Without b'"' (codes "setproperties") refl
method_plain other_message = tt

-- The message behind its method.
abbrev message_from : Reader → List ℕ → Unpacker → Option (ClientMessage × Unpacker)
message_from r method u = do
  (m, u') ← read_params r (parse_message_method method) (unpack_object (unpack_key u).1)
  some (m, unpack_object_end (unpack_object_end u'))

-- Behind an opening bracket or a comma.
read_show_message :
    (r : Reader) (d : Notation r.from_chars) (m : ClientMessage) (before rest : List ℕ)
    → IsPlain m
    → Without b'{' before
    → read_message r true (unpacker (before ++ show_message d m rest)) ≡ some (m, unpacker rest)
unfolding read_message show_message unpack_object
read_show_message r d m before rest h plain =
    let params_text = show_params d m (b'}' ∷ rest) in
    let method = serialize_message_method (method_of m) in
    let behind_method = codes ",\"params\":{" ++ params_text in
    let method_text = quoted method behind_method in
    let method_key = codes "\"method\":" ++ method_text in
    ap (λ u. message_from r (unpack_key (unpack_key u).1).0 (unpack_key (unpack_key u).1).1)
      (unfold safe_find_after in find_after_lem b'{' before method_key plain)
    ∙ ap (λ q. message_from r (unpack_key q.1).0 (unpack_key q.1).1)
        (unpack_key_literal [] (codes "method") (codes ":" ++ method_text) refl refl)
    ∙ ap (λ q. message_from r q.0 q.1)
        (unfold quoted in
          unpack_key_lem (codes ":") method behind_method (refl, tt) (method_plain m))
    ∙ ap
        (λ q. do
          (m, u') ← read_params r (parse_message_method method) (unpack_object q.1)
          some (m, unpack_object_end (unpack_object_end u')))
        (unpack_key_literal (codes ",") (codes "params") (codes ":{" ++ params_text) refl refl)
    ∙ ap
        (λ k. do
          (m, u') ← read_params r k (unpacker params_text)
          some (m, unpack_object_end (unpack_object_end u')))
        (method_known m h)
    ∙ ap (λ o. do (m, u') ← o; some (m, unpack_object_end (unpack_object_end u')))
        (read_show_params r d m (b'}' ∷ rest) h)
    ∙ (unfold unpack_object_end safe_find_after find_after in refl)

length-show_messages :
    (r : Reader) (d : Notation r.from_chars) (ms : List ClientMessage)
    → All IsPlain ms
    → length ms < length (show_messages d ms)
unfolding show_messages
length-show_messages r d [] h = omega arith
length-show_messages r d (m ∷ ms) h =
    let behind = show_messages d ms in
    let shorter =
      rw (read_show_message r d m [] behind h.0 tt) at
        (read_message-Ends r true (unpacker (show_message d m behind))) in
    omega (arith, shorter, length-show_messages r d ms h.1)

-- The rest of the loop behind a message.
abbrev loop_from :
    ℕ → Reader → Option (ClientMessage × Unpacker) → Option (List ClientMessage × Unpacker)
loop_from n r o = do
  (m, u') ← o
  let more = read_loop n r true u'
  if not u'.failed && goes_on is_array_end u'
      then (do (ms, v) ← more; some (m ∷ ms, v))
      else some (m ∷ [], u')

read_loop_lem :
    (r : Reader) (d : Notation r.from_chars) (n : ℕ) (m : ClientMessage) (ms : List ClientMessage)
    (before : List ℕ)
    → length ms < n
    → IsPlain m
    → All IsPlain ms
    → Without b'{' before
    → read_loop n r true (unpacker (before ++ show_message d m (show_messages d ms)))
      ≡ some (m ∷ ms, unpacker (codes "]"))
unfolding read_loop show_messages
read_loop_lem r d zero m ms before h p ps plain = absurd (omega arith)
read_loop_lem r d (suc n) m [] before h p ps plain =
    let last : loop_from n r (some (m, unpacker (show_messages d [])))
        ≡ some (m ∷ [], unpacker (codes "]")) =
      unfold goes_on peek_type type_at in refl in
    ap (loop_from n r) (read_show_message r d m before (show_messages d []) p plain) ∙ last
read_loop_lem r d (suc n) m (m' ∷ ms) before h p ps plain =
    let next = unpacker (show_messages d (m' ∷ ms)) in
    let on : goes_on is_array_end next ≡ true =
      unfold show_message goes_on peek_type type_at in refl in
    let more : read_loop n r true next ≡ some (m' ∷ ms, unpacker (codes "]")) =
      read_loop_lem r d n m' ms (codes ",") (omega arith) ps.0 ps.1 (refl, tt) in
    ap (loop_from n r) (read_show_message r d m before (show_messages d (m' ∷ ms)) p plain)
    ∙ ap
        (λ b.
          if b
          then (do (ms, v) ← read_loop n r true next; some (m ∷ ms, v))
          else some (m ∷ [], next))
        on
    ∙ ap (λ o. do (ms, v) ← o; some (m ∷ ms, v)) more

-- A frame of messages that a client writes, with names that have no quotes and identifiers below
-- 2 ^ 31, is read as those messages, whatever notation of numbers `std::from_chars` understands.
pub read_messages-show_frame :
    (r : Reader) (d : Notation r.from_chars) (m : ClientMessage) (ms : List ClientMessage)
    → IsPlain m
    → All IsPlain ms
    → read_messages r true (show_frame d m ms) ≡ some (m ∷ ms)
unfolding read_messages show_frame unpack_array
read_messages-show_frame r d m ms p ps =
    let text = show_message d m (show_messages d ms) in
    let shorter =
      rw (read_show_message r d m [] (show_messages d ms) p tt) at
        (read_message-Ends r true (unpacker text)) in
    ap (λ u. do (ms, v) ← read_loop (suc (suc (length text))) r true u; some ms)
      (unfold safe_find_after in find_after_lem b'[' [] text tt)
    ∙ ap (λ o. do (ms, v) ← o; some ms)
        (read_loop_lem r d (suc (suc (length text))) m ms []
          (omega (arith, shorter, length-show_messages r d ms ps)) p ps tt)
