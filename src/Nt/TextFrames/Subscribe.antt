-- ===== src/Nt/TextFrames/Subscribe.antt =====
-- Subscribe messages are read as they are written.
use pico_radio.Base.{
  All, Bool, List, [], ap, append-nil, append_assoc, arith, codes, drop, false, length,
  length-append, refl, some, suc, true, zero, ℕ, ◌++◌, ◌+◌, ◌<◌, ◌>>=◌, ◌∙◌, ◌∷◌, ◌≡◌, ◌≤◌,
}
use pico_radio.Nt.Types.{subscribe_method}
use pico_radio.Nt.State.{Name, SubscriptionOptions}
use pico_radio.Nt.Json.{
  Parsed, find_bool, int_type, peek_type, type_at, type_or_null, unpack_array, unpack_array_end,
  unpack_bool, unpack_object, unpack_object_end, unpacker,
}
use pico_radio.Nt.Json.Reads.{Without, unpack_key_lem, unpack_key_literal, without}
use pico_radio.Nt.Params.{
  Reader, SubscribeParams, goes_on, is_array_end, is_object_end, read_option, read_option_value,
  read_rounds, read_subscribe_param, read_subscribe_value, read_topic, read_until, times,
}
use pico_radio.Nt.Messages.{subscribe_message}
use pico_radio.Nt.TextFrames.Shown.{
  Notation, int32_limit, key_round, peek_type_colon, peek_type_number, quoted, round, show_bool,
  show_number, times_step, type_or_null_lem, unpack_int_lem,
}
use pico_radio.Nt.TextFrames.{blank_subscribe, read_params, subscribe_of}

show_more : List Name → List ℕ → List ℕ
show_more [] rest = rest
show_more (name ∷ names) rest = b',' ∷ quoted name (show_more names rest)

show_names : List Name → List ℕ → List ℕ
unfolding quoted show_more
show_names [] rest = rest
show_names (name ∷ names) rest = quoted name (show_more names rest)

read_topic_lem :
    (ts : List Name) (before name rest : List ℕ)
    → Without b'"' before
    → Without b'"' name
    → read_topic ts (unpacker (before ++ quoted name rest)) ≡ (ts ++ name ∷ [], unpacker rest)
unfolding read_topic quoted
read_topic_lem ts before name rest h k = rw (unpack_key_lem before name rest h k)

read_more :
    (n : ℕ) (ts names : List Name) (rest : List ℕ)
    → length names < n
    → All (Without b'"') names
    → read_rounds read_topic is_array_end n ts (unpacker (show_more names (b']' ∷ rest)))
      ≡ some (ts ++ names, unpacker (b']' ∷ rest))
unfolding read_rounds show_more
read_more zero ts names rest h k = absurd (omega arith)
read_more (suc n) ts [] rest h k = unfold goes_on peek_type type_at in rw (append-nil ts)
read_more (suc n) ts (name ∷ names) rest h k =
    let on : goes_on is_array_end (unpacker (b',' ∷ quoted name (show_more names (b']' ∷ rest))))
        ≡ true =
      unfold goes_on peek_type type_at quoted in refl in
    rw (on, read_topic_lem ts (codes ",") name (show_more names (b']' ∷ rest)) (refl, tt) k.0)
      (read_more n (ts ++ name ∷ []) names rest (omega arith) k.1
        ∙ ap (λ (l : List Name). some (l, unpacker (b']' ∷ rest)))
            (append_assoc ts (name ∷ []) names))

length-show_more :
    (names : List Name) (rest : List ℕ) → length names + length rest ≤ length (show_more names rest)
unfolding show_more quoted
length-show_more [] rest = omega arith
length-show_more (name ∷ names) rest =
    omega (arith, length-show_more names rest, length-append name (b'"' ∷ show_more names rest))

read_topics :
    (ts names : List Name) (rest : List ℕ)
    → All (Without b'"') names
    → read_until read_topic is_array_end ts (unpacker (show_names names (b']' ∷ rest)))
      ≡ some (ts ++ names, unpacker (b']' ∷ rest))
unfolding read_until show_names
read_topics ts [] rest k = unfold read_rounds goes_on peek_type type_at in rw (append-nil ts)
read_topics ts (name ∷ names) rest k =
    let more = show_more names (b']' ∷ rest) in
    let on : goes_on is_array_end (unpacker (quoted name more)) ≡ true =
      unfold goes_on peek_type type_at quoted in refl in
    round read_topic is_array_end (length (quoted name more)) ts (ts ++ name ∷ [])
      (unpacker (quoted name more)) (unpacker more) on (read_topic_lem ts [] name more tt k.0)
    ∙ read_more (length (quoted name more)) (ts ++ name ∷ []) names rest
        (unfold quoted in
          omega (arith, length-show_more names (b']' ∷ rest), length-append name (b'"' ∷ more)))
        k.1
    ∙ ap (λ (l : List Name). some (l, unpacker (b']' ∷ rest))) (append_assoc ts (name ∷ []) names)

topics_param :
    (r : Reader) (p : SubscribeParams) (names : List Name) (rest : List ℕ)
    → All (Without b'"') names
    → read_subscribe_param r p (unpacker (codes "\"topics\":[" ++ show_names names (b']' ∷ rest)))
      ≡ some (record p { topics = p.topics ++ names }, unpacker rest)
unfolding read_subscribe_param read_subscribe_value unpack_array unpack_array_end
topics_param r p names rest k =
    ap (λ q. read_subscribe_value r p q.0 q.1)
      (unpack_key_literal [] (codes "topics") (codes ":[" ++ show_names names (b']' ∷ rest)) refl
        refl)
    ∙ ap (λ o. do (topics, u) ← o; some (record p { topics = topics }, unpack_array_end u))
        (read_topics p.topics names rest k)

subuid_param :
    (r : Reader) (d : Notation r.from_chars) (p : SubscribeParams) (n : ℕ) (rest : List ℕ)
    → n < int32_limit
    → read_subscribe_param r p
        (unpacker (codes ",\"subuid\":" ++ d.first n ∷ (d.others n ++ b',' ∷ rest)))
      ≡ some (record p { subuid = n }, unpacker (b',' ∷ rest))
unfolding read_subscribe_param read_subscribe_value
subuid_param r d p n rest small =
    let number_text = d.first n ∷ (d.others n ++ b',' ∷ rest) in
    ap (λ q. read_subscribe_value r p q.0 q.1)
      (unpack_key_literal (codes ",") (codes "subuid") (codes ":" ++ number_text) refl refl)
    ∙ ap (λ q. some (record p { subuid = q.0 }, q.1))
        (unpack_int_lem r d (codes ":") rest n b',' small (refl, tt) refl)

periodic_value :
    (r : Reader) (d : Notation r.from_chars) (o : SubscriptionOptions) (n : ℕ) (rest : List ℕ)
    → n < int32_limit
    → read_option_value r o
        (codes "periodic")
        (unpacker (b':' ∷ d.first n ∷ (d.others n ++ b',' ∷ rest)))
      ≡ (record o { periodic = n }, unpacker (b',' ∷ rest))
unfolding read_option_value
periodic_value r d o n rest small =
    let u = unpacker (b':' ∷ d.first n ∷ (d.others n ++ b',' ∷ rest)) in
    let is_number : type_or_null u ≡ int_type = type_or_null_lem u int_type (
      peek_type_colon (d.first n ∷ (d.others n ++ b',' ∷ rest))
      ∙ peek_type_number (d.first n) (d.others n ++ b',' ∷ rest) (d.starts n)) in
    rw (is_number, unpack_int_lem r d (codes ":") rest n b',' small (refl, tt) refl)

all_value :
    (r : Reader) (o : SubscriptionOptions) (b : Bool) (rest : List ℕ)
    → read_option_value r o (codes "all") (unpacker (b':' ∷ show_bool b rest))
      ≡ (record o { all = b }, unpacker rest)
unfolding read_option_value show_bool type_or_null peek_type type_at unpack_bool find_bool
all_value r o true rest = refl
all_value r o false rest = refl

topicsonly_value :
    (r : Reader) (o : SubscriptionOptions) (b : Bool) (rest : List ℕ)
    → read_option_value r o (codes "topicsonly") (unpacker (b':' ∷ show_bool b rest))
      ≡ (record o { topicsonly = b }, unpacker rest)
unfolding read_option_value show_bool type_or_null peek_type type_at unpack_bool find_bool
topicsonly_value r o true rest = refl
topicsonly_value r o false rest = refl

prefix_value :
    (r : Reader) (o : SubscriptionOptions) (b : Bool) (rest : List ℕ)
    → read_option_value r o (codes "prefix") (unpacker (b':' ∷ show_bool b rest))
      ≡ (record o { prefix = b }, unpacker rest)
unfolding read_option_value show_bool type_or_null peek_type type_at unpack_bool find_bool
prefix_value r o true rest = refl
prefix_value r o false rest = refl

option_round :
    (r : Reader) (n : ℕ) (o o' : SubscriptionOptions) (before key value_text rest : List ℕ)
    → without b'"' before ≡ true
    → without b'"' key ≡ true
    → goes_on is_object_end (unpacker (before ++ b'"' ∷ (key ++ b'"' ∷ value_text))) ≡ true
    → read_option_value r o key (unpacker value_text) ≡ (o', unpacker rest)
    → read_rounds
        (read_option r)
        is_object_end
        (suc n)
        o
        (unpacker (before ++ b'"' ∷ (key ++ b'"' ∷ value_text)))
      ≡ read_rounds (read_option r) is_object_end n o' (unpacker rest)
option_round r = key_round (read_option r) (read_option_value r) (λ a u. unfold read_option in refl)

show_options :
    {from_chars : List ℕ → Parsed} → Notation from_chars → SubscriptionOptions → List ℕ → List ℕ
show_options d o rest =
    codes "\"periodic\":"
    ++ show_number d o.periodic (
        codes ",\"all\":"
        ++ show_bool o.all (
            codes ",\"topicsonly\":"
            ++ show_bool o.topicsonly (codes ",\"prefix\":" ++ show_bool o.prefix (b'}' ∷ rest))))

option_rounds :
    (r : Reader) (d : Notation r.from_chars) (o o' : SubscriptionOptions) (n : ℕ) (rest : List ℕ)
    → o.periodic < int32_limit
    → read_rounds
        (read_option r)
        is_object_end
        (suc (suc (suc (suc (suc n)))))
        o'
        (unpacker (show_options d o rest))
      ≡ some (o, unpacker (b'}' ∷ rest))
unfolding show_options
option_rounds r d o o' n rest small =
    let prefix_text = codes ":" ++ show_bool o.prefix (b'}' ∷ rest) in
    let topicsonly_text =
      codes ":" ++ show_bool o.topicsonly (codes ",\"prefix\"" ++ prefix_text) in
    let all_text = codes ":" ++ show_bool o.all (codes ",\"topicsonly\"" ++ topicsonly_text) in
    let periodic_text = codes ":" ++ show_number d o.periodic (codes ",\"all\"" ++ all_text) in
    let o1 : SubscriptionOptions = record o' { periodic = o.periodic } in
    let o2 : SubscriptionOptions = record o1 { all = o.all } in
    let o3 : SubscriptionOptions = record o2 { topicsonly = o.topicsonly } in
    option_round r (suc (suc (suc (suc n)))) o' o1 [] (codes "periodic") periodic_text
      (codes ",\"all\"" ++ all_text) refl refl (unfold goes_on peek_type type_at in refl)
      (periodic_value r d o' o.periodic (codes "\"all\"" ++ all_text) small)
    ∙ option_round r (suc (suc (suc n))) o1 o2 (codes ",") (codes "all") all_text
        (codes ",\"topicsonly\"" ++ topicsonly_text) refl refl
        (unfold goes_on peek_type type_at in refl)
        (all_value r o1 o.all (codes ",\"topicsonly\"" ++ topicsonly_text))
    ∙ option_round r (suc (suc n)) o2 o3 (codes ",") (codes "topicsonly") topicsonly_text
        (codes ",\"prefix\"" ++ prefix_text) refl refl (unfold goes_on peek_type type_at in refl)
        (topicsonly_value r o2 o.topicsonly (codes ",\"prefix\"" ++ prefix_text))
    ∙ option_round r (suc n) o3 o (codes ",") (codes "prefix") prefix_text (b'}' ∷ rest) refl refl
        (unfold goes_on peek_type type_at in refl) (prefix_value r o3 o.prefix (b'}' ∷ rest))
    ∙ (unfold read_rounds goes_on peek_type type_at in refl)

read_options :
    (r : Reader) (d : Notation r.from_chars) (o o' : SubscriptionOptions) (rest : List ℕ)
    → o.periodic < int32_limit
    → read_until (read_option r) is_object_end o' (unpacker (show_options d o rest))
      ≡ some (o, unpacker (b'}' ∷ rest))
unfolding read_until show_options
read_options r d o o' rest small =
    option_rounds r d o o' (length (drop 4 (show_options d o rest))) rest small

options_param :
    (r : Reader) (d : Notation r.from_chars) (p : SubscribeParams) (o : SubscriptionOptions)
    (rest : List ℕ)
    → o.periodic < int32_limit
    → read_subscribe_param r p (unpacker (codes ",\"options\":{" ++ show_options d o (b'}' ∷ rest)))
      ≡ some (record p { options = o }, unpacker (b'}' ∷ rest))
unfolding read_subscribe_param read_subscribe_value unpack_object unpack_object_end
options_param r d p o rest small =
    ap (λ q. read_subscribe_value r p q.0 q.1)
      (unpack_key_literal (codes ",") (codes "options")
        (codes ":{" ++ show_options d o (b'}' ∷ rest)) refl refl)
    ∙ ap (λ o. do (options, u) ← o; some (record p { options = options }, unpack_object_end u))
        (read_options r d o p.options (b'}' ∷ rest) small)

unfoldable pub show_subscribe :
    {from_chars : List ℕ → Parsed}
    → Notation from_chars
    → List Name
    → ℕ
    → SubscriptionOptions
    → List ℕ
    → List ℕ
unfolding show_names show_options
show_subscribe d names uid o rest =
    codes "\"topics\":["
    ++ show_names names (
        codes "],\"subuid\":"
        ++ show_number d uid (codes ",\"options\":{" ++ show_options d o (b'}' ∷ rest)))

pub read_subscribe :
    (r : Reader) (d : Notation r.from_chars) (names : List Name) (uid : ℕ) (o : SubscriptionOptions)
    (rest : List ℕ)
    → All (Without b'"') names
    → uid < int32_limit
    → o.periodic < int32_limit
    → read_params r subscribe_method (unpacker (show_subscribe d names uid o rest))
      ≡ some (subscribe_message names uid o, unpacker (b'}' ∷ rest))
unfolding read_params show_subscribe times
read_subscribe r d names uid o rest plain small_uid small =
    let p0 = blank_subscribe r in
    let p1 : SubscribeParams = record p0 { topics = names } in
    let p2 : SubscribeParams = record p1 { subuid = uid } in
    let options_text = codes "\"options\":{" ++ show_options d o (b'}' ∷ rest) in
    let body = read_subscribe_param r in
    let last = unpacker (b'}' ∷ rest) in
    let next = unpacker (codes ",\"subuid\":" ++ show_number d uid (b',' ∷ options_text)) in
    ap (λ o. do (p, u) ← o; some (subscribe_of p, u))
      (times_step body 2 p0 p1 (unpacker (show_subscribe d names uid o rest)) next (
          topics_param r p0 names (codes ",\"subuid\":" ++ show_number d uid (b',' ∷ options_text))
            plain)
        ∙ times_step body 1 p1 p2 next (unpacker (b',' ∷ options_text))
            (subuid_param r d p1 uid options_text small_uid)
        ∙ times_step body 0 p2 (record p2 { options = o }) (unpacker (b',' ∷ options_text)) last
            (options_param r d p2 o rest small))
