-- ===== src/Nt/TextFrames/Updates.antt =====
-- Messages that set properties are read as they are written. An update has the properties that it
-- sets, in any order.
use pico_radio.Base.{
  Bool, List, Option, [], ap, arith, codes, false, length, length-append, none, refl, some, suc,
  true, zero, ℕ, ◌++◌, ◌<◌, ◌>>=◌, ◌∙◌, ◌∷◌, ◌≡◌, ◌≤◌,
}
use pico_radio.Nt.State.{Name}
use pico_radio.Nt.Json.{
  find_bool, peek_type, type_at, type_or_null, unpack_bool, unpack_default_bool, unpack_object,
  unpack_object_end, unpacker,
}
use pico_radio.Nt.Json.Reads.{Without, unpack_key_lem, unpack_key_literal, without}
use pico_radio.Nt.Params.{
  PropertyUpdate, Reader, SetPropertiesParams, goes_on, is_object_end, read_rounds,
  read_set_properties_param, read_set_properties_value, read_until, read_update, read_update_value,
  times,
}
use pico_radio.Nt.Types.{set_properties_method}
use pico_radio.Nt.Messages.{set_properties_message}
use pico_radio.Nt.TextFrames.Shown.{key_round, quoted, show_bool, times_step}
use pico_radio.Nt.TextFrames.{blank_set_properties, no_update, read_params, set_properties_of}

pub data Property : Type 0 where
  persistent retained cached : Property

abbrev pub key_of : Property → List ℕ
key_of persistent = codes "persistent"
key_of retained = codes "retained"
key_of cached = codes "cached"

abbrev set_property : PropertyUpdate → Property → Bool → PropertyUpdate
set_property u persistent b = record u {
  properties = record u.properties { persistent = b };
  has_persistent = true;
}
set_property u retained b = record u {
  properties = record u.properties { retained = b };
  has_retained = true;
}
set_property u cached b = record u {
  properties = record u.properties { cached = b };
  has_cached = true;
}

abbrev set_all : PropertyUpdate → List (Property × Bool) → PropertyUpdate
set_all u [] = u
set_all u ((k, b) ∷ es) = set_all (set_property u k b) es

unfoldable pub show_entries : List ℕ → List (Property × Bool) → List ℕ → List ℕ
unfolding quoted show_bool
show_entries before [] rest = rest
show_entries before ((k, b) ∷ es) rest =
    before ++ quoted (key_of k) (b':' ∷ show_bool b (show_entries (codes ",") es rest))

entry_value :
    (u : PropertyUpdate) (k : Property) (b : Bool) (rest : List ℕ)
    → read_update_value u (key_of k) (unpacker (b':' ∷ show_bool b rest))
      ≡ (set_property u k b, unpacker rest)
unfolding read_update_value show_bool unpack_default_bool type_or_null peek_type type_at unpack_bool
    find_bool
entry_value u persistent true rest = refl
entry_value u persistent false rest = refl
entry_value u retained true rest = refl
entry_value u retained false rest = refl
entry_value u cached true rest = refl
entry_value u cached false rest = refl

key_of-without : (k : Property) → without b'"' (key_of k) ≡ true
key_of-without persistent = refl
key_of-without retained = refl
key_of-without cached = refl

entry_round :
    (n : ℕ) (u u' : PropertyUpdate) (before key value_text rest : List ℕ)
    → without b'"' before ≡ true
    → without b'"' key ≡ true
    → goes_on is_object_end (unpacker (before ++ b'"' ∷ (key ++ b'"' ∷ value_text))) ≡ true
    → read_update_value u key (unpacker value_text) ≡ (u', unpacker rest)
    → read_rounds read_update is_object_end
        (suc n)
        u
        (unpacker (before ++ b'"' ∷ (key ++ b'"' ∷ value_text)))
      ≡ read_rounds read_update is_object_end n u' (unpacker rest)
entry_round = key_round read_update read_update_value (λ a u. unfold read_update in refl)

more_entries :
    (n : ℕ) (u : PropertyUpdate) (es : List (Property × Bool)) (rest : List ℕ)
    → length es < n
    → read_rounds read_update is_object_end n u
        (unpacker (show_entries (codes ",") es (b'}' ∷ rest)))
      ≡ some (set_all u es, unpacker (b'}' ∷ rest))
unfolding show_entries quoted
more_entries zero u es rest h = absurd (omega arith)
more_entries (suc n) u [] rest h = unfold read_rounds goes_on peek_type type_at in refl
more_entries (suc n) u ((k, b) ∷ es) rest h =
    let next = show_entries (codes ",") es (b'}' ∷ rest) in
    entry_round n u (set_property u k b) (codes ",") (key_of k) (b':' ∷ show_bool b next) next refl
      (key_of-without k) (unfold goes_on peek_type type_at in refl) (entry_value u k b next)
    ∙ more_entries n (set_property u k b) es rest (omega arith)

length-show_bool : (b : Bool) (rest : List ℕ) → length rest ≤ length (show_bool b rest)
unfolding show_bool
length-show_bool true rest = omega arith
length-show_bool false rest = omega arith

length-show_entries :
    (before : List ℕ) (es : List (Property × Bool)) (rest : List ℕ)
    → length es ≤ length (show_entries before es rest)
unfolding show_entries quoted
length-show_entries before [] rest = omega arith
length-show_entries before ((k, b) ∷ es) rest =
    let next = show_entries (codes ",") es rest in
    let value_text = b':' ∷ show_bool b next in
    omega (
      arith,
      length-show_entries (codes ",") es rest,
      length-show_bool b next,
      length-append (key_of k) (b'"' ∷ value_text),
      length-append before (quoted (key_of k) value_text),
    )

read_entries :
    (u : PropertyUpdate) (es : List (Property × Bool)) (rest : List ℕ)
    → read_until read_update is_object_end u (unpacker (show_entries [] es (b'}' ∷ rest)))
      ≡ some (set_all u es, unpacker (b'}' ∷ rest))
unfolding read_until show_entries quoted
read_entries u [] rest = unfold read_rounds goes_on peek_type type_at in refl
read_entries u ((k, b) ∷ es) rest =
    let next = show_entries (codes ",") es (b'}' ∷ rest) in
    let value_text = b':' ∷ show_bool b next in
    let n = length (quoted (key_of k) value_text) in
    let enough : length es < n = omega (
      arith,
      length-show_entries (codes ",") es (b'}' ∷ rest),
      length-show_bool b next,
      length-append (key_of k) (b'"' ∷ value_text),
    ) in
    entry_round n u (set_property u k b) [] (key_of k) value_text next refl (key_of-without k)
      (unfold goes_on peek_type type_at in refl) (entry_value u k b next)
    ∙ more_entries n (set_property u k b) es rest enough

abbrev entry : Property → Option Bool → List (Property × Bool)
entry k none = []
entry k (some b) = (k, b) ∷ []

-- The properties that are set, in the order of the program's record.
abbrev pub entries : Option Bool → Option Bool → Option Bool → List (Property × Bool)
entries p r c = entry persistent p ++ (entry retained r ++ entry cached c)

entries_lem :
    (name : Name) (p r c : Option Bool)
    → set_properties_of (record { topic = name; update = set_all no_update (entries p r c) })
      ≡ set_properties_message name p r c
entries_lem name none none none = refl
entries_lem name none none (some c) = refl
entries_lem name none (some r) none = refl
entries_lem name none (some r) (some c) = refl
entries_lem name (some p) none none = refl
entries_lem name (some p) none (some c) = refl
entries_lem name (some p) (some r) none = refl
entries_lem name (some p) (some r) (some c) = refl

name_param :
    (p : SetPropertiesParams) (name rest : List ℕ)
    → Without b'"' name
    → read_set_properties_param p (unpacker (codes "\"name\":" ++ quoted name rest))
      ≡ some (record p { topic = name }, unpacker rest)
unfolding read_set_properties_param read_set_properties_value quoted
name_param p name rest plain =
    ap (λ q. read_set_properties_value p q.0 q.1)
      (unpack_key_literal [] (codes "name") (codes ":" ++ quoted name rest) refl refl)
    ∙ ap (λ q. some (record p { topic = q.0 }, q.1))
        (unpack_key_lem (codes ":") name rest (refl, tt) plain)

update_param :
    (p : SetPropertiesParams) (es : List (Property × Bool)) (rest : List ℕ)
    → read_set_properties_param p
        (unpacker (codes ",\"update\":{" ++ show_entries [] es (b'}' ∷ rest)))
      ≡ some (record p { update = set_all p.update es }, unpacker rest)
unfolding read_set_properties_param read_set_properties_value unpack_object unpack_object_end
update_param p es rest =
    ap (λ q. read_set_properties_value p q.0 q.1)
      (unpack_key_literal (codes ",") (codes "update")
        (codes ":{" ++ show_entries [] es (b'}' ∷ rest)) refl refl)
    ∙ ap (λ o. do (update, u) ← o; some (record p { update = update }, unpack_object_end u))
        (read_entries p.update es rest)

unfoldable pub show_update : Name → Option Bool → Option Bool → Option Bool → List ℕ → List ℕ
unfolding quoted show_entries
show_update name p r c rest =
    codes "\"name\":"
    ++ quoted name (codes ",\"update\":{" ++ show_entries [] (entries p r c) (b'}' ∷ b'}' ∷ rest))

pub read_set_properties :
    (r : Reader) (name : Name) (p q c : Option Bool) (rest : List ℕ)
    → Without b'"' name
    → read_params r set_properties_method (unpacker (show_update name p q c rest))
      ≡ some (set_properties_message name p q c, unpacker (b'}' ∷ rest))
unfolding read_params show_update
read_set_properties r name p q c rest plain =
    let p1 : SetPropertiesParams = record { topic = name; update = no_update } in
    let es = entries p q c in
    let p2 : SetPropertiesParams = record p1 { update = set_all no_update es } in
    let body = read_set_properties_param in
    let update_text = codes ",\"update\":{" ++ show_entries [] es (b'}' ∷ b'}' ∷ rest) in
    ap (λ o. do (p, u) ← o; some (set_properties_of p, u))
      (times_step body 1 blank_set_properties p1 (unpacker (show_update name p q c rest))
          (unpacker update_text) (name_param blank_set_properties name update_text plain)
        ∙ times_step body 0 p1 p2 (unpacker update_text) (unpacker (b'}' ∷ rest))
            (update_param p1 es (b'}' ∷ rest))
        ∙ (unfold times in refl))
    ∙ ap (λ m. some (m, unpacker (b'}' ∷ rest))) (entries_lem name p q c)
