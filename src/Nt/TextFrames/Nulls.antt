-- ===== src/Nt/TextFrames/Nulls.antt =====
-- A property that is null in an update.
use pico_radio.Base.{List, [], ap, codes, false, refl, suc, true, ℕ, ◌++◌, ◌∙◌, ◌∷◌, ◌≡◌}
use pico_radio.Nt.Json.{peek_type, type_at, type_or_null, unpack_default_bool, unpacker}
use pico_radio.Nt.Json.Reads.{unpack_key_literal, without}
use pico_radio.Nt.Params.{
  PropertyUpdate, goes_on, is_object_end, read_rounds, read_update, read_update_value,
}
use pico_radio.Nt.TextFrames.Shown.{key_round, round}

-- The properties that an update may have.
pub data Property : Type 0 where
  persistent_property retained_property cached_property : Property

unfoldable pub name_of : Property → List ℕ
name_of persistent_property = codes "persistent"
name_of retained_property = codes "retained"
name_of cached_property = codes "cached"

unfoldable pub without_property : Property → PropertyUpdate → PropertyUpdate
without_property persistent_property u = record u { has_persistent = false }
without_property retained_property u = record u { has_retained = false }
without_property cached_property u = record u { has_cached = false }

null_round :
    (p : Property) (n : ℕ) (u : PropertyUpdate) (behind : List ℕ)
    → read_rounds read_update is_object_end
        (suc n)
        u
        (unpacker (b'"' ∷ (name_of p ++ b'"' ∷ (codes ":null" ++ behind))))
      ≡ read_rounds read_update is_object_end n
          (without_property p u)
          (unpacker (codes ":null" ++ behind))
unfolding name_of without_property
null_round persistent_property n u behind =
    key_round read_update read_update_value (λ a v. unfold read_update in refl) n u _ []
      (codes "persistent") (codes ":null" ++ behind) (codes ":null" ++ behind) refl refl
      (unfold goes_on peek_type type_at in refl)
      (unfold read_update_value unpack_default_bool type_or_null peek_type type_at in refl)
null_round retained_property n u behind =
    key_round read_update read_update_value (λ a v. unfold read_update in refl) n u _ []
      (codes "retained") (codes ":null" ++ behind) (codes ":null" ++ behind) refl refl
      (unfold goes_on peek_type type_at in refl)
      (unfold read_update_value unpack_default_bool type_or_null peek_type type_at in refl)
null_round cached_property n u behind =
    key_round read_update read_update_value (λ a v. unfold read_update in refl) n u _ []
      (codes "cached") (codes ":null" ++ behind) (codes ":null" ++ behind) refl refl
      (unfold goes_on peek_type type_at in refl)
      (unfold read_update_value unpack_default_bool type_or_null peek_type type_at in refl)

-- Where one of the three properties of an update is null, the loop over the properties does not
-- take the value away. Whatever stands behind it, closing braces included, is passed over up to the
-- next quote; the text that begins there, such as the first key of the next message, is taken for
-- the name of a property, and the loop goes on behind it.
pub read_rounds-null :
    (p : Property) (n : ℕ) (u : PropertyUpdate) (gap key rest : List ℕ)
    → without b'"' gap ≡ true
    → without b'"' key ≡ true
    → read_rounds read_update is_object_end (suc (suc n)) u (
        unpacker
          (b'"' ∷ (name_of p ++ b'"' ∷ (codes ":null" ++ (gap ++ b'"' ∷ (key ++ b'"' ∷ rest))))))
      ≡ (let r = read_update_value (without_property p u) key (unpacker rest) in
          read_rounds read_update is_object_end n r.0 r.1)
unfolding read_update
read_rounds-null p n u gap key rest no_quote no_quote' =
    let u' = without_property p u in
    let r = read_update_value u' key (unpacker rest) in
    null_round p (suc n) u (gap ++ b'"' ∷ (key ++ b'"' ∷ rest))
    ∙ round read_update is_object_end n u' r.0
        (unpacker (codes ":null" ++ (gap ++ b'"' ∷ (key ++ b'"' ∷ rest)))) r.1
        (unfold goes_on peek_type type_at in refl)
        (ap (λ q. read_update_value u' q.0 q.1)
          (unpack_key_literal (codes ":null" ++ gap) key rest no_quote no_quote'))
