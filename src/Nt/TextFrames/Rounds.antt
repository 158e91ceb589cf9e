-- ===== src/Nt/TextFrames/Rounds.antt =====
-- The loops over the members of an array or an object come to an end.
use pico_radio.Base.{
  Bool, Bool-cases, List, Option, Option-cases, arith, false, if◌then◌else◌, inl, inr, none, some,
  suc, true, zero, ℕ, ◌-◌, ◌<◌, ◌>>=◌, ◌≡◌, ◌≤◌,
}
use pico_radio.Nt.State.{Name, SubscriptionOptions, TopicProperties}
use pico_radio.Nt.Json.Shrinks.{
  left, peek_type-left, unpack_bool-le, unpack_default_bool-le, unpack_int-le, unpack_key-le,
}
use pico_radio.Nt.Json.{DataType, Unpacker, peek_type, unpack_key}
use pico_radio.Nt.Params.{
  PropertyUpdate, Reader, goes_on, read_option, read_option_value, read_property,
  read_property_value, read_rounds, read_topic, read_until, read_update, read_update_value, times,
}

-- There is a result, and no more than so many bytes are left behind it.
abbrev pub Ends : {A : Type 0} → ℕ → Option (A × Unpacker) → Type 0
Ends n none = ⊥
Ends n (some r) = left r.1 ≤ n

pub Ends-le : {A : Type 0} (n m : ℕ) (o : Option (A × Unpacker)) → n ≤ m → Ends n o → Ends m o
Ends-le n m none h e = e
Ends-le n m (some r) h e = omega arith

pub Ends-bind :
    {A B : Type 0} (n m : ℕ) (o : Option (A × Unpacker)) (f : A × Unpacker → Option (B × Unpacker))
    → Ends n o
    → ((r : A × Unpacker) → left r.1 ≤ n → Ends m (f r))
    → Ends m (o >>= f)
Ends-bind n m none f e h = absurd e
Ends-bind n m (some r) f e h = h r e

pub goes_on-left : (ends : DataType → Bool) (u : Unpacker) → goes_on ends u ≡ true → 0 < left u
unfolding goes_on
goes_on-left ends u e = elim (Option-cases (peek_type u.rest)) [
  | inl nothing ↦ let clash : false ≡ true = rw (nothing, goes_on) at e in absurd cc
  | inr (t, found) ↦ peek_type-left u.rest t found
]

module _ {A : Type 0} (body : A → Unpacker → A × Unpacker) (ends : DataType → Bool)
    (shrinks : (a : A) (u : Unpacker) → left (body a u).1 ≤ left u - 1) where
  read_rounds-Ends :
      (n : ℕ) (a : A) (u : Unpacker) → left u < n → Ends (left u) (read_rounds body ends n a u)
  unfolding read_rounds
  read_rounds-Ends zero a u h = absurd (omega arith)
  read_rounds-Ends (suc n) a u h = elim (Bool-cases (goes_on ends u)) [
    | inl on ↦
        let more = goes_on-left ends u on in
        let u' = (body a u).1 in
        rw on (
          Ends-le (left u') (left u) (read_rounds body ends n (body a u).0 u')
            (omega (arith, shrinks a u))
            (read_rounds-Ends n (body a u).0 u' (omega (arith, shrinks a u))))
    | inr stop ↦ rw stop (omega arith)
  ]

  read_until-Ends : (a : A) (u : Unpacker) → Ends (left u) (read_until body ends a u)
  unfolding read_until
  read_until-Ends a u = read_rounds-Ends (suc (left u)) a u (omega arith)

pub times-Ends :
    {A : Type 0} (body : A → Unpacker → Option (A × Unpacker))
    → ((a : A) (u : Unpacker) → Ends (left u) (body a u))
    → (n : ℕ) (a : A) (u : Unpacker) → Ends (left u) (times body n a u)
unfolding times
times-Ends body h zero a u = omega arith
times-Ends body h (suc n) a u =
    Ends-bind (left u) (left u) (body a u) _ (h a u)
      (λ r le. Ends-le (left r.1) (left u) (times body n r.0 r.1) le (times-Ends body h n r.0 r.1))

-- A loop up to a closing bracket, and the bracket.
pub read_until-then :
    {A B : Type 0} (body : A → Unpacker → A × Unpacker) (ends : DataType → Bool) (k : A → B)
    (skip : Unpacker → Unpacker) (a : A) (u u1 : Unpacker)
    → ((a : A) (u : Unpacker) → left (body a u).1 ≤ left u - 1)
    → ((u : Unpacker) → left (skip u) ≤ left u)
    → left u1 ≤ left u
    → Ends (left u) (do (b, u2) ← read_until body ends a u1; some (k b, skip u2))
read_until-then body ends k skip a u u1 shrinks skips le =
    Ends-bind (left u1) (left u) (read_until body ends a u1) _
      (read_until-Ends body ends shrinks a u1) (λ r less. omega (arith, skips r.1))

pub read_topic-le : (a : List Name) (u : Unpacker) → left (read_topic a u).1 ≤ left u - 1
unfolding read_topic
read_topic-le a u = unpack_key-le u

pub read_option-le :
    (r : Reader) (a : SubscriptionOptions) (u : Unpacker) → left (read_option r a u).1 ≤ left u - 1
unfolding read_option read_option_value
read_option-le r a u =
    let u1 = (unpack_key u).1 in
    ground (arith, unpack_key-le u, unpack_int-le r.from_chars r.memory u1, unpack_bool-le u1)

pub read_property-le :
    (a : TopicProperties) (u : Unpacker) → left (read_property a u).1 ≤ left u - 1
unfolding read_property read_property_value
read_property-le a u =
    let u1 = (unpack_key u).1 in ground (arith, unpack_key-le u, unpack_bool-le u1)

pub read_update-le : (a : PropertyUpdate) (u : Unpacker) → left (read_update a u).1 ≤ left u - 1
unfolding read_update read_update_value
read_update-le a u =
    let u1 = (unpack_key u).1 in
    ground (
      arith,
      unpack_key-le u,
      unpack_default_bool-le a.properties.persistent u1,
      unpack_default_bool-le a.properties.retained u1,
      unpack_default_bool-le a.properties.cached u1,
    )

pub Ends-if :
    {A : Type 0} (n : ℕ) (b : Bool) (x y : Option (A × Unpacker))
    → Ends n x
    → Ends n y
    → Ends n (if b then x else y)
Ends-if n true x y h k = h
Ends-if n false x y h k = k
