-- ===== src/Nt/Cache/Ids.antt =====
-- The identifiers that a client is given for topics.
use pico_radio.Base.{
  Bool-cases, Dict, Option, Option-cases, ap, arith, contains, false, get, get-put, get-put_other,
  inl, inr, none, number_key, put, refl, same, same_eq, same_refl, some, sym, text_key, true, ◌<◌,
  ◌∙◌, ◌≡◌, ◌⊎◌,
}
use pico_radio.Nt.State.{ClientData, ClientTopicData, Name}
use pico_radio.Nt.Cache.{assign_id, topic_id, zero_data}

-- Names that are announced have different identifiers, and the next one is above them all.
pub record IsNumbered (c : ClientData) : Type 0 where
  pub below :
      (name : Name) (d : ClientTopicData)
      → get name c.topic_data ≡ some d
      → d.id < c.next_topic_id_assigned
  pub distinct :
      (n m : Name) (d e : ClientTopicData)
      → get n c.topic_data ≡ some d
      → get m c.topic_data ≡ some e
      → d.id ≡ e.id
      → n ≡ m

contains-none :
    (name : Name) (c : ClientData)
    → contains name c.topic_data ≡ false
    → get name c.topic_data ≡ none
unfolding contains
contains-none name c e = elim (Option-cases (get name c.topic_data)) [
  | inl missing ↦ missing
  | inr (d, found) ↦ absurd (ground (arith, rw (contains, found) at e))
]

module _ {V : Type 0} where
  -- What a map holds after a new entry.
  get-put_cases :
      (name other : Name) (v w : V) (m : Dict Name V)
      → get other (put name v m) ≡ some w
      → ((name ≡ other) × (v ≡ w)) ⊎ (get other m ≡ some w)
  get-put_cases name other v w m e = elim (Bool-cases (same name other)) [
    | inl here ↦
        let place = same_eq name other here in
        let found : ◌≡◌ {A = Option V} (some v) (some w) =
          sym (get-put name v m) ∙ ap (λ n. get n (put name v m)) place ∙ e in
        inl (place, cc)
    | inr there ↦ inr (sym (get-put_other name other v m there) ∙ e)
  ]

-- Where the identifiers of a client's topics differ and lie below the next one, they still do
-- after a topic, new or not, has been given its identifier.
pub assign_id-IsNumbered :
    (name : Name) (c : ClientData) → IsNumbered c → IsNumbered (assign_id name c)
unfolding assign_id
assign_id-IsNumbered name c w = elim (Bool-cases (contains name c.topic_data)) [
  | inl known ↦ rw known w
  | inr new ↦ rw new (record {
    below = λ n d e. elim (get-put_cases name n _ d c.topic_data e) [
      | inl (place, now) ↦ let i = ap (λ x. x.id) now in omega (arith, i)
      | inr before ↦ omega (arith, w.below n d before)
    ];
    distinct = λ n m d e p q i. elim (get-put_cases name n _ d c.topic_data p) [
      | inl (place, now) ↦ elim (get-put_cases name m _ e c.topic_data q) [
        | inl (place', now') ↦ sym place ∙ place'
        | inr before ↦
            let i' = ap (λ x. x.id) now in absurd (omega (arith, i, i', w.below m e before))
      ]
      | inr before ↦ elim (get-put_cases name m _ e c.topic_data q) [
        | inl (place, now) ↦
            let i' = ap (λ x. x.id) now in absurd (omega (arith, i, i', w.below n d before))
        | inr before' ↦ w.distinct n m d e before before' i
      ]
    ];
  })
]

-- `topicData[name].id`, which `publishTopicSelfSync` reads, for a name that the client has not been
-- told of is 0, and where another topic has identifier 0 the entry that it makes breaks the
-- numbering.
pub topic_id-collides :
    (name first : Name) (d : ClientTopicData) (c : ClientData)
    → get name c.topic_data ≡ none
    → get first c.topic_data ≡ some d
    → d.id ≡ 0
    → ((topic_id name c).0 ≡ 0) × ¬ IsNumbered (topic_id name c).1
unfolding topic_id
topic_id-collides name first d c new old zero_id =
    rw (topic_id, new)
      (
        refl,
        λ w.
            let other : same name first ≡ false = elim (Bool-cases (same name first)) [
              | inl e ↦
                  let clash : ◌≡◌ {A = Option ClientTopicData} none (some d) =
                    sym new ∙ ap (λ n. get n c.topic_data) (same_eq name first e) ∙ old in
                  absurd cc
              | inr e ↦ e
            ] in
            let kept = get-put_other name first zero_data c.topic_data other ∙ old in
            let clash =
              w.distinct name first zero_data d (get-put name zero_data c.topic_data) kept
                (sym zero_id) in
            let no : same name first ≡ true = ap (same name) (sym clash) ∙ same_refl name in
            absurd (ground (arith, other, no)),
      )
