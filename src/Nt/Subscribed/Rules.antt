-- ===== src/Nt/Subscribed/Rules.antt =====
-- What `isSubscribed` decides.
use pico_radio.Base.{
  All, Bool, Bool-cases, List, [], ap, arith, false, inl, inr, not, refl, same, same_eq, some,
  starts_with, true, ◌||◌, ◌∙◌, ◌∷◌, ◌≡◌,
}
use pico_radio.Nt.State.{Name, Subscription}
use pico_radio.Nt.Subscribed.{
  any, any_subscribed, dollar, entries, find_subscription, is_subscribed, is_subscribed_to, matches,
}

-- On a map without null entries `isSubscribed` is true just if some subscription, not limited to
-- topics where values are asked for, is subscribed to the name.
pub is_subscribed-entries :
    (subs : List Subscription) (name : Name) (value : Bool)
    → is_subscribed (entries subs) name value ≡ some (any_subscribed value name subs)
unfolding is_subscribed find_subscription any_subscribed is_subscribed_to
is_subscribed-entries [] name value = refl
is_subscribed-entries (sub ∷ subs) name value =
    elim (Bool-cases (not value || not sub.options.topicsonly)) [
      | inl counts ↦ elim (Bool-cases (any (matches sub.options name) sub.topics)) [
        | inl found ↦ rw (counts, found)
        | inr on ↦ rw (counts, on) (is_subscribed-entries subs name value)
      ]
      | inr passed ↦ rw passed (is_subscribed-entries subs name value)
    ]

dollar_differs :
    (name top : Name)
    → starts_with name dollar ≡ true
    → starts_with top dollar ≡ false
    → same name top ≡ false
dollar_differs name top meta plain = elim (Bool-cases (same name top)) [
  | inl e ↦
      let clash : starts_with name dollar ≡ false =
        ap (λ n. starts_with n dollar) (same_eq name top e) ∙ plain in
      absurd (ground (arith, meta, clash))
  | inr e ↦ e
]

any-none : (p : Name → Bool) (xs : List Name) → All (λ x. p x ≡ false) xs → any p xs ≡ false
unfolding any
any-none p [] none_of = refl
any-none p (x ∷ xs) none_of = rw (none_of.0) (any-none p xs none_of.1)

-- Meta topics are hidden from ordinary subscriptions, prefix or not, the empty prefix included:
-- who names no topic with a dollar sign is not subscribed to one that starts with it.
pub is_subscribed_to-meta :
    (sub : Subscription) (name : Name)
    → starts_with name dollar ≡ true
    → All (λ top. starts_with top dollar ≡ false) sub.topics
    → is_subscribed_to sub name ≡ false
unfolding is_subscribed_to matches
is_subscribed_to-meta sub name meta plain = any-none _ sub.topics (each sub.topics plain)
  where
    each :
        (tops : List Name)
        → All (λ top. starts_with top dollar ≡ false) tops
        → All (λ top. matches sub.options name top ≡ false) tops
    each [] p = tt
    each (top ∷ tops) p = (
      elim (Bool-cases sub.options.prefix) [
        | inl prefix ↦ rw (prefix, meta, p.0)
        | inr exact ↦ rw exact (dollar_differs name top meta p.0)
      ],
      each tops p.1,
    )
