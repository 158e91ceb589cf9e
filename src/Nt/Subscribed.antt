-- ===== src/Nt/Subscribed.antt =====
-- The two `isSubscribed` of src/nt/ntinstance.cpp.
pub mod Rules
use pico_radio.Base.{
  Bool, Dict, List, Option, [], codes, false, if◌then◌else◌, length, none, not, same, some,
  starts_with, true, ℕ, ◌&&◌, ◌==◌, ◌>>=◌, ◌||◌, ◌∷◌,
}
use pico_radio.Nt.State.{Name, Subscription, SubscriptionOptions}

abbrev pub dollar : List ℕ
dollar = codes "$"

-- The body of the loops over `topics`, for one of them.
unfoldable pub matches : SubscriptionOptions → Name → Name → Bool
matches options name top =
    if options.prefix
    then (if starts_with name dollar
        then starts_with top dollar && starts_with name top
        else length top == 0 || starts_with name top)
    else same name top

unfoldable pub any : (Name → Bool) → List Name → Bool
any p [] = false
any p (x ∷ xs) = if p x then true else any p xs

-- `isSubscribed(Subscription *, name)`
unfoldable pub is_subscribed_to : Subscription → Name → Bool
unfolding matches any
is_subscribed_to sub name = any (matches sub.options name) sub.topics

-- `isSubscribed(subscriptions, name, requireNotTopicsOnly, &out)`: the first subscription that
-- matches. The outer `none` is a null entry that is followed.
unfoldable pub find_subscription :
    Dict ℕ (Option Subscription) → Name → Bool → Option (Option Subscription)
unfolding matches any
find_subscription [] name require_not_topics_only = some none
find_subscription ((uid, none) ∷ subs) name require_not_topics_only = none
find_subscription ((uid, some sub) ∷ subs) name require_not_topics_only =
    let rest = find_subscription subs name require_not_topics_only in
    if not require_not_topics_only || not sub.options.topicsonly
    then (if any (matches sub.options name) sub.topics then some (some sub) else rest)
    else rest

unfoldable pub is_subscribed : Dict ℕ (Option Subscription) → Name → Bool → Option Bool
unfolding find_subscription
is_subscribed subs name require_not_topics_only = do
  found ← find_subscription subs name require_not_topics_only
  some (elim found [ none ↦ false | some sub ↦ true ])

-- What a map without null entries holds.
abbrev pub entries : List Subscription → Dict ℕ (Option Subscription)
entries [] = []
entries (sub ∷ subs) = (sub.uid, some sub) ∷ entries subs

unfoldable pub any_subscribed : Bool → Name → List Subscription → Bool
any_subscribed value name [] = false
any_subscribed value name (sub ∷ subs) =
    ((not value || not sub.options.topicsonly) && is_subscribed_to sub name)
    || any_subscribed value name subs
