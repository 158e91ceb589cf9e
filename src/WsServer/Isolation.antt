-- ===== src/WsServer/Isolation.antt =====
-- The clients that a call does not name.
use pico_radio.Base.{
  Bool, Bool-cases, List, Option, [], false, if◌then◌else◌, inl, inr, refl, same, some, sym, true,
  ℕ, ◌&&◌, ◌∙◌, ◌∷◌, ◌≡◌,
}
use pico_radio.Socket.State.{Env, WebSocket}
use pico_radio.Nt.KeepsTopics.{Ensures, Ensures-any, Ensures-bind}
use pico_radio.WsServer.{ClientEntry, Server, at_first, dispatched, has_guid, is_open, push}
use pico_radio.WsServer.Dispatch.{
  Request, data_request, disconnect_request, effect, element_of, payload_request, ping_request,
  request, request-dispatched, text_request,
}

-- The entries of the other clients.
unfoldable pub others : ℕ → List ClientEntry → List ClientEntry
unfolding has_guid
others guid [] = []
others guid (c ∷ cs) = let rest = others guid cs in if has_guid guid c then rest else c ∷ rest

-- The client that an call names.
unfoldable pub target : Request → ℕ
target (disconnect_request guid) = guid
target (ping_request guid) = guid
target (payload_request guid payload) = guid
target (text_request guid message ty) = guid
target (data_request guid message ty) = guid

abbrev SameOthers : ℕ → List ClientEntry → Bool × List ClientEntry → Type 0
SameOthers guid cs r = others guid r.1 ≡ others guid cs

is_open-has_guid : (guid : ℕ) (c : ClientEntry) → is_open guid c ≡ true → has_guid guid c ≡ true
unfolding is_open
is_open-has_guid guid c passed = elim (Bool-cases (has_guid guid c)) [
  | inl named ↦ named
  | inr other ↦ let clash : false ≡ true = rw other at passed in absurd cc
]

others-named :
    (guid : ℕ) (c : ClientEntry) (cs : List ClientEntry)
    → has_guid guid c ≡ true
    → others guid (c ∷ cs) ≡ others guid cs
unfolding others
others-named guid c cs named = rw named

others-cons :
    (guid : ℕ) (c : ClientEntry) (cs cs' : List ClientEntry)
    → others guid cs' ≡ others guid cs
    → others guid (c ∷ cs') ≡ others guid (c ∷ cs)
unfolding others
others-cons guid c cs cs' same = rw same

others-at_first :
    (guid : ℕ) (test : ClientEntry → Bool) (op : WebSocket → Option (Bool × WebSocket))
    → ((c : ClientEntry) → test c ≡ true → has_guid guid c ≡ true)
    → (cs : List ClientEntry) → Ensures (SameOthers guid cs) (at_first test op cs)
unfolding at_first has_guid
others-at_first guid test op names [] = refl
others-at_first guid test op names (c ∷ cs) = elim (Bool-cases (test c)) [
  | inl here ↦
      let named = names c here in
      rw here (
        Ensures-any (SameOthers guid (c ∷ cs)) (op c.ws) _ (λ r.
          others-named guid (record c { ws = r.1 }) cs named ∙ sym (others-named guid c cs named)))
  | inr there ↦ rw there (
      Ensures-bind (SameOthers guid cs) (SameOthers guid (c ∷ cs)) (at_first test op cs) _
        (others-at_first guid test op names cs) (λ r same. others-cons guid c cs r.1 same))
]

others-effect :
    (env : Env) (q : Request) (cs : List ClientEntry)
    → Ensures (SameOthers (target q) cs) (effect env q cs)
unfolding effect target
others-effect env (disconnect_request guid) cs = others-at_first guid _ _ (λ c named. named) cs
others-effect env (ping_request guid) cs = others-at_first guid _ _ (is_open-has_guid guid) cs
others-effect env (payload_request guid payload) cs =
    others-at_first guid _ _ (is_open-has_guid guid) cs
others-effect env (text_request guid message ty) cs =
    others-at_first guid _ _ (is_open-has_guid guid) cs
others-effect env (data_request guid message ty) cs =
    others-at_first guid _ _ (is_open-has_guid guid) cs

others-dispatched :
    (env : Env) (in_isr : Bool) (q : Request) (s : Server)
    → Ensures
        (λ r. others (target q) r.1.clients ≡ others (target q) s.clients)
        (dispatched in_isr (element_of q) (effect env q) s)
unfolding dispatched push
others-dispatched env in_isr q s = elim (Bool-cases (in_isr && s.dispatch_queue_running)) [
  | inl queued ↦ rw queued refl
  | inr now ↦ rw now (
      Ensures-bind (SameOthers (target q) s.clients) _ (effect env q s.clients) _
        (others-effect env q s.clients) (λ r same. same))
]

-- A call that disconnects, pings or sends to a client leaves the entries of all other clients, their
-- sockets with what is written to them, as they were, in an interrupt and outside.
pub others-request :
    (env : Env) (in_isr : Bool) (q : Request) (s : Server) (ok : Bool) (s' : Server)
    → request env in_isr q s ≡ some (ok, s')
    → others (target q) s'.clients ≡ others (target q) s.clients
others-request env in_isr q s ok s' done =
    let kept : Ensures (λ r. others (target q) r.1.clients ≡ others (target q) s.clients)
        (request env in_isr q s) =
      rw (request-dispatched env in_isr q s) (others-dispatched env in_isr q s) in
    let same : others (target q) s'.clients ≡ others (target q) s.clients = rw done at kept in same
