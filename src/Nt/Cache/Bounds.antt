-- ===== src/Nt/Cache/Bounds.antt =====
-- The caches stay within their limit, and nothing that is written into them is lost.
use pico_radio.Base.{
  Bool-cases, List, [], ap, append-nil, append_assoc, arith, codes, false, if◌then◌else◌, inl, inr,
  leb, leb→le, length, length-append, ltb, refl, sym, true, ℕ, ◌&&◌, ◌++◌, ◌+◌, ◌<◌, ◌∙◌, ◌∷◌, ◌≡◌,
  ◌≤◌, ◌⊎◌,
}
use pico_radio.Nt.State.{ClientData, Message, binary_message, text_message}
use pico_radio.Nt.Cache.{
  flush_binary, flush_text, max_client_binary_cache_length, max_client_text_cache_length,
  queue_binary, queue_text,
}

-- The bytes that went out, of a client's binary messages.
abbrev pub binary_bytes : List Message → List ℕ
binary_bytes [] = []
binary_bytes (text_message guid text ∷ messages) = binary_bytes messages
binary_bytes (binary_message guid bytes ∷ messages) = bytes ++ binary_bytes messages

flush_binary-bytes :
    (n : ℕ) (c : ClientData)
    → binary_bytes (flush_binary n c).0 ++ (flush_binary n c).1.binary_cache ≡ c.binary_cache
unfolding flush_binary
flush_binary-bytes n c =
    elim (Bool-cases (
      ltb 0 (length c.binary_cache)
      && ltb max_client_binary_cache_length (length c.binary_cache + n))) [
        | inl full ↦ rw full (append-nil (c.binary_cache ++ []) ∙ append-nil c.binary_cache)
        | inr room ↦ rw room
      ]

-- Updates leave in the order in which they were written: what a call of `sendTopicUpdate` sends
-- and what it leaves in the cache are the cache before and the new bytes behind it.
pub queue_binary-bytes :
    (bytes : List ℕ) (c : ClientData)
    → binary_bytes (queue_binary bytes c).0 ++ (queue_binary bytes c).1.binary_cache
      ≡ c.binary_cache ++ bytes
unfolding queue_binary
queue_binary-bytes bytes c =
    sym (
      append_assoc (binary_bytes (flush_binary (length bytes) c).0)
        (flush_binary (length bytes) c).1.binary_cache bytes)
    ∙ ap (λ b. b ++ bytes) (flush_binary-bytes (length bytes) c)

after_flush :
    (bytes : List ℕ)
    → (length bytes ≤ max_client_binary_cache_length)
      ⊎ ((bytes ≡ bytes) × (max_client_binary_cache_length < length bytes))
after_flush bytes = elim (Bool-cases (leb (length bytes) max_client_binary_cache_length)) [
  | inl fits ↦ inl (leb→le _ _ fits)
  | inr large ↦ inr (refl, ground (arith, large))
]

without_flush :
    (cache bytes : List ℕ)
    → (ltb 0 (length cache) && ltb max_client_binary_cache_length (length cache + length bytes))
      ≡ false
    → (length (cache ++ bytes) ≤ max_client_binary_cache_length)
      ⊎ ((cache ++ bytes ≡ bytes) × (max_client_binary_cache_length < length bytes))
without_flush [] bytes room = after_flush bytes
without_flush (b ∷ bs) bytes room = inl (ground (arith, length-append (b ∷ bs) bytes, room))

text_without_flush :
    (cache text : List ℕ)
    → (ltb 0 (length cache) && ltb max_client_text_cache_length (length cache + length text + 2))
      ≡ false
    → (length (cache ++ (if ltb 0 (length cache) then codes "," else []) ++ text) + 2
        ≤ max_client_text_cache_length + 1)
      ⊎ (cache ++ (if ltb 0 (length cache) then codes "," else []) ++ text ≡ text)
text_without_flush [] text room = inr refl
text_without_flush (b ∷ bs) text room =
    let some_text : ltb 0 (length (b ∷ bs)) ≡ true = ground arith in
    inl (
      rw some_text
        (ground (arith, length-append (bs ++ codes ",") text, length-append bs (codes ","), room)))

-- After an update is written the binary cache is within the limit, or it holds this one update,
-- which alone is over it.
pub queue_binary-bound :
    (bytes : List ℕ) (c : ClientData)
    → (length (queue_binary bytes c).1.binary_cache ≤ max_client_binary_cache_length)
      ⊎ (((queue_binary bytes c).1.binary_cache ≡ bytes)
          × (max_client_binary_cache_length < length bytes))
unfolding queue_binary flush_binary
queue_binary-bound bytes c =
    elim (Bool-cases (
      ltb 0 (length c.binary_cache)
      && ltb max_client_binary_cache_length (length c.binary_cache + length bytes))) [
        | inl full ↦ rw full (after_flush bytes)
        | inr room ↦ rw room (without_flush c.binary_cache bytes room)
      ]

-- After a text is written, the cache with the brackets that are put around it is over the limit
-- by one byte at most, for the comma is not counted, or the cache holds this one text.
pub queue_text-bound :
    (text : List ℕ) (c : ClientData)
    → (length (queue_text text c).1.text_cache + 2 ≤ max_client_text_cache_length + 1)
      ⊎ ((queue_text text c).1.text_cache ≡ text)
unfolding queue_text flush_text
queue_text-bound text c =
    elim (Bool-cases (
      ltb 0 (length c.text_cache)
      && ltb max_client_text_cache_length (length c.text_cache + length text + 2))) [
        | inl full ↦ rw full (inr refl)
        | inr room ↦ rw room (text_without_flush c.text_cache text room)
      ]
