-- ===== src/Socket/Send/Content.antt =====
-- What the fragments of a message carry. Middle fragments are sent from the start of the buffer
-- (src/websocket.cpp:605), so a message of more than two fragments arrives altered.
use pico_radio.Base.{
  Bool-cases, List, [], ap, append-nil, append_assoc, arith, drop, drop_append, false, inl, inr,
  leb, length, length-drop, length-take, refl, suc, sym, take, take-append-drop, take_all,
  take_append, zero, ℕ, ◌*◌, ◌++◌, ◌+◌, ◌-◌, ◌/◌, ◌<◌, ◌∙◌, ◌∷◌, ◌≡◌, ◌≤◌,
}
use pico_radio.Socket.Header.{FrameHeader}
use pico_radio.Socket.State.{WebSocket}
use pico_radio.Socket.Transmit.{final_header}
use pico_radio.Socket.Send.{MessageType, fragment_size, opcode_of}
use pico_radio.Socket.Send.Plan.{
  OutFrame, fragment_size_pos, middle_count, plan, series, tail_series,
}

-- The payloads of a series, joined as a receiver joins them.
unfoldable pub message : List OutFrame → List ℕ
message [] = []
message (fr ∷ frs) = fr.payload ++ message frs

pub copies : ℕ → List ℕ → List ℕ
copies zero xs = []
copies (suc k) xs = xs ++ copies k xs

module _ (f : ℕ) (bytes : List ℕ) (h : FrameHeader) where
  message-tail_series :
      (k left : ℕ)
      → k * f ≤ left
      → left ≤ k * f + f
      → left ≤ length bytes
      → message (tail_series f bytes h k left)
        ≡ copies k (take f bytes) ++ drop (length bytes - left + k * f) bytes
  unfolding message tail_series copies
  message-tail_series zero left p q r =
      let n : length bytes - left ≡ length bytes - left + 0 * f = omega arith in
      append-nil _
      ∙ take_all left (drop (length bytes - left) bytes)
          (omega (arith, length-drop (length bytes - left) bytes))
      ∙ ap (λ m. drop m bytes) n
  message-tail_series (suc k) left p q r =
      let n : length bytes - (left - f) + k * f ≡ length bytes - left + suc k * f = omega arith in
      rw (message-tail_series k (left - f) (omega arith) (omega arith) (omega arith), n)
        (sym (append_assoc (take f bytes) (copies k (take f bytes)) _))

no_middle : (m f n : ℕ) → m * f + f < n → n ≤ f + f → m ≡ 0
no_middle zero f n p q = refl
no_middle (suc m) f n p q = absurd (omega arith)

some_middle : (m f n : ℕ) → f + f < n → n ≤ m * f + f + f → (j : ℕ) × (m ≡ suc j)
some_middle zero f n p q = absurd (omega arith)
some_middle (suc m) f n p q = (m, refl)

second_copy :
    (f j : ℕ) (t rest : List ℕ)
    → length t ≡ f
    → take f (drop f (copies (suc (suc j)) t ++ rest)) ≡ t
unfolding copies
second_copy f j t rest e = rw (
  ← e,
  append_assoc t (t ++ copies j t) rest,
  drop_append t ((t ++ copies j t) ++ rest),
  append_assoc t (copies j t) rest,
  take_append t (copies j t ++ rest),
)

module _ (s : WebSocket) (ty : MessageType) (bytes : List ℕ) where
  -- The middle fragments of the message.
  abbrev pub middles : ℕ
  middles = (length bytes - fragment_size s.use_masking - 1) / fragment_size s.use_masking

  message-plan_large :
      leb (length bytes) (fragment_size s.use_masking) ≡ false
      → message (plan s ty bytes)
        ≡ copies (middles + 1) (take (fragment_size s.use_masking) bytes)
          ++ drop ((middles + 1) * fragment_size s.use_masking) bytes
  unfolding plan series message copies
  message-plan_large large =
      let f = fragment_size s.use_masking in
      let h = final_header s (opcode_of ty) (length bytes) in
      let count = middle_count f (length bytes) (fragment_size_pos s.use_masking) large in
      let n : length bytes - (length bytes - f) + middles * f ≡ (middles + 1) * f = omega arith in
      let one : middles + 1 ≡ suc middles = omega arith in
      rw
        (
          large,
          message-tail_series f bytes h middles (length bytes - f) (omega arith) (omega arith)
              (omega arith),
          n,
        )
        (sym (append_assoc (take f bytes) (copies middles (take f bytes)) _)
          ∙ ap (λ j. copies j (take f bytes) ++ drop ((middles + 1) * f) bytes) (sym one))

  -- The frames of a message of more than two fragments, joined.
  pub message-plan-copies :
      fragment_size s.use_masking + fragment_size s.use_masking < length bytes
      → message (plan s ty bytes)
        ≡ copies (middles + 1) (take (fragment_size s.use_masking) bytes)
          ++ drop ((middles + 1) * fragment_size s.use_masking) bytes
  message-plan-copies long =
      let large : leb (length bytes) (fragment_size s.use_masking) ≡ false = ground arith in
      message-plan_large large

  -- The frames of a message of at most two fragments hold the message.
  pub message-plan_two :
      length bytes ≤ fragment_size s.use_masking + fragment_size s.use_masking
      → message (plan s ty bytes) ≡ bytes
  message-plan_two short = elim (Bool-cases (leb (length bytes) (fragment_size s.use_masking))) [
    | inl fits ↦ unfold plan message in rw fits (append-nil bytes)
    | inr large ↦
        let f = fragment_size s.use_masking in
        let count = middle_count f (length bytes) (fragment_size_pos s.use_masking) large in
        let single = no_middle middles f (length bytes) count.0 short in
        let place : (0 + 1) * f ≡ f = omega arith in
        message-plan_large large
        ∙ rw (single, place)
            (unfold copies in rw (append-nil (take f bytes)) (take-append-drop f bytes))
  ]

  -- Joined, they are the message only if its second fragment repeats the first.
  pub message-plan_three :
      fragment_size s.use_masking + fragment_size s.use_masking < length bytes
      → message (plan s ty bytes) ≡ bytes
      → take (fragment_size s.use_masking) (drop (fragment_size s.use_masking) bytes)
        ≡ take (fragment_size s.use_masking) bytes
  message-plan_three long e =
      let f = fragment_size s.use_masking in
      let large : leb (length bytes) f ≡ false = ground arith in
      let count = middle_count f (length bytes) (fragment_size_pos s.use_masking) large in
      let (j, several) = some_middle middles f (length bytes) long count.1 in
      let shape = sym e ∙ message-plan_large large in
      let n : middles + 1 ≡ suc (suc j) = omega arith in
      ap (λ (l : List ℕ). take f (drop f l)) shape
      ∙ ap (λ m. take f (drop f (copies m (take f bytes) ++ drop ((middles + 1) * f) bytes))) n
      ∙ second_copy f j (take f bytes) _ (omega (arith, length-take f bytes))
