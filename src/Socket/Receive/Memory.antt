-- ===== src/Socket/Receive/Memory.antt =====
-- Which frames make `WebSocket::handleFrame` use memory that has been freed.
use pico_radio.Base.{
  Bool, Bool-cases, List, [], arith, false, inl, inr, length, none, not, refl, some, true, ℕ, ◌++◌,
  ◌+◌, ◌==◌, ◌∷◌, ◌≡◌, ◌⊎◌,
}
use pico_radio.Socket.OpCode
use pico_radio.Socket.Header.{FrameHeader}
use pico_radio.Socket.State.{Env, WebSocket, freed}
use pico_radio.Socket.Send.Plan.{OutFrame}
use pico_radio.Socket.Receive.{
  block, handle_fragment, handle_frame, handle_last_fragment, handle_message, notify, release,
  release_buffer, take_block,
}
use pico_radio.Socket.Receive.Fragments.{deliver}

-- A complete message: one final frame of a text or binary kind.
abbrev pub IsMessage : FrameHeader → Type 0
IsMessage h = (h.fin ≡ true) × ((h.opcode ≡ OpCode.text_frame) ⊎ (h.opcode ≡ OpCode.binary_frame))

module _ (env : Env) where
  pub message_frame :
      (s : WebSocket) (h : FrameHeader) (p : List ℕ)
      → IsMessage h
      → handle_frame env h p s ≡ some (handle_message h p s)
  unfolding handle_frame
  message_frame s h p (f, inl o) = rw (f, o)
  message_frame s h p (f, inr o) = rw (f, o)

  dangling_continuation :
      (s : WebSocket) (h : FrameHeader) (p : List ℕ)
      → s.current_frame.payload ≡ freed
      → h.opcode ≡ OpCode.continuation_frame
      → handle_frame env h p s ≡ none
  unfolding handle_frame handle_fragment handle_last_fragment
  dangling_continuation s h p d o = elim (Bool-cases h.fin) [
    | inl f ↦ rw (f, o, d)
    | inr f ↦ rw (f, o, d)
  ]

  message_dangles :
      (s : WebSocket) (h : FrameHeader) (b : ℕ) (bs : List ℕ)
      → s.received_callback ≡ true
      → (release (handle_message h (b ∷ bs) s)).current_frame.payload ≡ freed
  unfolding release handle_message
  message_dangles s h b bs heard = rw heard

  -- A continuation frame behind a complete message with a payload, which a peer can send at will,
  -- makes the receiver read and free a block that it has freed before.
  pub stray_continuation :
      (s : WebSocket) (h next : FrameHeader) (b : ℕ) (bs p : List ℕ)
      → s.received_callback ≡ true
      → IsMessage h
      → next.opcode ≡ OpCode.continuation_frame
      → deliver env
          (record { header = h; payload = b ∷ bs } ∷ record { header = next; payload = p } ∷ [])
          s
        ≡ none
  unfolding deliver
  stray_continuation s h next b bs p heard m o = rw (
    message_frame s h (b ∷ bs) m,
    dangling_continuation (release (handle_message h (b ∷ bs) s)) next p
        (message_dangles s h b bs heard) o,
  )

-- The data frames of a peer that keeps to RFC 6455, section 5.4: `true` inside a fragmented
-- message, where only continuation frames may follow, and `false` between messages.
abbrev pub Follows : Bool → List OutFrame → Type 0
Follows b [] = Unit
Follows false (fr ∷ frs) =
    ((fr.header.opcode ≡ OpCode.text_frame) ⊎ (fr.header.opcode ≡ OpCode.binary_frame))
    × Follows (not fr.header.fin) frs
Follows true (fr ∷ frs) =
    (fr.header.opcode ≡ OpCode.continuation_frame) × Follows (not fr.header.fin) frs

-- Inside a message the frame has its payload.
abbrev HasPayload : Bool → WebSocket → Type 0
HasPayload true s = (bytes : List ℕ) × (s.current_frame.payload ≡ block bytes)
HasPayload false s = Unit

module _ (env : Env) where
  take_block-block : (acc : List ℕ) → take_block (block acc) ≡ some acc
  unfolding take_block
  take_block-block [] = refl
  take_block-block (b ∷ bs) = refl

  release_block : (q : List ℕ) → release_buffer (block q) ≡ block q
  unfolding release_buffer
  release_block [] = refl
  release_block (b ∷ bs) = refl

  keeps_block :
      (s : WebSocket) (q bytes : List ℕ)
      → s.current_frame.payload ≡ block q
      → (release (notify bytes s)).current_frame.payload ≡ block q
  unfolding release notify
  keeps_block s q bytes e = elim (Bool-cases s.received_callback) [
    | inl c ↦ rw (c, e) (release_block q)
    | inr c ↦ rw (c, e) (release_block q)
  ]

  abbrev Handled : WebSocket → OutFrame → Type 0
  Handled s fr =
      (s' : WebSocket) × (handle_frame env fr.header fr.payload s ≡ some s')
      × HasPayload (not fr.header.fin) (release s')

  abbrev opened : WebSocket → OutFrame → WebSocket
  opened s fr = record s {
    current_frame = record {
      is_fragment = true;
      opcode = fr.header.opcode;
      payload = block fr.payload;
      payload_length = length fr.payload;
    };
  }

  abbrev extended : WebSocket → OutFrame → List ℕ → WebSocket
  extended s fr bytes = record s {
    current_frame = record s.current_frame {
      payload = block (bytes ++ fr.payload);
      payload_length = s.current_frame.payload_length + length fr.payload;
    };
  }

  open_fragment :
      (s : WebSocket) (fr : OutFrame)
      → (fr.header.opcode ≡ OpCode.text_frame) ⊎ (fr.header.opcode ≡ OpCode.binary_frame)
      → fr.header.fin ≡ false
      → Handled s fr
  unfolding handle_frame handle_fragment
  open_fragment s fr o f =
      let new : (fr.header.opcode == OpCode.continuation_frame) ≡ false = ground arith in
      rw (f, new)
        (
          notify fr.payload (opened s fr),
          refl,
          (fr.payload, keeps_block (opened s fr) fr.payload fr.payload refl),
        )

  next_fragment :
      (s : WebSocket) (fr : OutFrame) (bytes : List ℕ)
      → s.current_frame.payload ≡ block bytes
      → fr.header.opcode ≡ OpCode.continuation_frame
      → fr.header.fin ≡ false
      → Handled s fr
  unfolding handle_frame handle_fragment
  next_fragment s fr bytes own o f =
      rw (f, o, own, take_block-block bytes)
        (
          notify (bytes ++ fr.payload) (extended s fr bytes),
          refl,
          (
            bytes ++ fr.payload,
            keeps_block (extended s fr bytes) (bytes ++ fr.payload) (bytes ++ fr.payload) refl,
          ),
        )

  closing_fragment :
      (s : WebSocket) (fr : OutFrame) (bytes : List ℕ)
      → s.current_frame.payload ≡ block bytes
      → fr.header.opcode ≡ OpCode.continuation_frame
      → fr.header.fin ≡ true
      → Handled s fr
  unfolding handle_frame handle_last_fragment
  closing_fragment s fr bytes own o f = rw (f, o, own, take_block-block bytes) (_, refl, tt)

  handle_data :
      (b : Bool) (s : WebSocket) (fr : OutFrame)
      → HasPayload b s
      → Follows b (fr ∷ [])
      → Handled s fr
  handle_data true s fr own f = elim (Bool-cases fr.header.fin) [
    | inl e ↦ closing_fragment s fr own.0 own.1 f.0 e
    | inr e ↦ next_fragment s fr own.0 own.1 f.0 e
  ]
  handle_data false s fr own f = elim (Bool-cases fr.header.fin) [
    | inl e ↦ (_, message_frame env s fr.header fr.payload (e, f.0), rw e tt)
    | inr e ↦ open_fragment s fr f.0 e
  ]

  Follows-head :
      (b : Bool) (fr : OutFrame) (frs : List OutFrame)
      → Follows b (fr ∷ frs)
      → Follows b (fr ∷ []) × Follows (not fr.header.fin) frs
  Follows-head true fr frs f = ((f.0, tt), f.1)
  Follows-head false fr frs f = ((f.0, tt), f.1)

  deliver_phase :
      (b : Bool) (s : WebSocket) (frs : List OutFrame)
      → HasPayload b s
      → Follows b frs
      → (s' : WebSocket) × (deliver env frs s ≡ some s')
  unfolding deliver
  deliver_phase b s [] own f = (s, refl)
  deliver_phase b s (fr ∷ frs) own f =
      let (now, later) = Follows-head b fr frs f in
      let (s', e, own') = handle_data b s fr own now in
      rw e (deliver_phase (not fr.header.fin) (release s') frs own' later)

  -- Data frames that keep to the protocol never touch freed memory, whatever was received before.
  pub deliver-Follows :
      (s : WebSocket) (frs : List OutFrame)
      → Follows false frs
      → (s' : WebSocket) × (deliver env frs s ≡ some s')
  deliver-Follows s frs f = deliver_phase false s frs tt f
