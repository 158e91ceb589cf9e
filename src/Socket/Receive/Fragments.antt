-- ===== src/Socket/Receive/Fragments.antt =====
-- Reassembly of fragmented messages by `WebSocket::handleFrame`, and the buffers that it leaves.
use pico_radio.Base.{
  List, Option, [], ap, append-nil, append_assoc, ap₂, arith, false, length, length-append, refl,
  some, true, ℕ, ◌++◌, ◌==◌, ◌>>=◌, ◌∙◌, ◌∷◌, ◌≡◌, ◌≢◌,
}
use pico_radio.Socket.OpCode
use pico_radio.Socket.Header.{FrameHeader}
use pico_radio.Socket.State.{Env, Event, WebSocket, received}
use pico_radio.Socket.Send.Plan.{OutFrame}
use pico_radio.Socket.Send.Content.{message}
use pico_radio.Socket.Receive.{
  block, free_block, handle_fragment, handle_frame, handle_last_fragment, release, take_block,
}

-- Frames that arrive in turn, each parsed to its end.
unfoldable pub deliver : Env → List OutFrame → WebSocket → Option WebSocket
deliver env [] s = some s
deliver env (fr ∷ frs) s = do
  s' ← handle_frame env fr.header fr.payload s
  deliver env frs (release s')

-- Continuation frames, of which the last alone is final.
abbrev pub IsTail : List OutFrame → Type 0
IsTail [] = ⊥
IsTail (fr ∷ []) = (fr.header.opcode ≡ OpCode.continuation_frame) × (fr.header.fin ≡ true)
IsTail (fr ∷ g ∷ frs) =
    (fr.header.opcode ≡ OpCode.continuation_frame) × (fr.header.fin ≡ false) × IsTail (g ∷ frs)

-- What the callback sees of the rest of a message: all bytes so far with each fragment, and the
-- whole message with the last.
unfoldable pub fragment_events : ℕ → List ℕ → List OutFrame → List Event
fragment_events op acc [] = []
fragment_events op acc (fr ∷ []) = received false op (acc ++ fr.payload) ∷ []
fragment_events op acc (fr ∷ g ∷ frs) =
    received true op (acc ++ fr.payload) ∷ fragment_events op (acc ++ fr.payload) (g ∷ frs)

module _ (env : Env) (s : WebSocket) (op : ℕ) (heard : s.received_callback ≡ true) where
  -- A message of which `acc` has arrived.
  abbrev pub collecting : List ℕ → List Event → WebSocket
  collecting acc evs = record s {
    current_frame = record {
      is_fragment = true;
      opcode = op;
      payload = block acc;
      payload_length = length acc;
    };
    events = evs;
  }

  -- A message that has been handed over.
  abbrev pub delivered : List ℕ → List Event → WebSocket
  delivered bytes evs = record s {
    current_frame = record {
      is_fragment = false;
      opcode = op;
      payload = free_block (block bytes);
      payload_length = length bytes;
    };
    events = evs;
  }

  take_block-block : (acc : List ℕ) → take_block (block acc) ≡ some acc
  unfolding take_block
  take_block-block [] = refl
  take_block-block (b ∷ bs) = refl

  pub release-collecting :
      (acc : List ℕ) (evs : List Event) → release (collecting acc evs) ≡ collecting acc evs
  unfolding release
  release-collecting [] evs = refl
  release-collecting (b ∷ bs) evs = refl

  pub release-delivered :
      (acc : List ℕ) (evs : List Event) → release (delivered acc evs) ≡ delivered acc evs
  unfolding release free_block
  release-delivered [] evs = refl
  release-delivered (b ∷ bs) evs = refl

  pub middle_fragment :
      (h : FrameHeader) (acc p : List ℕ) (evs : List Event)
      → h.opcode ≡ OpCode.continuation_frame
      → h.fin ≡ false
      → handle_frame env h p (collecting acc evs)
        ≡ some (collecting (acc ++ p) (evs ++ received true op (acc ++ p) ∷ []))
  unfolding handle_frame handle_fragment
  middle_fragment h acc p evs o f = rw (f, o, take_block-block acc, heard, length-append acc p)

  pub last_fragment :
      (h : FrameHeader) (acc p : List ℕ) (evs : List Event)
      → h.opcode ≡ OpCode.continuation_frame
      → h.fin ≡ true
      → handle_frame env h p (collecting acc evs)
        ≡ some (delivered (acc ++ p) (evs ++ received false op (acc ++ p) ∷ []))
  unfolding handle_frame handle_last_fragment
  last_fragment h acc p evs o f = rw (f, o, take_block-block acc, heard, length-append acc p)

  deliver-tail :
      (frs : List OutFrame) (acc : List ℕ) (evs : List Event)
      → IsTail frs
      → deliver env frs (collecting acc evs)
        ≡ some (delivered (acc ++ message frs) (evs ++ fragment_events op acc frs))
  unfolding deliver message fragment_events
  deliver-tail [] acc evs t = absurd t
  deliver-tail (fr ∷ []) acc evs t = rw (
    last_fragment fr.header acc fr.payload evs t.0 t.1,
    append-nil fr.payload,
    release-delivered (acc ++ fr.payload) (evs ++ received false op (acc ++ fr.payload) ∷ []),
  )
  deliver-tail (fr ∷ g ∷ frs) acc evs t =
      let seen = received true op (acc ++ fr.payload) in
      rw
        (
          middle_fragment fr.header acc fr.payload evs t.0 t.1,
          release-collecting (acc ++ fr.payload) (evs ++ seen ∷ []),
        )
        (deliver-tail (g ∷ frs) (acc ++ fr.payload) (evs ++ seen ∷ []) t.2
          ∙ ap₂ (λ b e. some (delivered b e)) (append_assoc acc fr.payload (message (g ∷ frs)))
              (append_assoc evs (seen ∷ []) (fragment_events op (acc ++ fr.payload) (g ∷ frs))))

  pub first_fragment :
      (h : FrameHeader) (p : List ℕ)
      → h.opcode ≡ op
      → op ≢ OpCode.continuation_frame
      → h.fin ≡ false
      → handle_frame env h p s ≡ some (collecting p (s.events ++ received true op p ∷ []))
  unfolding handle_frame handle_fragment
  first_fragment h p o new f =
      let data_frame : (op == OpCode.continuation_frame) ≡ false = ground arith in
      rw (f, o, data_frame, heard)

  -- A fragmented message, its fragments delivered in order, reaches the callback as the
  -- concatenation of the fragments under the first one's kind, after the partial messages; the
  -- frame is then no fragment, and its buffer has been freed.
  pub deliver-series :
      (fr : OutFrame) (frs : List OutFrame)
      → fr.header.opcode ≡ op
      → op ≢ OpCode.continuation_frame
      → fr.header.fin ≡ false
      → IsTail frs
      → deliver env (fr ∷ frs) s
        ≡ some (
            delivered
              (message (fr ∷ frs))
              (s.events ++ (received true op fr.payload ∷ fragment_events op fr.payload frs)))
  unfolding deliver message
  deliver-series fr frs o new f t =
      let seen = received true op fr.payload in
      rw
        (
          first_fragment fr.header fr.payload o new f,
          release-collecting fr.payload (s.events ++ seen ∷ []),
        )
        (deliver-tail frs fr.payload (s.events ++ seen ∷ []) t
          ∙ ap (λ e. some (delivered (fr.payload ++ message frs) e))
              (append_assoc s.events (seen ∷ []) (fragment_events op fr.payload frs)))
