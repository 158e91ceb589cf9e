-- ===== src/Socket/Delivery.antt =====
-- A whole message, from `WebSocket::send` to the received callback of the other side.
use pico_radio.Base.{
  All, Bool, Bool-cases, List, [], ap, append-nil, append_assoc, arith, drop, false, if◌then◌else◌,
  inl, inr, leb, length, refl, some, suc, take, true, zero, ℕ, ◌*◌, ◌++◌, ◌+◌, ◌<◌, ◌^◌, ◌∙◌, ◌∷◌,
  ◌≡◌, ◌≢◌, ◌≤◌,
}
use pico_radio.Socket.OpCode
use pico_radio.Socket.Header.{FrameHeader}
use pico_radio.Socket.State.{Env, TcpClient, WebSocket, is_connected, received}
use pico_radio.Socket.Transmit.{final_header}
use pico_radio.Socket.RoundTrip.{IsSendable}
use pico_radio.Socket.Send.{MessageType, binary, fragment_size, opcode_of, send, text}
use pico_radio.Socket.Send.Plan.{OutFrame, plan, send-plan, send_all, series, tail_series}
use pico_radio.Socket.Send.Content.{
  copies, message, message-plan-copies, message-plan_three, message-plan_two, middles,
}
use pico_radio.Socket.Receive.{free_block, handle_message, poll, release}
use pico_radio.Socket.Receive.Fragments.{
  IsTail, delivered, first_fragment, fragment_events, release-collecting,
}
use pico_radio.Socket.Receive.Memory.{IsMessage, message_frame}
use pico_radio.Socket.Frames.{IsPacket, plan-IsPacket, tail_series-IsTail}
use pico_radio.Socket.EndToEnd.{
  IsReliable, key_lt, packets, poll-packet, poll-tail, poll-zero, reading, send_all_reliable,
  sent_by,
}

release_message :
    (env : Env) (s : WebSocket) (h : FrameHeader) (p : List ℕ) (heard : s.received_callback ≡ true)
    → release (handle_message h p s)
      ≡ delivered env s h.opcode heard p (s.events ++ received false h.opcode p ∷ [])
unfolding release handle_message free_block
release_message env s h [] heard = rw heard
release_message env s h (b ∷ bs) heard = rw heard

-- Frames that a message is made of.
abbrev IsSeries : ℕ → List OutFrame → Type 0
IsSeries op [] = ⊥
IsSeries op (fr ∷ []) = IsMessage fr.header × (fr.header.opcode ≡ op)
IsSeries op (fr ∷ g ∷ frs) =
    (fr.header.opcode ≡ op)
    × (op ≢ OpCode.continuation_frame)
    × (fr.header.fin ≡ false)
    × IsTail (g ∷ frs)

module _ (env sender : Env) (r : IsReliable env) (keys : (n : ℕ) → sender.rand_32 n < 2 ^ 32)
    (mask : Bool) where
  poll-series :
      (s : WebSocket) (op : ℕ) (heard : s.received_callback ≡ true) (frs : List OutFrame) (n : ℕ)
      → All (λ fr. IsSendable fr.header fr.payload) frs
      → IsSeries op frs
      → poll env (length frs) (reading s (packets sender mask n frs))
        ≡ some (
            reading
              (delivered env s op heard (message frs) (s.events ++ fragment_events op [] frs))
              [])
  unfolding packets message fragment_events
  poll-series s op heard [] n f t = absurd t
  poll-series s op heard (fr ∷ []) n f t = rw (
    poll-packet env r s fr.header fr.payload (if mask then sender.rand_32 n else 0) zero [] f.0
        (key_lt env r sender keys mask n),
    message_frame env (reading s []) fr.header fr.payload t.0,
    release_message env (reading s []) fr.header fr.payload heard,
    t.1,
    append-nil fr.payload,
    poll-zero env (
        reading
          (delivered env s op heard fr.payload (s.events ++ received false op fr.payload ∷ [])) []),
  )
  poll-series s op heard (fr ∷ g ∷ frs) n f t =
      let later = packets sender mask (n + 1) (g ∷ frs) in
      let seen = received true op fr.payload in
      rw
        (
          poll-packet env r s fr.header fr.payload (if mask then sender.rand_32 n else 0)
              (suc (length frs)) later f.0 (key_lt env r sender keys mask n),
          first_fragment env (reading s later) op heard fr.header fr.payload t.0 t.1 t.2,
          release-collecting env (reading s later) op heard fr.payload (s.events ++ seen ∷ []),
        )
        (poll-tail env r sender keys mask s op heard (g ∷ frs) fr.payload (s.events ++ seen ∷ [])
            (n + 1) f.1 t.3
          ∙ ap
              (λ e.
                some (reading (delivered env s op heard (fr.payload ++ message (g ∷ frs)) e) []))
              (append_assoc s.events (seen ∷ []) (fragment_events op fr.payload (g ∷ frs))))

opcode-IsMessage :
    (s : WebSocket) (ty : MessageType) (n : ℕ) → IsMessage (final_header s (opcode_of ty) n)
unfolding final_header opcode_of
opcode-IsMessage s text n = (refl, inl refl)
opcode-IsMessage s binary n = (refl, inr refl)

data_opcode : (ty : MessageType) → opcode_of ty ≢ OpCode.continuation_frame
unfolding opcode_of
data_opcode text = λ e. omega (arith, e)
data_opcode binary = λ e. omega (arith, e)

series-IsSeries :
    (s : WebSocket) (ty : MessageType) (bytes : List ℕ) (k : ℕ)
    → IsSeries (opcode_of ty) (
        series (fragment_size s.use_masking) bytes (final_header s (opcode_of ty) (length bytes)) k)
unfolding series tail_series final_header
series-IsSeries s ty bytes zero = (refl, data_opcode ty, refl, (refl, refl))
series-IsSeries s ty bytes (suc k) = (
  refl,
  data_opcode ty,
  refl,
  tail_series-IsTail _ bytes (final_header s (opcode_of ty) (length bytes)) (suc k) _,
)

plan-IsSeries :
    (s : WebSocket) (ty : MessageType) (bytes : List ℕ) → IsSeries (opcode_of ty) (plan s ty bytes)
unfolding plan
plan-IsSeries s ty bytes = elim (Bool-cases (leb (length bytes) (fragment_size s.use_masking))) [
  | inl fits ↦ rw fits (opcode-IsMessage s ty (length bytes), unfold final_header in refl)
  | inr large ↦ rw large (series-IsSeries s ty bytes _)
]

All-IsSendable :
    (frs : List OutFrame) → All IsPacket frs → All (λ fr. IsSendable fr.header fr.payload) frs
All-IsSendable [] f = tt
All-IsSendable (fr ∷ frs) f = (f.0.sendable, All-IsSendable frs f.1)

plan-sent_by :
    (sender : Env) (o : IsReliable sender) (s : WebSocket) (t : TcpClient) (w : List (List ℕ))
    (n : ℕ) (ty : MessageType) (bytes : List ℕ)
    → plan (sent_by sender o s t w n) ty bytes ≡ plan s ty bytes
unfolding plan final_header fragment_size
plan-sent_by sender o s t w n ty bytes = refl

send-poll-plan :
    (env sender : Env) (r : IsReliable env) (o : IsReliable sender) (s w : WebSocket)
    (t : TcpClient) (heard : w.received_callback ≡ true) (ty : MessageType) (bytes : List ℕ) (n : ℕ)
    → t.connected ≡ true
    → (send sender ty bytes (sent_by sender o s t s.wire n)
        ≡ some (
          true,
          sent_by sender o s t
              (s.wire ++ packets sender s.use_masking n (plan s ty bytes))
              (n + length (plan s ty bytes)),
        ))
      × (poll env
            (length (plan s ty bytes))
            (reading w (packets sender s.use_masking n (plan s ty bytes)))
          ≡ some (
              reading
                (delivered env w
                  (opcode_of ty)
                  heard
                  (message (plan s ty bytes))
                  (w.events ++ fragment_events (opcode_of ty) [] (plan s ty bytes)))
                []))
send-poll-plan env sender r o s w t heard ty bytes n c = (
  send-plan sender ty bytes (sent_by sender o s t s.wire n) (unfold is_connected in c)
      ∙ ap (λ frs. send_all sender frs (sent_by sender o s t s.wire n))
          (plan-sent_by sender o s t s.wire n ty bytes)
      ∙ send_all_reliable sender o s (plan s ty bytes) t s.wire n c,
  poll-series env sender r o.key s.use_masking w (opcode_of ty) heard (plan s ty bytes) n
      (All-IsSendable _ (plan-IsPacket s ty bytes)) (plan-IsSeries s ty bytes),
)

-- A message of at most two fragments that a connected socket sends over a reliable link: `send`
-- succeeds, its packets are what a receiver with a callback and memory reads, and after as many
-- rounds of the poll loop the callback has had the events of the message, the last of which holds
-- the whole of it, and the frame's buffer has been freed.
pub send-poll :
    (env sender : Env) (r : IsReliable env) (o : IsReliable sender) (s w : WebSocket)
    (t : TcpClient) (heard : w.received_callback ≡ true) (ty : MessageType) (bytes : List ℕ) (n : ℕ)
    → t.connected ≡ true
    → length bytes ≤ fragment_size s.use_masking + fragment_size s.use_masking
    → (send sender ty bytes (sent_by sender o s t s.wire n)
        ≡ some (
          true,
          sent_by sender o s t
              (s.wire ++ packets sender s.use_masking n (plan s ty bytes))
              (n + length (plan s ty bytes)),
        ))
      × (poll env
            (length (plan s ty bytes))
            (reading w (packets sender s.use_masking n (plan s ty bytes)))
          ≡ some (
              reading
                (delivered env w
                  (opcode_of ty)
                  heard
                  bytes
                  (w.events ++ fragment_events (opcode_of ty) [] (plan s ty bytes)))
                []))
send-poll env sender r o s w t heard ty bytes n c short =
    let (sent, got) = send-poll-plan env sender r o s w t heard ty bytes n c in
    (
      sent,
      got
          ∙ ap
              (λ b. some (
                reading
                  (delivered env w (opcode_of ty) heard b
                    (w.events ++ fragment_events (opcode_of ty) [] (plan s ty bytes)))
                  []))
              (message-plan_two s ty bytes short),
    )

-- As many copies of the first fragment as there are fragments but the last, and then the bytes
-- from the last fragment's place on.
abbrev pub first_copies : WebSocket → MessageType → List ℕ → List ℕ
first_copies s ty bytes =
    copies (middles s ty bytes + 1) (take (fragment_size s.use_masking) bytes)
    ++ drop ((middles s ty bytes + 1) * fragment_size s.use_masking) bytes

-- A message of more than two fragments, the second of which is not the first again, that a
-- connected socket sends over a reliable link: `send` succeeds, and a receiver with a callback and
-- memory, after as many rounds of the poll loop as there are packets, has joined copies of the
-- first fragment, one for each fragment but the last, and the bytes from the last fragment's place
-- on. That is not the message.
pub send-poll_long :
    (env sender : Env) (r : IsReliable env) (o : IsReliable sender) (s w : WebSocket)
    (t : TcpClient) (heard : w.received_callback ≡ true) (ty : MessageType) (bytes : List ℕ) (n : ℕ)
    → t.connected ≡ true
    → fragment_size s.use_masking + fragment_size s.use_masking < length bytes
    → take (fragment_size s.use_masking) (drop (fragment_size s.use_masking) bytes)
      ≢ take (fragment_size s.use_masking) bytes
    → (send sender ty bytes (sent_by sender o s t s.wire n)
        ≡ some (
          true,
          sent_by sender o s t
              (s.wire ++ packets sender s.use_masking n (plan s ty bytes))
              (n + length (plan s ty bytes)),
        ))
      × (poll env
            (length (plan s ty bytes))
            (reading w (packets sender s.use_masking n (plan s ty bytes)))
          ≡ some (
              reading
                (delivered env w
                  (opcode_of ty)
                  heard
                  (first_copies s ty bytes)
                  (w.events ++ fragment_events (opcode_of ty) [] (plan s ty bytes)))
                []))
      × (first_copies s ty bytes ≢ bytes)
send-poll_long env sender r o s w t heard ty bytes n c long differ =
    let (sent, got) = send-poll-plan env sender r o s w t heard ty bytes n c in
    let joined = message-plan-copies s ty bytes long in
    (
      sent,
      got
          ∙ ap
              (λ b. some (
                reading
                  (delivered env w (opcode_of ty) heard b
                    (w.events ++ fragment_events (opcode_of ty) [] (plan s ty bytes)))
                  []))
              joined,
      λ e. differ (message-plan_three s ty bytes long (joined ∙ e)),
    )
