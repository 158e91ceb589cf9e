-- ===== src/Socket/Closing.antt =====
-- The answers of `WebSocket::handleFrame` to control frames: pong, and the closing handshake.
use pico_radio.Base.{
  Bool, List, [], ap, arith, false, length, none, refl, some, true, ℕ, ◌*◌, ◌++◌, ◌+◌, ◌<◌, ◌^◌,
  ◌∙◌, ◌∷◌, ◌≡◌,
}
use pico_radio.Socket.Bytes.{from_le, htons, htons-htons, le_bytes}
use pico_radio.Socket.OpCode
use pico_radio.Socket.Header.{FrameHeader}
use pico_radio.Socket.Encode.{frame_bytes, frame_bytes_pair, frame_bytes_pair-append, frame_length}
use pico_radio.Socket.State.{Env, TcpClient, WebSocket, closed, disconnect, emit, masking_key}
use pico_radio.Socket.Transmit.{
  assert_connected, close_with, final_header, next_attempt, pong, send_buffer, send_control,
  send_frame, send_frame_pair, write_buffer,
}
use pico_radio.Socket.Receive.{handle_close, handle_frame}

-- The socket is connected and its semaphore is free.
pub record IsLinked (env : Env) (s : WebSocket) : Type 0 where
  pub client : TcpClient
  pub attached : s.tcp ≡ some client
  pub connected : client.connected ≡ true
  pub free : env.take_mutex s.attempts ≡ true

-- What one `sendFrame` with the semaphore in hand leaves, whether `send` fails or not.
pub record IsWritten (buffer : List ℕ) (s s' : WebSocket) : Type 0 where
  pub on_wire : s'.wire ≡ s.wire ++ buffer ∷ []
  pub same_events : s'.events ≡ s.events
  pub same_frame : s'.current_frame ≡ s.current_frame
  pub same_closing : s'.gracefully_closed ≡ s.gracefully_closed

write_buffer-IsWritten :
    (env : Env) (size : ℕ) (buffer : List ℕ) (s : WebSocket) (t : TcpClient)
    → IsWritten buffer s (next_attempt (write_buffer env size buffer s t)).1
unfolding write_buffer next_attempt
write_buffer-IsWritten env size buffer s t = ground arith

module _ (env : Env) (s : WebSocket) (l : IsLinked env s) where
  send_buffer_linked :
      (size : ℕ) (buffer : List ℕ)
      → send_buffer env size buffer s
        ≡ some (next_attempt (write_buffer env size buffer s l.client))
  unfolding send_buffer
  send_buffer_linked size buffer = simp (l.free, l.attached, l.connected)

  pub send_buffer-IsWritten :
      (size : ℕ) (buffer : List ℕ)
      → (r : Bool × WebSocket) × (send_buffer env size buffer s ≡ some r) × IsWritten buffer s r.1
  send_buffer-IsWritten size buffer = (
    next_attempt (write_buffer env size buffer s l.client),
    send_buffer_linked size buffer,
    write_buffer-IsWritten env size buffer s l.client,
  )

  linked_assert : assert_connected s ≡ some tt
  unfolding assert_connected
  linked_assert = rw (l.attached, l.connected)

  -- One control frame goes out.
  send_control-IsWritten :
      (code : ℕ) (payload : List ℕ)
      → (s' : WebSocket) × (send_control env code payload s ≡ some s')
        × IsWritten
            (frame_bytes (final_header s code (length payload)) payload (masking_key env s))
            s
            s'
  unfolding send_control send_frame
  send_control-IsWritten code payload =
      let (r, e, w) =
        send_buffer-IsWritten (frame_length (final_header s code (length payload)) (length payload))
          (frame_bytes (final_header s code (length payload)) payload (masking_key env s)) in
      (r.1, simp (linked_assert, e), w)

  -- On a connected socket whose semaphore is free, a ping is answered by one pong with the same
  -- payload, and no callback is called.
  pub handle_frame-ping :
      (h : FrameHeader) (payload : List ℕ)
      → h.fin ≡ true
      → h.opcode ≡ OpCode.ping
      → (s' : WebSocket) × (handle_frame env h payload s ≡ some s')
        × IsWritten
            (frame_bytes (final_header s OpCode.pong (length payload)) payload (masking_key env s))
            s
            s'
  unfolding handle_frame pong
  handle_frame-ping h payload f o =
      let (s', e, w) = send_control-IsWritten OpCode.pong payload in (s', simp (f, o, e), w)

-- The status code of a close frame goes back in the same two bytes.
status_back :
    (b0 b1 : ℕ)
    → b0 < 256
    → b1 < 256
    → le_bytes 2 (htons (htons (from_le (b0 ∷ b1 ∷ [])))) ≡ b0 ∷ b1 ∷ []
status_back b0 b1 p q =
    rw (htons-htons (from_le (b0 ∷ b1 ∷ [])) (pair_lt b0 b1 p q)) (pair_back b0 b1 p q)
  where
    pair_lt : (b0 b1 : ℕ) → b0 < 256 → b1 < 256 → from_le (b0 ∷ b1 ∷ []) < 2 ^ 16
    pair_lt b0 b1 p q = unfold from_le in omega arith

    pair_back :
        (b0 b1 : ℕ) → b0 < 256 → b1 < 256 → le_bytes 2 (from_le (b0 ∷ b1 ∷ [])) ≡ b0 ∷ b1 ∷ []
    pair_back b0 b1 p q = unfold le_bytes from_le in ground arith

status_value : (b0 b1 : ℕ) → b0 < 256 → b1 < 256 → htons (from_le (b0 ∷ b1 ∷ [])) ≡ b0 * 256 + b1
unfolding htons from_le
status_value b0 b1 p q = omega arith

-- `close` after a close frame has been sent.
close_with_sent :
    (env : Env) (s : WebSocket)
    → IsLinked env s
    → (status : ℕ) (reason : List ℕ) → s.close_frame_sent ≡ true
    → s.close_callback ≡ true
    → close_with env status reason s ≡ some (disconnect (emit (closed status reason) s))
unfolding close_with
close_with_sent env s l status reason sent heard = simp (linked_assert env s l, sent, heard)

-- The header of the answer to a close frame.
abbrev pub close_header : WebSocket → List ℕ → FrameHeader
close_header s reason = final_header s OpCode.connection_close (length reason + 2)

-- `close` before a close frame has been sent.
close_with_unsent :
    (env : Env) (s : WebSocket)
    → IsLinked env s
    → (status : ℕ) (reason : List ℕ) → s.close_frame_sent ≡ false
    → (s' : WebSocket) × (close_with env status reason s ≡ some s')
      × IsWritten
          (frame_bytes
            (close_header s reason)
            (le_bytes 2 (htons status) ++ reason)
            (masking_key env s))
          s
          s'
      × (s'.close_frame_sent ≡ true)
unfolding close_with send_frame_pair
close_with_unsent env s l status reason unsent =
    let first = le_bytes 2 (htons status) in
    let (r, e, w) =
      send_buffer-IsWritten env s l
        (frame_length (close_header s reason) (length first + length reason))
        (frame_bytes_pair (close_header s reason) first reason (masking_key env s)) in
    (
      record r.1 { close_frame_sent = true },
      simp (linked_assert env s l, unsent, e),
      record {
        on_wire =
            w.on_wire
            ∙ ap (λ b. s.wire ++ b ∷ [])
                (frame_bytes_pair-append (close_header s reason) first reason (masking_key env s));
        same_events = w.same_events;
        same_frame = w.same_frame;
        same_closing = w.same_closing;
      },
      refl,
    )

module _ (env : Env) (s : WebSocket) (l : IsLinked env s) (h : FrameHeader) (fin : h.fin ≡ true)
    (o : h.opcode ≡ OpCode.connection_close) (b0 b1 : ℕ) (p : b0 < 256) (q : b1 < 256)
    (reason : List ℕ) where
  abbrev graceful : WebSocket
  graceful = record s { gracefully_closed = true }

  still-IsLinked : IsLinked env graceful
  still-IsLinked = record {
    client = l.client;
    attached = l.attached;
    connected = l.connected;
    free = l.free;
  }

  close_branch :
      (s' : WebSocket)
      → close_with env (htons (from_le (b0 ∷ b1 ∷ []))) reason graceful ≡ some s'
      → handle_frame env h (b0 ∷ b1 ∷ reason) s ≡ some (disconnect s')
  unfolding handle_frame handle_close
  close_branch s' e = simp (fin, o, e)

  -- On a connected socket whose semaphore is free, a close frame with a status that comes before
  -- this side has sent one is answered by one close frame with
  -- the same status and reason, and the socket is dropped as gracefully closed; the close callback
  -- is not called.
  pub close_by_peer :
      s.close_frame_sent ≡ false
      → (s' : WebSocket) × (handle_frame env h (b0 ∷ b1 ∷ reason) s ≡ some s')
        × (s'.wire
            ≡ s.wire
              ++ frame_bytes (close_header s reason) (b0 ∷ b1 ∷ reason) (masking_key env s) ∷ [])
        × (s'.events ≡ s.events)
        × (s'.tcp ≡ none)
        × (s'.gracefully_closed ≡ true)
        × (s'.close_frame_sent ≡ true)
  unfolding masking_key final_header disconnect
  close_by_peer unsent =
      let (s', e, w, sent) =
        close_with_unsent env graceful still-IsLinked (htons (from_le (b0 ∷ b1 ∷ []))) reason
          unsent in
      (
        disconnect s',
        close_branch s' e,
        w.on_wire
            ∙ ap
                (λ b.
                  s.wire
                  ++ frame_bytes (close_header s reason) (b ++ reason) (masking_key env s) ∷ [])
                (status_back b0 b1 p q),
        w.same_events,
        refl,
        w.same_closing,
        sent,
      )

  -- On a connected socket, the answer to a close frame that this side sent before reaches the close
  -- callback, where one is set, with its
  -- status and reason, and the socket is dropped; nothing more is sent.
  pub close_answered :
      s.close_frame_sent ≡ true
      → s.close_callback ≡ true
      → (s' : WebSocket) × (handle_frame env h (b0 ∷ b1 ∷ reason) s ≡ some s')
        × (s'.events ≡ s.events ++ closed (b0 * 256 + b1) reason ∷ [])
        × (s'.wire ≡ s.wire)
        × (s'.tcp ≡ none)
        × (s'.gracefully_closed ≡ true)
  unfolding disconnect emit
  close_answered sent heard = (
    disconnect (disconnect (emit (closed (b0 * 256 + b1) reason) graceful)),
    close_branch (disconnect (emit (closed (b0 * 256 + b1) reason) graceful)) (
        close_with_sent env graceful still-IsLinked (htons (from_le (b0 ∷ b1 ∷ []))) reason sent
          heard
        ∙ ap (λ n. some (disconnect (emit (closed n reason) graceful))) (status_value b0 b1 p q)),
    refl,
    refl,
    refl,
    refl,
  )
