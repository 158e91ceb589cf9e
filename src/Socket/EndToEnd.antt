-- ===== src/Socket/EndToEnd.antt =====
-- From `send` on one side to the received callback on the other, over a link that loses nothing
-- and delivers each packet whole.
use pico_radio.Base.{
  All, Bool, Bool-cases, List, Option, [], append-nil, append_assoc, ap₂, arith, false,
  if◌then◌else◌, inl, inr, length, none, refl, some, suc, true, zero, ℕ, ◌++◌, ◌+◌, ◌<◌, ◌==◌,
  ◌>>=◌, ◌^◌, ◌∙◌, ◌∷◌, ◌≡◌,
}
use pico_radio.Socket.Header.{FrameHeader, parse_header-header_bytes}
use pico_radio.Socket.Encode.{frame_body, frame_bytes, length-frame_bytes}
use pico_radio.Socket.State.{Env, Event, TcpClient, WebSocket, masking_key, received}
use pico_radio.Socket.Decode.{read_bytes, read_exact, read_frame}
use pico_radio.Socket.Transmit.{next_attempt, send_buffer, send_frame, write_buffer}
use pico_radio.Socket.RoundTrip.{IsSendable, arriving, read_exact_of_length, read_frame-frame_body}
use pico_radio.Socket.Send.Plan.{OutFrame, send_all}
use pico_radio.Socket.Send.Content.{message}
use pico_radio.Socket.Receive.{handle_frame, parse_frame, poll, poll_round, release}
use pico_radio.Socket.Receive.Fragments.{
  IsTail, collecting, delivered, fragment_events, last_fragment, middle_fragment,
  release-collecting, release-delivered,
}

-- The semaphore is free, `send` takes all it is given, and there is memory.
pub record IsReliable (env : Env) : Type 0 where
  pub free : (n : ℕ) → env.take_mutex n ≡ true
  pub takes : (n : ℕ) (b : List ℕ) → env.write n b ≡ some (length b)
  pub key : (n : ℕ) → env.rand_32 n < 2 ^ 32
  pub memory : (n : ℕ) → env.alloc n ≡ true

-- The buffers of these frames, from the `n`-th call of `sendFrame` on.
unfoldable pub packets : Env → Bool → ℕ → List OutFrame → List (List ℕ)
packets env mask n [] = []
packets env mask n (fr ∷ frs) =
    frame_bytes fr.header fr.payload (if mask then env.rand_32 n else 0)
    ∷ packets env mask (n + 1) frs

module _ (env : Env) (r : IsReliable env) where
  abbrev pub sent_by : WebSocket → TcpClient → List (List ℕ) → ℕ → WebSocket
  sent_by s t w n = record s { tcp = some t; wire = w; attempts = n }

  send_frame_reliable :
      (s : WebSocket) (h : FrameHeader) (p : List ℕ) (key : ℕ) (t : TcpClient) (w : List (List ℕ))
      (n : ℕ)
      → t.connected ≡ true
      → send_frame env h p key (sent_by s t w n)
        ≡ some (true, sent_by s t (w ++ frame_bytes h p key ∷ []) (n + 1))
  unfolding send_frame send_buffer write_buffer next_attempt
  send_frame_reliable s h p key t w n c =
      simp (r.free, c) (ground (arith, r.takes n (frame_bytes h p key), length-frame_bytes h p key))

  pub send_all_reliable :
      (s : WebSocket) (frs : List OutFrame) (t : TcpClient) (w : List (List ℕ)) (n : ℕ)
      → t.connected ≡ true
      → send_all env frs (sent_by s t w n)
        ≡ some (true, sent_by s t (w ++ packets env s.use_masking n frs) (n + length frs))
  unfolding send_all packets masking_key
  send_all_reliable s [] t w n c = let all : n + 0 ≡ n = omega arith in rw (append-nil w, all)
  send_all_reliable s (fr ∷ frs) t w n c =
      let buffer = frame_bytes fr.header fr.payload (if s.use_masking then env.rand_32 n else 0) in
      let all : n + 1 + length frs ≡ n + suc (length frs) = omega arith in
      rw
        (send_frame_reliable s fr.header fr.payload (if s.use_masking then env.rand_32 n else 0) t w
          n c)
        (send_all_reliable s frs t (w ++ buffer ∷ []) (n + 1) c
          ∙ ap₂ (λ b m. some (true, sent_by s t b m))
              (append_assoc w (buffer ∷ []) (packets env s.use_masking (n + 1) frs)) all)

-- The receiver: its socket will find these packets, one at each read of a header.
abbrev pub reading : WebSocket → List (List ℕ) → WebSocket
reading s later = record s { tcp = some (record { connected = true; incoming = later }) }

whole_read :
    (n : ℕ) (x : List ℕ × TcpClient) (bs : List ℕ) (t' : TcpClient)
    → ◌≡◌ {A = Option (List ℕ × TcpClient)}
        (if length x.0 == n then some x else none)
        (some (bs, t'))
    → x ≡ (bs, t')
whole_read n (a, t) bs t' e = elim (Bool-cases (length a == n)) [
  | inl all ↦
      let good : ◌≡◌ {A = Option (List ℕ × TcpClient)} (some (a, t)) (some (bs, t')) =
        rw all at e in
      cc
  | inr part ↦
      let bad : ◌≡◌ {A = Option (List ℕ × TcpClient)} none (some (bs, t')) = rw part at e in cc
]

read_bytes_of_exact :
    (n : ℕ) (t t' : TcpClient) (bs : List ℕ)
    → read_exact n t ≡ some (bs, t')
    → read_bytes n t ≡ (bs, t')
unfolding read_exact
read_bytes_of_exact n t t' bs e = whole_read n (read_bytes n t) bs t' e

parse_frame-some :
    (env : Env) (h : FrameHeader) (p : List ℕ) (ws : WebSocket) (t t' : TcpClient)
    → ws.tcp ≡ some t
    → read_frame env h t ≡ some (p, t')
    → parse_frame env h ws
      ≡ (do s' ← handle_frame env h p (record ws { tcp = some t' }); some (release s'))
unfolding parse_frame
parse_frame-some env h p ws t t' e r = ground (arith, e, r)

bind_release :
    (r : Option WebSocket) (f : WebSocket → Option WebSocket)
    → (do s'' ← (do s' ← r; some (release s')); f s'') ≡ (do s' ← r; f (release s'))
bind_release none f = refl
bind_release (some s) f = refl

pub poll-zero : (env : Env) (s : WebSocket) → poll env zero s ≡ some s
unfolding poll
poll-zero env s = refl

module _ (env : Env) (r : IsReliable env) where
  poll_round-packet :
      (s : WebSocket) (h : FrameHeader) (p : List ℕ) (key : ℕ) (later : List (List ℕ))
      → IsSendable h p
      → key < 2 ^ 32
      → poll_round env (reading s (frame_bytes h p key ∷ later))
        ≡ (do s' ← handle_frame env h p (reading s later); some (release s'))
  unfolding poll_round frame_bytes
  poll_round-packet s h p key later f k =
      let (b0, b1, bytes, back) = parse_header-header_bytes h f.fields in
      let body = frame_body h p key in
      let head =
        read_bytes_of_exact 2 (arriving (b0 ∷ b1 ∷ body) later) (arriving body later) (b0 ∷ b1 ∷ [])
          (read_exact_of_length 2 (b0 ∷ b1 ∷ []) body later refl (omega arith)) in
      let payload : read_frame env h (arriving body later) ≡ some (p, arriving [] later) =
        rw append-nil at (read_frame-frame_body env h p key f k (r.memory (length p)) [] later) in
      rw (bytes, head, back)
        (parse_frame-some env h p (record s { tcp = some (arriving body later) })
          (arriving body later) (arriving [] later) refl payload)

  -- One round reads one packet.
  pub poll-packet :
      (s : WebSocket) (h : FrameHeader) (p : List ℕ) (key n : ℕ) (later : List (List ℕ))
      → IsSendable h p
      → key < 2 ^ 32
      → poll env (suc n) (reading s (frame_bytes h p key ∷ later))
        ≡ (do s' ← handle_frame env h p (reading s later); poll env n (release s'))
  unfolding poll
  poll-packet s h p key n later f k =
      rw (poll_round-packet s h p key later f k)
        (bind_release (handle_frame env h p (reading s later)) (λ x. poll env n x))

  module _ (sender : Env) (keys : (n : ℕ) → sender.rand_32 n < 2 ^ 32) (mask : Bool) where
    pub key_lt : (n : ℕ) → (if mask then sender.rand_32 n else 0) < 2 ^ 32
    key_lt n = elim (Bool-cases mask) [ inl m ↦ rw m (keys n) | inr m ↦ rw m (omega arith) ]

    module _ (s : WebSocket) (op : ℕ) (heard : s.received_callback ≡ true) where
      pub poll-tail :
          (frs : List OutFrame) (acc : List ℕ) (evs : List Event) (n : ℕ)
          → All (λ fr. IsSendable fr.header fr.payload) frs
          → IsTail frs
          → poll env
              (length frs)
              (reading (collecting env s op heard acc evs) (packets sender mask n frs))
            ≡ some (
                reading
                  (delivered env s op heard
                    (acc ++ message frs)
                    (evs ++ fragment_events op acc frs))
                  [])
      unfolding packets message fragment_events
      poll-tail [] acc evs n f t = absurd t
      poll-tail (fr ∷ []) acc evs n f t = rw (
        poll-packet (collecting env s op heard acc evs) fr.header fr.payload
            (if mask then sender.rand_32 n else 0) zero [] f.0 (key_lt n),
        last_fragment env (reading s []) op heard fr.header acc fr.payload evs t.0 t.1,
        release-delivered env (reading s []) op heard (acc ++ fr.payload)
            (evs ++ received false op (acc ++ fr.payload) ∷ []),
        append-nil fr.payload,
        poll-zero env (
            reading
              (delivered env s op heard (acc ++ fr.payload)
                (evs ++ received false op (acc ++ fr.payload) ∷ []))
              []),
      )
      poll-tail (fr ∷ g ∷ frs) acc evs n f t =
          let later = packets sender mask (n + 1) (g ∷ frs) in
          let seen = received true op (acc ++ fr.payload) in
          rw
            (
              poll-packet (collecting env s op heard acc evs) fr.header fr.payload
                  (if mask then sender.rand_32 n else 0) (suc (length frs)) later f.0 (key_lt n),
              middle_fragment env (reading s later) op heard fr.header acc fr.payload evs t.0 t.1,
              release-collecting env (reading s later) op heard (acc ++ fr.payload)
                  (evs ++ seen ∷ []),
            )
            (poll-tail (g ∷ frs) (acc ++ fr.payload) (evs ++ seen ∷ []) (n + 1) f.1 t.2
              ∙ ap₂ (λ b e. some (reading (delivered env s op heard b e) []))
                  (append_assoc acc fr.payload (message (g ∷ frs)))
                  (append_assoc evs (seen ∷ []) (fragment_events op (acc ++ fr.payload) (g ∷ frs))))
