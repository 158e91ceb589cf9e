-- ===== src/Socket/Arrival.antt =====
-- What becomes of a frame that TCP delivers in pieces: `TcpClient::readBytes` makes one `recv`.
use pico_radio.Base.{
  List, [], ap, arith, false, if◌then◌else◌, length, length-append, none, some, ℕ, ◌++◌, ◌<◌, ◌==◌,
  ◌^◌, ◌∷◌, ◌≡◌,
}
use pico_radio.Socket.Header.{FrameHeader, len_code}
use pico_radio.Socket.Encode.{ext_len, key_bytes, length-masked, masked}
use pico_radio.Socket.State.{Env, TcpClient, WebSocket, disconnect}
use pico_radio.Socket.Decode.{read_exact, read_frame, read_payload}
use pico_radio.Socket.RoundTrip.{IsSendable, arriving, read_key-key_bytes, read_length-ext_len}
use pico_radio.Socket.Receive.{parse_frame}

read_exact_partial :
    (n : ℕ) (first second : List ℕ) (later : List (List ℕ))
    → 0 < length first
    → length first < n
    → read_exact n (arriving first (second ∷ later)) ≡ none
unfolding read_exact
read_exact_partial n [] second later p q = absurd (omega arith)
read_exact_partial n (b ∷ bs) second later p q = ground arith

parse_frame-none :
    (env : Env) (h : FrameHeader) (ws : WebSocket) (t : TcpClient)
    → ws.tcp ≡ some t
    → read_frame env h t ≡ none
    → parse_frame env h ws ≡ some (disconnect ws)
unfolding parse_frame
parse_frame-none env h ws t e r = ground arith

module _ (env : Env) (h : FrameHeader) (p : List ℕ) (key : ℕ) (s : IsSendable h p)
    (k : key < 2 ^ 32) (first second : List ℕ) (cut : masked h.mask key p ≡ first ++ second)
    (begun : 0 < length first) (ahead : 0 < length second) (later : List (List ℕ)) where
  shorter : length first < length p
  shorter = omega (
    arith,
    ap (λ (l : List ℕ). length l) cut,
    length-append first second,
    length-masked h.mask key p,
  )

  read_exact_short : read_exact (length p) (arriving first (second ∷ later)) ≡ none
  read_exact_short = read_exact_partial (length p) first second later begun shorter

  read_payload_short :
      read_payload env h.mask
        (if h.mask then key else 0)
        (length p)
        (arriving first (second ∷ later))
      ≡ none
  unfolding read_payload
  read_payload_short =
      let some_bytes : (length p == 0) ≡ false = ground (arith, shorter) in
      ground (arith, some_bytes, read_exact_short)

  read_frame_short :
      read_frame env h (
        arriving
          (ext_len (len_code (length p)) (length p) ++ (key_bytes h.mask key ++ first))
          (second ∷ later))
      ≡ none
  unfolding read_frame
  read_frame_short =
      rw
        (
          s.known,
          s.code,
          read_length-ext_len (key_bytes h.mask key ++ first) (second ∷ later) (length p) s.size,
          read_key-key_bytes first (second ∷ later) h.mask key k,
        )
        read_payload_short

  -- A frame whose payload TCP delivers in two pieces, the first with the header's fields and some
  -- bytes and the second with the rest, is not read: the socket is dropped.
  pub parse_frame_short :
      (ws : WebSocket)
      → ws.tcp
        ≡ some (
            arriving
              (ext_len (len_code (length p)) (length p) ++ (key_bytes h.mask key ++ first))
              (second ∷ later))
      → parse_frame env h ws ≡ some (disconnect ws)
  parse_frame_short ws e = parse_frame-none env h ws _ e read_frame_short
