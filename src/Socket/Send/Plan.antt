-- ===== src/Socket/Send/Plan.antt =====
-- The frames that `send` puts out, without the loop: how many there are, what each carries, and
-- what a receiver makes of them.
use native.Mathlib.Nat.{div-add-mod, mod-lt}
use pico_radio.Base.{
  Bool, Bool-cases, List, Option, [], arith, drop, false, if◌then◌else◌, inl, inr, leb, length, ltb,
  none, not, refl, some, suc, sym, take, true, zero, ℕ, ◌*◌, ◌+◌, ◌-◌, ◌/◌, ◌<◌, ◌==◌, ◌>>=◌, ◌∷◌,
  ◌≡◌, ◌≤◌, ◌⊎◌,
}
use pico_radio.Socket.OpCode
use pico_radio.Socket.Header.{FrameHeader, len_code}
use pico_radio.Socket.State.{Env, WebSocket, is_connected, masking_key}
use pico_radio.Socket.Transmit.{final_header, send_frame}
use pico_radio.Socket.Send.{
  MessageType, fragment_size, last, max_packet_size, more, opcode_of, packet_size, round_of, send,
  send_loop,
}

pub record OutFrame : Type 0 where
  pub header : FrameHeader
  pub payload : List ℕ

-- The frames in turn, until one is not sent.
unfoldable pub send_all : Env → List OutFrame → WebSocket → Option (Bool × WebSocket)
send_all env [] s = some (true, s)
send_all env (fr ∷ frs) s = do
  (ok, s') ← send_frame env fr.header fr.payload (masking_key env s) s
  let rest = send_all env frs s'
  if ok then rest else some (false, s')

module _ (f : ℕ) (bytes : List ℕ) (h : FrameHeader) where
  abbrev pub middle_header : FrameHeader
  middle_header = record h {
    opcode = OpCode.continuation_frame;
    fin = false;
    payload_len = len_code f;
  }

  -- `k` middle fragments, each with the first `f` bytes of the message, and the last fragment.
  unfoldable pub tail_series : ℕ → ℕ → List OutFrame
  tail_series zero left =
      record {
        header = record h {
          opcode = OpCode.continuation_frame;
          fin = true;
          payload_len = len_code left;
        };
        payload = take left (drop (length bytes - left) bytes);
      }
      ∷ []
  tail_series (suc k) left =
      record { header = middle_header; payload = take f bytes } ∷ tail_series k (left - f)

  -- All fragments of a message that needs `k + 2` of them.
  unfoldable pub series : ℕ → List OutFrame
  series k =
      record { header = record h { fin = false; payload_len = len_code f }; payload = take f bytes }
      ∷ tail_series k (length bytes - f)

-- The frames of one message.
unfoldable pub plan : WebSocket → MessageType → List ℕ → List OutFrame
plan s ty bytes =
    let h = final_header s (opcode_of ty) (length bytes) in
    let f = fragment_size s.use_masking in
    if leb (length bytes) f
    then record { header = h; payload = bytes } ∷ []
    else series f bytes h ((length bytes - f - 1) / f)

module _ (f : ℕ) (bytes : List ℕ) (h : FrameHeader) (left : ℕ) where
  round_of_last :
      left ≤ f
      → round_of f bytes h left
        ≡ last
            (record h {
              opcode = OpCode.continuation_frame;
              fin = true;
              payload_len = len_code left;
            })
            (take left (drop (length bytes - left) bytes))
  unfolding round_of
  round_of_last p = elim (Bool-cases (leb f left)) [
    | inl full ↦ let e : left ≡ f = ground arith in rw e (ground arith)
    | inr short ↦ rw short
  ]

  round_of_middle :
      f < left
      → left < length bytes
      → round_of f bytes h left ≡ more (middle_header f bytes h) (take f bytes)
  unfolding round_of
  round_of_middle p q = ground arith

  round_of_first :
      f < left
      → left ≡ length bytes
      → round_of f bytes h left
        ≡ more (record h { fin = false; payload_len = len_code f }) (take f bytes)
  unfolding round_of
  round_of_first p q = ground arith

-- The last frame's result is the result of the series.
send_last :
    (r : Option (Bool × WebSocket))
    → (do (ok, s') ← r; if ok then some (true, s') else some (false, s')) ≡ r
send_last none = refl
send_last (some (true, s)) = refl
send_last (some (false, s)) = refl

-- Two ways to go on after a frame that has been sent.
go_on :
    (r : Option (Bool × WebSocket)) (g g' : WebSocket → Option (Bool × WebSocket))
    → ((s : WebSocket) → g s ≡ g' s)
    → (do (ok, s') ← r; if ok then g s' else some (false, s'))
      ≡ (do (ok, s') ← r; if ok then g' s' else some (false, s'))
go_on none g g' e = refl
go_on (some (true, s)) g g' e = e s
go_on (some (false, s)) g g' e = refl

module _ (env : Env) (f : ℕ) (above_zero : 0 < f) (bytes : List ℕ) where
  -- The header of a round differs from `h0` in fields that each round sets.
  IsLike : FrameHeader → FrameHeader → Type 0
  IsLike h h0 =
      (h ≡ record h0 { fin = false; payload_len = len_code f }) ⊎ (h ≡ middle_header f bytes h0)

  send_loop-tail_series :
      (fuel k left : ℕ) (h h0 : FrameHeader) (s : WebSocket)
      → left ≤ fuel
      → k * f < left
      → left ≤ k * f + f
      → left < length bytes
      → IsLike h h0
      → send_loop env f bytes fuel h left s ≡ send_all env (tail_series f bytes h0 k left) s
  unfolding IsLike send_loop tail_series send_all
  send_loop-tail_series zero k left h h0 s p q r t e = absurd (omega arith)
  send_loop-tail_series (suc fuel) zero left h h0 s p q r t e =
      let rounds : (left == 0) ≡ false = ground arith in
      elim e [
        | inl e ↦ rw (rounds, round_of_last f bytes h left (omega arith), e) (sym (send_last _))
        | inr e ↦ rw (rounds, round_of_last f bytes h left (omega arith), e) (sym (send_last _))
      ]
  send_loop-tail_series (suc fuel) (suc k) left h h0 s p q r t e =
      let rounds : (left == 0) ≡ false = ground arith in
      let below : (k * f < left - f) × (left - f ≤ k * f + f) = omega arith in
      let onward = λ (s' : WebSocket).
        send_loop-tail_series fuel k (left - f) (middle_header f bytes h0) h0 s' (omega arith)
          below.0 below.1 (omega arith) (inr refl) in
      elim e [
        | inl e ↦
            rw (rounds, round_of_middle f bytes h left (omega arith) t, e) (go_on _ _ _ onward)
        | inr e ↦
            rw (rounds, round_of_middle f bytes h left (omega arith) t, e) (go_on _ _ _ onward)
      ]

  -- From the first round on.
  send_loop-series :
      (fuel k : ℕ) (h : FrameHeader) (s : WebSocket)
      → length bytes ≤ fuel
      → k * f + f < length bytes
      → length bytes ≤ k * f + f + f
      → send_loop env f bytes fuel h (length bytes) s ≡ send_all env (series f bytes h k) s
  unfolding IsLike send_loop series send_all
  send_loop-series zero k h s p q r = absurd (omega arith)
  send_loop-series (suc fuel) k h s p q r =
      let rounds : (length bytes == 0) ≡ false = ground arith in
      let onward = λ (s' : WebSocket).
        send_loop-tail_series fuel k (length bytes - f)
          (record h { fin = false; payload_len = len_code f }) h s' (omega arith) (omega arith)
          (omega arith) (omega arith) (inl refl) in
      rw (rounds, round_of_first f bytes h (length bytes) (omega arith) refl) (go_on _ _ _ onward)

-- A frame fits a packet just when its payload fits a fragment.
packet_size_fits :
    (s : WebSocket) (code n : ℕ)
    → ltb max_packet_size (packet_size (final_header s code n) n)
      ≡ not (leb n (fragment_size s.use_masking))
unfolding packet_size final_header fragment_size len_code
packet_size_fits s code n = elim (Bool-cases s.use_masking) [
  | inl m ↦ rw m (ground arith)
  | inr m ↦ rw m (ground arith)
]

pub fragment_size_pos : (mask : Bool) → 0 < fragment_size mask
unfolding fragment_size
fragment_size_pos true = omega arith
fragment_size_pos false = omega arith

pub middle_count :
    (f n : ℕ)
    → 0 < f
    → leb n f ≡ false
    → let k = (n - f - 1) / f in (k * f + f < n) × (n ≤ k * f + f + f)
middle_count f n above_zero h =
    let over : f < n = ground arith in
    omega (arith, div-add-mod (n - f - 1) f, mod-lt (n - f - 1) above_zero)

-- Whatever the link does, `send` puts out the planned frames one after the other, up to the first
-- that is not sent, and returns whether all were.
pub send-plan :
    (env : Env) (ty : MessageType) (bytes : List ℕ) (s : WebSocket)
    → is_connected s ≡ true
    → send env ty bytes s ≡ send_all env (plan s ty bytes) s
unfolding send plan
send-plan env ty bytes s open_link =
    rw (open_link, packet_size_fits s (opcode_of ty) (length bytes))
      (elim (Bool-cases (leb (length bytes) (fragment_size s.use_masking))) [
        | inl fits ↦ rw fits (unfold send_all in sym (send_last _))
        | inr large ↦
            let count = middle_count _ (length bytes) (fragment_size_pos s.use_masking) large in
            rw large (
              send_loop-series env _ (fragment_size_pos s.use_masking) bytes (length bytes) _ _ s
                (omega arith) count.0 count.1)
      ])
