-- ===== src/Socket/Frames.antt =====
-- Every frame that `send` puts out: its header agrees with its payload, it fits one TCP segment,
-- and the series has the shape that RFC 6455, section 5.4, asks for.
use pico_radio.Base.{
  All, Bool, Bool-cases, List, ap, arith, drop, false, inl, inr, leb, leb→le, length, length-drop,
  length-take, refl, suc, sym, take, true, zero, ℕ, ◌*◌, ◌+◌, ◌-◌, ◌<◌, ◌≡◌, ◌≤◌,
}
use pico_radio.Socket.Header.{FrameHeader, len_code, len_code-lt}
use pico_radio.Socket.Encode.{frame_length}
use pico_radio.Socket.State.{WebSocket}
use pico_radio.Socket.Decode.{valid_opcode}
use pico_radio.Socket.Transmit.{final_header}
use pico_radio.Socket.RoundTrip.{IsSendable}
use pico_radio.Socket.Send.{MessageType, binary, fragment_size, max_packet_size, opcode_of, text}
use pico_radio.Socket.Send.Plan.{
  OutFrame, fragment_size_pos, middle_count, plan, series, tail_series,
}
use pico_radio.Socket.Receive.Fragments.{IsTail}

-- A frame that a receiver can read back, and that takes one packet.
pub record IsPacket (fr : OutFrame) : Type 0 where
  pub sendable : IsSendable fr.header fr.payload
  pub fits : frame_length fr.header (length fr.payload) ≤ max_packet_size

frame_length_fits :
    (h : FrameHeader) (n : ℕ)
    → h.payload_len ≡ len_code n
    → n ≤ fragment_size h.mask
    → frame_length h n ≤ max_packet_size
unfolding frame_length len_code fragment_size
frame_length_fits h n e p = elim (Bool-cases h.mask) [ inl m ↦ ground arith | inr m ↦ ground arith ]

fragment_size-le : (mask : Bool) → fragment_size mask ≤ max_packet_size
unfolding fragment_size
fragment_size-le true = omega arith
fragment_size-le false = omega arith

IsPacket-of :
    (h : FrameHeader) (p : List ℕ)
    → h.opcode < 16
    → valid_opcode h.opcode ≡ true
    → h.payload_len ≡ len_code (length p)
    → length p ≤ fragment_size h.mask
    → IsPacket (record { header = h; payload = p })
IsPacket-of h p o v e n = record {
  sendable = record {
    fields = (o, rw e (len_code-lt (length p)));
    known = v;
    code = e;
    size = omega (arith, fragment_size-le h.mask);
  };
  fits = frame_length_fits h (length p) e n;
}

module _ (bytes : List ℕ) (h : FrameHeader) (o : h.opcode < 16)
    (v : valid_opcode h.opcode ≡ true) where
  abbrev size : ℕ
  size = fragment_size h.mask

  tail_series-IsPacket :
      (k left : ℕ)
      → k * size < left
      → left ≤ k * size + size
      → left < length bytes
      → All IsPacket (tail_series size bytes h k left)
  unfolding tail_series valid_opcode
  tail_series-IsPacket zero left p q r =
      let n : length (take left (drop (length bytes - left) bytes)) ≡ left = omega (
        arith,
        length-take left (drop (length bytes - left) bytes),
        length-drop (length bytes - left) bytes,
      ) in
      (IsPacket-of _ _ (omega arith) refl (ap len_code (sym n)) (omega (arith, n)), tt)
  tail_series-IsPacket (suc k) left p q r =
      let n : length (take size bytes) ≡ size = omega (arith, length-take size bytes) in
      (
        IsPacket-of _ _ (omega arith) refl (ap len_code (sym n)) (omega (arith, n)),
        tail_series-IsPacket k (left - size) (omega arith) (omega arith) (omega arith),
      )

  series-IsPacket :
      (k : ℕ)
      → k * size + size < length bytes
      → length bytes ≤ k * size + size + size
      → All IsPacket (series size bytes h k)
  unfolding series
  series-IsPacket k p q =
      let n : length (take size bytes) ≡ size = omega (arith, length-take size bytes) in
      let above_zero = fragment_size_pos h.mask in
      (
        IsPacket-of _ _ o v (ap len_code (sym n)) (omega (arith, n)),
        tail_series-IsPacket k (length bytes - size) (omega arith) (omega arith) (omega arith),
      )

pub tail_series-IsTail :
    (f : ℕ) (bytes : List ℕ) (h : FrameHeader) (k left : ℕ) → IsTail (tail_series f bytes h k left)
unfolding tail_series
tail_series-IsTail f bytes h zero left = (refl, refl)
tail_series-IsTail f bytes h (suc zero) left = (refl, refl, (refl, refl))
tail_series-IsTail f bytes h (suc (suc k)) left =
    (refl, refl, tail_series-IsTail f bytes h (suc k) (left - f))

opcode-lt : (ty : MessageType) → opcode_of ty < 16
unfolding opcode_of
opcode-lt text = omega arith
opcode-lt binary = omega arith

opcode_known : (ty : MessageType) → valid_opcode (opcode_of ty) ≡ true
unfolding opcode_of valid_opcode
opcode_known text = refl
opcode_known binary = refl

-- Each frame of a message can be read back and takes at most WEBSOCKET_MAX_PACKET_SIZE bytes.
pub plan-IsPacket :
    (s : WebSocket) (ty : MessageType) (bytes : List ℕ) → All IsPacket (plan s ty bytes)
unfolding plan final_header
plan-IsPacket s ty bytes = elim (Bool-cases (leb (length bytes) (fragment_size s.use_masking))) [
  | inl fits ↦ rw fits (IsPacket-of _ _ (opcode-lt ty) (opcode_known ty) refl (leb→le _ _ fits), tt)
  | inr large ↦
      let count = middle_count _ (length bytes) (fragment_size_pos s.use_masking) large in
      rw large (series-IsPacket bytes _ (opcode-lt ty) (opcode_known ty) _ count.0 count.1)
]
