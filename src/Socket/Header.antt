-- ===== src/Socket/Header.antt =====
-- `WebSocketFrameHeader` and the length code of include/websocket.h and
-- src/websocket.cpp. The bit-fields lie from the lowest bit up, as the ARM compiler lays them out.
use pico_radio.Base.{
  Bool, List, [], arith, false, if◌then◌else◌, leb, refl, true, ℕ, ◌%◌, ◌*◌, ◌+◌, ◌/◌, ◌<◌, ◌==◌,
  ◌∷◌, ◌≡◌,
}

abbrev pub normal_closure : ℕ
normal_closure = 1000

pub record FrameHeader : Type 0 where
  pub opcode : ℕ
  pub rsv3 : Bool
  pub rsv2 : Bool
  pub rsv1 : Bool
  pub fin : Bool
  pub payload_len : ℕ
  pub mask : Bool

abbrev pub bit : Bool → ℕ
bit true = 1
bit false = 0

-- The two bytes that `memcpy(&buffer[index], &header, 2)` copies.
unfoldable pub header_bytes : FrameHeader → List ℕ
header_bytes h =
    (h.opcode + 16 * bit h.rsv3 + 32 * bit h.rsv2 + 64 * bit h.rsv1 + 128 * bit h.fin)
    ∷ (h.payload_len + 128 * bit h.mask)
    ∷ []

-- The header that two received bytes make up.
unfoldable pub parse_header : ℕ → ℕ → FrameHeader
parse_header b0 b1 = record {
  opcode = b0 % 16;
  rsv3 = b0 / 16 % 2 == 1;
  rsv2 = b0 / 32 % 2 == 1;
  rsv1 = b0 / 64 % 2 == 1;
  fin = b0 / 128 % 2 == 1;
  payload_len = b1 % 128;
  mask = b1 / 128 % 2 == 1;
}

-- `n >= UINT16_MAX ? 127 : n >= 126 ? 126 : n`
unfoldable pub len_code : ℕ → ℕ
len_code n = if leb 65535 n then 127 else if leb 126 n then 126 else n

-- The values fit their bit-fields.
abbrev pub FitsFields : FrameHeader → Type 0
FitsFields h = (h.opcode < 16) × (h.payload_len < 128)

bit_back : (b : Bool) → (bit b == 1) ≡ b
bit_back true = refl
bit_back false = refl

bit-lt : (b : Bool) → bit b < 2
bit-lt true = omega arith
bit-lt false = omega arith

module _ (h : FrameHeader) (f : FitsFields h) where
  low_byte : ℕ
  low_byte = h.opcode + 16 * bit h.rsv3 + 32 * bit h.rsv2 + 64 * bit h.rsv1 + 128 * bit h.fin

  high_byte : ℕ
  high_byte = h.payload_len + 128 * bit h.mask

  low_fields :
      (low_byte % 16 ≡ h.opcode)
      × (low_byte / 16 % 2 ≡ bit h.rsv3)
      × (low_byte / 32 % 2 ≡ bit h.rsv2)
      × (low_byte / 64 % 2 ≡ bit h.rsv1)
      × (low_byte / 128 % 2 ≡ bit h.fin)
  unfolding low_byte
  low_fields = omega (arith, f.0, bit-lt h.rsv3, bit-lt h.rsv2, bit-lt h.rsv1, bit-lt h.fin)

  high_fields : (high_byte % 128 ≡ h.payload_len) × (high_byte / 128 % 2 ≡ bit h.mask)
  unfolding high_byte
  high_fields = omega (arith, f.1, bit-lt h.mask)

  fields_back : parse_header low_byte high_byte ≡ h
  unfolding parse_header
  fields_back =
      rw
        (
          low_fields.0, low_fields.1, low_fields.2, low_fields.3, low_fields.4, high_fields.0,
          high_fields.1,
        )
        (λ i. record {
          opcode = h.opcode;
          rsv3 = bit_back h.rsv3 i;
          rsv2 = bit_back h.rsv2 i;
          rsv1 = bit_back h.rsv1 i;
          fin = bit_back h.fin i;
          payload_len = h.payload_len;
          mask = bit_back h.mask i;
        })

  -- The two bytes of a header read back as the header.
  pub parse_header-header_bytes :
      (b0 : ℕ) × (b1 : ℕ) × (header_bytes h ≡ b0 ∷ b1 ∷ []) × (parse_header b0 b1 ≡ h)
  unfolding header_bytes low_byte high_byte
  parse_header-header_bytes = (low_byte, high_byte, refl, fields_back)

pub len_code-lt : (n : ℕ) → len_code n < 128
unfolding len_code
len_code-lt n = ground arith
