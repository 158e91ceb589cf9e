-- ===== src/Socket/Mask.antt =====
-- `WebSocket::maskPayload`.
use pico_radio.Base.{
  List, [], ap, ap₂, arith, bit_xor, length, refl, suc, ℕ, ◌%◌, ◌*◌, ◌+◌, ◌/◌, ◌^◌, ◌∷◌, ◌≡◌,
}
use pico_radio.Bits.{bit_xor-lt, bit_xor_undo}
use pico_radio.Socket.Bytes.{IsBytes}

-- `(maskingKey >> (8 * (i % 4))) & 0xFF`
unfoldable pub key_byte : ℕ → ℕ → ℕ
key_byte key i = key / 2 ^ (8 * (i % 4)) % 256

-- The loop of `maskPayload` from index `i` on.
mask_from : ℕ → ℕ → List ℕ → List ℕ
mask_from key i [] = []
mask_from key i (b ∷ bs) = bit_xor b (key_byte key i) ∷ mask_from key (i + 1) bs

unfoldable pub mask_payload : ℕ → List ℕ → List ℕ
unfolding mask_from key_byte
mask_payload key payload = mask_from key 0 payload

mask_from_undo : (key i : ℕ) (bs : List ℕ) → mask_from key i (mask_from key i bs) ≡ bs
unfolding mask_from
mask_from_undo key i [] = refl
mask_from_undo key i (b ∷ bs) =
    ap₂ ◌∷◌ (bit_xor_undo b (key_byte key i)) (mask_from_undo key (i + 1) bs)

length-mask_from : (key i : ℕ) (bs : List ℕ) → length (mask_from key i bs) ≡ length bs
unfolding mask_from
length-mask_from key i [] = refl
length-mask_from key i (b ∷ bs) = ap suc (length-mask_from key (i + 1) bs)

mask_from-IsBytes : (key i : ℕ) (bs : List ℕ) → IsBytes bs → IsBytes (mask_from key i bs)
unfolding mask_from key_byte
mask_from-IsBytes key i [] h = tt
mask_from-IsBytes key i (b ∷ bs) h =
    (bit_xor-lt 8 b (key_byte key i) h.0 (omega arith), mask_from-IsBytes key (i + 1) bs h.1)

-- Masking twice with one key gives the payload back.
pub mask_payload_undo :
    (key : ℕ) (payload : List ℕ) → mask_payload key (mask_payload key payload) ≡ payload
unfolding mask_payload
mask_payload_undo key payload = mask_from_undo key 0 payload

pub length-mask_payload :
    (key : ℕ) (payload : List ℕ) → length (mask_payload key payload) ≡ length payload
unfolding mask_payload
length-mask_payload key payload = length-mask_from key 0 payload

pub mask_payload-IsBytes :
    (key : ℕ) (payload : List ℕ) → IsBytes payload → IsBytes (mask_payload key payload)
unfolding mask_payload
mask_payload-IsBytes key payload h = mask_from-IsBytes key 0 payload h

-- RFC 6455, section 5.3, its example: the text "Hello" under the key 37 fa 21 3d.
mask_hello :
    mask_payload 0x3d21fa37 (0x48 ∷ 0x65 ∷ 0x6c ∷ 0x6c ∷ 0x6f ∷ [])
    ≡ 0x7f ∷ 0x9f ∷ 0x4d ∷ 0x51 ∷ 0x58 ∷ []
unfolding mask_payload
mask_hello = refl
