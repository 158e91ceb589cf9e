-- ===== src/Socket/Encode.antt =====
-- The buffers that the two `WebSocket::sendFrame` functions of src/websocket.cpp hand to the
-- TCP socket.
use pico_radio.Base.{
  Bool, List, [], arith, false, if◌then◌else◌, length, length-append, refl, true, ℕ, ◌%◌, ◌++◌, ◌+◌,
  ◌==◌, ◌^◌, ◌≡◌,
}
use pico_radio.Socket.Bytes.{htonll, htons, le_bytes, length-le_bytes}
use pico_radio.Socket.Header.{FrameHeader, header_bytes}
use pico_radio.Socket.Mask.{length-mask_payload, mask_payload, mask_payload_undo}

-- The bytes between the header and the masking key.
unfoldable pub ext_len : ℕ → ℕ → List ℕ
ext_len code n =
    if code == 127
    then le_bytes 8 (htonll n)
    else if code == 126
    then le_bytes 2 (htons (n % 2 ^ 16))
    else []

ext_len_size : ℕ → ℕ
ext_len_size code = if code == 127 then 8 else if code == 126 then 2 else 0

-- `frameLength` of `sendFrame`, the size of the buffer that it allocates.
unfoldable pub frame_length : FrameHeader → ℕ → ℕ
unfolding ext_len_size
frame_length h n = 2 + ext_len_size h.payload_len + (if h.mask then 4 else 0) + n

-- The masking key, where the frame is masked.
unfoldable pub key_bytes : Bool → ℕ → List ℕ
key_bytes true key = le_bytes 4 key
key_bytes false key = []

-- The payload behind it.
unfoldable pub masked : Bool → ℕ → List ℕ → List ℕ
masked true key payload = mask_payload key payload
masked false key payload = payload

-- What `sendFrame` writes into the buffer: all but the header, and the whole.
unfoldable pub frame_body : FrameHeader → List ℕ → ℕ → List ℕ
frame_body h payload key =
    ext_len h.payload_len (length payload) ++ (key_bytes h.mask key ++ masked h.mask key payload)

unfoldable pub frame_bytes : FrameHeader → List ℕ → ℕ → List ℕ
unfolding frame_body
frame_bytes h payload key = header_bytes h ++ frame_body h payload key

-- The second `sendFrame`: two payloads, one after the other, masked as one.
unfoldable pub frame_bytes_pair : FrameHeader → List ℕ → List ℕ → ℕ → List ℕ
frame_bytes_pair h payload1 payload2 key =
    header_bytes h
    ++ (ext_len h.payload_len (length payload1 + length payload2)
        ++ (key_bytes h.mask key ++ masked h.mask key (payload1 ++ payload2)))

length-ext_len : (code n : ℕ) → length (ext_len code n) ≡ ext_len_size code
unfolding ext_len ext_len_size
length-ext_len code n =
    ground (arith, length-le_bytes 8 (htonll n), length-le_bytes 2 (htons (n % 2 ^ 16)))

pub length-masked : (m : Bool) (key : ℕ) (p : List ℕ) → length (masked m key p) ≡ length p
unfolding masked
length-masked true key p = length-mask_payload key p
length-masked false key p = refl

length-key_bytes : (m : Bool) (key : ℕ) → length (key_bytes m key) ≡ (if m then 4 else 0)
unfolding key_bytes
length-key_bytes true key = length-le_bytes 4 key
length-key_bytes false key = refl

pub masked_undo : (m : Bool) (key : ℕ) (p : List ℕ) → masked m key (masked m key p) ≡ p
unfolding masked
masked_undo true key p = mask_payload_undo key p
masked_undo false key p = refl

pub masked-nil : (m : Bool) (key : ℕ) → masked m key [] ≡ []
unfolding masked mask_payload
masked-nil true key = refl
masked-nil false key = refl

-- The key of an unmasked frame is not read.
pub masked_key :
    (m : Bool) (key : ℕ) (p : List ℕ) → masked m (if m then key else 0) p ≡ masked m key p
unfolding masked
masked_key true key p = refl
masked_key false key p = refl

-- The buffer is filled to its last byte and never past it.
pub length-frame_bytes :
    (h : FrameHeader) (payload : List ℕ) (key : ℕ)
    → length (frame_bytes h payload key) ≡ frame_length h (length payload)
unfolding frame_bytes frame_length header_bytes
length-frame_bytes h payload key = omega (
  arith,
  length-append {0},
  length-ext_len h.payload_len (length payload),
  length-key_bytes h.mask key,
  length-masked h.mask key payload,
)

-- Two payloads go out as their concatenation would.
pub frame_bytes_pair-append :
    (h : FrameHeader) (payload1 payload2 : List ℕ) (key : ℕ)
    → frame_bytes_pair h payload1 payload2 key ≡ frame_bytes h (payload1 ++ payload2) key
unfolding frame_bytes frame_bytes_pair
frame_bytes_pair-append h payload1 payload2 key = rw (length-append payload1 payload2)
