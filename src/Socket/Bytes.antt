-- ===== src/Socket/Bytes.antt =====
-- Numbers in memory: the target is little-endian, and the byte-order functions of src/websocket.cpp
-- swap bytes.
use native.Mathlib.Nat.{pow-suc}
use pico_radio.Base.{
  All, List, [], ap, arith, length, refl, suc, zero, ℕ, ◌%◌, ◌*◌, ◌+◌, ◌/◌, ◌<◌, ◌^◌, ◌∷◌, ◌≡◌,
}

abbrev pub IsBytes : List ℕ → Type 0
IsBytes = All (λ b. b < 256)

-- The `n` bytes at the address of an integer, lowest first.
unfoldable pub le_bytes : ℕ → ℕ → List ℕ
le_bytes zero x = []
le_bytes (suc n) x = (x % 256) ∷ le_bytes n (x / 256)

-- The integer that `memcpy` or `readBytes` leaves at an address.
unfoldable pub from_le : List ℕ → ℕ
from_le [] = 0
from_le (b ∷ bs) = b + 256 * from_le bs

-- Network order, highest byte first.
unfoldable pub be_bytes : ℕ → ℕ → List ℕ
unfolding le_bytes
be_bytes n x = reverse_onto (le_bytes n x) []
  where
    reverse_onto : List ℕ → List ℕ → List ℕ
    reverse_onto [] acc = acc
    reverse_onto (b ∷ bs) acc = reverse_onto bs (b ∷ acc)

-- `htons` and `ntohs` of a 16-bit integer, `htonl` and `ntohl` of a 32-bit one.
unfoldable pub htons : ℕ → ℕ
htons x = x % 256 * 256 + x / 256 % 256

unfoldable pub htonl : ℕ → ℕ
htonl x = x % 256 * 2 ^ 24 + x / 2 ^ 8 % 256 * 2 ^ 16 + x / 2 ^ 16 % 256 * 2 ^ 8 + x / 2 ^ 24 % 256

-- The macro for 64 bits: each half is swapped, and the halves change places.
unfoldable pub htonll : ℕ → ℕ
htonll x = htonl (x % 2 ^ 32) * 2 ^ 32 + htonl (x / 2 ^ 32)

pub length-le_bytes : (n x : ℕ) → length (le_bytes n x) ≡ n
unfolding le_bytes
length-le_bytes zero x = refl
length-le_bytes (suc n) x = ap suc (length-le_bytes n (x / 256))

pub le_bytes-IsBytes : (n x : ℕ) → IsBytes (le_bytes n x)
unfolding le_bytes
le_bytes-IsBytes zero x = tt
le_bytes-IsBytes (suc n) x = (omega arith, le_bytes-IsBytes n (x / 256))

pub from_le-le_bytes : (n x : ℕ) → x < 256 ^ n → from_le (le_bytes n x) ≡ x
unfolding le_bytes from_le
from_le-le_bytes zero x h = omega arith
from_le-le_bytes (suc n) x h =
    omega (arith, from_le-le_bytes n (x / 256) (omega (arith, pow-suc 256 n)))

pub htons-htons : (x : ℕ) → x < 2 ^ 16 → htons (htons x) ≡ x
unfolding htons
htons-htons x h = omega arith

htonl-lt : (x : ℕ) → htonl x < 2 ^ 32
unfolding htonl
htonl-lt x = omega arith

htonl-htonl : (x : ℕ) → x < 2 ^ 32 → htonl (htonl x) ≡ x
unfolding htonl
htonl-htonl x h = omega arith

pub htons-lt : (x : ℕ) → htons x < 256 ^ 2
unfolding htons
htons-lt x = omega arith

pub htonll-lt : (x : ℕ) → htonll x < 256 ^ 8
unfolding htonll
htonll-lt x = omega (arith, htonl-lt (x % 2 ^ 32), htonl-lt (x / 2 ^ 32))

pub htonll-htonll : (x : ℕ) → x < 2 ^ 64 → htonll (htonll x) ≡ x
unfolding htonll
htonll-htonll x h =
    rw
      (
        high_half,
        low_half,
        htonl-htonl (x % 2 ^ 32) (omega arith),
        htonl-htonl (x / 2 ^ 32) (omega arith),
      )
      (omega arith)
  where
    high_half : (htonl (x % 2 ^ 32) * 2 ^ 32 + htonl (x / 2 ^ 32)) / 2 ^ 32 ≡ htonl (x % 2 ^ 32)
    high_half = omega (arith, htonl-lt (x / 2 ^ 32))

    low_half : (htonl (x % 2 ^ 32) * 2 ^ 32 + htonl (x / 2 ^ 32)) % 2 ^ 32 ≡ htonl (x / 2 ^ 32)
    low_half = omega (arith, htonl-lt (x / 2 ^ 32))

-- A length is on the wire in network order.
pub le_bytes-htons : (x : ℕ) → x < 2 ^ 16 → le_bytes 2 (htons x) ≡ be_bytes 2 x
unfolding le_bytes be_bytes htons
le_bytes-htons x h = ground arith

pub le_bytes-htonll : (x : ℕ) → x < 2 ^ 64 → le_bytes 8 (htonll x) ≡ be_bytes 8 x
unfolding le_bytes be_bytes htonll htonl
le_bytes-htonll x h = ground arith
