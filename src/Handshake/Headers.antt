-- ===== src/Handshake/Headers.antt =====
-- The lines of a handshake's headers, which client and server read in the same way.
use pico_radio.Base.{
  Bool, List, Option, [], codes, false, if◌then◌else◌, none, same, some, suc, true, zero, ℕ, ◌&&◌,
  ◌+◌, ◌-◌, ◌==◌, ◌>>=◌, ◌∷◌,
}
use pico_radio.Handshake.TextStream.{TextStream, is_nil, read_line, total}

-- The text before and behind the first such character.
unfoldable pub split_at : ℕ → List ℕ → Option (List ℕ × List ℕ)
split_at c [] = none
split_at c (x ∷ xs) =
    let more = split_at c xs in
    if x == c then some ([], xs) else (do (before, behind) ← more; some (x ∷ before, behind))

-- The first part of `std::views::split` at a character.
unfoldable pub first_part : ℕ → List ℕ → List ℕ
unfolding split_at
first_part c text = elim (split_at c text) [ none ↦ text | some (before, behind) ↦ before ]

-- Its second part. Where there is none, the source goes on behind the end of the view, and `past` is
-- what it finds there.
unfoldable pub second_part : List ℕ → ℕ → List ℕ → List ℕ
unfolding split_at first_part
second_part past c text = elim (split_at c text) [
  | none ↦ past
  | some (before, behind) ↦ first_part c behind
]

-- The name and the value of a header.
unfoldable pub header_of : List ℕ → Option (List ℕ × List ℕ)
unfolding split_at
header_of line = do
  (name, behind) ← split_at b':' line
  elim (split_at b' ' behind) [
    | none ↦ some (name, behind)
    | some (skipped, value) ↦ some (name, value)
  ]

pub record Headers : Type 0 where
  pub connection : Bool
  pub upgrade : Bool
  pub key : List ℕ
  pub protocol : List ℕ

abbrev pub no_headers : Headers
no_headers = record { connection = false; upgrade = false; key = []; protocol = [] }

-- What one line changes; the server and the client look for the key under different names.
unfoldable pub read_header : List ℕ → Headers → List ℕ → Headers
unfolding header_of
read_header key_name h line = elim (header_of line) [
  | none ↦ h
  | some (name, value) ↦
      if same name (codes "Connection") && same value (codes "Upgrade")
      then record h { connection = true }
      else if same name (codes "Upgrade") && same value (codes "websocket")
      then record h { upgrade = true }
      else if same name key_name
      then record h { key = value }
      else if same name (codes "Sec-WebSocket-Protocol")
      then record h { protocol = value }
      else h
]

-- `do … while (!line.empty())`; `none` means that the fuel ran out.
unfoldable pub read_headers : ℕ → List ℕ → Headers → TextStream → Option (Headers × TextStream)
unfolding read_line read_header
read_headers zero key_name h s = none
read_headers (suc fuel) key_name h s = do
  (line, s') ← read_line s
  let h' = read_header key_name h line
  let more = read_headers fuel key_name h' s'
  if is_nil line then some (h', s') else more

-- Each line but the last takes a byte at least.
abbrev pub line_fuel : TextStream → ℕ
line_fuel s = suc ((s.rend - s.end) + total s.source.incoming)
