-- ===== src/Handshake/TextStream.antt =====
-- src/textstream.cpp: lines of a TCP connection, through a buffer.
use pico_radio.Base.{
  Bool, List, Option, [], drop, false, if◌then◌else◌, length, ltb, none, not, some, suc, take, true,
  zero, ℕ, ◌&&◌, ◌++◌, ◌+◌, ◌-◌, ◌==◌, ◌||◌, ◌∷◌,
}
use pico_radio.Socket.State.{TcpClient}
use pico_radio.Socket.Decode.{read_bytes}

-- The buffer has `bufferSize` bytes.
pub record TextStream : Type 0 where
  pub source : TcpClient
  pub buffer : List ℕ
  pub rpos : ℕ
  pub rend : ℕ
  pub rstart : ℕ
  pub end : ℕ

-- `memory` is what `pvPortMalloc` gives.
abbrev pub new_stream : List ℕ → TcpClient → TextStream
new_stream memory t = record {
  source = t;
  buffer = memory;
  rpos = 0;
  rend = 0;
  rstart = 0;
  end = 0;
}

-- `shift_buffer(buf, len, -shift)`
unfoldable pub shift_buffer : List ℕ → ℕ → List ℕ
shift_buffer buf shift = drop shift buf ++ drop (length buf - shift) buf

abbrev pub write_at : ℕ → List ℕ → List ℕ → List ℕ
write_at place bytes buf = take place buf ++ (bytes ++ drop (place + length bytes) buf)

abbrev pub is_break : ℕ → Bool
is_break c = c == b'\n' || c == b'\r'

-- How far the bytes go up to the end of a line.
abbrev pub line_length : List ℕ → ℕ
line_length [] = 0
line_length (c ∷ cs) = if is_break c then 0 else suc (line_length cs)

abbrev pub break_length : List ℕ → ℕ
break_length (c ∷ n ∷ cs) = if c == b'\r' && n == b'\n' then 2 else 1
break_length cs = 1

-- The bytes between `end` and `rend`.
abbrev pub unread : TextStream → List ℕ
unread s = take (s.rend - s.end) (drop s.end s.buffer)

abbrev pub advance : ℕ → TextStream → TextStream
advance n s = record s { end = s.end + n; rpos = s.end + n; rstart = s.end + n }

-- The line of `n` bytes before `end`, which moves behind the break that stands there.
unfoldable pub line_end : TextStream → ℕ → List ℕ → Option (List ℕ × TextStream)
line_end s n [] = none
line_end s n (c ∷ cs) =
    some
      (take (s.end + n - s.rstart) (drop s.rstart s.buffer), advance (n + break_length (c ∷ cs)) s)

-- `check_line`; `none` means that there is no end of a line up to `rend`.
unfoldable pub check_line : TextStream → Option (List ℕ × TextStream)
unfolding line_end
check_line s = let n = line_length (unread s) in line_end s n (drop n (unread s))

abbrev pub is_nil : List ℕ → Bool
is_nil [] = true
is_nil (x ∷ xs) = false

-- The stream behind a piece that was read at `rpos`.
abbrev pub load : List ℕ → TcpClient → TextStream → TextStream
load piece t s = record s {
  source = t;
  buffer = write_at s.rpos piece s.buffer;
  rstart = 0;
  rend = s.rpos + length piece;
  end = s.rpos;
}

-- One round of the loop over `readBytes`, given what was read and the rounds behind it.
unfoldable pub read_round :
    (TextStream → Option (List ℕ × TextStream))
    → TextStream
    → List ℕ × TcpClient
    → Option (List ℕ × TextStream)
unfolding check_line
read_round more s (piece, t) =
    if not s.source.connected
    then some ([], s)
    else if is_nil piece
    then some ([], record s { source = t })
    else elim (check_line (load piece t s)) [
      | some r ↦ some r
      | none ↦ more (record (load piece t s) { end = s.rpos + length piece })
    ]

-- The loop; `none` means that the fuel ran out.
unfoldable pub read_pieces : ℕ → TextStream → Option (List ℕ × TextStream)
unfolding read_bytes read_round
read_pieces zero s = none
read_pieces (suc fuel) s =
    read_round (read_pieces fuel) s (read_bytes (length s.buffer - s.rpos) s.source)

abbrev pub total : List (List ℕ) → ℕ
total [] = 0
total (c ∷ cs) = length c + total cs

-- `readLine`. Each round of its loop takes a byte at least.
unfoldable pub read_line : TextStream → Option (List ℕ × TextStream)
unfolding check_line read_pieces shift_buffer
read_line s =
    let fuel = suc (total s.source.incoming) in
    let behind = read_pieces fuel (record s { end = s.rend }) in
    let shifted =
      read_pieces fuel
        (record s { rpos = s.end - s.rstart; buffer = shift_buffer s.buffer s.rstart }) in
    if ltb s.end s.rend then elim (check_line s) [ some r ↦ some r | none ↦ behind ] else shifted
