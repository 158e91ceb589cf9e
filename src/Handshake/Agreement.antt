-- ===== src/Handshake/Agreement.antt =====
-- What client and server make of a handshake that comes in one piece.
use pico_radio.Base.{
  All, Bool-cases, List, [], ap, arith, codes, drop, false, if◌then◌else◌, inl, inr, length,
  length-append, length-take, refl, same, some, suc, true, zero, ℕ, ◌++◌, ◌+◌, ◌-◌, ◌<◌, ◌∷◌, ◌≡◌,
  ◌≤◌,
}
use pico_radio.Handshake.TextStream.{TextStream, advance, is_nil, load, new_stream}
use pico_radio.Handshake.Headers.{
  Headers, first_part, header_of, line_fuel, no_headers, read_header, read_headers, second_part,
  split_at,
}
use pico_radio.Handshake.Lines.{
  Holds, Holds-advance, IsLine, after, arriving, crlf, read_line-Holds, read_line-piece,
}
use pico_radio.Handshake.Client.{initiate_handshake, judge, read_answer, rejected}
use pico_radio.Handshake.Server.{Choices, answer, read_request}

-- Header lines, the empty line behind them, and what follows.
abbrev pub text_of : List (List ℕ) → List ℕ → List ℕ
text_of [] rest = crlf rest
text_of (line ∷ lines) rest = line ++ crlf (text_of lines rest)

abbrev pub IsHeader : List ℕ → Type 0
IsHeader line = (is_nil line ≡ false) × IsLine line

-- What the lines amount to, with no stream.
abbrev pub headers_of : List ℕ → Headers → List (List ℕ) → Headers
headers_of key_name h [] = h
headers_of key_name h (line ∷ lines) = headers_of key_name (read_header key_name h line) lines

length-text_of :
    (lines : List (List ℕ)) (rest : List ℕ) → length lines < length (text_of lines rest)
length-text_of [] rest = omega arith
length-text_of (line ∷ lines) rest =
    omega (arith, length-text_of lines rest, length-append line (crlf (text_of lines rest)))

read_headers_lem :
    (fuel : ℕ) (key_name : List ℕ) (h : Headers) (s : TextStream) (lines : List (List ℕ))
    (rest : List ℕ)
    → length lines < fuel
    → All IsHeader lines
    → Holds s (text_of lines rest)
    → (s' : TextStream) × (read_headers fuel key_name h s ≡ some (headers_of key_name h lines, s'))
unfolding read_headers
read_headers_lem zero key_name h s lines rest enough plain held = absurd (omega arith)
read_headers_lem (suc fuel) key_name h s [] rest enough plain held = (
  advance (0 + 2) s,
  rw (read_line-Holds s [] rest tt held) (unfold read_header header_of split_at in refl),
)
read_headers_lem (suc fuel) key_name h s (line ∷ lines) rest enough plain held =
    let next = text_of lines rest in
    let (s', e) =
      read_headers_lem fuel key_name (read_header key_name h line) (advance (length line + 2) s)
        lines rest (omega arith) plain.1 (Holds-advance s line next held) in
    (s', rw (read_line-Holds s line next plain.0.1 held, plain.0.0) e)

-- The headers behind the first line of a stream that has come in one piece.
read_headers-piece :
    (key_name : List ℕ) (s : TextStream) (lines : List (List ℕ)) (rest : List ℕ)
    → All IsHeader lines
    → Holds s (text_of lines rest)
    → (s' : TextStream) × (read_headers (line_fuel s) key_name no_headers s
        ≡ some (headers_of key_name no_headers lines, s'))
read_headers-piece key_name s lines rest plain held =
    read_headers_lem (line_fuel s) key_name no_headers s lines rest
      (omega (
        arith,
        length-text_of lines rest,
        ap length held.behind,
        length-take (s.rend - s.end) (drop s.end s.buffer),
      ))
      plain held

-- The client's decision on an answer that comes in one piece and fits into the stream's buffer is
-- that on its lines.
pub initiate_handshake-lines :
    (past : List ℕ) (accept_key : List ℕ → List ℕ) (key memory line : List ℕ)
    (lines : List (List ℕ)) (rest : List ℕ) (later : List (List ℕ))
    → IsLine line
    → All IsHeader lines
    → length (text_of (line ∷ lines) rest) ≤ length memory
    → initiate_handshake past accept_key key true memory
        (arriving (text_of (line ∷ lines) rest) later)
      ≡ some (
          if same (second_part past b' ' line) (codes "101")
          then judge accept_key key (headers_of (codes "Sec-WebSocket-Accept") no_headers lines)
          else rejected)
unfolding initiate_handshake read_answer
initiate_handshake-lines past accept_key key memory line lines rest later plain plain' fits =
    let first = read_line-piece memory line (text_of lines rest) later plain fits in
    let s1 =
      advance (length line + 2)
        (load (text_of (line ∷ lines) rest) (after later) (new_stream memory (after later))) in
    let (s2, e) = read_headers-piece (codes "Sec-WebSocket-Accept") s1 lines rest plain' first.1 in
    elim (Bool-cases (same (second_part past b' ' line) (codes "101"))) [
      | inl ok ↦ rw (first.0, ok, e) refl
      | inr other ↦ rw (first.0, other) refl
    ]

-- The server's decision on a request whose method has been read.
pub read_request-lines :
    (c : Choices) (memory line : List ℕ) (lines : List (List ℕ)) (rest : List ℕ)
    (later : List (List ℕ))
    → IsLine line
    → All IsHeader lines
    → length (text_of (line ∷ lines) rest) ≤ length memory
    → read_request c (new_stream memory (arriving (text_of (line ∷ lines) rest) later))
      ≡ some (
          answer c (first_part b' ' line) (headers_of (codes "Sec-WebSocket-Key") no_headers lines))
unfolding read_request
read_request-lines c memory line lines rest later plain plain' fits =
    let first = read_line-piece memory line (text_of lines rest) later plain fits in
    let s1 =
      advance (length line + 2)
        (load (text_of (line ∷ lines) rest) (after later) (new_stream memory (after later))) in
    let (s2, e) = read_headers-piece (codes "Sec-WebSocket-Key") s1 lines rest plain' first.1 in
    rw (first.0, e) refl
