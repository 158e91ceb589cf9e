-- ===== src/Handshake/Pieces.antt =====
-- A line that TCP delivers in two pieces.
use pico_radio.Base.{
  List, ap, arith, drop, length, length-append, length-drop, refl, some, suc, ℕ, ◌++◌, ◌+◌, ◌-◌,
  ◌∙◌, ◌∷◌, ◌≡◌, ◌≤◌,
}
use pico_radio.Handshake.TextStream.{
  TextStream, advance, load, new_stream, read_line, read_pieces, total, unread, write_at,
}
use pico_radio.Handshake.Lines.{
  IsLine, after, arriving, check_line-none, check_line_lem, crlf, is_nil-crlf, read_line-new,
  read_pieces-load, read_round-none, read_round-some, unread-load,
}

length-write_at :
    (piece memory : List ℕ)
    → length piece ≤ length memory
    → length (write_at 0 piece memory) ≡ length memory
length-write_at piece memory fits = omega (
  arith,
  length-append piece (drop (0 + length piece) memory),
  length-drop (0 + length piece) memory,
)

-- Where the first line of a stream comes in two pieces, each of which fits into the buffer, the second
-- overwrites the first: `readLine` returns what the second has of the line, and the rest is lost.
pub read_line-two_pieces :
    (memory : List ℕ) (c : ℕ) (cs line rest : List ℕ) (later : List (List ℕ))
    → IsLine (c ∷ cs)
    → IsLine line
    → length (c ∷ cs) ≤ length memory
    → length (line ++ crlf rest) ≤ length memory
    → (s : TextStream) × (read_line
          (new_stream memory (arriving (c ∷ cs) ((line ++ crlf rest) ∷ later)))
        ≡ some (line, s))
read_line-two_pieces memory c cs line rest later plain plain' fits fits' =
    let first = c ∷ cs in
    let piece = line ++ crlf rest in
    let t = arriving piece later in
    let s0 = new_stream memory t in
    let s1 : TextStream = record (load first t s0) { end = 0 + length first } in
    let s2 = load piece (after later) s1 in
    let fuel = length cs + total (piece ∷ later) in
    let enough : total (first ∷ piece ∷ later) ≡ suc fuel = omega arith in
    let size = length-write_at first memory fits in
    let unbroken : IsLine (unread (load first t s0)) =
      rw (unread-load first t s0 (omega arith)) plain in
    let room : length first ≤ length memory - 0 = omega arith in
    let room' : length piece ≤ length s1.buffer - s1.rpos = omega (arith, size) in
    (
      advance (length line + 2) s2,
      read_line-new memory (arriving first (piece ∷ later))
          ∙ read_pieces-load (total (first ∷ piece ∷ later)) s0 first (piece ∷ later) refl room
          ∙ read_round-none (read_pieces (total (first ∷ piece ∷ later))) s0 first (piece ∷ later) t
              refl (check_line-none (load first t s0) unbroken)
          ∙ ap (λ n. read_pieces n s1) enough
          ∙ read_pieces-load fuel s1 piece later (is_nil-crlf line rest) room'
          ∙ read_round-some (read_pieces fuel) s1 piece later (after later)
              (line, advance (length line + 2) s2) (is_nil-crlf line rest)
              (check_line_lem s2 line rest refl plain'
                (unread-load piece (after later) s1 (omega arith))),
    )
