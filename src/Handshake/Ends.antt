-- ===== src/Handshake/Ends.antt =====
-- The loops of a handshake come to an end.
use pico_radio.Base.{
  Bool, Bool-cases, List, Option, Option-cases, [], ap, arith, codes, drop, false, inl, inr, leb,
  length, length-append, length-drop, length-take, ltb, none, refl, same, some, suc, take,
  take-append-drop, true, zero, ℕ, ◌+◌, ◌-◌, ◌<◌, ◌∷◌, ◌≡◌, ◌≤◌, ◌⊎◌,
}
use pico_radio.Socket.State.{TcpClient}
use pico_radio.Socket.Decode.{read_bytes}
use pico_radio.Handshake.TextStream.{
  TextStream, advance, break_length, check_line, is_nil, line_end, line_length, load, new_stream,
  read_line, read_pieces, read_round, shift_buffer, total, unread,
}
use pico_radio.Handshake.Headers.{
  Headers, first_part, line_fuel, no_headers, read_header, read_headers, second_part,
}
use pico_radio.Handshake.Client.{Answer, initiate_handshake, judge, read_answer, rejected}
use pico_radio.Handshake.Server.{
  Choices, Outcome, answer, closed_at_once, handle_raw_connection, read_request,
}

-- The bytes that have come and have not been read.
abbrev pending : TextStream → ℕ
pending s = (s.rend - s.end) + total s.source.incoming

break_length_pos : (c : ℕ) (cs : List ℕ) → 0 < break_length (c ∷ cs)
break_length_pos c [] = omega arith
break_length_pos c (n ∷ cs) = ground arith

line_end-pending :
    (s : TextStream) (n : ℕ) (d : List ℕ) (r : List ℕ × TextStream)
    → length d ≤ s.rend - s.end
    → line_end s n d ≡ some r
    → pending r.1 < pending s
unfolding line_end
line_end-pending s n [] r h e = absurd cc
line_end-pending s n (c ∷ cs) r h e =
    let found : r ≡ (
      take (s.end + n - s.rstart) (drop s.rstart s.buffer),
      advance (n + break_length (c ∷ cs)) s,
    ) =
      cc in
    rw found (omega (arith, break_length_pos c cs))

check_line-pending :
    (s : TextStream) (r : List ℕ × TextStream) → check_line s ≡ some r → pending r.1 < pending s
unfolding check_line
check_line-pending s r e =
    let n = line_length (unread s) in
    line_end-pending s n (drop n (unread s)) r
      (omega (arith, length-drop n (unread s), length-take (s.rend - s.end) (drop s.end s.buffer)))
      e

-- There is a result, and a line that is not empty takes a byte at least.
abbrev Reads : ℕ → Option (List ℕ × TextStream) → Type 0
Reads n none = ⊥
Reads n (some (line, s)) = is_nil line ≡ false → pending s < n

read_bytes-total :
    (n : ℕ) (t : TcpClient)
    → length (read_bytes n t).0 + total (read_bytes n t).1.incoming ≡ total t.incoming
unfolding read_bytes
read_bytes-total n t = pieces t.connected t.incoming
  where
    pieces :
        (b : Bool) (l : List (List ℕ))
        → length (read_bytes n (record { connected = b; incoming = l })).0
            + total (read_bytes n (record { connected = b; incoming = l })).1.incoming
          ≡ total l
    pieces b [] = omega arith
    pieces b ([] ∷ cs) = omega arith
    pieces b ((x ∷ xs) ∷ cs) =
        let c = x ∷ xs in
        elim (Bool-cases (leb (length c) n)) [
          | inl whole ↦ rw (whole, read_bytes)
          | inr part ↦
              rw (part, read_bytes)
                (omega
                  (arith, ap length (take-append-drop n c), length-append (take n c) (drop n c)))
        ]

nil_or : (l : List ℕ) → (is_nil l ≡ true) ⊎ ((is_nil l ≡ false) × (0 < length l))
nil_or [] = inl refl
nil_or (x ∷ l) = inr (refl, omega arith)

read_round-Reads :
    (n : ℕ) (more : TextStream → Option (List ℕ × TextStream)) (s : TextStream) (piece : List ℕ)
    (t : TcpClient)
    → length piece + total t.incoming ≤ n
    → (0 < length piece → Reads n (more (record (load piece t s) { end = s.rpos + length piece })))
    → Reads n (read_round more s (piece, t))
unfolding read_round
read_round-Reads n more s piece t le rest = elim (Bool-cases s.source.connected) [
  | inr cut ↦ rw (cut, Reads) (λ e. absurd cc)
  | inl open_still ↦ elim (nil_or piece) [
    | inl nothing ↦ rw (open_still, nothing, Reads) (λ e. absurd cc)
    | inr (full, some_bytes) ↦ elim (Option-cases (check_line (load piece t s))) [
      | inl unfinished ↦ rw (open_still, full, unfinished, Reads) (rest some_bytes)
      | inr (r, found) ↦
          rw (open_still, full, found, Reads)
            (λ e. omega (arith, check_line-pending (load piece t s) r found))
    ]
  ]
]

read_pieces-Reads :
    (fuel n : ℕ) (s : TextStream)
    → total s.source.incoming < fuel
    → total s.source.incoming ≤ n
    → Reads n (read_pieces fuel s)
unfolding read_pieces
read_pieces-Reads zero n s h le = absurd (omega arith)
read_pieces-Reads (suc fuel) n s h le =
    let q = read_bytes (length s.buffer - s.rpos) s.source in
    let sum = read_bytes-total (length s.buffer - s.rpos) s.source in
    read_round-Reads n (read_pieces fuel) s q.0 q.1 (omega (arith, sum)) (λ some_bytes.
      read_pieces-Reads fuel n (record (load q.0 q.1 s) { end = s.rpos + length q.0 })
        (omega (arith, sum)) (omega (arith, sum)))

read_line-Reads : (s : TextStream) → Reads (pending s) (read_line s)
unfolding read_line
read_line-Reads s =
    let fuel = suc (total s.source.incoming) in
    elim (Bool-cases (ltb s.end s.rend)) [
      | inr empty ↦
          rw (empty, read_line)
            (read_pieces-Reads fuel (pending s)
              (record s { rpos = s.end - s.rstart; buffer = shift_buffer s.buffer s.rstart })
              (omega arith) (omega arith))
      | inl more ↦ elim (Option-cases (check_line s)) [
        | inl unfinished ↦
            rw (more, unfinished, read_line)
              (read_pieces-Reads fuel (pending s) (record s { end = s.rend }) (omega arith)
                (omega arith))
        | inr (r, found) ↦ rw (more, found, read_line, Reads) (λ e. check_line-pending s r found)
      ]
    ]

-- A result, with the fact about it that `Reads` states.
line_read :
    (s : TextStream)
    → (line : List ℕ) × (s' : TextStream) × (read_line s ≡ some (line, s'))
      × (is_nil line ≡ false → pending s' < pending s)
line_read s = elim (Option-cases (read_line s)) [
  | inl nothing ↦ absurd (rw nothing at (read_line-Reads s))
  | inr (r, e) ↦ (r.0, r.1, e, rw e at (read_line-Reads s))
]

read_headers_total :
    (fuel : ℕ) (key_name : List ℕ) (h : Headers) (s : TextStream)
    → pending s < fuel
    → (r : Headers × TextStream) × (read_headers fuel key_name h s ≡ some r)
unfolding read_headers
read_headers_total zero key_name h s lt = absurd (omega arith)
read_headers_total (suc fuel) key_name h s lt =
    let (line, s', e, less) = line_read s in
    elim (Bool-cases (is_nil line)) [
      | inl last ↦ ((read_header key_name h line, s'), rw (e, last))
      | inr on ↦
          let shorter = less on in
          let (r, done) =
            read_headers_total fuel key_name (read_header key_name h line) s'
              (omega (arith, shorter)) in
          (r, rw (e, on) done)
    ]

read_answer_total :
    (past : List ℕ) (accept_key : List ℕ → List ℕ) (key : List ℕ) (s : TextStream)
    → (a : Answer) × (read_answer past accept_key key s ≡ some a)
unfolding read_answer
read_answer_total past accept_key key s =
    let (line, s1, e, less) = line_read s in
    let (r, done) =
      read_headers_total (line_fuel s1) (codes "Sec-WebSocket-Accept") no_headers s1
        (omega arith) in
    elim (Bool-cases (same (second_part past b' ' line) (codes "101"))) [
      | inl switching ↦ (judge accept_key key r.0, rw (e, switching, done))
      | inr other ↦ (rejected, rw (e, other))
    ]

-- Whatever comes over the connection, however TCP cuts it, and whether it stays open or not, both
-- sides of the handshake come to a decision.
pub handshake_total :
    (past : List ℕ) (accept_key : List ℕ → List ℕ) (key memory : List ℕ) (sent : Bool) (c : Choices)
    (t : TcpClient)
    → ((a : Answer) × (initiate_handshake past accept_key key sent memory t ≡ some a))
      × ((o : Outcome) × (handle_raw_connection c memory t ≡ some o))
unfolding initiate_handshake handle_raw_connection read_request
handshake_total past accept_key key memory sent c t = (client sent, server)
  where
    client :
        (b : Bool) → (a : Answer) × (initiate_handshake past accept_key key b memory t ≡ some a)
    client true = read_answer_total past accept_key key (new_stream memory t)
    client false = (rejected, refl)

    server : (o : Outcome) × (handle_raw_connection c memory t ≡ some o)
    server =
        let q = read_bytes 4 t in
        let (line, s1, e, less) = line_read (new_stream memory q.1) in
        let (r, done) =
          read_headers_total (line_fuel s1) (codes "Sec-WebSocket-Key") no_headers s1
            (omega arith) in
        elim (Bool-cases (same q.0 (codes "GET "))) [
          | inl get_method ↦ (answer c (first_part b' ' line) r.0, rw (get_method, e, done))
          | inr other ↦ (closed_at_once, rw other)
        ]
