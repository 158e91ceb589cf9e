-- ===== src/Handshake/Lines.antt =====
-- Lines that lie in the buffer of a `TextStream`.
use pico_radio.Base.{
  All, List, Option, [], ap, append-nil, ap₂, arith, drop, drop-drop, drop_append, false, leb,
  length, length-append, length-take, ltb, none, refl, some, suc, sym, take, take_append, true,
  zero, ℕ, ◌++◌, ◌+◌, ◌-◌, ◌<◌, ◌∙◌, ◌∷◌, ◌≡◌, ◌≤◌,
}
use pico_radio.Socket.State.{TcpClient}
use pico_radio.Socket.Decode.{read_bytes}
use pico_radio.Handshake.TextStream.{
  TextStream, advance, check_line, is_break, is_nil, line_end, line_length, load, new_stream,
  read_line, read_pieces, read_round, shift_buffer, total, unread,
}

-- A line has no line breaks.
abbrev pub IsLine : List ℕ → Type 0
IsLine line = All (λ c. is_break c ≡ false) line

abbrev pub crlf : List ℕ → List ℕ
crlf rest = b'\r' ∷ b'\n' ∷ rest

take_nil : {A : Type 0} (n : ℕ) → take {A = A} n [] ≡ []
take_nil zero = refl
take_nil (suc n) = refl

drop-take : {A : Type 0} (k n : ℕ) (xs : List A) → drop k (take n xs) ≡ take (n - k) (drop k xs)
drop-take zero n xs = ap (λ m. take m xs) (omega arith)
drop-take (suc k) zero xs =
    let e : 0 - suc k ≡ 0 = omega arith in ap (λ m. take m (drop (suc k) xs)) (sym e)
drop-take (suc k) (suc n) [] = sym (take_nil (suc n - suc k))
drop-take (suc k) (suc n) (x ∷ xs) =
    let e : suc n - suc k ≡ n - k = omega arith in
    drop-take k n xs ∙ ap (λ m. take m (drop k xs)) (sym e)

take_of_take :
    {A : Type 0} (n : ℕ) (xs ys zs : List A) → take n xs ≡ ys ++ zs → take (length ys) xs ≡ ys
take_of_take n xs [] zs e = refl
take_of_take zero xs (y ∷ ys) zs e = absurd cc
take_of_take (suc n) [] (y ∷ ys) zs e = absurd cc
take_of_take (suc n) (x ∷ xs) (y ∷ ys) zs e =
    let head : x ≡ y = cc in
    let tail : take n xs ≡ ys ++ zs = cc in ap₂ ◌∷◌ head (take_of_take n xs ys zs tail)

line_length_lem : (line rest : List ℕ) → IsLine line → line_length (line ++ crlf rest) ≡ length line
line_length_lem [] rest h = refl
line_length_lem (c ∷ line) rest h = rw h.0 (ap suc (line_length_lem line rest h.1))

pub unread-advance : (k : ℕ) (s : TextStream) → unread (advance k s) ≡ drop k (unread s)
unread-advance k s =
    let e : s.rend - (s.end + k) ≡ s.rend - s.end - k = omega arith in
    ap (λ m. take m (drop (s.end + k) s.buffer)) e
    ∙ ap (take (s.rend - s.end - k)) (sym (drop-drop k s.end s.buffer))
    ∙ sym (drop-take k (s.rend - s.end) (drop s.end s.buffer))

pub check_line_lem :
    (s : TextStream) (line rest : List ℕ)
    → s.rstart ≡ s.end
    → IsLine line
    → unread s ≡ line ++ crlf rest
    → check_line s ≡ some (line, advance (length line + 2) s)
unfolding check_line
check_line_lem s line rest fresh plain e =
    let n : line_length (unread s) ≡ length line =
      ap line_length e ∙ line_length_lem line rest plain in
    let there : drop (line_length (unread s)) (unread s) ≡ crlf rest =
      ap₂ (λ k l. drop k l) n e ∙ drop_append line (crlf rest) in
    let text : take (length line) (drop s.rstart s.buffer) ≡ line =
      ap (λ k. take (length line) (drop k s.buffer)) fresh
      ∙ take_of_take (s.rend - s.end) (drop s.end s.buffer) line (crlf rest) e in
    let whole : s.end + length line - s.rstart ≡ length line = omega arith in
    ap₂ (line_end s) n there
    ∙ ap (λ l. some (l, advance (length line + 2) s))
        (ap (λ k. take k (drop s.rstart s.buffer)) whole ∙ text)

-- What is in the buffer and has not been read.
pub record Holds (s : TextStream) (text : List ℕ) : Type 0 where
  pub fresh : s.rstart ≡ s.end
  pub behind : unread s ≡ text

pub Holds-advance :
    (s : TextStream) (line rest : List ℕ)
    → Holds s (line ++ crlf rest)
    → Holds (advance (length line + 2) s) rest
Holds-advance s line rest h = record {
  fresh = refl;
  behind =
      unread-advance (length line + 2) s
      ∙ ap (drop (length line + 2)) h.behind
      ∙ sym (drop-drop 2 (length line) (line ++ crlf rest))
      ∙ ap (drop 2) (drop_append line (crlf rest));
}

-- A line that is in the buffer is read, and what is behind it stays.
pub read_line-Holds :
    (s : TextStream) (line rest : List ℕ)
    → IsLine line
    → Holds s (line ++ crlf rest)
    → read_line s ≡ some (line, advance (length line + 2) s)
unfolding read_line
read_line-Holds s line rest plain h =
    let some_left : s.end < s.rend = omega (
      arith,
      ap length h.behind,
      length-append line (crlf rest),
      length-take (s.rend - s.end) (drop s.end s.buffer),
    ) in
    let test : ltb s.end s.rend ≡ true = ground (arith, some_left) in
    rw (test, read_line, check_line_lem s line rest h.fresh plain h.behind)

drop-length-append : {A : Type 0} (n : ℕ) (xs ys : List A) → length xs ≡ n → drop n (xs ++ ys) ≡ ys
drop-length-append n xs ys e = ap (λ k. drop k (xs ++ ys)) (sym e) ∙ drop_append xs ys

pub unread-load :
    (piece : List ℕ) (t : TcpClient) (s : TextStream)
    → s.rpos ≤ length s.buffer
    → unread (load piece t s) ≡ piece
unread-load piece t s inside =
    let tail = drop (s.rpos + length piece) s.buffer in
    let n : s.rpos + length piece - s.rpos ≡ length piece = omega arith in
    let front : length (take s.rpos s.buffer) ≡ s.rpos =
      omega (arith, length-take s.rpos s.buffer) in
    ap₂ (λ k l. take k l) n (drop-length-append s.rpos (take s.rpos s.buffer) (piece ++ tail) front)
    ∙ take_append piece tail

-- A connection on which this piece has come, and then others.
abbrev pub arriving : List ℕ → List (List ℕ) → TcpClient
arriving piece later = record { connected = true; incoming = piece ∷ later }

abbrev pub after : List (List ℕ) → TcpClient
after later = record { connected = true; incoming = later }

pub read_pieces-load :
    (fuel : ℕ) (s : TextStream) (piece : List ℕ) (later : List (List ℕ))
    → is_nil piece ≡ false
    → length piece ≤ length s.buffer - s.rpos
    → read_pieces (suc fuel) (record s { source = arriving piece later })
      ≡ read_round
          (read_pieces fuel)
          (record s { source = arriving piece later })
          (piece, after later)
unfolding read_pieces
read_pieces-load fuel s [] later full fits = absurd cc
read_pieces-load fuel s (x ∷ xs) later full fits =
    let piece = x ∷ xs in
    let room : leb (length piece) (length s.buffer - s.rpos) ≡ true = ground (arith, fits) in
    let got : read_bytes (length s.buffer - s.rpos) (arriving piece later) ≡ (piece, after later) =
      unfold read_bytes in rw room in
    ap (read_round (read_pieces fuel) (record s { source = arriving piece later })) got

pub read_round-some :
    (more : TextStream → Option (List ℕ × TextStream)) (s : TextStream) (piece : List ℕ)
    (later : List (List ℕ)) (t : TcpClient) (r : List ℕ × TextStream)
    → is_nil piece ≡ false
    → check_line (load piece t s) ≡ some r
    → read_round more (record s { source = arriving piece later }) (piece, t) ≡ some r
unfolding read_round
read_round-some more s piece later t r full e = rw (full, e)

pub read_round-none :
    (more : TextStream → Option (List ℕ × TextStream)) (s : TextStream) (piece : List ℕ)
    (later : List (List ℕ)) (t : TcpClient)
    → is_nil piece ≡ false
    → check_line (load piece t s) ≡ none
    → read_round more (record s { source = arriving piece later }) (piece, t)
      ≡ more (record (load piece t s) { end = s.rpos + length piece })
unfolding read_round
read_round-none more s piece later t full e = rw (full, e)

pub is_nil-crlf : (line rest : List ℕ) → is_nil (line ++ crlf rest) ≡ false
is_nil-crlf [] rest = refl
is_nil-crlf (c ∷ line) rest = refl

pub check_line-none : (s : TextStream) → IsLine (unread s) → check_line s ≡ none
unfolding check_line line_end
check_line-none s plain =
    ap (line_end s (line_length (unread s)))
      (ap (λ k. drop k (unread s)) (line_length-IsLine (unread s) plain) ∙ drop_whole (unread s))
  where
    drop_whole : (l : List ℕ) → drop (length l) l ≡ []
    drop_whole [] = refl
    drop_whole (x ∷ l) = drop_whole l

    line_length-IsLine : (l : List ℕ) → IsLine l → line_length l ≡ length l
    line_length-IsLine [] h = refl
    line_length-IsLine (x ∷ l) h = rw h.0 (ap suc (line_length-IsLine l h.1))

drop_whole : (l : List ℕ) → drop (length l - 0) l ≡ []
drop_whole l = let e : length l - 0 ≡ length l = omega arith in ap (λ k. drop k l) e ∙ none_left l
  where
    none_left : (m : List ℕ) → drop (length m) m ≡ []
    none_left [] = refl
    none_left (x ∷ m) = none_left m

-- Nothing is shifted in a new stream.
pub read_line-new :
    (memory : List ℕ) (t : TcpClient)
    → read_line (new_stream memory t) ≡ read_pieces (suc (total t.incoming)) (new_stream memory t)
unfolding read_line shift_buffer
read_line-new memory t =
    ap (λ b. read_pieces (suc (total t.incoming)) (new_stream b t))
      (ap (λ l. memory ++ l) (drop_whole memory) ∙ append-nil memory)

-- The first line of a new stream, where it comes in a piece that fits into the buffer.
pub read_line-piece :
    (memory line rest : List ℕ) (later : List (List ℕ))
    → IsLine line
    → length (line ++ crlf rest) ≤ length memory
    → let s = load (line ++ crlf rest) (after later) (new_stream memory (after later)) in
      (read_line (new_stream memory (arriving (line ++ crlf rest) later))
        ≡ some (line, advance (length line + 2) s))
      × Holds (advance (length line + 2) s) rest
read_line-piece memory line rest later plain fits =
    let piece = line ++ crlf rest in
    let s0 = new_stream memory (after later) in
    let s = load piece (after later) s0 in
    let held : Holds s piece = record {
      fresh = refl;
      behind = unread-load piece (after later) s0 (omega arith);
    } in
    let room : length piece ≤ length memory - 0 = omega arith in
    (
      read_line-new memory (arriving piece later)
          ∙ read_pieces-load (total (piece ∷ later)) s0 piece later (is_nil-crlf line rest) room
          ∙ read_round-some (read_pieces (total (piece ∷ later))) s0 piece later (after later)
              (line, advance (length line + 2) s) (is_nil-crlf line rest)
              (check_line_lem s line rest refl plain held.behind),
      Holds-advance s line rest held,
    )
