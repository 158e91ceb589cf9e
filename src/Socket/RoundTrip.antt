-- ===== src/Socket/RoundTrip.antt =====
-- What `sendFrame` puts on the wire, read back by the poll loop and `parseFrameHeader`.
use pico_radio.Socket.Bytes.{
  from_le-le_bytes, htonll, htonll-htonll, htonll-lt, htons, htons-htons, htons-lt, le_bytes,
  length-le_bytes,
}
use pico_radio.Socket.Header.{FitsFields, FrameHeader, len_code, parse_header-header_bytes}
use pico_radio.Socket.Encode.{
  ext_len, frame_body, frame_bytes, key_bytes, length-masked, masked, masked-nil, masked_key,
  masked_undo,
}
use pico_radio.Base.{
  Bool, Bool-cases, List, [], ap, append-nil, append_assoc, arith, drop_append, false,
  if◌then◌else◌, inl, inr, leb, length, length-append, refl, some, suc, take_append, true, ℕ, ◌%◌,
  ◌++◌, ◌<◌, ◌^◌, ◌∙◌, ◌∷◌, ◌≡◌,
}
use pico_radio.Socket.State.{Env, TcpClient}
use pico_radio.Socket.Decode.{
  next_frame, read_exact, read_frame, read_key, read_length, read_payload, valid_opcode,
}

-- A socket that will find `first`, unless it is empty, and then each of `later`.
abbrev pub pieces : List ℕ → List (List ℕ) → List (List ℕ)
pieces [] later = later
pieces (b ∷ bs) later = (b ∷ bs) ∷ later

abbrev pub arriving : List ℕ → List (List ℕ) → TcpClient
arriving first later = record { connected = true; incoming = pieces first later }

read_exact-append :
    (xs rest : List ℕ) (later : List (List ℕ))
    → 0 < length xs
    → read_exact (length xs) (arriving (xs ++ rest) later) ≡ some (xs, arriving rest later)
unfolding read_exact
read_exact-append [] rest later above_zero = absurd (omega arith)
read_exact-append (x ∷ xs) [] later above_zero = rw (append-nil xs) (ground arith)
read_exact-append (x ∷ xs) (r ∷ rest) later above_zero =
    ground
      (arith, length-append xs (r ∷ rest), take_append xs (r ∷ rest), drop_append xs (r ∷ rest))

-- The form in which the readers call it.
pub read_exact_of_length :
    (n : ℕ) (xs rest : List ℕ) (later : List (List ℕ))
    → length xs ≡ n
    → 0 < n
    → read_exact n (arriving (xs ++ rest) later) ≡ some (xs, arriving rest later)
read_exact_of_length n xs rest later e above_zero =
    rw (← e) (read_exact-append xs rest later (rw e above_zero))

module _ (rest : List ℕ) (later : List (List ℕ)) where
  -- Of a 64-bit length the receiver keeps the low 32 bits, which `size_t` holds.
  pub read_length_wide :
      (n : ℕ)
      → n < 2 ^ 64
      → read_length 127 (arriving (le_bytes 8 (htonll n) ++ rest) later)
        ≡ some (n % 2 ^ 32, arriving rest later)
  unfolding read_length
  read_length_wide n h = rw (
    read_exact_of_length 8 (le_bytes 8 (htonll n)) rest later (length-le_bytes 8 (htonll n))
        (omega arith),
    from_le-le_bytes 8 (htonll n) (htonll-lt n),
    htonll-htonll n h,
  )

  read_length_long :
      (n : ℕ)
      → n < 2 ^ 32
      → read_length 127 (arriving (le_bytes 8 (htonll n) ++ rest) later)
        ≡ some (n, arriving rest later)
  read_length_long n h =
      let whole : n % 2 ^ 32 ≡ n = omega arith in
      read_length_wide n (omega arith) ∙ ap (λ m. some (m, arriving rest later)) whole

  read_length_medium :
      (n : ℕ)
      → n < 2 ^ 16
      → read_length 126 (arriving (le_bytes 2 (htons (n % 2 ^ 16)) ++ rest) later)
        ≡ some (n, arriving rest later)
  unfolding read_length
  read_length_medium n h =
      rw
        (
          read_exact_of_length 2 (le_bytes 2 (htons (n % 2 ^ 16))) rest later
              (length-le_bytes 2 (htons (n % 2 ^ 16))) (omega arith),
          from_le-le_bytes 2 (htons (n % 2 ^ 16)) (htons-lt (n % 2 ^ 16)),
          htons-htons (n % 2 ^ 16) (omega arith),
        )
        (ground arith)

  pub read_length-ext_len :
      (n : ℕ)
      → n < 2 ^ 32
      → read_length (len_code n) (arriving (ext_len (len_code n) n ++ rest) later)
        ≡ some (n, arriving rest later)
  unfolding len_code ext_len
  read_length-ext_len n h = elim (Bool-cases (leb 65535 n)) [
    | inl long ↦ rw long (read_length_long n h)
    | inr short ↦ elim (Bool-cases (leb 126 n)) [
      | inl medium ↦ rw (short, medium) (read_length_medium n (ground arith))
      | inr tiny ↦ rw (short, tiny) (ground (arith, read_length_short n))
    ]
  ]
    where
      read_length_short :
          (n : ℕ) → n < 126 → read_length n (arriving rest later) ≡ some (n, arriving rest later)
      read_length_short n h = unfold read_length in ground arith

  pub read_key-key_bytes :
      (mask : Bool) (key : ℕ)
      → key < 2 ^ 32
      → read_key mask (arriving (key_bytes mask key ++ rest) later)
        ≡ some ((if mask then key else 0), arriving rest later)
  unfolding read_key key_bytes
  read_key-key_bytes true key h = rw (
    read_exact_of_length 4 (le_bytes 4 key) rest later (length-le_bytes 4 key) (omega arith),
    from_le-le_bytes 4 key h,
  )
  read_key-key_bytes false key h = refl

  read_payload-masked :
      (env : Env) (mask : Bool) (key : ℕ) (p : List ℕ)
      → env.alloc (length p) ≡ true
      → read_payload env mask
          (if mask then key else 0)
          (length p)
          (arriving (masked mask key p ++ rest) later)
        ≡ some (p, arriving rest later)
  unfolding read_payload
  read_payload-masked env mask key [] room = rw (masked-nil mask key)
  read_payload-masked env mask key (b ∷ bs) room =
      rw
        (
          room,
          read_exact_of_length (suc (length bs)) (masked mask key (b ∷ bs)) rest later
              (length-masked mask key (b ∷ bs)) (omega arith),
          masked_key mask key (masked mask key (b ∷ bs)),
          masked_undo mask key (b ∷ bs),
        )
        (ground arith)

-- A frame of a known kind, whose length code is that of its payload.
pub record IsSendable (h : FrameHeader) (p : List ℕ) : Type 0 where
  pub fields : FitsFields h
  pub known : valid_opcode h.opcode ≡ true
  pub code : h.payload_len ≡ len_code (length p)
  pub size : length p < 2 ^ 32

module _ (env : Env) (h : FrameHeader) (p : List ℕ) (key : ℕ) (s : IsSendable h p)
    (k : key < 2 ^ 32) (room : env.alloc (length p) ≡ true) (rest : List ℕ)
    (later : List (List ℕ)) where
  pub read_frame-frame_body :
      read_frame env h (arriving (frame_body h p key ++ rest) later) ≡ some (p, arriving rest later)
  unfolding read_frame frame_body
  read_frame-frame_body =
      rw
        (
          s.known,
          s.code,
          append_assoc (ext_len (len_code (length p)) (length p))
              (key_bytes h.mask key ++ masked h.mask key p) rest,
          append_assoc (key_bytes h.mask key) (masked h.mask key p) rest,
          read_length-ext_len (key_bytes h.mask key ++ (masked h.mask key p ++ rest)) later
              (length p) s.size,
          read_key-key_bytes (masked h.mask key p ++ rest) later h.mask key k,
        )
        (read_payload-masked rest later env h.mask key p room)

  -- A frame that arrives whole is read as it was sent: the receiver's header and payload are the
  -- sender's, and what lies behind the frame is left for the next read.
  pub next_frame-frame_bytes :
      next_frame env (arriving (frame_bytes h p key ++ rest) later)
      ≡ some (h, p, arriving rest later)
  unfolding next_frame frame_bytes
  next_frame-frame_bytes =
      let (b0, b1, bytes, back) = parse_header-header_bytes h s.fields in
      rw (
        bytes,
        read_exact_of_length 2 (b0 ∷ b1 ∷ []) (frame_body h p key ++ rest) later refl (omega arith),
        back,
        read_frame-frame_body,
      )
