-- ===== src/Examples/Sockets.antt =====
-- The theorems on the WebSocket at concrete inputs.
use pico_radio.Base.{
  All, List, [], ap, arith, codes, drop, drop_append, false, inl, length, length-append, none, refl,
  some, suc, sym, take, true, zero, ℕ, ◌%◌, ◌++◌, ◌+◌, ◌<◌, ◌^◌, ◌∙◌, ◌∷◌, ◌≡◌, ◌≢◌,
}
use pico_radio.Socket.OpCode
use pico_radio.Socket.Bytes.{htonll, le_bytes}
use pico_radio.Socket.Header.{len_code}
use pico_radio.Socket.Encode.{
  ext_len, frame_bytes, frame_bytes_pair, frame_bytes_pair-append, key_bytes, masked,
}
use pico_radio.Socket.State.{WebSocket, closed, disconnect, is_connected, masking_key, received}
use pico_radio.Socket.Decode.{next_frame, read_length, valid_opcode}
use pico_radio.Socket.RoundTrip.{IsSendable, arriving, next_frame-frame_bytes, read_length_wide}
use pico_radio.Socket.Send.{binary, fragment_size, opcode_of, send, text}
use pico_radio.Socket.Send.Plan.{OutFrame, fragment_size_pos, plan, send-plan, send_all}
use pico_radio.Socket.Send.Content.{message}
use pico_radio.Socket.Receive.{handle_frame, parse_frame, poll}
use pico_radio.Socket.Receive.Fragments.{deliver, deliver-series, delivered, fragment_events}
use pico_radio.Socket.Receive.Memory.{deliver-Follows, stray_continuation}
use pico_radio.Socket.Closing.{IsLinked, close_answered, close_by_peer, close_header}
use pico_radio.Socket.Arrival.{parse_frame_short}
use pico_radio.Socket.Frames.{IsPacket, plan-IsPacket}
use pico_radio.Socket.EndToEnd.{IsReliable, packets, reading, sent_by}
use pico_radio.Socket.Delivery.{first_copies, send-poll, send-poll_long}
use pico_radio.Examples.{closing_socket, env, header, hello, link, socket}

reliable : IsReliable env
reliable = record {
  free = λ n. refl;
  takes = λ n b. refl;
  key = λ n. omega arith;
  memory = λ n. refl;
}

linked : IsLinked env socket
linked = record { client = link; attached = refl; connected = refl; free = refl }

sendable : IsSendable (header OpCode.text_frame 5) hello
unfolding valid_opcode len_code
sendable = record {
  fields = (omega arith, omega arith);
  known = refl;
  code = refl;
  size = omega arith;
}

abbrev one_frame : OutFrame
one_frame = record { header = header OpCode.text_frame 5; payload = hello }

abbrev first_part : OutFrame
first_part = record {
  header = record (header OpCode.text_frame 2) { fin = false };
  payload = codes "he";
}

abbrev last_part : OutFrame
last_part = record { header = header OpCode.continuation_frame 3; payload = codes "llo" }

send-poll_example :
    (send env text hello (sent_by env reliable socket link [] 0)
      ≡ some (
        true,
        sent_by env reliable socket link
            (packets env true 0 (plan socket text hello))
            (0 + length (plan socket text hello)),
      ))
    × (poll env
          (length (plan socket text hello))
          (reading socket (packets env true 0 (plan socket text hello)))
        ≡ some (
            reading
              (delivered env socket OpCode.text_frame refl hello
                (fragment_events OpCode.text_frame [] (plan socket text hello)))
              []))
unfolding opcode_of
send-poll_example =
    send-poll env env reliable reliable socket socket link refl text hello 0 refl
      (unfold fragment_size in omega arith)

send-plan_example : send env binary hello socket ≡ send_all env (plan socket binary hello) socket
send-plan_example = send-plan env binary hello socket (unfold is_connected in refl)

next_frame_example :
    next_frame env (arriving (frame_bytes (header OpCode.text_frame 5) hello 1025 ++ []) [])
    ≡ some (header OpCode.text_frame 5, hello, arriving [] [])
next_frame_example =
    next_frame-frame_bytes env (header OpCode.text_frame 5) hello 1025 sendable (omega arith) refl
      [] []

deliver-series_example :
    deliver env (first_part ∷ last_part ∷ []) socket
    ≡ some (
        delivered env socket OpCode.text_frame refl (message (first_part ∷ last_part ∷ [])) (
          received true OpCode.text_frame (codes "he")
          ∷ fragment_events OpCode.text_frame (codes "he") (last_part ∷ [])))
deliver-series_example =
    deliver-series env socket OpCode.text_frame refl first_part (last_part ∷ []) refl
      (λ e. omega (arith, e)) refl (refl, refl)

abbrev zeros : ℕ → List ℕ
zeros zero = []
zeros (suc n) = 0 ∷ zeros n

length-zeros : (n : ℕ) → length (zeros n) ≡ n
length-zeros zero = refl
length-zeros (suc n) = ap suc (length-zeros n)

-- A fragment of zeros, and then a 1 and as many zeros.
abbrev two_and_more : ℕ → List ℕ
two_and_more f = zeros f ++ 1 ∷ zeros f

take-two_and_more : (f : ℕ) → 0 < f → take f (drop f (two_and_more f)) ≢ take f (two_and_more f)
take-two_and_more zero size = λ e. omega (arith, size)
take-two_and_more (suc m) size = λ e.
    let rest : drop (suc m) (two_and_more (suc m)) ≡ 1 ∷ zeros (suc m) =
      ap (λ k. drop k (two_and_more (suc m))) (sym (length-zeros (suc m)))
      ∙ drop_append (zeros (suc m)) (1 ∷ zeros (suc m)) in
    let clash : 1 ∷ take m (zeros (suc m)) ≡ 0 ∷ take m (zeros m ++ 1 ∷ zeros (suc m)) =
      sym (ap (take (suc m)) rest) ∙ e in
    absurd cc

abbrev long_message : List ℕ
long_message = two_and_more (fragment_size true)

send-poll_long_example :
    (send env text long_message (sent_by env reliable socket link [] 0)
      ≡ some (
        true,
        sent_by env reliable socket link
            (packets env true 0 (plan socket text long_message))
            (0 + length (plan socket text long_message)),
      ))
    × (poll env
          (length (plan socket text long_message))
          (reading socket (packets env true 0 (plan socket text long_message)))
        ≡ some (
            reading
              (delivered env socket OpCode.text_frame refl
                (first_copies socket text long_message)
                (fragment_events OpCode.text_frame [] (plan socket text long_message)))
              []))
    × (first_copies socket text long_message ≢ long_message)
unfolding opcode_of
send-poll_long_example =
    send-poll_long env env reliable reliable socket socket link refl text long_message 0 refl
      (omega (
        arith,
        length-append (zeros (fragment_size true)) (1 ∷ zeros (fragment_size true)),
        length-zeros (fragment_size true),
      ))
      (take-two_and_more (fragment_size true) (fragment_size_pos true))

plan-IsPacket_example : All IsPacket (plan socket text hello)
plan-IsPacket_example = plan-IsPacket socket text hello

deliver-Follows_example :
    (s' : WebSocket) × (deliver env (one_frame ∷ first_part ∷ last_part ∷ []) socket ≡ some s')
deliver-Follows_example =
    deliver-Follows env socket (one_frame ∷ first_part ∷ last_part ∷ [])
      (inl refl, (inl refl, (refl, tt)))

stray_continuation_example : deliver env (one_frame ∷ last_part ∷ []) socket ≡ none
stray_continuation_example =
    stray_continuation env socket (header OpCode.text_frame 5) (header OpCode.continuation_frame 3)
      b'h' (codes "ello") (codes "llo") refl (refl, inl refl) refl

close_by_peer_example :
    (s' : WebSocket) × (handle_frame env
        (header OpCode.connection_close 4)
        (3 ∷ 232 ∷ codes "ok")
        socket
      ≡ some s')
    × (s'.wire
        ≡ frame_bytes
            (close_header socket (codes "ok"))
            (3 ∷ 232 ∷ codes "ok")
            (masking_key env socket)
          ∷ [])
    × (s'.events ≡ [])
    × (s'.tcp ≡ none)
    × (s'.gracefully_closed ≡ true)
    × (s'.close_frame_sent ≡ true)
close_by_peer_example =
    close_by_peer env socket linked (header OpCode.connection_close 4) refl refl 3 232 (omega arith)
      (omega arith) (codes "ok") refl

close_answered_example :
    (s' : WebSocket) × (handle_frame env
        (header OpCode.connection_close 4)
        (3 ∷ 232 ∷ codes "ok")
        closing_socket
      ≡ some s')
    × (s'.events ≡ closed 1000 (codes "ok") ∷ [])
    × (s'.wire ≡ [])
    × (s'.tcp ≡ none)
    × (s'.gracefully_closed ≡ true)
close_answered_example =
    close_answered env closing_socket
      (record { client = link; attached = refl; connected = refl; free = refl })
      (header OpCode.connection_close 4) refl refl 3 232 (omega arith) (omega arith) (codes "ok")
      refl refl

parse_frame_short_example :
    parse_frame env
      (record (header OpCode.text_frame 5) { mask = false })
      (record socket {
        tcp = some (
            arriving
              (ext_len (len_code (length hello)) (length hello)
                ++ (key_bytes false 0 ++ codes "he"))
              (codes "llo" ∷ []));
      })
    ≡ some (
        disconnect (record socket {
          tcp = some (
              arriving
                (ext_len (len_code (length hello)) (length hello)
                  ++ (key_bytes false 0 ++ codes "he"))
                (codes "llo" ∷ []));
        }))
unfolding valid_opcode len_code
parse_frame_short_example =
    parse_frame_short env (record (header OpCode.text_frame 5) { mask = false }) hello 0
      (record {
        fields = (omega arith, omega arith);
        known = refl;
        code = refl;
        size = omega arith;
      })
      (omega arith) (codes "he") (codes "llo") (unfold masked in refl) (omega arith) (omega arith)
      []
      (record socket {
        tcp = some (
            arriving
              (ext_len (len_code (length hello)) (length hello)
                ++ (key_bytes false 0 ++ codes "he"))
              (codes "llo" ∷ []));
      })
      refl

read_length_wide_example :
    read_length 127 (arriving (le_bytes 8 (htonll 4294967301) ++ hello) [])
    ≡ some (4294967301 % 2 ^ 32, arriving hello [])
read_length_wide_example = read_length_wide hello [] 4294967301 (omega arith)

frame_bytes_pair_example :
    frame_bytes_pair (header OpCode.connection_close 7) (3 ∷ 232 ∷ []) hello 1025
    ≡ frame_bytes (header OpCode.connection_close 7) (3 ∷ 232 ∷ hello) 1025
frame_bytes_pair_example =
    frame_bytes_pair-append (header OpCode.connection_close 7) (3 ∷ 232 ∷ []) hello 1025
