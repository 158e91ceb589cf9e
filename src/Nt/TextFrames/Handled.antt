-- ===== src/Nt/TextFrames/Handled.antt =====
-- What becomes of a text frame, from its bytes to the state behind it.
use pico_radio.Base.{
  All, Bool-cases, List, ap, contains, false, inl, inr, number_key, some, sym, text_key, true, ℕ,
  ◌∙◌, ◌∷◌, ◌≡◌,
}
use pico_radio.Nt.State.{Instance, NetworkMode, NtEnv, server_mode}
use pico_radio.Nt.Hybrid.{is_server}
use pico_radio.Nt.Messages.{ClientMessage, text_received}
use pico_radio.Nt.Messages.Release.{text_received-releases}
use pico_radio.Nt.TextFrames.Shown.{Notation}
use pico_radio.Nt.TextFrames.Printed.{IsPlain, read_messages-show_frame, show_frame}
use pico_radio.Nt.TextFrames.Ends.{read_messages_total}
use pico_radio.Nt.Params.{Reader}
use pico_radio.Nt.TextFrames.{handle_text_frame, read_messages}

unknown_client :
    (env : NtEnv) (guid : ℕ) (ms : List ClientMessage) (s : Instance)
    → contains guid s.clients ≡ false
    → text_received env guid ms s ≡ some s
unfolding text_received
unknown_client env guid ms s unknown = rw unknown

read_then :
    (env : NtEnv) (r : Reader) (guid : ℕ) (text : List ℕ) (s : Instance) (ms : List ClientMessage)
    → read_messages r (is_server s.mode) text ≡ some ms
    → handle_text_frame env r guid text s ≡ text_received env guid ms s
unfolding handle_text_frame
read_then env r guid text s ms e = elim (Bool-cases (contains guid s.clients)) [
  | inl known ↦ rw (known, handle_text_frame, e)
  | inr unknown ↦ rw (unknown, handle_text_frame) (sym (unknown_client env guid ms s unknown))
]

-- Whatever the bytes of a text frame are, its loops come to an end: the frame has the effect of some
-- list of messages, which depends on the bytes and on the mode alone.
pub handle_text_frame_total :
    (env : NtEnv) (r : Reader) (text : List ℕ) (mode : NetworkMode)
    → (ms : List ClientMessage) × ((guid : ℕ) (s : Instance)
        → s.mode ≡ mode
        → handle_text_frame env r guid text s ≡ text_received env guid ms s)
handle_text_frame_total env r text mode =
    let (ms, e) = read_messages_total r (is_server mode) text in
    (
      ms,
      λ guid s same_mode.
          read_then env r guid text s ms
            (ap (λ m. read_messages r (is_server m) text) same_mode ∙ e),
    )

-- On a server a frame that a client wrote, with names that have no quotes and identifiers below
-- 2 ^ 31, has the effect of its messages in turn, whatever notation of numbers `std::from_chars`
-- understands.
pub handle_text_frame-show_frame :
    (env : NtEnv) (r : Reader) (d : Notation r.from_chars) (guid : ℕ) (m : ClientMessage)
    (ms : List ClientMessage) (s : Instance)
    → IsPlain m
    → All IsPlain ms
    → s.mode ≡ server_mode
    → handle_text_frame env r guid (show_frame d m ms) s ≡ text_received env guid (m ∷ ms) s
handle_text_frame-show_frame env r d guid m ms s p ps serving =
    let serves : is_server s.mode ≡ true = unfold is_server in rw serving in
    read_then env r guid (show_frame d m ms) s (m ∷ ms) (
      ap (λ x. read_messages r x (show_frame d m ms)) serves
      ∙ read_messages-show_frame r d m ms p ps)

-- A text frame of any bytes, from any connection, that is handled with the mutex free and meets no
-- fault leaves the mutex free.
pub handle_text_frame-releases :
    (env : NtEnv) (r : Reader) (guid : ℕ) (text : List ℕ) (s s' : Instance)
    → s.locked ≡ false
    → handle_text_frame env r guid text s ≡ some s'
    → s'.locked ≡ false
handle_text_frame-releases env r guid text s s' free e =
    let (ms, read) = read_messages_total r (is_server s.mode) text in
    text_received-releases env guid ms s s' free (sym (read_then env r guid text s ms read) ∙ e)
