-- ===== src/Examples/Frames.antt =====
-- The theorems on text frames at concrete inputs.
use pico_radio.Base.{
  List, [], arith, codes, contains, false, get, number_key, refl, text_key, ℕ, ◌∷◌, ◌≡◌,
}
use pico_radio.Nt.Types.{bin, parse_data_type, serialize_data_type, str}
use pico_radio.Nt.State.{Instance, server_mode, topic_properties_default}
use pico_radio.Nt.Json.{unpacker}
use pico_radio.Nt.Json.Reads.{without→Without}
use pico_radio.Nt.Params.{Reader, is_object_end, read_rounds, read_update, read_update_value}
use pico_radio.Nt.Messages.{ClientMessage, publish_message, subscribe_message, text_received}
use pico_radio.Nt.TextFrames.{handle_text_frame, no_update}
use pico_radio.Nt.TextFrames.Shown.{Notation}
use pico_radio.Nt.TextFrames.Printed.{show_frame}
use pico_radio.Nt.TextFrames.Handled.{
  handle_text_frame-releases, handle_text_frame-show_frame, handle_text_frame_total,
}
use pico_radio.Nt.TextFrames.Nulls.{cached_property, name_of, read_rounds-null, without_property}
use pico_radio.Examples.{instance_data, nt_env, prefix_options}
use pico_radio.Examples.Decimal.{
  decimal_digits, decimal_first, decimal_others, decimal_reads, digit-Avoids, digit_starts,
  from_decimal,
}

-- Decimal numbers.
decimal : Notation from_decimal
decimal = record {
  first = decimal_first;
  others = decimal_others;
  starts = λ n. digit_starts (decimal_first n) (decimal_digits n).0;
  avoids = λ n. digit-Avoids (decimal_first n ∷ decimal_others n) (decimal_digits n);
  reads = decimal_reads;
}

abbrev reader : Reader
reader = record { from_chars = from_decimal; memory = 0; memory_type = bin }

abbrev wanted : ClientMessage
wanted = subscribe_message (codes "/a" ∷ codes "/b" ∷ []) 7 prefix_options

abbrev offered : ClientMessage
offered = publish_message (codes "/a") 3 str topic_properties_default

handle_text_frame-show_frame_example :
    handle_text_frame nt_env reader 0 (show_frame decimal wanted (offered ∷ [])) instance_data
    ≡ text_received nt_env 0 (wanted ∷ offered ∷ []) instance_data
handle_text_frame-show_frame_example =
    handle_text_frame-show_frame nt_env reader decimal 0 wanted (offered ∷ []) instance_data
      (
        (without→Without b'"' (codes "/a") refl, (without→Without b'"' (codes "/b") refl, tt)),
        omega arith,
        omega arith,
      )
      (
        (
          without→Without b'"' (codes "/a") refl,
          omega arith,
          (unfold parse_data_type serialize_data_type in refl),
        ),
        tt,
      )
      refl

handle_text_frame_total_example :
    (ms : List ClientMessage) × ((guid : ℕ) (s : Instance)
      → s.mode ≡ server_mode
      → handle_text_frame nt_env reader guid (codes "[{\"method\":") s
        ≡ text_received nt_env guid ms s)
handle_text_frame_total_example =
    handle_text_frame_total nt_env reader (codes "[{\"method\":") server_mode

handle_text_frame-releases_example : instance_data.locked ≡ false
handle_text_frame-releases_example =
    handle_text_frame-releases nt_env reader 9 (codes "[]") instance_data instance_data refl
      (unfold handle_text_frame contains get in refl)

read_rounds-null_example :
    read_rounds read_update is_object_end 3 no_update
      (unpacker (codes "\"cached\":null}}},{\"method\":\"publish\""))
    ≡ read_rounds read_update is_object_end 1 no_update (unpacker (codes ":\"publish\""))
unfolding name_of without_property read_update_value
read_rounds-null_example =
    read_rounds-null cached_property 1 no_update (codes "}}},{") (codes "method")
      (codes ":\"publish\"") refl refl

-- The frame of the first example as a client writes it.
frame_text :
    show_frame decimal wanted (offered ∷ [])
    ≡ codes
        "[{\"method\":\"subscribe\",\"params\":{\"topics\":[\"/a\",\"/b\"],\"subuid\":7,\"options\":{\"periodic\":100,\"all\":false,\"topicsonly\":false,\"prefix\":true}}},{\"method\":\"publish\",\"params\":{\"name\":\"/a\",\"pubuid\":3,\"type\":\"string\",\"properties\":{\"persistent\":false,\"retained\":false,\"cached\":true}}}]"
unfolding show_frame decimal decimal_first decimal_others
frame_text = refl
