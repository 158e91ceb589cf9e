-- ===== src/Nt/Subscriber/Delivered.antt =====
-- What a subscriber on the server reads of a topic's value.
use pico_radio.Base.{number_key, text_key}
