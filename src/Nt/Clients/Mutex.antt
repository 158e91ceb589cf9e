-- ===== src/Nt/Clients/Mutex.antt =====
-- A connection that is no client, and `stateMutex`.
use pico_radio.Base.{number_key, text_key, ◌>>=◌}
