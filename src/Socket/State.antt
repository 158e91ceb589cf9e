-- ===== src/Socket/State.antt =====
-- The state of a `WebSocket`, its TCP socket, and what the target's libraries decide.
use pico_radio.Base.{Bool, List, Option, [], false, if◌then◌else◌, none, some, ℕ, ◌++◌, ◌∷◌}

-- src/tcpclient.cpp. `incoming` holds what the peer sends, cut as `recv` will find it: one entry
-- is what lies in the socket's buffer at the time of a call, and an empty one an error or the end.
pub record TcpClient : Type 0 where
  pub connected : Bool
  pub incoming : List (List ℕ)

-- A payload pointer: null, a block that the frame owns, the block of the frame that is being
-- parsed, or a block that has been freed.
pub data Buffer : Type 0 where
  null : Buffer
  owned : List ℕ → Buffer
  borrowed : List ℕ → Buffer
  freed : Buffer

pub record WebSocketFrame : Type 0 where
  pub is_fragment : Bool
  pub opcode : ℕ
  pub payload : Buffer
  pub payload_length : ℕ

-- A call of a user's callback.
pub data Event : Type 0 where
  pong_received : List ℕ → Event
  closed : ℕ → List ℕ → Event
  received : Bool → ℕ → List ℕ → Event

-- `wire` holds the buffers handed to `tcp->writeBytes`, oldest first, and `attempts` counts the
-- calls of `sendFrame`. A callback that is not set is `false`.
pub record WebSocket : Type 0 where
  pub tcp : Option TcpClient
  pub use_masking : Bool
  pub close_frame_sent : Bool
  pub gracefully_closed : Bool
  pub pong_callback : Bool
  pub close_callback : Bool
  pub received_callback : Bool
  pub current_frame : WebSocketFrame
  pub events : List Event
  pub wire : List (List ℕ)
  pub attempts : ℕ

-- What the code does not decide, for the n-th call of `sendFrame`: whether the semaphore is
-- taken in time, the random key, and what `send` returns (`none` for an error). `alloc n` tells
-- whether `pvPortMalloc(n)` finds memory for a received payload.
pub record Env : Type 0 where
  pub take_mutex : ℕ → Bool
  pub rand_32 : ℕ → ℕ
  pub write : ℕ → List ℕ → Option ℕ
  pub alloc : ℕ → Bool

unfoldable pub is_connected : WebSocket → Bool
is_connected s = elim s.tcp [ none ↦ false | some t ↦ t.connected ]

-- `WebSocket::disconnect`
unfoldable pub disconnect : WebSocket → WebSocket
disconnect s = record s { tcp = none }

unfoldable pub emit : Event → WebSocket → WebSocket
emit e s = record s { events = s.events ++ e ∷ [] }

-- `useMasking ? get_rand_32() : 0`
unfoldable pub masking_key : Env → WebSocket → ℕ
masking_key env s = if s.use_masking then env.rand_32 s.attempts else 0

abbrev pub initial_frame : WebSocketFrame
initial_frame = record { is_fragment = false; opcode = 0; payload = null; payload_length = 0 }

-- `WebSocket::WebSocket(TcpClient *tcp)`, with no callback set yet.
unfoldable pub accept_socket : TcpClient → WebSocket
accept_socket t = record {
  tcp = some t;
  use_masking = false;
  close_frame_sent = false;
  gracefully_closed = false;
  pong_callback = false;
  close_callback = false;
  received_callback = false;
  current_frame = initial_frame;
  events = [];
  wire = [];
  attempts = 0;
}
