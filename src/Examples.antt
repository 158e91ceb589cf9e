-- ===== src/Examples.antt =====
-- Concrete data for the tests of the other files, and those tests.
mod Sockets
mod Tables
mod Decimal
mod Frames
mod Handshakes
mod Entries
mod Servers
mod Clients
use pico_radio.Base.{List, [], codes, false, length, none, pos, some, true, ℕ, ◌∷◌}
use pico_radio.Socket.OpCode
use pico_radio.Socket.Header.{FrameHeader}
use pico_radio.Socket.State.{Env, TcpClient, WebSocket, initial_frame}
use pico_radio.Nt.Types.{bin, str, str_array, uint}
use pico_radio.Nt.Value.{NtDataValue}
use pico_radio.Nt.State.{
  ClientData, Instance, NtEnv, SubscriptionOptions, server_mode, subscription_options_default,
  this_client,
}

abbrev pub hello : List ℕ
hello = codes "hello"

abbrev pub env : Env
env = record {
  take_mutex = λ n. true;
  rand_32 = λ n. 0x3d21fa37;
  write = λ n b. some (length b);
  alloc = λ n. true;
}

abbrev pub link : TcpClient
link = record { connected = true; incoming = [] }

abbrev pub socket : WebSocket
socket = record {
  tcp = some link;
  use_masking = true;
  close_frame_sent = false;
  gracefully_closed = false;
  pong_callback = false;
  close_callback = true;
  received_callback = true;
  current_frame = initial_frame;
  events = [];
  wire = [];
  attempts = 0;
}

abbrev pub closing_socket : WebSocket
closing_socket = record socket { close_frame_sent = true }

-- A masked final frame of this kind.
abbrev pub header : ℕ → ℕ → FrameHeader
header code n = record {
  opcode = code;
  rsv3 = false;
  rsv2 = false;
  rsv1 = false;
  fin = true;
  payload_len = n;
  mask = true;
}

abbrev pub no_options : SubscriptionOptions
no_options = subscription_options_default

abbrev pub prefix_options : SubscriptionOptions
prefix_options = record no_options { prefix = true }

abbrev pub this_data : ClientData
this_data = record {
  guid = 0;
  name = codes "fake_server";
  subscriptions = [];
  publishers = [];
  topic_data = [];
  next_topic_id_assigned = 0;
  text_cache = [];
  binary_cache = [];
}

abbrev pub number_value : NtDataValue
number_value = record {
  type = uint;
  cell = 7;
  str = [];
  b_array = [];
  f64_array = [];
  i_array = [];
  f32_array = [];
  str_array = [];
  bin = [];
}

-- A server with no client of its own and no topics.
abbrev pub instance_data : Instance
instance_data = record {
  mode = server_mode;
  locked = false;
  server_time_offset = pos 0;
  topics = [];
  clients = (0, this_client) ∷ [];
  this = this_data;
  sent = [];
  events = [];
  ticks = 0;
}

abbrev pub nt_env : NtEnv
nt_env = record {
  clock = λ n. n;
  memory = 0;
  to_string_32 = λ n. n ∷ [];
  to_string = λ n. n ∷ [];
  announced_callback = none;
  unannounced_callback = none;
  update_callback = none;
  properties_callback = none;
  pack_update = λ id time t v. id ∷ time ∷ [];
  pack_subscriptions = λ subs. length subs ∷ [];
  pack_publishers = λ pubs. length pubs ∷ [];
  pack_topic_subscriptions = λ subs. length subs ∷ [];
  pack_topic_publishers = λ pubs. length pubs ∷ [];
}
