-- ===== src/Socket.antt =====
-- The WebSocket of src/websocket.cpp and include/websocket.h: frames on the wire, sending with
-- fragmentation, receiving with reassembly, and the closing handshake.
pub mod Bytes
pub mod OpCode
pub mod Header
pub mod Mask
pub mod Encode
pub mod State
pub mod Transmit
pub mod Decode
pub mod RoundTrip
pub mod Send
pub mod Receive
pub mod Closing
pub mod Arrival
pub mod Frames
pub mod EndToEnd
pub mod Delivery
