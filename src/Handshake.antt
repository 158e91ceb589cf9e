-- ===== src/Handshake.antt =====
-- The HTTP handshake of src/websocket.cpp (the client) and src/wsserver.cpp (the server), on the lines
-- that src/textstream.cpp reads.
pub mod TextStream
pub mod Headers
pub mod Client
pub mod Server
pub mod Lines
pub mod Ends
pub mod Pieces
pub mod Agreement
pub mod Requests
pub mod Spelling
