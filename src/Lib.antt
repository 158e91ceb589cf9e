-- ===== src/Lib.antt =====
-- Models of pico-radio, the C++ library for the Raspberry Pi Pico W with TCP sockets, WebSockets
-- (RFC 6455) and a NetworkTables 4 server.
--
-- The program's parts and the files that model them:
--
-- * WebSockets, src/websocket.cpp and include/websocket.h, are in Socket and the files below it.
--   Bytes, Header and Mask hold the byte order, the frame header and the masking. Encode is what
--   both `sendFrame` functions write into their buffer, Transmit what they do with it, with `ping`,
--   `pong` and `close`, and Send is `send` with its fragmentation. Decode is `parseFrameHeader` up
--   to its call of `handleFrame`, and Receive is `handleFrame`, the rest of `parseFrameHeader` and
--   `enterPollLoop`. State has the `WebSocket` object: the TCP connection or none, the flags of the
--   closing handshake, the frame that is being received, the calls of the user's callbacks and the
--   buffers handed to the TCP connection, oldest first.
-- * The TCP connection, src/tcpclient.cpp, is the list of pieces that `recv` will find; `readBytes`
--   takes what one `recv` gives. Where no piece is left it is a timeout, and an empty piece is an
--   error or the end of the connection.
-- * The HTTP handshake, in src/textstream.cpp, src/websocket.cpp and src/wsserver.cpp, is in Handshake
--   and the files below it: TextStream reads lines through the stream's buffer, Headers the headers,
--   Client is `initiateHandshake` and Server `handleRawConnection` up to its message loop.
-- * The clients of a WebSocket server and its dispatch queue, src/wsserver.cpp, are in WsServer and
--   the files below it. The socket of each client is one of Socket.
-- * NetworkTables, src/nt and include/nt, is in Nt and the files below it. Types has the names
--   on the wire, Value `NTDataValue`. State is the `NetworkTableInstance` of a server with its
--   topics and clients, Cache what goes into one client's caches, Subscribed the two
--   `isSubscribed`, Server the functions that announce, Update the topic updates and meta topics,
--   Publish the publishing of topics and first values, Hybrid the functions that both modes share,
--   Clients the end of a connection and a client's values, Connect its start and the client's
--   name, Messages what a client's text messages do. TextFrames is how those are read from the
--   bytes of a frame, with Params for the keys of their parameters and Json for `json::Unpacker`
--   of include/nt/ntjson.hpp. Subscriber, Publisher and Entry are the objects of that name, the
--   last in src/nt/ntentry.cpp.
--
-- A function of the source has its name in lower case with underscores. A method takes the object
-- and gives it back; `none` is a failed assertion or the use of memory that is not there, such as a
-- null pointer or a freed block, or an exception. A branch on an error that the source handles is a value. The files
-- below a component prove what it does; Socket/EndToEnd and Socket/Delivery join sender and receiver,
-- and Nt/KeepsTopics and Nt/KeepsOwn say which operations leave the topics, or the mode and the
-- instance's own publishers, as they are.
--
-- Fuel: `send_loop` is given the message's length, which is enough because each round takes off at
-- least one byte. `poll` is given a number of rounds, for its loop runs as long as the connection is
-- open. The loops over a text frame and over the lines of a handshake are given one more than the
-- bytes that are left, and each round takes at least one. A round of the dispatch task is given the
-- length of its queue, to which nothing is added while it runs.
--
-- Parameters of the model: for the WebSocket, the random key, the semaphore, what lwIP's `send`
-- returns and whether memory is found; for NetworkTables, the clock, the decimal notation of
-- numbers and `std::from_chars`, what uninitialised variables hold, the MessagePack encoder and
-- the user's callbacks, which do not call back; for the handshake, SHA-1, the client's key, the
-- content of a new buffer and the protocol callback. Allocations that the source does not check
-- are taken to succeed. What the client's handshake finds behind the end of a line with one word
-- is given, too. An `std::unordered_map` is a list in its order of iteration. Floating point
-- numbers are their bit patterns, and `int32_t` identifiers and GUIDs are numbers.
-- `WEBSOCKET_MAX_PACKET_SIZE` is 1460, as lwipopts.h sets TCP_MSS.
--
-- Not modelled: the start and stop of wsserver.cpp and its callbacks, the constructors that take a
-- URL apart, NetworkTables as a client, round-trip times, the start and stop of an instance, the
-- UDP and listening sockets and the radio's start-up, which are input and output or calls of
-- libraries; and the vendored MessagePack, SHA-1, GUID and DHCP code.
pub mod Base
pub mod Bits
pub mod Examples
pub mod Handshake
pub mod Nt
pub mod Socket
pub mod WsServer
