-- ===== src/Nt.antt =====
-- NetworkTables, the files under include/nt and src/nt.
pub mod Types
pub mod Json
pub mod Value
pub mod State
pub mod Cache
pub mod Subscribed
pub mod Server
pub mod Update
pub mod KeepsTopics
pub mod KeepsOwn
pub mod Connect
pub mod Publish
pub mod Hybrid
pub mod Subscriber
pub mod Publisher
pub mod Entry
pub mod Clients
pub mod Messages
pub mod Params
pub mod TextFrames
