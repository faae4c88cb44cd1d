-- ===== src/Xfirelib.antt =====
-- xfirelib (xfirelib/src), the C++ library for the same protocol that the gateway is built on.
pub mod Value
pub mod Writing
pub mod Outgoing
pub mod Packet
pub mod Incoming
pub mod BuddyList
pub mod Reader
pub mod Client
