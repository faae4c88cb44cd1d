-- ===== src/Packets.antt =====
-- gfire/src/x_packets.c: the packets that the client sends, by what they are about. Each routine
-- fills an array that its caller provides, and returns the number of bytes.
pub mod Chat
pub mod Buddies
pub mod Login
pub mod Game
