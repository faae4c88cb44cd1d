-- ===== src/Tests.antt =====
-- The theorems at concrete inputs, and a concrete function for each of the library functions that the
-- model takes as parameters.
mod Split
mod Glib
mod Games
mod Packets
mod Search
mod Session
mod Handlers
mod Incoming
mod GameNews
mod Xfirelib
mod Xfiregateway
