-- ===== src/Session.antt =====
-- The session of the plugin (gfire/src/xfire.c).
pub mod Receive
pub mod Buddy
pub mod Send
pub mod Xqf
pub mod Away
pub mod Incoming
pub mod Roster
pub mod Contacts
pub mod Connection
pub mod Join
pub mod Tooltip
pub mod GameNews
pub mod Dispatch
