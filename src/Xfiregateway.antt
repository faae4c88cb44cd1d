-- ===== src/Xfiregateway.antt =====
-- xfiregateway (xfiregateway/src), the Jabber transport that is built on xfirelib: what it keeps of a
-- user, and what it sends for a user to the Jabber server and to Xfire.
pub mod User
