-- ===== src/Lib.antt =====
-- A model of gfire, the Xfire protocol plugin for gaim (gfire/src), of xfirelib (xfirelib/src), a
-- library for the same protocol, and of what the gateway (xfiregateway/src) keeps of its users. The
-- plugin keeps a connection to the Xfire server: it builds the packets that it sends in local arrays,
-- looks for attributes in the packets that it receives, and tells gaim what they say of the buddies. The
-- library does the same in C++ for other programs: a reader cuts packets out of a stream and hands their
-- contents to listeners, of which the client answers, and the buddy list keeps what they say.
--
-- Memory. A `char` array is a list of bytes, and code that fills one is an operation on it that
-- returns `none` where C leaves its behaviour undefined: an access outside the array, or a null
-- pointer that is followed (Buffer). Buffer/Writes has the rules for code that fills an array from
-- left to right, Buffer/Overlap those for bytes that are stored twice or out of order, Buffer/Faults
-- those for code that faults, and Buffer/Steps those for single steps. Arrays that C does not
-- initialise are arguments of the model. A C string is its bytes without the closing 0.
--
-- The files and the code:
--   Prelude     tests, lists measured by native numbers, and C's `int` as an integer
--   Clib        the conversions of the C library that the plugin calls: strtol, atoi, %02x, %d
--   Wire        the packet format of gfire/protocol.md, apart from any routine that writes it
--   Utils       gfire/src/x_utils.c: toString, decodeString, hashSha1, xfire_hex_to_int
--   Create      gfire/src/x_create.c: names, headers, lists of strings, addresses
--   Search      gfire/src/x_search.c: findString, findString2 and the routines xfire_read_…
--   Packets     gfire/src/x_packets.c: one routine for each packet that the client sends, in Chat,
--               Buddies, Login and Game; each has a module Format with the packet that it should be
--   Session     gfire/src/xfire.c: Receive is the part of xfire_packet_handler that puts a packet
--               together, and Dispatch its switch over the packet's type; Dispatch/Stream runs it over
--               any number of packets. The handlers that the switch calls are in Incoming (salt,
--               messages, status), Roster (the buddy list and who is online), GameNews (games) and
--               Contacts (invitations, nickname, adding and removing a buddy, keep-alive). Buddy has
--               the three checks over gaim's list, Send is xfire_send_im, Xqf the timer
--               xfire_check_xqf_cb with the two other places that change its flag, Join the menu of a
--               buddy and xfire_game_join, Away what goes out and is shown for an away state, Tooltip
--               a buddy's tooltip, and Connection xfire_login, xfire_login_connect and xfire_close
--   Games       gfire/src/x_games.c: Document the two XML documents and the loop over their games, with
--               Document/Table for what they say, Names xfire_game_name, Info the launch information of
--               a game, Command the command line that is made of it, and LaunchInfo the file of XQF and
--               the search for its game; Glib has the routines of GLib that read texts
--   Xfirelib    xfirelib/src, the library in C++ for the same protocol. Value and Writing are
--               variablevalue.cpp and xfireutils.cpp, which read and write an attribute; Outgoing has
--               getPacketContent and Incoming parseContent of each class of packets. Packet is
--               XFirePacket::sendPacket, with the classes that are sent as a data type, and Reader
--               XFirePacket::recvPacket and the loop of PacketReader. BuddyList is buddylist.cpp, and
--               Client what client.cpp sends by itself, with the counters of SendMessagePacket
--   Xfiregateway xfiregateway/src, the Jabber transport that is built on xfirelib: User is user.cpp, with
--               the presences of a user's resources in User/Presence and the packets from Xfire in
--               User/Received
--   Tests       the theorems at concrete inputs
--
-- Parameters. SHA-1, with a digest of 20 bytes, and GLib's g_strsplit, which splits a text that is
-- not empty where the delimiter stands, are arguments of the model, and what the code relies on is a
-- hypothesis. In Games gaim's xmlnode is a record of functions (Xml), and so are the routines of GLib
-- (Glib), with what GLib documents of them in Splits and ReadsLines. The results of `read`, what gaim
-- finds under a buddy's name, and what the file ingame.tmp holds are arguments too, and so is gettext's
-- `_`. Gaim's buddy list (Blist) and GLib's
-- start of a program (Shell) are records of functions. In Xfirelib the bytes of a new array, which C++
-- leaves unset (fresh), what a socket delivers, the objects that the program's game resolver makes, and
-- the number that is read from behind an object of another class (stray) are arguments. In Xfiregateway
-- these are the gateway's own address (fqdn), the fields that nothing sets (stray, unset), and the games
-- of a presence, which are made by the library's sscanf and the gateway's table of games.
--
-- Bounds. The loop of xfire_send_im runs on a bound of rounds, for which the message's length is
-- enough, since each round takes at least one byte. The searches run on the number of places that
-- the code counts down; where that number is negative, which does not stop the loop in C, the model
-- makes one round more than the array has bytes, and so leaves the array. The numbers that the packet
-- handler keeps wrap around at 2 ^ 32. A buddy's message counter is a number without a bound.
-- The loop of PacketReader runs on a bound of rounds, for which a number above the stream's length is
-- enough.
-- A loop that follows the links of an XML document has a bound on the nodes that it visits; a number
-- above the length of each chain of siblings is enough.
--
-- Not modelled: freeing memory beyond the pointers that the plugin keeps, debug output, except that
-- printing a packet reads it, gaim's windows and progress display, and the tables that register the
-- plugin and its account options. Of xfirelib, the sockets and threads, the
-- debug output, and SHA1.cpp, which is a copy of another project's library; the rest
-- of the gateway, most of which is calls of the Jabber library gloox, and the Java library are not
-- modelled either. What the gateway sends is written as what it asks gloox for.
pub mod Buffer
pub mod Clib
pub mod Create
pub mod Games
pub mod Glib
pub mod Packets
pub mod Partial
pub mod Prelude
pub mod Search
pub mod Session
pub mod Tests
pub mod Utils
pub mod Wire
pub mod Xfiregateway
pub mod Xfirelib
