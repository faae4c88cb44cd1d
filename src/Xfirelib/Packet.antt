-- ===== src/Xfirelib/Packet.antt =====
-- xfirelib/src/xfirepacket.cpp, sending: a content is written into an array of the size that its class
-- gives, and is sent behind a header.
pub mod Contents
pub mod Protocol
use xfire.Prelude.{ℕ, ◌+◌, ◌/◌, ◌%◌, List, [], ◌∷◌, Option, none, some, codes, length}
use xfire.Prelude.Int.{ℤ}
use xfire.Buffer.{Bytes, Op, ◌>>◌, pure, memcpy, read_at}
use xfire.Xfirelib.Value.{VariableValue}
use xfire.Xfirelib.Outgoing

-- The classes below XFirePacketContent that are sent. The salt of a login is the object that the
-- server's packet left; `echo` is a MessagePacket, with its copy of what came in and the length of that.
pub data Content : Type 0 where
  client_information : Content
  client_version : ℤ → Content
  client_login : Bytes → Bytes → VariableValue → Content
  send_message : Bytes → ℤ → Bytes → Content
  message_ack : Bytes → ℤ → Content
  echo : Bytes → ℕ → Content
  send_keep_alive : Content
  send_status_message : Bytes → Content
  send_nick_change : Bytes → Content
  send_remove_buddy : ℤ → Content
  send_game_status : ℤ → Bytes → ℤ → Content
  send_game_status2 : ℤ → Bytes → ℤ → Content
  send_game_server : Bytes → ℤ → Content
  send_accept_invitation : Bytes → Content
  send_deny_invitation : Bytes → Content
  invite_buddy : List Bytes → List Bytes → Content

unfoldable pub get_packet_id : Content → ℕ
get_packet_id client_information = 18
get_packet_id (client_version version) = 3
get_packet_id (client_login name password salt) = 1
get_packet_id (send_message sid imindex message) = 2
get_packet_id (message_ack sid imindex) = 2
get_packet_id (echo buf buf_length) = 2
get_packet_id send_keep_alive = 13
get_packet_id (send_status_message awaymsg) = 32
get_packet_id (send_nick_change nick) = 14
get_packet_id (send_remove_buddy userid) = 9
get_packet_id (send_game_status gameid ip port) = 4
get_packet_id (send_game_status2 gameid ip port) = 15
get_packet_id (send_game_server ip port) = 4
get_packet_id (send_accept_invitation name) = 7
get_packet_id (send_deny_invitation name) = 8
get_packet_id (invite_buddy names msgs) = 6

unfoldable pub get_packet_attribute_count : Content → ℕ
get_packet_attribute_count client_information = 2
get_packet_attribute_count (client_version version) = 1
get_packet_attribute_count (client_login name password salt) = 2
get_packet_attribute_count (send_message sid imindex message) = 2
get_packet_attribute_count (message_ack sid imindex) = 2
get_packet_attribute_count (echo buf buf_length) = 2
get_packet_attribute_count send_keep_alive = 2
get_packet_attribute_count (send_status_message awaymsg) = 1
get_packet_attribute_count (send_nick_change nick) = 1
get_packet_attribute_count (send_remove_buddy userid) = 1
get_packet_attribute_count (send_game_status gameid ip port) = 3
get_packet_attribute_count (send_game_status2 gameid ip port) = 3
get_packet_attribute_count (send_game_server ip port) = 3
get_packet_attribute_count (send_accept_invitation name) = 3
get_packet_attribute_count (send_deny_invitation name) = 3
get_packet_attribute_count (invite_buddy names msgs) = 2

unfoldable pub get_packet_size : Content → ℕ
get_packet_size client_information = 46
get_packet_size (client_version version) = 1024
get_packet_size (client_login name password salt) = 300
get_packet_size (send_message sid imindex message) = 1024
get_packet_size (message_ack sid imindex) = 100
get_packet_size (echo buf buf_length) = 1024
get_packet_size send_keep_alive = 26
get_packet_size (send_status_message awaymsg) = length awaymsg + 10
get_packet_size (send_nick_change nick) = 100
get_packet_size (send_remove_buddy userid) = 100
get_packet_size (send_game_status gameid ip port) = 100
get_packet_size (send_game_status2 gameid ip port) = 100
get_packet_size (send_game_server ip port) = 100
get_packet_size (send_accept_invitation name) = 100
get_packet_size (send_deny_invitation name) = 100
get_packet_size (invite_buddy names msgs) = 100

-- `buf` of a MessagePacket has 150 bytes, and that is the size that it returns.
unfoldable pub echo_content : Bytes → ℕ → Op ℕ
echo_content buf buf_length = memcpy 0 buf buf_length >> pure 150

unfoldable pub get_packet_content : (Bytes → Bytes) → Content → Op ℕ
get_packet_content sha1 client_information = Outgoing.client_information
get_packet_content sha1 (client_version version) = Outgoing.client_version version
get_packet_content sha1 (client_login name password salt) =
    Outgoing.client_login sha1 name password salt
get_packet_content sha1 (send_message sid imindex message) =
    Outgoing.send_message sid imindex message
get_packet_content sha1 (message_ack sid imindex) = Outgoing.message_ack sid imindex
get_packet_content sha1 (echo buf buf_length) = echo_content buf buf_length
get_packet_content sha1 send_keep_alive = Outgoing.send_keep_alive
get_packet_content sha1 (send_status_message awaymsg) = Outgoing.send_status_message awaymsg
get_packet_content sha1 (send_nick_change nick) = Outgoing.write_text (codes "nick") nick 0
get_packet_content sha1 (send_remove_buddy userid) = Outgoing.send_remove_buddy userid
get_packet_content sha1 (send_game_status gameid ip port) =
    Outgoing.send_game_status (codes "gameid") (codes "gip") (codes "gport") gameid ip port
get_packet_content sha1 (send_game_status2 gameid ip port) =
    Outgoing.send_game_status (codes "vid") (codes "vip") (codes "vport") gameid ip port
get_packet_content sha1 (send_game_server ip port) = Outgoing.send_game_server ip port
get_packet_content sha1 (send_accept_invitation name) = Outgoing.send_accept_invitation name
get_packet_content sha1 (send_deny_invitation name) = Outgoing.send_accept_invitation name
get_packet_content sha1 (invite_buddy names msgs) = Outgoing.invite_buddy names msgs

-- `sendPacket`: the bytes that go to the socket. `fresh n` is what a new array of `n` bytes holds.
unfoldable pub send_packet : (Bytes → Bytes) → (ℕ → Bytes) → Content → Option Bytes
unfolding get_packet_size get_packet_content
send_packet sha1 fresh content =
    elim (get_packet_content sha1 content (fresh (get_packet_size content))) [
      | none ↦ none
      | some (rsize, buf) ↦ elim (read_at buf 0 rsize) [
        | none ↦ none
        | some body ↦
            let realsize = rsize + 5 in
            some (
              realsize % 256
              ∷ realsize / 256 % 256
              ∷ get_packet_id content % 256
              ∷ 0
              ∷ get_packet_attribute_count content % 256
              ∷ body)
      ]
    ]
