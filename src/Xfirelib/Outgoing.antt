-- ===== src/Xfirelib/Outgoing.antt =====
-- The contents of the packets that xfirelib sends: getPacketContent of each class below
-- XFireSendPacketContent (xfirelib/src), on the array that XFirePacket::sendPacket makes.
pub mod Bodies
pub mod Plain
pub mod Login
use xfire.Prelude.{
  ℕ, zero, suc, ◌+◌, ◌/◌, ◌%◌, List, [], ◌∷◌, ◌++◌, Option, none, some, codes, length, ◌==◌,
  if◌then◌else◌,
}
use mathlib.Core.Option
use xfire.Prelude.Int.{ℤ, pos, to_byte}
use xfire.Buffer.{Bytes, Op, ◌>>=◌, ◌>>◌, pure, put, puts, memcpy, given, read_at, write}
use xfire.Create.{strlen, c_string}
use xfire.Clib.{format_02x}
use xfire.Xfirelib.Value.{VariableValue, no_value, set_value, set_value_from_long, get_value}
use xfire.Xfirelib.Writing.{write_name, write_value, add_attribut_name}

abbrev pub valued : Bytes → Bytes → VariableValue
valued name value = set_value value (record no_value { name = name })

abbrev pub numbered : Bytes → ℤ → VariableValue
numbered name value = set_value_from_long value 4 (record no_value { name = name })

-- The string in an array; without a 0 in it, the reading goes on behind the array.
unfoldable pub string_of : Bytes → Option Bytes
string_of [] = none
string_of (c ∷ b) = let rest = string_of b in if c == 0 then some [] else Option.map (◌∷◌ c) rest

-- A name, a tag, and the value behind them; the place behind the value.
unfoldable pub write_tagged : VariableValue → ℕ → ℕ → Op ℕ
unfolding write_name write_value
write_tagged v tag index = do
  read ← write_name v index
  put (index + read) tag
  written ← write_value v (index + read + 1)
  pure (index + read + 1 + written)

-- A string behind its name, the tag 1, and its length with a 0.
unfoldable pub write_text : Bytes → Bytes → ℕ → Op ℕ
unfolding write_name write_value
write_text name value index = do
  let v = valued name value
  read ← write_name v index
  puts (index + read) (1 ∷ length value % 256 ∷ 0 ∷ [])
  written ← write_value v (index + read + 3)
  pure (index + read + 3 + written)

-- `sid` is an array of 16 bytes. The parts that a message and its answer share, with the number of
-- attributes in the group and the kind of message.
unfoldable pub peer_message : Bytes → ℕ → ℤ → ℤ → Op ℕ
unfolding write_tagged write_name
peer_message sid attributes msgtype imindex = do
  sid ← given (read_at sid 0 16)
  index ← write_tagged (valued (codes "sid") sid) 3 0
  read ← write_name (record no_value { name = codes "peermsg" }) index
  puts (index + read) (5 ∷ attributes ∷ [])
  index ← write_tagged (numbered (codes "msgtype") msgtype) 2 (index + read + 2)
  write_tagged (numbered (codes "imindex") imindex) 2 index

-- SendMessagePacket, once it has its number.
unfoldable pub send_message : Bytes → ℤ → Bytes → Op ℕ
unfolding peer_message write_name write_value
send_message sid imindex message = do
  index ← peer_message sid 3 (pos 0) imindex
  let v = valued (codes "im") message
  read ← write_name v index
  puts (index + read) (1 ∷ length message % 256 ∷ length message / 256 % 256 ∷ [])
  written ← write_value v (index + read + 3)
  pure (index + read + 3 + written)

-- MessageACKPacket
unfoldable pub message_ack : Bytes → ℤ → Op ℕ
unfolding peer_message
message_ack sid imindex = peer_message sid 2 (pos 1) imindex

-- ClientInformationPacket: the loop over the two skins.
unfoldable pub skin_versions : ℕ → ℕ → Op ℕ
skin_versions zero index = pure index
skin_versions (suc n) index = do puts index (1 ∷ 0 ∷ 0 ∷ 0 ∷ []); skin_versions n (index + 4)

unfoldable pub client_information : Op ℕ
unfolding add_attribut_name write_name skin_versions
client_information = do
  index ← add_attribut_name 0 (codes "skin")
  puts index (4 ∷ 1 ∷ 2 ∷ 0 ∷ strlen (codes "Standard") ∷ 0 ∷ [])
  memcpy (index + 6) (codes "Standard") (strlen (codes "Standard"))
  let index = index + 6 + strlen (codes "Standard")
  puts index (strlen (codes "XFire") ∷ 0 ∷ [])
  memcpy (index + 2) (codes "XFire") (strlen (codes "XFire"))
  let index = index + 2 + strlen (codes "XFire")
  read ← write_name (record no_value { name = codes "version" }) index
  puts (index + read) (4 ∷ 2 ∷ 2 ∷ 0 ∷ [])
  skin_versions 2 (index + read + 4)

-- ClientVersionPacket
unfoldable pub client_version : ℤ → Op ℕ
unfolding add_attribut_name
client_version version = do
  index ← add_attribut_name 0 (codes "version")
  puts index (2 ∷ to_byte version ∷ 0 ∷ 0 ∷ 0 ∷ [])
  pure (index + 5)

-- `hashSha1`: the digest, which CSHA1 leaves in `temp`, as text.
unfoldable pub digest_text : Bytes → Bytes
digest_text [] = []
digest_text (c ∷ digest) = format_02x c ++ digest_text digest

-- `temp` has 81 bytes: the first hash, the salt and a 0.
unfoldable pub crypt_password : (Bytes → Bytes) → Bytes → Bytes → Bytes → Option Bytes
unfolding digest_text
crypt_password sha1 name password salt = elim (read_at salt 0 40) [
  | none ↦ none
  | some salt ↦
      let crypt = digest_text (sha1 (c_string (name ++ (password ++ codes "UltimateArena")))) in
      some (digest_text (sha1 (c_string (crypt ++ salt))))
]

-- ClientLoginPacket; `salt` is the object that AuthPacket made.
unfoldable pub client_login : (Bytes → Bytes) → Bytes → Bytes → VariableValue → Op ℕ
unfolding add_attribut_name crypt_password
client_login sha1 name password salt = do
  index ← add_attribut_name 0 (codes "name")
  puts index (1 ∷ length name % 256 ∷ 0 ∷ [])
  write (index + 3) name
  let index = index + 3 + length name
  salt ← given (get_value salt)
  pass ← given (crypt_password sha1 name password salt)
  index ← add_attribut_name index (codes "password")
  puts index (1 ∷ 40 ∷ 0 ∷ [])
  memcpy (index + 3) pass 40
  pure (index + 3 + 40)

-- SendKeepAlivePacket
unfoldable pub send_keep_alive : Op ℕ
unfolding write_name
send_keep_alive = do
  read ← write_name (record no_value { name = codes "value" }) 0
  puts read (2 ∷ 0 ∷ 0 ∷ 0 ∷ 0 ∷ [])
  let index = read + 5
  read ← write_name (record no_value { name = codes "stats" }) index
  puts (index + read) (4 ∷ 2 ∷ 0 ∷ 0 ∷ [])
  pure (index + read + 4)

-- SendStatusMessagePacket
unfoldable pub send_status_message : Bytes → Op ℕ
send_status_message awaymsg = do
  puts 0 (0x2e ∷ 0x01 ∷ length awaymsg % 256 ∷ 0 ∷ [])
  memcpy 4 awaymsg (length awaymsg)
  pure (4 + length awaymsg)

-- SendRemoveBuddyPacket
unfoldable pub send_remove_buddy : ℤ → Op ℕ
unfolding write_tagged
send_remove_buddy userid = write_tagged (numbered (codes "userid") userid) 2 0

-- SendGameStatusPacket and SendGameStatus2Packet, whose attributes have other names.
unfoldable pub send_game_status : Bytes → Bytes → Bytes → ℤ → Bytes → ℤ → Op ℕ
unfolding write_tagged
send_game_status game_name ip_name port_name gameid ip port = do
  index ← write_tagged (numbered game_name gameid) 2 0
  ip ← given (read_at ip 0 4)
  index ← write_tagged (valued ip_name ip) 2 index
  write_tagged (numbered port_name port) 2 index

-- InviteBuddyPacket: a loop over its strings.
unfoldable pub write_strings : List Bytes → ℕ → Op ℕ
write_strings [] index = pure index
write_strings (name ∷ names) index = do
  puts index (length name % 256 ∷ 0 ∷ [])
  memcpy (index + 2) name (length name)
  write_strings names (index + 2 + length name)

unfoldable pub invite_buddy : List Bytes → List Bytes → Op ℕ
unfolding write_name write_strings
invite_buddy names msgs = do
  index ← write_name (record no_value { name = codes "name" }) 0
  put index (length names % 256)
  index ← write_strings names (index + 1)
  read ← write_name (record no_value { name = codes "msg" }) index
  put (index + read) (length msgs % 256)
  write_strings msgs (index + read + 1)

-- SendAcceptInvitationPacket and SendDenyInvitationPacket: the value is a string again, which ends at
-- the first 0 of the name.
unfoldable pub send_accept_invitation : Bytes → Op ℕ
unfolding write_name write_value
send_accept_invitation name = do
  let v = valued (codes "name") (c_string name)
  index ← write_name v 0
  puts index (1 ∷ length name % 256 ∷ 0 ∷ [])
  written ← write_value v (index + 3)
  pure (index + 3 + written)

-- SendGameServerPacket: `ip`, an array of four bytes, is taken for a string, and the length of the
-- copy is set to four.
unfoldable pub send_game_server : Bytes → ℤ → Op ℕ
unfolding write_tagged string_of
send_game_server ip port = do
  ip ← given (string_of ip)
  index ← write_tagged (record (valued (codes "gip") ip) { value_length = 4 }) 2 0
  write_tagged (numbered (codes "gport") port) 2 index
