-- ===== src/Packets/Buddies.antt =====
-- Invitations and the contact list (gfire/src/x_packets.c).
pub mod Format
use xfire.Prelude.{ℕ, ◌+◌, ◌%◌, [], ◌∷◌, codes}
use xfire.Buffer.{Bytes, Op, ◌>>=◌, ◌>>◌, pure, put, puts, memcpy, on}
use xfire.Create.{strlen, xfire_add_att_name, xfire_add_header, xfire_add_array_att}
use xfire.Utils.{decode_string}

unfoldable pub xfire_invitation_accept : Bytes → Op ℕ
xfire_invitation_accept name = do
  let length = 13 + strlen name
  xfire_add_header length 7 1
  index ← xfire_add_att_name 5 (codes "name")
  puts index (0x01 ∷ strlen name % 256 ∷ 0x00 ∷ [])
  memcpy (index + 3) name (strlen name)
  pure (index + 3 + strlen name)

unfoldable pub xfire_invitation_deny : Bytes → Op ℕ
xfire_invitation_deny name = do
  let length = 13 + strlen name
  xfire_add_header length 8 1
  index ← xfire_add_att_name 5 (codes "name")
  puts index (0x01 ∷ strlen name % 256 ∷ 0x00 ∷ [])
  memcpy (index + 3) name (strlen name)
  pure (index + 3 + strlen name)

abbrev pub invitation_message : Bytes
invitation_message = codes "please add me"

unfoldable pub xfire_add_new_buddy : Bytes → Op ℕ
xfire_add_new_buddy name = do
  let length = 13 + strlen name + 7 + strlen invitation_message
  xfire_add_header length 6 2
  index ← xfire_add_att_name 5 (codes "name")
  index ← xfire_add_array_att index (name ∷ [])
  index ← xfire_add_att_name index (codes "msg")
  xfire_add_array_att index (invitation_message ∷ [])

-- `name` is the user id as hexadecimal text, and `userid` what the local array holds at first.
unfoldable pub xfire_delete_buddy : Bytes → Bytes → Op ℕ
xfire_delete_buddy userid name = do
  xfire_add_header 17 9 1
  index ← xfire_add_att_name 5 (codes "userid")
  userid ← on userid (decode_string name)
  put index 0x02
  memcpy (index + 1) userid 4
  pure (index + 1 + 4)
