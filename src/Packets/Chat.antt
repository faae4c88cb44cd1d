-- ===== src/Packets/Chat.antt =====
-- Messages, the nickname, the away state and the keep-alive (gfire/src/x_packets.c).
pub mod Format
use xfire.Prelude.{ℕ, ◌+◌, ◌%◌, [], ◌∷◌, Option, none, some, codes}
use xfire.Buffer.{Bytes, Op, ◌>>=◌, ◌>>◌, pure, put, puts, memcpy}
use xfire.Create.{strlen, xfire_add_att_name, xfire_add_header}

-- `sid` is an array of at least 16 bytes; `message` is a string.
unfoldable pub xfire_make_im : Bytes → Bytes → ℕ → Op ℕ
xfire_make_im sid message imindex = do
  let length = 68 + strlen message
  xfire_add_header length 2 2
  index ← xfire_add_att_name 5 (codes "sid")
  put index 0x03
  memcpy (index + 1) sid 16
  index ← xfire_add_att_name (index + 17) (codes "peermsg")
  puts index (0x05 ∷ 0x03 ∷ [])
  index ← xfire_add_att_name (index + 2) (codes "msgtype")
  puts index (0x02 ∷ 0x00 ∷ 0x00 ∷ 0x00 ∷ 0x00 ∷ [])
  index ← xfire_add_att_name (index + 5) (codes "imindex")
  puts index (0x02 ∷ imindex % 256 ∷ 0x00 ∷ 0x00 ∷ 0x00 ∷ [])
  index ← xfire_add_att_name (index + 5) (codes "im")
  puts index (0x01 ∷ strlen message % 256 ∷ 0x00 ∷ [])
  memcpy (index + 3) message (strlen message)
  pure (index + 3 + strlen message)

-- `name` may be NULL.
unfoldable pub xfire_send_alias_change : Option Bytes → Op ℕ
xfire_send_alias_change none = pure 0
xfire_send_alias_change (some name) = do
  let length = 13 + strlen name
  xfire_add_header length 14 1
  index ← xfire_add_att_name 5 (codes "nick")
  puts index (0x01 ∷ strlen name % 256 ∷ 0x00 ∷ [])
  memcpy (index + 3) name (strlen name)
  pure (index + 3 + strlen name)

unfoldable pub xfire_create_away_old : Bytes → Op ℕ
xfire_create_away_old away = do
  let length = 29 + strlen away
  xfire_add_header length 11 2
  index ← xfire_add_att_name 5 (codes "type")
  puts index (0x02 ∷ 0x01 ∷ 0x00 ∷ 0x00 ∷ 0x00 ∷ [])
  index ← xfire_add_att_name (index + 5) (codes "status")
  puts index (0x05 ∷ 0x01 ∷ [])
  index ← xfire_add_att_name (index + 2) (codes "t")
  puts index (0x01 ∷ strlen away % 256 ∷ 0x00 ∷ [])
  memcpy (index + 3) away (strlen away)
  pure (index + 3 + strlen away)

unfoldable pub xfire_create_away : Bytes → Op ℕ
xfire_create_away away = do
  let length = 9 + strlen away
  xfire_add_header length 32 1
  puts 5 (0x2e ∷ 0x01 ∷ strlen away % 256 ∷ 0x00 ∷ [])
  memcpy (5 + 4) away (strlen away)
  pure (5 + 4 + strlen away)

unfoldable pub xfire_set_back_old : Op ℕ
xfire_set_back_old = do
  xfire_add_header 15 11 2
  index ← xfire_add_att_name 5 (codes "type")
  puts index (0x02 ∷ 0x00 ∷ 0x00 ∷ 0x00 ∷ 0x00 ∷ [])
  pure (index + 5)

unfoldable pub xfire_set_back : Op ℕ
xfire_set_back = do xfire_add_header 9 32 1; puts 5 (0x2e ∷ 0x01 ∷ 0x00 ∷ 0x00 ∷ []); pure (5 + 4)

unfoldable pub xfire_keep_alive_packet : Op ℕ
xfire_keep_alive_packet = do
  xfire_add_header 26 13 2
  index ← xfire_add_att_name 5 (codes "value")
  puts index (0x02 ∷ 0x00 ∷ 0x00 ∷ 0x00 ∷ 0x00 ∷ [])
  index ← xfire_add_att_name (index + 5) (codes "stats")
  puts index (0x04 ∷ 0x02 ∷ 0x00 ∷ 0x00 ∷ [])
  pure (index + 4)
