-- ===== src/Packets/Game.antt =====
-- The packet that tells which game we play, and where (gfire/src/x_packets.c).
pub mod Format
use xfire.Prelude.{ℕ, ◌+◌, List, [], ◌∷◌, Option, none, some, codes, get_elem?}
use xfire.Prelude.Int.{ℤ, pos, ◌-ℤ◌, div_256, mul_256, to_byte}
use xfire.Buffer.{Bytes, Op, ◌>>=◌, ◌>>◌, pure, fault, put, puts, given}
use xfire.Create.{xfire_add_att_name, xfire_add_header}
use xfire.Create.Address.{IpAddress, xfire_ipaddr_init}

-- `ips->octet[i]`; a null pointer or a place that is not there is a fault.
unfoldable pub octet_at : Option IpAddress → ℕ → Option ℕ
octet_at none i = none
octet_at (some ips) i = get_elem? ips.octet i

-- `x - (((int)(x/256))*256)`
unfoldable pub low_part : ℤ → ℤ
low_part x = x -ℤ mul_256 (div_256 x)

-- The packet as it is with the game only.
unfoldable pub join_game_id : ℤ → Op ℕ
unfolding low_part
join_game_id game = do
  xfire_add_header 17 4 1
  index ← xfire_add_att_name 5 (codes "gameid")
  put index 0x02
  put (index + 2) (to_byte (div_256 game))
  put (index + 1) (to_byte (low_part game))
  put (index + 3) 0x00
  put (index + 4) 0x00
  pure (index + 5)

-- The address and the port of the server; without an address both are zero.
unfoldable pub server_address :
    (Bytes → Bytes → List Bytes) → ℤ → Option Bytes → Option (Option IpAddress) × ℤ
server_address strsplit port none = (xfire_ipaddr_init strsplit (codes "0.0.0.0"), pos 0)
server_address strsplit port (some []) = (xfire_ipaddr_init strsplit (codes "0.0.0.0"), pos 0)
server_address strsplit port (some (c ∷ ip)) = (xfire_ipaddr_init strsplit (c ∷ ip), port)

unfoldable pub xfire_join_game : (Bytes → Bytes → List Bytes) → ℤ → ℤ → Option Bytes → Op ℕ
unfolding server_address low_part
xfire_join_game strsplit game port ip = do
  index ← join_game_id game
  xfire_add_header 37 4 3
  ips ← given (server_address strsplit port ip).0
  let port = (server_address strsplit port ip).1
  index ← xfire_add_att_name index (codes "gip")
  put index 0x02
  octet3 ← given (octet_at ips 3)
  put (index + 1) octet3
  octet2 ← given (octet_at ips 2)
  put (index + 2) octet2
  octet1 ← given (octet_at ips 1)
  put (index + 3) octet1
  octet0 ← given (octet_at ips 0)
  put (index + 4) octet0
  index ← xfire_add_att_name (index + 5) (codes "gport")
  put index 0x02
  put (index + 1) (to_byte (low_part port))
  put (index + 2) (to_byte (div_256 port))
  put (index + 3) 0x00
  put (index + 4) 0x00
  pure (index + 5)
