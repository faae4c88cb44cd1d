-- ===== src/Packets/Login.antt =====
-- The packets of a login (gfire/src/x_packets.c).
pub mod Format
pub mod Open
use xfire.Prelude.{
  ℕ, zero, suc, ◌+◌, ◌%◌, [], ◌∷◌, ◌++◌, codes, length, leb, if◌then◌else◌, Option, some, none,
}
use xfire.Buffer.{
  Bytes, Op, ◌>>=◌, ◌>>◌, pure, fault, put, puts, memcpy, memset, on, given, read_at,
}
use xfire.Create.{strlen, c_string, xfire_add_att_name, xfire_add_header}
use xfire.Utils.{hash_sha1}

abbrev skins : ℕ
skins = 2

-- The header, the names of the two skins, and the name of the attribute with their versions.
unfoldable pub open_skins : Op ℕ
open_skins = do
  xfire_add_header 51 18 2
  index ← xfire_add_att_name 5 (codes "skin")
  puts index (0x04 ∷ 0x01 ∷ skins ∷ 0x00 ∷ strlen (codes "Standard") ∷ 0x00 ∷ [])
  memcpy (index + 6) (codes "Standard") (strlen (codes "Standard"))
  puts (index + 6 + strlen (codes "Standard")) (strlen (codes "XFire") ∷ 0x00 ∷ [])
  memcpy (index + 6 + strlen (codes "Standard") + 2) (codes "XFire") (strlen (codes "XFire"))
  xfire_add_att_name (index + 6 + strlen (codes "Standard") + 2 + strlen (codes "XFire"))
      (codes "version")

-- The loop over the skins.
unfoldable pub open_versions : ℕ → ℕ → Op ℕ
open_versions zero index = pure index
open_versions (suc n) index = do
  puts index (0x01 ∷ 0x00 ∷ 0x00 ∷ 0x00 ∷ [])
  open_versions n (index + 4)

-- The fourth store goes to `index+1` once more, and none to `index+3`.
unfoldable pub open_version_list : ℕ → Op (Unit {0})
open_version_list index = do
  put index 0x04
  put (index + 1) 0x02
  put (index + 2) skins
  put (index + 1) 0x00

unfoldable pub open_protocol : ℕ → ℕ → Op ℕ
unfolding open_versions
open_protocol version index = do
  index ← open_versions skins index
  puts index (0x12 ∷ 0x00 ∷ 0x03 ∷ 0x00 ∷ 0x01 ∷ [])
  index ← xfire_add_att_name (index + 5) (codes "version")
  puts index (0x02 ∷ version % 256 ∷ 0x00 ∷ 0x00 ∷ 0x00 ∷ [])
  pure (index + 5)

unfoldable pub xfire_open_connection2 : ℕ → Op ℕ
unfolding open_skins open_version_list open_protocol
xfire_open_connection2 version = do
  index ← open_skins
  open_version_list index
  open_protocol version (index + 4)

-- `strcat(hash_it, s)`, on a string in an array of `room` bytes.
unfoldable pub strcat : ℕ → Bytes → Bytes → Option Bytes
strcat room hash_it s =
    if leb (strlen hash_it + strlen s + 1) room then some (hash_it ++ s) else none

abbrev pub secret : Bytes
secret = codes "UltimateArena"

-- `hash_it`: the name, the password and the secret in an array of 100 bytes.
unfoldable pub join_hash_it : Bytes → Bytes → Option Bytes
unfolding strcat
join_hash_it name passwd = elim (strcat 100 [] name) [
  | none ↦ none
  | some hash_it ↦ elim (strcat 100 hash_it passwd) [
    | none ↦ none
    | some hash_it' ↦ strcat 100 hash_it' secret
  ]
]

-- What the local arrays hold before they are filled: `hex` and `sha_local` of `hashSha1`, and
-- `sha_string` of `xfire_create_auth`.
pub record Locals : Type 0 where
  pub hex : Bytes
  pub sha_local : Bytes
  pub sha_string : Bytes

-- The part of `xfire_create_auth` that computes the hash: it touches its local arrays only.
unfoldable pub crypt_password : (Bytes → Bytes) → Locals → Bytes → Bytes → Bytes → Op Bytes
crypt_password sha1 locals salt passwd name = do
  hash_it ← given (join_hash_it name passwd)
  sha_string ← on locals.sha_string (hash_sha1 sha1 locals.hex locals.sha_local hash_it)
  hash_final ← given (read_at sha_string 0 40)
  salt ← given (read_at salt 0 40)
  on sha_string (hash_sha1 sha1 locals.hex locals.sha_local (c_string (hash_final ++ salt)))

unfoldable pub xfire_create_auth : (Bytes → Bytes) → Locals → Bytes → Bytes → Bytes → Op ℕ
xfire_create_auth sha1 locals salt passwd name = do
  let length = 97 + strlen name
  xfire_add_header length 1 3
  index ← xfire_add_att_name 5 (codes "name")
  puts index (0x01 ∷ strlen name % 256 ∷ 0x00 ∷ [])
  memcpy (index + 3) name (strlen name)
  index ← xfire_add_att_name (index + 3 + strlen name) (codes "password")
  puts index (0x01 ∷ 0x28 ∷ 0x00 ∷ [])
  sha_string ← crypt_password sha1 locals salt passwd name
  memcpy (index + 3) sha_string 40
  index ← xfire_add_att_name (index + 3 + 40) (codes "flags")
  put index 0x02
  memset (index + 1) 0x00 25
  index ← xfire_add_att_name (index + 1 + 4) (codes "sid")
  put index 0x03
  pure (index + 17)
