-- ===== src/Create.antt =====
-- gfire/src/x_create.c: the pieces that packets are put together from.
pub mod Pieces
pub mod Address
use xfire.Prelude.{ℕ, zero, suc, ◌+◌, ◌/◌, ◌%◌, List, [], ◌∷◌, length, ◌==◌, if◌then◌else◌}
use xfire.Buffer.{Bytes, Op, ◌>>=◌, ◌>>◌, pure, put, memcpy}

-- A C string is its bytes without the 0 that ends it.
abbrev pub strlen : Bytes → ℕ
strlen s = length s

-- The string that stands in an array, up to the first 0.
unfoldable pub c_string : Bytes → Bytes
c_string [] = []
c_string (c ∷ b) = let rest = c_string b in if c == 0 then [] else c ∷ rest

-- Puts an attribute's name behind its length, and returns the place after it.
unfoldable pub xfire_add_att_name : ℕ → Bytes → Op ℕ
xfire_add_att_name packet_length att = do
  put packet_length (strlen att % 256)
  memcpy (packet_length + 1) att (strlen att)
  pure (packet_length + 1 + strlen att)

unfoldable pub xfire_add_header : ℕ → ℕ → ℕ → Op (Unit {0})
xfire_add_header length type atts =
    memcpy 0 (length % 256 % 256 ∷ length / 256 % 256 ∷ type % 256 ∷ 0 ∷ atts % 256 ∷ []) 5

-- The loop of `xfire_add_array_att`; the list is `atts` from place `i` on.
unfoldable pub add_strings : ℕ → List Bytes → Op ℕ
add_strings index [] = pure index
add_strings index (att ∷ atts) = do
  memcpy index (strlen att % 256 ∷ 0 ∷ []) 2
  memcpy (index + 2) att (strlen att)
  add_strings (index + 2 + strlen att) atts

-- `number` is the length of `atts`: every call passes an array with that many strings.
unfoldable pub xfire_add_array_att : ℕ → List Bytes → Op ℕ
unfolding add_strings
xfire_add_array_att packet_length atts = do
  put packet_length (length atts % 256)
  add_strings (packet_length + 1) atts
