-- ===== src/Session/Away/Packet.antt =====
-- The packet that goes out for an away state.
use xfire.Prelude.{
  ℕ, ◌+◌, ◌≡◌, ◌≤◌, ◌<◌, refl, Bool-cases, inl, inr, List, [], Option, none, some, codes, length,
  le→leb, if◌then◌else◌, length-append, arith,
}
use xfire.Prelude.Int.{pos}
use xfire.Buffer.{Bytes, Op}
use xfire.Buffer.Writes.{read_at-append}
use xfire.Create.{strlen}
use xfire.Create.Address.{SplitsBytes}
use xfire.Search.{same_bytes}
use xfire.Wire.{Packet, encode, encode_attrs, written}
use xfire.Packets.Chat.{xfire_create_away, xfire_set_back}
use xfire.Packets.Chat.Format.{away_packet, create_away-written, set_back-written}
use xfire.Packets.Game.{xfire_join_game}
use xfire.Packets.Game.Format.{game_packet, join_game_nowhere}
use xfire.Session.Away.{write_packet, xfire_set_away}

-- The packet of a state: the message, or the state's name, or nothing; being busy is the game 4236.
abbrev pub state_packet : (Bytes → Bytes) → Option Bytes → Option Bytes → Packet
state_packet translate state (some msg) = away_packet msg
state_packet translate none none = away_packet []
state_packet translate (some state) none =
    if same_bytes state (translate (codes "Away From Computer"))
    then away_packet (translate (codes "Away From Computer"))
    else if same_bytes state (translate (codes "Busy"))
    then game_packet 4236 0 0 0 0 0
    else away_packet []

pub write_packet-written :
    (buffer : Bytes) (make : Op ℕ) (p : Packet)
    → make buffer ≡ written p buffer
    → length (encode p) ≤ length buffer
    → write_packet buffer make ≡ some (encode p)
unfolding write_packet
write_packet-written buffer make p made room =
    rw (made, le→leb _ _ room, write_packet) (read_at-append (encode p) _ _ refl)

length-away : (msg : Bytes) → length (encode (away_packet msg)) ≡ 9 + length msg
unfolding encode encode_attrs
length-away msg = omega (arith, length-append msg [])

length-game : (game port a b c d : ℕ) → length (encode (game_packet game port a b c d)) ≡ 37
unfolding encode encode_attrs
length-game game port a b c d = refl

away-packet :
    (buffer msg : Bytes)
    → strlen msg < 256
    → 265 ≤ length buffer
    → write_packet buffer (xfire_create_away msg) ≡ some (encode (away_packet msg))
away-packet buffer msg short room =
    write_packet-written buffer (xfire_create_away msg) (away_packet msg)
      (create_away-written msg buffer short) (omega (arith, length-away msg))

back-packet :
    (buffer : Bytes)
    → 265 ≤ length buffer
    → write_packet buffer xfire_set_back ≡ some (encode (away_packet []))
back-packet buffer room =
    write_packet-written buffer xfire_set_back (away_packet []) (set_back-written buffer)
      (omega (arith, length-away []))

busy-packet :
    (strsplit : Bytes → Bytes → List Bytes) (buffer : Bytes)
    → SplitsBytes strsplit
    → 265 ≤ length buffer
    → write_packet buffer (xfire_join_game strsplit (pos 4236) (pos 0) none)
      ≡ some (encode (game_packet 4236 0 0 0 0 0))
busy-packet strsplit buffer law room =
    write_packet-written buffer _ (game_packet 4236 0 0 0 0 0)
      (join_game_nowhere strsplit 4236 (pos 0) buffer law (omega arith))
      (omega (arith, length-game 4236 0 0 0 0 0))

-- A message that is there is shorter than 256 bytes.
abbrev pub IsShort : Option Bytes → Type 0
IsShort none = Unit
IsShort (some msg) = strlen msg < 256

-- For a `g_strsplit` that splits, a message shorter than 256, if there is one, and a name of the away
-- state that is shorter than 256: `xfire_set_away` writes one packet on each of its branches, the one
-- that `state_packet` describes. An array of 265 bytes is enough; the code's has 1024.
pub set_away-state_packet :
    (strsplit : Bytes → Bytes → List Bytes) (translate : Bytes → Bytes) (buffer : Bytes)
    (state msg : Option Bytes)
    → SplitsBytes strsplit
    → IsShort msg
    → strlen (translate (codes "Away From Computer")) < 256
    → 265 ≤ length buffer
    → xfire_set_away strsplit translate buffer state msg
      ≡ some (encode (state_packet translate state msg))
unfolding xfire_set_away
set_away-state_packet strsplit translate buffer state (some msg) law short name room =
    away-packet buffer msg short room
set_away-state_packet strsplit translate buffer none none law short name room =
    back-packet buffer room
set_away-state_packet strsplit translate buffer (some state) none law short name room =
    elim (Bool-cases (same_bytes state (translate (codes "Away From Computer")))) [
      | inl away ↦ rw (away, xfire_set_away) (away-packet buffer _ name room)
      | inr other ↦ elim (Bool-cases (same_bytes state (translate (codes "Busy")))) [
        | inl busy ↦ rw (other, busy, xfire_set_away) (busy-packet strsplit buffer law room)
        | inr back ↦ rw (other, back, xfire_set_away) (back-packet buffer room)
      ]
    ]
