-- ===== src/Session/Away.antt =====
-- The away state (gfire/src/xfire.c): what is sent when the user chooses one, and what is shown of a
-- buddy. `none` is a fault.
pub mod Packet
use xfire.Prelude.{
  ℕ, Bool, true, false, List, [], ◌∷◌, Option, none, some, codes, ◌==◌, if◌then◌else◌,
}
use xfire.Prelude.Int.{pos}
use xfire.Buffer.{Bytes, Op, read_at}
use xfire.Search.{same_bytes}
use xfire.Packets.Chat.{xfire_create_away, xfire_set_back}
use xfire.Packets.Game.{xfire_join_game}
use xfire.Session.Buddy.{Buddy}

-- `length = …(buffer, …); xfire_write_packet(gc, buffer, length)`
unfoldable pub write_packet : Bytes → Op ℕ → Option Bytes
write_packet buffer make = elim (make buffer) [
  | none ↦ none
  | some (length, buffer) ↦ read_at buffer 0 length
]

-- `translate` is gettext's `_`; `state` and `msg` may be NULL. The result is the packet written.
unfoldable pub xfire_set_away :
    (Bytes → Bytes → List Bytes)
    → (Bytes → Bytes)
    → Bytes
    → Option Bytes
    → Option Bytes
    → Option Bytes
xfire_set_away strsplit translate buffer state (some msg) =
    write_packet buffer (xfire_create_away msg)
xfire_set_away strsplit translate buffer none none = write_packet buffer xfire_set_back
xfire_set_away strsplit translate buffer (some state) none =
    if same_bytes state (translate (codes "Away From Computer"))
    then write_packet buffer (xfire_create_away (translate (codes "Away From Computer")))
    else if same_bytes state (translate (codes "Busy"))
    then write_packet buffer (xfire_join_game strsplit (pos 4236) (pos 0) none)
    else write_packet buffer xfire_set_back

-- The emblem `*se`; `none` leaves it as it was. `is_offline` is `b->present == GAIM_BUDDY_OFFLINE`.
unfoldable pub xfire_list_emblems : Bool → Buddy → Option Bytes
xfire_list_emblems is_offline b =
    if is_offline
    then some (codes "offline")
    else if b.game == 0
    then (elim b.amessage [ none ↦ none | some _ ↦ some (codes "away") ])
    else some (codes "game")

unfoldable pub xfire_is_buddy_ingame : Buddy → Bool
xfire_is_buddy_ingame b = if b.game == 0 then false else true
