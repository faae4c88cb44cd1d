-- ===== src/Session/Join/Offer.antt =====
-- What the menu offers can be launched.
use xfire.Prelude.{
  ◌<◌, ◌≢◌, ◌∷◌, All, IsByte, ℕ, ◌≡◌, List, [], Bool, true, false, Option, none, some, ◌==◌,
  if◌then◌else◌,
}
use xfire.Glib.{Glib}
use xfire.Games.Document.{Document}
use xfire.Session.Buddy.{Buddy}
use xfire.Buffer.{Bytes}
use xfire.Create.Address.Dotted.{dotted}
use xfire.Wire.{Packet}
use xfire.Packets.Game.Format.{game_packet}
use xfire.Session.Xqf.{Flags, Called}

-- The address that the callback joins: none without a port.
abbrev pub joined_ip : Buddy → Option Bytes
joined_ip b = if b.port == 0 then none else b.ip

-- The command was started, or not.
abbrev pub launched : Bool → Flags → List Bytes → Called
launched true flags packets = record {
  result = true;
  flags = record { ingame = true; found = flags.found };
  packets = packets;
}
launched false flags packets = record { result = false; flags = flags; packets = [] }

-- The packet of the protocol that the servers get for a buddy's game: with the buddy's port and
-- address, or, without a port, with neither.
pub data IsTold (b : Buddy) : Packet → Type 0 where
  nowhere : b.port ≡ 0 → b.game < 65536 → IsTold b (game_packet b.game 0 0 0 0 0)
  address :
      (k l m n : ℕ)
      → b.port ≢ 0
      → b.port < 65536
      → b.game < 65536
      → All IsByte (k ∷ l ∷ m ∷ n ∷ [])
      → b.ip ≡ some (dotted k l m n)
      → IsTold b (game_packet b.game b.port k l m n)
