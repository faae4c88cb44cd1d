-- ===== src/Session/Xqf.antt =====
-- The timer that watches the file `ingame.tmp` (gfire/src/xfire.c), and the two other places that
-- change the flag for being in a game. `none` as a result is a fault.
pub mod Ticks
use xfire.Prelude.{
  ℕ, Bool, true, false, not, ◌&&◌, List, [], ◌∷◌, Option, none, some, replicate, ◌==◌,
  if◌then◌else◌,
}
use xfire.Prelude.Int.{pos}
use xfire.Buffer.{Bytes, read_at}
use xfire.Packets.Game.{xfire_join_game}

-- `xfire_ingame_flag`, and the timer's `found`.
pub record Flags : Type 0 where
  pub ingame : Bool
  pub found : Bool

-- What `xfire_linfo_parse_xqf` reads from the file, with the game that `xfire_xqf_search` finds for
-- it, which is 0 where there is none.
pub record XqfFile : Type 0 where
  pub game : ℕ
  pub port : ℕ
  pub ip : Option Bytes

-- A packet from `xfire_join_game` in a cleared array of 1024 bytes, written if it is not empty.
unfoldable pub announce : (Bytes → Bytes → List Bytes) → ℕ → ℕ → Option Bytes → Option (List Bytes)
announce strsplit game port ip =
    elim (xfire_join_game strsplit (pos game) (pos port) ip (replicate 1024 0)) [
      | none ↦ none
      | some (len, packet) ↦
          if len == 0
          then some []
          else (elim (read_at packet 0 len) [ none ↦ none | some bs ↦ some (bs ∷ []) ])
    ]

-- The result, the flags and the packets of a call.
pub record Called : Type 0 where
  pub result : Bool
  pub flags : Flags
  pub packets : List Bytes

abbrev pub calm : Bool → Bool → Option Called
calm ingame found =
    some (record { result = true; flags = record { ingame = ingame; found = found }; packets = [] })

abbrev pub with_packets : Bool → Bool → Option (List Bytes) → Option Called
with_packets ingame found none = none
with_packets ingame found (some packets) =
    some (record {
      result = true;
      flags = record { ingame = ingame; found = found };
      packets = packets;
    })

-- The file is there, and was not at the last call.
unfoldable pub file_appeared : (Bytes → Bytes → List Bytes) → Bool → Option XqfFile → Option Called
file_appeared strsplit ingame none = calm ingame true
file_appeared strsplit ingame (some xqfs) =
    if xqfs.game == 0
    then calm ingame true
    else with_packets true true (announce strsplit xqfs.game xqfs.port xqfs.ip)

-- `file` is `none` where there is no file, and `some none` where it cannot be parsed.
unfoldable pub xfire_check_xqf_cb :
    (Bytes → Bytes → List Bytes) → Bool → Option (Option XqfFile) → Flags → Option Called
xfire_check_xqf_cb strsplit connected file flags =
    if not connected
    then some (record { result = false; flags = flags; packets = [] })
    else if flags.ingame && not flags.found
    then calm flags.ingame flags.found
    else (elim file [
      | some parsed ↦
          if flags.found
          then calm flags.ingame flags.found
          else file_appeared strsplit flags.ingame parsed
      | none ↦
          if not flags.found
          then calm flags.ingame flags.found
          else if flags.ingame
          then with_packets false false (announce strsplit 0 0 none)
          else calm flags.ingame false
    ])

-- The end of `xfire_game_join`, when the game's process is running.
unfoldable pub xfire_game_started :
    (Bytes → Bytes → List Bytes) → ℕ → ℕ → Option Bytes → Flags → Option Called
xfire_game_started strsplit game sport sip flags =
    with_packets true flags.found (announce strsplit game sport sip)

-- The callback for the end of that process.
unfoldable pub xfire_game_watch_cb : (Bytes → Bytes → List Bytes) → Flags → Option Called
xfire_game_watch_cb strsplit flags = with_packets false flags.found (announce strsplit 0 0 none)
