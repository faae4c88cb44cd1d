-- ===== src/Session/Xqf/Ticks.antt =====
-- What a call of the timer can do.
use xfire.Prelude.{
  ℕ, ◌≡◌, ◌≢◌, refl, Bool, true, false, List, [], ◌∷◌, Option, none, some, replicate, arith,
}
use xfire.Prelude.Int.{pos}
use xfire.Buffer.{Bytes, read_at}
use xfire.Create.Address.{SplitsBytes}
use xfire.Wire.{encode, encode_attrs}
use xfire.Packets.Game.Format.{game_packet, join_game_nowhere}
use xfire.Session.Xqf.{Flags, XqfFile, announce, Called, xfire_check_xqf_cb, xfire_game_started}

-- Being in no game is always announced by one packet.
pub announce_nowhere :
    (strsplit : Bytes → Bytes → List Bytes)
    → SplitsBytes strsplit
    → announce strsplit 0 0 none ≡ some (encode (game_packet 0 0 0 0 0 0) ∷ [])
unfolding announce encode encode_attrs read_at
announce_nowhere strsplit law =
    rw (join_game_nowhere strsplit 0 (pos 0) (replicate 1024 0) law (omega arith), announce) refl

-- What a call of the timer does to the flags, for the file that it finds, and the packets that it
-- writes. A game that was not met through the file hides the file; a file that was seen is not read
-- again; one that is new is remembered, and a known game in it is entered; and one that is gone is
-- forgotten, and its game left.
pub data Tick (strsplit : Bytes → Bytes → List Bytes)
    : Option (Option XqfFile) → Flags → Flags → List Bytes → Type 0 where
  plays_another :
      {file : Option (Option XqfFile)}
      → Tick strsplit file
          (record { ingame = true; found = false })
          (record { ingame = true; found = false })
          []
  no_file :
      Tick strsplit none
        (record { ingame = false; found = false })
        (record { ingame = false; found = false })
        []
  seen :
      {parsed : Option XqfFile} (ingame : Bool)
      → Tick strsplit
          (some parsed)
          (record { ingame = ingame; found = true })
          (record { ingame = ingame; found = true })
          []
  unreadable :
      Tick strsplit
        (some none)
        (record { ingame = false; found = false })
        (record { ingame = false; found = true })
        []
  unknown_game :
      (xqfs : XqfFile)
      → xqfs.game ≡ 0
      → Tick strsplit
          (some (some xqfs))
          (record { ingame = false; found = false })
          (record { ingame = false; found = true })
          []
  enters :
      (xqfs : XqfFile) (packets : List Bytes)
      → xqfs.game ≢ 0
      → announce strsplit xqfs.game xqfs.port xqfs.ip ≡ some packets
      → Tick strsplit
          (some (some xqfs))
          (record { ingame = false; found = false })
          (record { ingame = true; found = true })
          packets
  forgets :
      Tick strsplit none
        (record { ingame = false; found = true })
        (record { ingame = false; found = false })
        []
  leaves :
      Tick strsplit none
        (record { ingame = true; found = true })
        (record { ingame = false; found = false })
        (encode (game_packet 0 0 0 0 0 0) ∷ [])

-- A call without a connection does nothing and ends the timer. One with a connection keeps the timer and
-- does one of these things, or faults on the packet for the known game of a new file.
pub data TickOutcome (strsplit : Bytes → Bytes → List Bytes) (file : Option (Option XqfFile))
    (flags : Flags) : Bool → Option Called → Type 0 where
  stops :
      TickOutcome strsplit file flags false
        (some (record { result = false; flags = flags; packets = [] }))
  faults :
      (xqfs : XqfFile)
      → file ≡ some (some xqfs)
      → flags ≡ record { ingame = false; found = false }
      → xqfs.game ≢ 0
      → announce strsplit xqfs.game xqfs.port xqfs.ip ≡ none
      → TickOutcome strsplit file flags true none
  ticks :
      (flags' : Flags) (packets : List Bytes)
      → Tick strsplit file flags flags' packets
      → TickOutcome strsplit file flags true
          (some (record { result = true; flags = flags'; packets = packets }))

-- For a `g_strsplit` that splits: where the timer has seen a file, a game that is started from the
-- buddy list, with a packet that can be made, is taken for the file's: the removal of the file writes
-- the packet for leaving the game and clears the flag, whether or not the game runs on.
pub check_xqf_cb-game_started :
    (strsplit : Bytes → Bytes → List Bytes) (game sport : ℕ) (sip : Option Bytes) (ingame : Bool)
    (packets : List Bytes)
    → SplitsBytes strsplit
    → announce strsplit game sport sip ≡ some packets
    → (called : Called) × (xfire_game_started strsplit game sport sip
          (record { ingame = ingame; found = true })
        ≡ some called)
      × (xfire_check_xqf_cb strsplit true none called.flags
          ≡ some (record {
            result = true;
            flags = record { ingame = false; found = false };
            packets = encode (game_packet 0 0 0 0 0 0) ∷ [];
          }))
unfolding xfire_game_started xfire_check_xqf_cb
check_xqf_cb-game_started strsplit game sport sip ingame packets law made = (
  record { result = true; flags = record { ingame = true; found = true }; packets = packets },
  rw (made, xfire_game_started) refl,
  rw (announce_nowhere strsplit law, xfire_check_xqf_cb) refl,
)
