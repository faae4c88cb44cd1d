-- ===== src/Session/Connection.antt =====
-- The beginning and the end of a connection (gfire/src/xfire.c). `none` as a result is a fault.
pub mod Life
use xfire.Prelude.{ℕ, Bool, true, false, List, [], ◌∷◌, Option, none, some, codes, if◌then◌else◌}
use xfire.Prelude.Int.{ℤ, is_negative}
use xfire.Buffer.{Bytes}
use xfire.Packets.Login.{xfire_open_connection2}
use xfire.Partial.{◌>>=◌}
use xfire.Games.Document.{
  Document, xfire_parse_games, xfire_parse_linfo_xml, xfire_games_cleanup, xfire_linfo_cleanup,
}
use xfire.Session.Away.{write_packet}

-- `gc->proto_data`: NULL, the plugin's own record, or what is left of it.
pub data ProtoData : Type 0 where
  absent released : ProtoData
  present : ProtoData

-- The pointers that the plugin keeps; `fd` and the timers stand in the record of `proto_data`.
pub record Plugin (N : Type 0) : Type 0 where
  pub proto_data : ProtoData
  pub games : Document N
  pub linfo : Document N
  pub has_gc : Bool

-- `xfire_close`. Without a record nothing but gaim's input is removed; `close`, the two timers and
-- `email` are read from the record, and the pointer to it stays.
unfoldable pub xfire_close : {N : Type 0} → Plugin N → Option (Plugin N)
unfolding xfire_games_cleanup xfire_linfo_cleanup ◌>>=◌
xfire_close p = elim p.proto_data [
  | absent ↦ some p
  | released ↦ none
  | present ↦ xfire_games_cleanup p.games >>= λ games. xfire_linfo_cleanup p.linfo >>= λ linfo.
      some (record { proto_data = released; games = games; linfo = linfo; has_gc = false })
]

-- `xfire_login`: what the two files hold, if they can be read, and whether gaim's proxy starts to
-- connect. The result is whether it does, and what is kept then.
unfoldable pub xfire_login :
    {N : Type 0}
    → (Bytes → Option N)
    → Bool
    → Option Bytes
    → Option Bytes
    → Plugin N
    → Bool × Plugin N
unfolding xfire_parse_games xfire_parse_linfo_xml
xfire_login from_str connects games_text linfo_text p =
    if connects
    then (
      true,
      record {
        proto_data = present;
        games = (xfire_parse_games from_str games_text p.games).1;
        linfo = (xfire_parse_linfo_xml from_str linfo_text p.linfo).1;
        has_gc = true;
      },
    )
    else (false, record p { proto_data = present; has_gc = true })

-- What becomes of the socket that gaim has connected.
pub data Connected : Type 0 where
  closes_socket : Connected
  says_error : Bytes → Connected
  opens : List Bytes → Connected

-- `listed` is that gaim still has the connection; `translate` is gettext's `_`, `oc2` the local array
-- and `version` the account's.
unfoldable pub xfire_login_connect : (Bytes → Bytes) → Bytes → Bool → ℤ → ℕ → Option Connected
unfolding write_packet ◌>>=◌
xfire_login_connect translate oc2 listed source version =
    if listed
    then (if is_negative source
        then some (says_error (translate (codes "Unable to connect.")))
        else (write_packet oc2 (xfire_open_connection2 version) >>= λ packet.
            some (opens (codes "UA01" ∷ packet ∷ []))))
    else some closes_socket
