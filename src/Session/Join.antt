-- ===== src/Session/Join.antt =====
-- The menu of a buddy who plays, and the launch of a game (gfire/src/xfire.c). `none` as a result is a
-- fault, or too small a bound for the loops over the launch document.
pub mod Offer
use xfire.Prelude.{
  ℕ, Bool, true, false, not, ◌&&◌, List, [], ◌∷◌, Option, none, some, ◌==◌, if◌then◌else◌,
}
use xfire.Prelude.Int.{ℤ, pos}
use xfire.Buffer.{Bytes}
use xfire.Partial.{◌>>=◌}
use xfire.Glib.{Glib}
use xfire.Games.Document.{Xml, Document}
use xfire.Games.Info.{
  Linfo, xfire_linfo_get, xfire_game_playable, xfire_get_buddy_game, xfire_get_buddy_port,
  xfire_get_buddy_ip,
}
use xfire.Games.Command.{xfire_linfo_get_cmd}
use xfire.Session.Buddy.{Buddy}
use xfire.Session.Away.{xfire_is_buddy_ingame}
use xfire.Session.Xqf.{Flags, Called, xfire_game_started}

-- What GLib does with a command: `parse_argv` splits it, and `spawn` starts it in a directory, and
-- says whether that worked. Where it cannot be split, `argvp` stays uninitialised.
pub record Shell : Type 0 where
  pub parse_argv : Bytes → Option (List Bytes)
  pub spawn : Option Bytes → List Bytes → Bool

-- Nothing is done, or the game runs.
abbrev pub idle_call : Flags → Option Called
idle_call flags = some (record { result = false; flags = flags; packets = [] })

-- What is done with the launch information that was found.
unfoldable pub launch_game :
    Glib → Shell → Option Bytes → ℕ → ℕ → Flags → Option Linfo → Option Called
unfolding ◌>>=◌ xfire_linfo_get_cmd xfire_game_started
launch_game g shell sip sport game flags none = idle_call flags
launch_game g shell sip sport game flags (some linfo) =
    xfire_linfo_get_cmd g linfo sip (pos sport) none >>= λ command.
    shell.parse_argv command >>= λ argv. elim (shell.spawn linfo.c_wdir argv) [
      | false ↦ idle_call flags
      | true ↦ xfire_game_started g.strsplit game sport sip flags
    ]

unfoldable pub xfire_game_join :
    (xml : Xml)
    → Glib
    → Shell
    → ℕ
    → Document xml.Node
    → Option Bytes
    → ℕ
    → ℕ
    → Flags
    → Option Called
unfolding launch_game xfire_linfo_get ◌>>=◌
xfire_game_join xml g shell bound doc sip sport game flags =
    xfire_linfo_get xml bound doc (pos game) >>= launch_game g shell sip sport game flags

-- The address is asked for only where there is a port.
unfoldable pub xfire_buddy_menu_joingame_cb :
    (xml : Xml) → Glib → Shell → ℕ → Document xml.Node → Buddy → Flags → Option Called
unfolding xfire_game_playable xfire_game_join xfire_get_buddy_game xfire_get_buddy_port
    xfire_get_buddy_ip ◌>>=◌
xfire_buddy_menu_joingame_cb xml g shell bound doc b flags =
    let game = xfire_get_buddy_game b in
    let serverport = xfire_get_buddy_port b in
    let serverip = if serverport == 0 then none else xfire_get_buddy_ip b in
    if game == 0
    then idle_call flags
    else (xfire_game_playable xml bound doc (pos game) >>= λ playable. elim playable [
      | false ↦ idle_call flags
      | true ↦ xfire_game_join xml g shell bound doc serverip serverport game flags
    ])

-- Whether the menu has "Join Game ...". `is_buddy` is GAIM_BLIST_NODE_IS_BUDDY.
unfoldable pub xfire_node_menu :
    (xml : Xml) → ℕ → Document xml.Node → Bool → Buddy → Flags → Option Bool
unfolding xfire_is_buddy_ingame xfire_game_playable xfire_get_buddy_game
xfire_node_menu xml bound doc is_buddy b flags =
    if is_buddy && not flags.ingame && xfire_is_buddy_ingame b
    then xfire_game_playable xml bound doc (pos (xfire_get_buddy_game b))
    else some false
