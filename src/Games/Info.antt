-- ===== src/Games/Info.antt =====
-- What the launch document says of a game (`xfire_linfo_get`, `xfire_game_playable` of
-- gfire/src/x_games.c).
pub mod Element
pub mod Playable
use xfire.Prelude.{
  ℕ, zero, suc, List, [], ◌∷◌, Option, none, some, codes, Bool, true, false, if◌then◌else◌, not,
  ◌==◌,
}
use xfire.Prelude.Int.{ℤ, pos, int_eq}
use xfire.Buffer.{Bytes}
use xfire.Search.{same_bytes}
use xfire.Partial.{◌>>=◌}
use xfire.Session.Buddy.{Buddy}
use xfire.Games.Document.{Xml, Document, null, freed, live, find_game}

pub record Linfo : Type 0 where
  pub gameid : ℤ
  pub name : Option Bytes
  pub xqfname : Option Bytes
  pub xqfmods : Option Bytes
  pub c_bin : Option Bytes
  pub c_wdir : Option Bytes
  pub c_gmod : Option Bytes
  pub c_connect : Option Bytes
  pub c_options : Option Bytes
  pub c_cmd : Option Bytes

-- `g_malloc` does not return without memory.
unfoldable pub xfire_linfo_new : Linfo
xfire_linfo_new = record {
  gameid = pos 0;
  name = none;
  xqfname = none;
  xqfmods = none;
  c_bin = none;
  c_wdir = none;
  c_gmod = none;
  c_connect = none;
  c_options = none;
  c_cmd = none;
}

-- `if ((command = xmlnode_get_child(cnode, field))) old = g_strdup(xmlnode_get_data(command));`
unfoldable pub text_of : (xml : Xml) → xml.Node → Bytes → Option Bytes → Option Bytes
text_of xml cnode field old = elim (xml.get_child cnode field) [
  | none ↦ old
  | some command ↦ xml.get_data command
]

unfoldable pub fill_xqf : (xml : Xml) → xml.Node → Linfo → Linfo
fill_xqf xml cnode l = record l {
  xqfname = xml.get_attrib cnode (codes "name");
  xqfmods = xml.get_attrib cnode (codes "modlist");
}

unfoldable pub fill_command : (xml : Xml) → xml.Node → Linfo → Linfo
unfolding text_of
fill_command xml cnode l = record l {
  c_bin = text_of xml cnode (codes "bin") l.c_bin;
  c_wdir = text_of xml cnode (codes "dir") l.c_wdir;
  c_gmod = text_of xml cnode (codes "gamemod") l.c_gmod;
  c_options = text_of xml cnode (codes "options") l.c_options;
  c_connect = text_of xml cnode (codes "connect") l.c_connect;
  c_cmd = text_of xml cnode (codes "launch") l.c_cmd;
}

-- One round of the loop over the children of a game.
unfoldable pub fill_child : (xml : Xml) → xml.Node → Linfo → Linfo
unfolding fill_xqf fill_command
fill_child xml cnode l =
    if not (xml.is_tag cnode)
    then l
    else if same_bytes (xml.name cnode) (codes "xqf")
    then fill_xqf xml cnode l
    else if same_bytes (xml.name cnode) (codes "command")
    then fill_command xml cnode l
    else l

unfoldable pub fill : (xml : Xml) → ℕ → Option xml.Node → Linfo → Option Linfo
unfolding fill_child
fill xml zero cnode l = none
fill xml (suc bound) none l = some l
fill xml (suc bound) (some cnode) l = fill xml bound (xml.next cnode) (fill_child xml cnode l)

-- What is read of the game that was found.
unfoldable pub read_linfo : (xml : Xml) → ℕ → ℤ → Option xml.Node → Option (Option Linfo)
unfolding xfire_linfo_new fill
read_linfo xml bound game none = some none
read_linfo xml bound game (some item) =
    elim (fill xml bound (xml.child item)
      (record xfire_linfo_new { gameid = game; name = xml.get_attrib item (codes "name") })) [
        | none ↦ none
        | some l ↦ some (some l)
      ]

-- The result NULL is `some none`.
unfoldable pub xfire_linfo_get : (xml : Xml) → ℕ → Document xml.Node → ℤ → Option (Option Linfo)
unfolding ◌>>=◌ find_game read_linfo
xfire_linfo_get xml bound null game = some none
xfire_linfo_get xml bound freed game = none
xfire_linfo_get xml bound (live root) game =
    find_game xml bound (xml.get_child root (codes "game")) game >>= read_linfo xml bound game

abbrev pub is_there : Option Linfo → Bool
is_there none = false
is_there (some l) = true

unfoldable pub xfire_game_playable : (xml : Xml) → ℕ → Document xml.Node → ℤ → Option Bool
unfolding ◌>>=◌ xfire_linfo_get
xfire_game_playable xml bound doc game =
    if int_eq game (pos 0)
    then some false
    else (xfire_linfo_get xml bound doc game >>= λ foo. some (is_there foo))

-- `xfire_get_buddy_game` and the next two, on the buddy's settings.
unfoldable pub xfire_get_buddy_game : Buddy → ℕ
xfire_get_buddy_game b = b.game

unfoldable pub xfire_get_buddy_port : Buddy → ℕ
xfire_get_buddy_port b = b.port

unfoldable pub xfire_get_buddy_ip : Buddy → Option Bytes
unfolding xfire_get_buddy_game
xfire_get_buddy_ip b = if xfire_get_buddy_game b == 0 then none else b.ip
