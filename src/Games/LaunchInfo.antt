-- ===== src/Games/LaunchInfo.antt =====
-- The file LaunchInfo.txt of XQF, and the search for its game (`xfire_linfo_parse_xqf` and
-- `xfire_xqf_search` of gfire/src/x_games.c). `none` as a result is a fault, or too small a bound.
pub mod Lines
pub mod Matches
use xfire.Prelude.{
  ℕ, zero, suc, List, [], ◌∷◌, Option, none, some, codes, Bool, true, false, ◌&&◌, length, drop,
  leb, ◌==◌, if◌then◌else◌,
}
use xfire.Prelude.Int.{ℤ, pos}
use xfire.Buffer.{Bytes}
use xfire.Clib.{atoi}
use xfire.Search.{same_bytes}
use xfire.Partial.{◌>>=◌}
use xfire.Glib.{Glib}
use xfire.Games.Document.{Xml, Document, null, freed, live}

-- The field `mod` of the source is `mods`.
pub record XqfInfo : Type 0 where
  pub gtype : Option Bytes
  pub sname : Option Bytes
  pub ip : Option Bytes
  pub port : ℤ
  pub mods : Option Bytes

unfoldable pub xfire_xqf_linfo_new : XqfInfo
xfire_xqf_linfo_new = record { gtype = none; sname = none; ip = none; port = pos 0; mods = none }

-- The text from `&(line[k])` on; behind the closing 0 nothing may be read.
unfoldable pub text_at : Bytes → ℕ → Option Bytes
text_at line k = if leb k (length line) then some (drop k line) else none

unfoldable pub read_game_type : Glib → Bytes → XqfInfo → Option XqfInfo
unfolding ◌>>=◌ text_at
read_game_type g line l =
    if g.ascii_strncasecmp line (codes "GameType") 8
    then (text_at line 9 >>= λ tmp. some (record l { gtype = some tmp }))
    else some l

unfoldable pub read_server_name : Glib → Bytes → XqfInfo → Option XqfInfo
unfolding ◌>>=◌ text_at
read_server_name g line l =
    if g.ascii_strncasecmp line (codes "ServerName") 10
    then (text_at line 11 >>= λ tmp. some (record l { sname = some tmp }))
    else some l

-- `svtmp` is what the address is split into. Without a second part, `atoi` gets NULL, or what lies
-- behind an empty vector.
abbrev pub with_address : List Bytes → XqfInfo → Option XqfInfo
with_address [] l = none
with_address (host ∷ []) l = none
with_address (host ∷ number ∷ parts) l = some (record l { ip = some host; port = atoi number })

unfoldable pub read_server_addr : Glib → Bytes → XqfInfo → Option XqfInfo
unfolding ◌>>=◌ text_at
read_server_addr g line l =
    if g.ascii_strncasecmp line (codes "ServerAddr") 10
    then (text_at line 11 >>= λ tmp. with_address (g.strsplit tmp (codes ":")) l)
    else some l

-- `svtmp[0]`, which is NULL in an empty vector.
abbrev pub first_part : List Bytes → Option Bytes
first_part [] = none
first_part (part ∷ parts) = some part

abbrev pub first_mod : Glib → Bytes → Option Bytes
first_mod g tmp =
    if g.strrstr (some tmp) (some (codes ","))
    then first_part (g.strsplit tmp (codes ","))
    else some tmp

unfoldable pub read_server_mod : Glib → Bytes → XqfInfo → Option XqfInfo
unfolding ◌>>=◌ text_at
read_server_mod g line l =
    if g.ascii_strncasecmp line (codes "ServerMod") 9
    then (text_at line 10 >>= λ tmp. some (record l { mods = first_mod g tmp }))
    else some l

-- One round of the loop over the lines.
unfoldable pub read_line : Glib → Bytes → XqfInfo → Option XqfInfo
unfolding ◌>>=◌ read_game_type read_server_name read_server_addr read_server_mod
read_line g [] l = some l
read_line g (c ∷ line) l =
    read_game_type g (c ∷ line) l
    >>= read_server_name g (c ∷ line)
    >>= read_server_addr g (c ∷ line)
    >>= read_server_mod g (c ∷ line)

unfoldable pub read_lines : Glib → List Bytes → XqfInfo → Option XqfInfo
unfolding ◌>>=◌ read_line
read_lines g [] l = some l
read_lines g (line ∷ lines) l = read_line g line l >>= read_lines g lines

-- `contents` is the text of the file, if it can be read; the result NULL is `some none`.
unfoldable pub xfire_linfo_parse_xqf : Glib → Option Bytes → Option (Option XqfInfo)
unfolding ◌>>=◌ read_lines xfire_xqf_linfo_new
xfire_linfo_parse_xqf g none = some none
xfire_linfo_parse_xqf g (some contents) =
    read_lines g (g.strsplit contents (b'\n' ∷ [])) xfire_xqf_linfo_new >>= λ l. some (some l)

-- Whether a child of a game is the `xqf` element that is looked for.
unfoldable pub is_match : (xml : Xml) → Glib → XqfInfo → xml.Node → Bool
unfolding same_bytes
is_match xml g xqfs cnode =
    xml.is_tag cnode
    && same_bytes (xml.name cnode) (codes "xqf")
    && g.ascii_strcasecmp (xml.get_attrib cnode (codes "name")) xqfs.gtype
    && g.strrstr (xml.get_attrib cnode (codes "modlist")) xqfs.mods

-- The loop over the children of one game.
unfoldable pub search_children : (xml : Xml) → Glib → XqfInfo → ℕ → Option xml.Node → Option Bool
unfolding is_match
search_children xml g xqfs zero cnode = none
search_children xml g xqfs (suc bound) none = some false
search_children xml g xqfs (suc bound) (some cnode) =
    let rest = search_children xml g xqfs bound (xml.next cnode) in
    if is_match xml g xqfs cnode then some true else rest

-- The loop over the games; each game's children are at most `bound`.
unfoldable pub search_games : (xml : Xml) → Glib → XqfInfo → ℕ → ℕ → Option xml.Node → Option ℤ
unfolding search_children
search_games xml g xqfs bound zero item = none
search_games xml g xqfs bound (suc games) none = some (pos 0)
search_games xml g xqfs bound (suc games) (some item) =
    let rest = search_games xml g xqfs bound games (xml.get_next_twin item) in
    elim (xml.get_attrib item (codes "id")) [
      | none ↦ none
      | some num ↦ elim (search_children xml g xqfs bound (xml.child item)) [
        | none ↦ none
        | some found ↦ if found then some (atoi num) else rest
      ]
    ]

unfoldable pub xfire_xqf_search : (xml : Xml) → Glib → ℕ → Document xml.Node → XqfInfo → Option ℤ
unfolding search_games
xfire_xqf_search xml g bound null xqfs = some (pos 0)
xfire_xqf_search xml g bound freed xqfs = none
xfire_xqf_search xml g bound (live root) xqfs =
    search_games xml g xqfs bound bound (xml.get_child root (codes "game"))
