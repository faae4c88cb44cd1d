-- ===== src/Session/Tooltip.antt =====
-- The text of a buddy's tooltip (`xfire_prpl_tooltip_text` of gfire/src/xfire.c). `none` is a fault.
pub mod Size
use xfire.Prelude.{
  ℕ, Bool, List, [], ◌∷◌, ◌++◌, Option, none, some, codes, not, ◌==◌, if◌then◌else◌,
}
use xfire.Prelude.Int.{pos}
use xfire.Buffer.{Bytes}
use xfire.Clib.{format_d}
use xfire.Create.{c_string}
use xfire.Search.{same_bytes}
use xfire.Partial.{◌>>=◌}
use xfire.Games.Document.{Xml, Document}
use xfire.Games.Names.{xfire_game_name}
use xfire.Session.Buddy.{Buddy}

-- A line of the tooltip: a bold title and a text.
abbrev pub titled : Bytes → Bytes → Bytes
titled title text = codes "\n<b>" ++ (title ++ (codes "</b>: " ++ text))

-- The lines for the address and the port of the game.
unfoldable pub address_lines : Option Bytes → ℕ → Bytes
unfolding same_bytes format_d
address_lines ip port =
    let ip_line : Bytes = elim ip [
      | none ↦ []
      | some ip ↦ if same_bytes ip (codes "0.0.0.0") then [] else titled (codes "Game IP") ip
    ] in
    let port_line : Bytes =
      if port == 0 then [] else titled (codes "Game Port") (format_d (pos port)) in
    ip_line ++ port_line

-- The lines for a game; `game_text` is the array of 60 bytes, which `xfire_game_name` ends by a 0.
unfoldable pub game_lines : (xml : Xml) → ℕ → Document xml.Node → Bytes → Buddy → Option Bytes
unfolding xfire_game_name c_string address_lines
game_lines xml bound doc game_text b =
    if b.game == 0 then some [] else (elim (xfire_game_name xml bound doc (pos b.game) game_text) [
      | none ↦ none
      | some (_, game_text) ↦
          some (titled (codes "Game") (c_string game_text) ++ address_lines b.ip b.port)
    ])

-- The line for the away message.
abbrev pub away_line : (Bytes → Bytes) → Option Bytes → Bytes
away_line translate none = []
away_line translate (some amessage) = titled (translate (codes "Away")) amessage

-- `translate` is gettext's `_`. A username that is NULL may not be printed.
unfoldable pub xfire_prpl_tooltip_text :
    (xml : Xml) → (Bytes → Bytes) → ℕ → Document xml.Node → Bytes → Buddy → Option Bytes
unfolding game_lines ◌>>=◌
xfire_prpl_tooltip_text xml translate bound doc game_text b =
    if b.is_online
    then (b.username >>= λ username. game_lines xml bound doc game_text b >>= λ lines.
        some (titled (codes "Username") username ++ (away_line translate b.amessage ++ lines)))
    else some []
