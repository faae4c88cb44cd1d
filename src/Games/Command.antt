-- ===== src/Games/Command.antt =====
-- The command that launches a game (`xfire_launch_parse` and `xfire_linfo_get_cmd` of
-- gfire/src/x_games.c).
pub mod Substitution
pub mod Line
use xfire.Prelude.{
  ℕ, List, [], ◌∷◌, ◌++◌, Option, none, some, codes, length, ltb, leb, if◌then◌else◌,
}
use xfire.Prelude.Int.{ℤ}
use xfire.Buffer.{Bytes}
use xfire.Clib.{format_d}
use xfire.Glib.{Glib}
use xfire.Games.Info.{Linfo}

-- `sv` is what the text is split into.
abbrev pub put_together : Glib → Bytes → Bytes → List Bytes → Bytes
put_together g src replacement sv =
    if leb (length sv) 1 then src else if ltb 2 (length sv) then [] else g.strjoinv replacement sv

-- The parameter `data` of the source is `replacement`. No caller passes NULL for `delim`.
unfoldable pub xfire_launch_parse : Glib → Option Bytes → Option Bytes → Bytes → Bytes
xfire_launch_parse g none replacement delim = []
xfire_launch_parse g (some src) none delim = []
xfire_launch_parse g (some src) (some replacement) delim =
    put_together g src replacement (g.strsplit src delim)

-- What stands behind the program: the options, the mod and the address.
unfoldable pub command_arguments : Glib → Linfo → Option Bytes → ℤ → Option Bytes → Bytes
unfolding xfire_launch_parse
command_arguments g l ip prt mod_name =
    let port = format_d prt in
    let connect = xfire_launch_parse g l.c_connect ip (codes "@ip@") in
    let connect = xfire_launch_parse g (some connect) (some port) (codes "@port@") in
    let gamemod = xfire_launch_parse g l.c_gmod mod_name (codes "@mod@") in
    let cmd = xfire_launch_parse g l.c_cmd (some connect) (codes "@connect@") in
    let cmd = xfire_launch_parse g (some cmd) (some gamemod) (codes "@gamemod@") in
    g.strstrip (xfire_launch_parse g (some cmd) l.c_options (codes "@options@"))

-- `none` is NULL for the program, which `%s` does not allow. No caller passes NULL for `l`.
unfoldable pub xfire_linfo_get_cmd : Glib → Linfo → Option Bytes → ℤ → Option Bytes → Option Bytes
unfolding command_arguments
xfire_linfo_get_cmd g l ip prt mod_name = elim l.c_bin [
  | none ↦ none
  | some bin ↦ some (bin ++ (b' ' ∷ command_arguments g l ip prt mod_name))
]
