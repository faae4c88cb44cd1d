-- ===== src/Tests/Games.antt =====
-- Two documents with games and a file of XQF, and the theorems on gfire/src/x_games.c for them.
use xfire.Prelude.{
  ℕ, ◌≡◌, refl, not, ◌==◌, List, [], ◌∷◌, ◌++◌, Option, none, some, codes, if◌then◌else◌, arith,
}
use xfire.Prelude.Int.{ℤ, pos}
use xfire.Buffer.{Bytes}
use xfire.Buffer.Writes.{Writes}
use xfire.Clib.{format_d, atoi, skip_spaces, is_space, scan_digits, digit_value}
use xfire.Search.{same_bytes}
use xfire.Games.Document.{Xml, live}
use xfire.Games.Document.Table.{IsTable}
use xfire.Games.Names.{xfire_game_name, display, game_name-display}
use xfire.Games.Info.{Linfo, xfire_linfo_get}
use xfire.Games.Info.Element.{Fields, HasFields, HasChildren, IsCommand, linfo_get-last_command}
use xfire.Games.Command.{xfire_linfo_get_cmd}
use xfire.Games.Command.Line.{get_cmd-address}
use xfire.Games.LaunchInfo.{XqfInfo, xfire_xqf_search, xfire_linfo_parse_xqf}
use xfire.Games.LaunchInfo.Matches.{IsFirstMatch, xqf_search-IsFirstMatch}
use xfire.Games.LaunchInfo.Lines.{launch_info, IsPlain, parse_xqf-launch_info}
use xfire.Tests.Glib.{glib, glib-Splits, glib-ReadsLines, strip}

-- The document's root is 0; its games are 1, with the children 3, which is no element, 4 and 5, and 2,
-- without children. The texts of the `command` element 4 are 10 to 15.
abbrev pub attribute : ℕ → Bytes → Option Bytes
attribute n field =
    if n == 1
    then (if same_bytes field (codes "id") then some (codes "5") else some (codes "Quake"))
    else if n == 2
    then (if same_bytes field (codes "id") then some (codes "32") else some (codes "Doom"))
    else if n == 5
    then (if same_bytes field (codes "name")
        then some (codes "Q3S")
        else some (codes "baseq3,arena"))
    else none

abbrev pub element_text : ℕ → Option Bytes
element_text n =
    if n == 10
    then some (codes "quake")
    else if n == 13
    then some (codes "-w")
    else if n == 14
    then some (codes "+connect @ip@:@port@")
    else if n == 15
    then some (codes "@options@ @gamemod@ @connect@")
    else none

abbrev pub element_in : ℕ → Bytes → Option ℕ
element_in n field =
    if n == 0
    then some 1
    else if not (n == 4)
    then none
    else if same_bytes field (codes "bin")
    then some 10
    else if same_bytes field (codes "dir")
    then some 11
    else if same_bytes field (codes "gamemod")
    then some 12
    else if same_bytes field (codes "options")
    then some 13
    else if same_bytes field (codes "connect")
    then some 14
    else some 15

abbrev pub xml : Xml
xml = record {
  Node = ℕ;
  name = λ n. if n == 4 then codes "command" else codes "xqf";
  is_tag = λ n. not (n == 3);
  get_attrib = attribute;
  get_data = element_text;
  get_child = element_in;
  get_next_twin = λ n. if n == 1 then some 2 else none;
  child = λ n. if n == 1 then some 3 else none;
  next = λ n. if n == 3 then some 4 else if n == 4 then some 5 else none;
}

abbrev pub rows : List (ℤ × Bytes)
rows = (pos 5, codes "Quake") ∷ (pos 32, codes "Doom") ∷ []

abbrev pub table : IsTable xml 10 0 rows
unfolding same_bytes atoi skip_spaces is_space scan_digits digit_value
table = record {
  nodes = 1 ∷ 2 ∷ [];
  chain = (refl, (refl, refl));
  shows = ((codes "5", refl, refl), refl, ((codes "32", refl, refl), refl, tt));
  enough = omega arith;
}

game_name-display_example :
    Writes (xfire_game_name xml 10 (live 0) (pos 32)) 0 (display rows (pos 32) ++ (0 ∷ [])) tt
game_name-display_example = game_name-display xml 10 0 rows (pos 32) table

children : HasChildren xml 10 1 (3 ∷ 4 ∷ 5 ∷ [])
children = record { chain = (refl, (refl, (refl, refl))); enough = omega arith }

no_children : HasChildren xml 10 2 []
no_children = record { chain = refl; enough = omega arith }

abbrev fields : Fields
fields = record {
  bin = element_text 10;
  dir = element_text 11;
  gamemod = element_text 12;
  options = element_text 13;
  connect = element_text 14;
  launch = element_text 15;
}

fields-IsCommand : IsCommand xml 4 fields
unfolding same_bytes
fields-IsCommand = record {
  is_element = refl;
  is_named = refl;
  says_bin = (10, refl, refl);
  says_dir = (11, refl, refl);
  says_gamemod = (12, refl, refl);
  says_options = (13, refl, refl);
  says_connect = (14, refl, refl);
  says_launch = (15, refl, refl);
}

linfo_get-last_command_example :
    (l : Linfo) × (xfire_linfo_get xml 10 (live 0) (pos 5) ≡ some (some l))
    × (l.gameid ≡ pos 5)
    × (l.name ≡ some (codes "Quake"))
    × HasFields l fields
unfolding table same_bytes atoi skip_spaces is_space scan_digits digit_value
linfo_get-last_command_example =
    linfo_get-last_command xml 10 0 rows (pos 5) table 1 (3 ∷ []) 4 (5 ∷ []) fields refl children
      fields-IsCommand (refl, tt)

abbrev quake : Linfo
quake = record {
  gameid = pos 5;
  name = some (codes "Quake");
  xqfname = none;
  xqfmods = none;
  c_bin = some (codes "quake");
  c_wdir = none;
  c_gmod = none;
  c_connect = some (codes "+connect @ip@:@port@");
  c_options = some (codes "-w");
  c_cmd = some (codes "@options@ @gamemod@ @connect@");
}

get_cmd-address_example :
    xfire_linfo_get_cmd glib quake (some (codes "1.2.3.4")) (pos 27) none
    ≡ some (codes "quake -w  +connect 1.2.3.4:27")
unfolding format_d strip skip_spaces is_space
get_cmd-address_example =
    get_cmd-address quake (codes "quake") (codes "-w") (codes "1.2.3.4") 27 glib-Splits refl refl
      refl refl (omega arith)

abbrev arena : XqfInfo
arena = record {
  gtype = some (codes "q3s");
  sname = some (codes "home");
  ip = some (codes "1.2.3.4");
  port = atoi (codes "27");
  mods = some (codes "arena");
}

xqf_search-IsFirstMatch_example :
    (z : ℤ) × (xfire_xqf_search xml glib 10 (live 0) arena ≡ some z)
    × IsFirstMatch xml glib arena ((pos 5, 3 ∷ 4 ∷ 5 ∷ []) ∷ (pos 32, []) ∷ []) z
unfolding same_bytes atoi skip_spaces is_space scan_digits digit_value
xqf_search-IsFirstMatch_example =
    xqf_search-IsFirstMatch xml glib 10 0 arena (1 ∷ 2 ∷ [])
      ((pos 5, 3 ∷ 4 ∷ 5 ∷ []) ∷ (pos 32, []) ∷ []) (refl, (refl, refl)) (omega arith)
      ((codes "5", refl, refl), children, ((codes "32", refl, refl), no_children, tt))

arena-IsPlain :
    IsPlain
      (codes "q3s")
      (codes "home")
      (codes "1.2.3.4")
      (codes "27")
      (codes "arena")
      (codes "ctf" ∷ [])
arena-IsPlain = record {
  type_line = omega arith;
  server_line = omega arith;
  addr_line = omega arith;
  mods_line = omega arith;
  host_part = omega arith;
  number_part = omega arith;
  mods_parts = omega arith;
}

parse_xqf-launch_info_example :
    xfire_linfo_parse_xqf glib (
      some (
        launch_info
          (codes "q3s")
          (codes "home")
          (codes "1.2.3.4")
          (codes "27")
          (codes "arena")
          (codes "ctf" ∷ [])))
    ≡ some (some arena)
parse_xqf-launch_info_example =
    parse_xqf-launch_info (codes "q3s") (codes "home") (codes "1.2.3.4") (codes "27")
      (codes "arena") (codes "ctf" ∷ []) glib-ReadsLines arena-IsPlain
