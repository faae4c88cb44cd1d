-- ===== src/Games/Names.antt =====
-- The name of a game (`xfire_game_name` of gfire/src/x_games.c).
use xfire.Prelude.{ℕ, ◌≡◌, refl, List, [], ◌∷◌, ◌++◌, Option, none, some, codes, false}
use xfire.Prelude.Int.{ℤ}
use xfire.Buffer.{Bytes, Op, fault, write}
use xfire.Buffer.Writes.{Writes, write-Writes}
use xfire.Clib.{format_d}
use xfire.Games.Document.{
  parse_document, Xml, Document, null, freed, live, find_game, xfire_games_cleanup,
  xfire_parse_games,
}
use xfire.Games.Document.Table.{IsTable, IsFound, lookup, find_game-lookup}

-- `memcpy(buffer, name, strlen(name)+1)`; `buffer` is what the operation works on.
unfoldable pub store_name : Option Bytes → Op (Unit {0})
unfolding fault write
store_name none = fault
store_name (some name) = write 0 (name ++ (0 ∷ []))

unfoldable pub xfire_game_name : (xml : Xml) → ℕ → Document xml.Node → ℤ → Op (Unit {0})
unfolding store_name fault find_game
xfire_game_name xml bound null game = store_name (some (format_d game))
xfire_game_name xml bound freed game = fault
xfire_game_name xml bound (live root) game =
    elim (find_game xml bound (xml.get_child root (codes "game")) game) [
      | none ↦ fault
      | some item ↦ elim item [
        | none ↦ store_name (some (format_d game))
        | some n ↦ store_name (xml.get_attrib n (codes "name"))
      ]
    ]

abbrev pub or_number : Option Bytes → ℤ → Bytes
or_number none game = format_d game
or_number (some name) game = name

abbrev pub display : List (ℤ × Bytes) → ℤ → Bytes
display rows game = or_number (lookup rows game) game

-- With a games document that has the table `rows`, `xfire_game_name` stores, at the start of any
-- buffer that has room for it, the name that the table has first for the game, or the game's number
-- where it has none, and the closing 0; what lies behind stays. In a smaller buffer it runs over the
-- end.
pub game_name-display :
    (xml : Xml) (bound : ℕ) (root : xml.Node) (rows : List (ℤ × Bytes)) (game : ℤ)
    → IsTable xml bound root rows
    → Writes (xfire_game_name xml bound (live root) game) 0 (display rows game ++ (0 ∷ [])) tt
unfolding xfire_game_name store_name
game_name-display xml bound root rows game t =
    let (item, found, is_found) = find_game-lookup xml bound root rows game t in
    rw (found, xfire_game_name) (stores item is_found)
  where
    stores :
        (item : Option xml.Node)
        → IsFound xml item (lookup rows game)
        → Writes
            (elim item [
              | none ↦ store_name (some (format_d game))
              | some n ↦ store_name (xml.get_attrib n (codes "name"))
            ])
            0
            (display rows game ++ (0 ∷ []))
            tt
    stores none missing = rw missing (write-Writes 0 _)
    stores (some n) (text, named, there) = rw (named, there) (write-Writes 0 _)

-- After `xfire_games_cleanup` has freed a document and reading the games fails, because there is no
-- file or it is no XML, `xfire_game_name` uses the document that was freed, for every game and in
-- every buffer.
pub game_name-after_cleanup :
    (xml : Xml) (from_str : Bytes → Option xml.Node) (contents : Option Bytes) (bound : ℕ)
    (root : xml.Node) (game : ℤ) (buffer : Bytes)
    → ((text : Bytes) → contents ≡ some text → from_str text ≡ none)
    → (doc : Document xml.Node) × (xfire_games_cleanup (live root) ≡ some doc)
      × (xfire_parse_games from_str contents doc ≡ (false, doc))
      × (xfire_game_name xml bound doc game buffer ≡ none)
unfolding xfire_games_cleanup xfire_parse_games xfire_game_name fault
game_name-after_cleanup xml from_str none bound root game buffer fails = (freed, refl, refl, refl)
game_name-after_cleanup xml from_str (some text) bound root game buffer fails =
    (freed, refl, rw (fails text refl, parse_document) refl, refl)
