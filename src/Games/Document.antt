-- ===== src/Games/Document.antt =====
-- The two XML documents of gfire/src/x_games.c. Gaim's `xmlnode` is a record of functions; a loop that
-- follows its links has a bound on the nodes that it visits, and `none` as a result is a fault or a
-- bound that is too small.
pub mod Search
pub mod Table
use xfire.Prelude.{ℕ, zero, suc, ◌≡◌, Bool, true, false, List, [], ◌∷◌, Option, none, some, codes}
use xfire.Prelude.Int.{ℤ, int_eq}
use xfire.Buffer.{Bytes}
use xfire.Clib.{atoi}

pub record Xml : Type 1 where
  pub Node : Type 0
  pub name : Node → Bytes
  pub is_tag : Node → Bool
  pub get_attrib : Node → Bytes → Option Bytes
  pub get_data : Node → Option Bytes
  pub get_child : Node → Bytes → Option Node
  pub get_next_twin : Node → Option Node
  pub child : Node → Option Node
  pub next : Node → Option Node

-- A pointer to a document: NULL, or a document, or what is left of one that was freed.
pub data Document (N : Type 0) : Type 0 where
  null freed : Document N
  live : N → Document N

-- `xfire_parse_games` and `xfire_parse_linfo_xml`: `contents` is what the file holds, if it can be
-- read, and `from_str` is `xmlnode_from_str`. The pointer is set where both work.
unfoldable pub parse_document :
    {N : Type 0} → (Bytes → Option N) → Option Bytes → Document N → Bool × Document N
parse_document from_str none doc = (false, doc)
parse_document from_str (some contents) doc = elim (from_str contents) [
  | none ↦ (false, doc)
  | some root ↦ (true, live root)
]

unfoldable pub xfire_parse_games :
    {N : Type 0} → (Bytes → Option N) → Option Bytes → Document N → Bool × Document N
unfolding parse_document
xfire_parse_games = parse_document

unfoldable pub xfire_parse_linfo_xml :
    {N : Type 0} → (Bytes → Option N) → Option Bytes → Document N → Bool × Document N
unfolding parse_document
xfire_parse_linfo_xml = parse_document

-- `xfire_games_cleanup` and `xfire_linfo_cleanup`: the pointer is not set to NULL. Freeing NULL does
-- nothing, and freeing twice is a fault.
unfoldable pub cleanup : {N : Type 0} → Document N → Option (Document N)
cleanup null = some null
cleanup freed = none
cleanup (live root) = some freed

unfoldable pub xfire_games_cleanup : {N : Type 0} → Document N → Option (Document N)
unfolding cleanup
xfire_games_cleanup = cleanup

unfoldable pub xfire_linfo_cleanup : {N : Type 0} → Document N → Option (Document N)
unfolding cleanup
xfire_linfo_cleanup = cleanup

-- The loop over the games of a document, up to the one with the number `game`.
unfoldable pub find_game : (xml : Xml) → ℕ → Option xml.Node → ℤ → Option (Option xml.Node)
find_game xml zero first game = none
find_game xml (suc bound) none game = some none
find_game xml (suc bound) (some item) game = elim (xml.get_attrib item (codes "id")) [
  | none ↦ none
  | some num ↦ elim (int_eq (atoi num) game) [
    | true ↦ some (some item)
    | false ↦ find_game xml bound (xml.get_next_twin item) game
  ]
]
