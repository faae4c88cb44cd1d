-- ===== src/Games/Document/Table.antt =====
-- What a document says of the games, as a table: their numbers and names, in order.
use xfire.Prelude.{
  ℕ, ◌<◌, ◌≡◌, refl, Bool-cases, inl, inr, List, [], ◌∷◌, Option, none, some, codes, length, All,
  if◌then◌else◌,
}
use xfire.Prelude.Int.{ℤ, int_eq}
use xfire.Buffer.{Bytes}
use xfire.Clib.{atoi}
use xfire.Games.Document.{Xml, find_game}
use xfire.Games.Document.Search.{Chain, first_with, has_id, IsNumbered, find_game-first_with}

-- Each game has a number and a name, and these are the rows of the table.
abbrev pub Represents : (xml : Xml) → List xml.Node → List (ℤ × Bytes) → Type 0
Represents xml [] [] = Unit
Represents xml [] (row ∷ rows) = ⊥
Represents xml (n ∷ ns) [] = ⊥
Represents xml (n ∷ ns) ((id, name) ∷ rows) =
    ((num : Bytes) × (xml.get_attrib n (codes "id") ≡ some num) × (atoi num ≡ id))
    × (xml.get_attrib n (codes "name") ≡ some name)
    × Represents xml ns rows

abbrev pub lookup : List (ℤ × Bytes) → ℤ → Option Bytes
lookup [] game = none
lookup ((id, name) ∷ rows) game = if int_eq id game then some name else lookup rows game

abbrev name_of : (xml : Xml) → Option xml.Node → Option Bytes
name_of xml none = none
name_of xml (some n) = xml.get_attrib n (codes "name")

-- The node that the search finds is the one that the table has the name of.
abbrev pub IsFound : (xml : Xml) → Option xml.Node → Option Bytes → Type 0
IsFound xml none name = name ≡ none
IsFound xml (some n) name =
    (text : Bytes) × (xml.get_attrib n (codes "name") ≡ some text) × (name ≡ some text)

pub Represents-IsNumbered :
    (xml : Xml) (nodes : List xml.Node) (rows : List (ℤ × Bytes))
    → Represents xml nodes rows
    → All (IsNumbered xml) nodes
Represents-IsNumbered xml [] rows h = tt
Represents-IsNumbered xml (n ∷ ns) [] h = absurd h
Represents-IsNumbered xml (n ∷ ns) ((id, name) ∷ rows) ((num, there, _), _, rest) =
    (cc, Represents-IsNumbered xml ns rows rest)

pub first_with-lookup :
    (xml : Xml) (nodes : List xml.Node) (rows : List (ℤ × Bytes)) (game : ℤ)
    → Represents xml nodes rows
    → IsFound xml (first_with (has_id xml game) nodes) (lookup rows game)
first_with-lookup xml [] [] game h = refl
first_with-lookup xml [] (row ∷ rows) game h = absurd h
first_with-lookup xml (n ∷ ns) [] game h = absurd h
first_with-lookup xml (n ∷ ns) ((id, name) ∷ rows) game ((num, there, number), named, rest) =
    elim (Bool-cases (int_eq id game)) [
      | inl same ↦ rw (there, number) rw same (name, named, refl)
      | inr other ↦ rw (there, number) rw other (first_with-lookup xml ns rows game rest)
    ]

-- A document with its games in a chain, each of them in the table.
pub record IsTable (xml : Xml) (bound : ℕ) (root : xml.Node) (rows : List (ℤ × Bytes))
    : Type 0 where
  pub nodes : List xml.Node
  pub chain : Chain xml.get_next_twin (xml.get_child root (codes "game")) nodes
  pub shows : Represents xml nodes rows
  pub enough : length nodes < bound

pub find_game-lookup :
    (xml : Xml) (bound : ℕ) (root : xml.Node) (rows : List (ℤ × Bytes)) (game : ℤ)
    → IsTable xml bound root rows
    → (found : Option xml.Node) × (find_game xml bound (xml.get_child root (codes "game")) game
        ≡ some found)
      × IsFound xml found (lookup rows game)
find_game-lookup xml bound root rows game t = (
  first_with (has_id xml game) t.nodes,
  find_game-first_with xml bound _ t.nodes game t.chain
      (Represents-IsNumbered xml t.nodes rows t.shows) t.enough,
  first_with-lookup xml t.nodes rows game t.shows,
)
