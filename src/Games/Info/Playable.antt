-- ===== src/Games/Info/Playable.antt =====
-- Which games can be launched.
use xfire.Prelude.{
  ℕ, ◌≡◌, refl, Bool, true, false, Bool-cases, inl, inr, not, ◌&&◌, List, [], ◌∷◌, Option, none,
  some, codes, All,
}
use xfire.Prelude.Int.{ℤ, pos, int_eq}
use xfire.Buffer.{Bytes}
use xfire.Partial.{◌>>=◌}
use xfire.Games.Document.{Xml, live}
use xfire.Games.Document.Search.{first_with, has_id, find_game-first_with}
use xfire.Games.Document.Table.{IsTable, IsFound, Represents-IsNumbered, lookup, first_with-lookup}
use xfire.Games.Info.{
  Linfo, xfire_linfo_new, read_linfo, xfire_linfo_get, xfire_game_playable, is_there,
}
use xfire.Games.Info.Element.{HasChildren, fill-filled}

abbrev pub IsRead : (xml : Xml) → ℕ → xml.Node → Type 0
IsRead xml bound item = (children : List xml.Node) × HasChildren xml bound item children

abbrev OnSome {ℓ κ} : {A : Type ℓ} → (A → Type κ) → Option A → Type κ
OnSome P none = Unit
OnSome P (some a) = P a

first_with-All {ℓ κ} :
    {A : Type ℓ} (P : A → Type κ) (p : A → Bool) (xs : List A)
    → All P xs
    → OnSome P (first_with p xs)
first_with-All P p [] h = tt
first_with-All P p (x ∷ xs) (here, rest) = elim (Bool-cases (p x)) [
  | inl e ↦ rw e here
  | inr e ↦ rw e (first_with-All P p xs rest)
]

abbrev pub is_listed : Option Bytes → Bool
is_listed none = false
is_listed (some name) = true

read_linfo-is_there :
    (xml : Xml) (bound : ℕ) (game : ℤ) (found : Option xml.Node) (name : Option Bytes)
    → OnSome (IsRead xml bound) found
    → IsFound xml found name
    → (read_linfo xml bound game found >>= λ foo. some (is_there foo)) ≡ some (is_listed name)
unfolding read_linfo ◌>>=◌
read_linfo-is_there xml bound game none name h missing = rw missing refl
read_linfo-is_there xml bound game (some item) name (children, kids) (text, named, there) =
    rw
      (
        there,
        ◌>>=◌,
        read_linfo,
        fill-filled xml bound (xml.child item) children start kids.chain kids.enough,
      )
      refl
  where
    start : Linfo
    start = record xfire_linfo_new { gameid = game; name = xml.get_attrib item (codes "name") }

-- With a launch document that has the table `rows`, where each game has at most the bound of
-- children, `xfire_game_playable` returns for every number, without a fault, TRUE exactly where the
-- number is not 0 and the table has it.
pub game_playable-lookup :
    (xml : Xml) (bound : ℕ) (root : xml.Node) (rows : List (ℤ × Bytes)) (game : ℤ)
    (t : IsTable xml bound root rows)
    → All (IsRead xml bound) t.nodes
    → xfire_game_playable xml bound (live root) game
      ≡ some (not (int_eq game (pos 0)) && is_listed (lookup rows game))
unfolding xfire_game_playable xfire_linfo_get ◌>>=◌
game_playable-lookup xml bound root rows game t reads = elim (Bool-cases (int_eq game (pos 0))) [
  | inl zero_game ↦ rw zero_game refl
  | inr other ↦
      rw
        (
          other,
          find_game-first_with xml bound _ t.nodes game t.chain
              (Represents-IsNumbered xml t.nodes rows t.shows) t.enough,
        )
        (read_linfo-is_there xml bound game (first_with (has_id xml game) t.nodes)
          (lookup rows game) (first_with-All (IsRead xml bound) (has_id xml game) t.nodes reads)
          (first_with-lookup xml t.nodes rows game t.shows))
]
