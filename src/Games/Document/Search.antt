-- ===== src/Games/Document/Search.antt =====
-- The loop over the games of a document, against a search of the list of its games.
use xfire.Prelude.{
  ℕ, zero, suc, ◌<◌, ◌≡◌, ◌≢◌, refl, Bool, false, Bool-cases, Option-cases, inl, inr, List, [], ◌∷◌,
  Option, none, some, codes, length, All, if◌then◌else◌, arith,
}
use xfire.Prelude.Int.{ℤ, int_eq}
use xfire.Clib.{atoi}
use xfire.Games.Document.{Xml, find_game}

-- The nodes that are visited from `first` on by following `next`.
abbrev pub Chain {ℓ} : {N : Type ℓ} → (N → Option N) → Option N → List N → Type ℓ
Chain next first [] = first ≡ none
Chain next first (n ∷ ns) = (first ≡ some n) × Chain next (next n) ns

abbrev pub first_with {ℓ} : {N : Type ℓ} → (N → Bool) → List N → Option N
first_with p [] = none
first_with p (n ∷ ns) = if p n then some n else first_with p ns

abbrev pub is_number : Option (List ℕ) → ℤ → Bool
is_number none game = false
is_number (some num) game = int_eq (atoi num) game

abbrev pub has_id : (xml : Xml) → ℤ → xml.Node → Bool
has_id xml game n = is_number (xml.get_attrib n (codes "id")) game

-- Each game of the document has a number.
abbrev pub IsNumbered : (xml : Xml) → xml.Node → Type 0
IsNumbered xml n = xml.get_attrib n (codes "id") ≢ none

pub find_game-first_with :
    (xml : Xml) (bound : ℕ) (first : Option xml.Node) (nodes : List xml.Node) (game : ℤ)
    → Chain xml.get_next_twin first nodes
    → All (IsNumbered xml) nodes
    → length nodes < bound
    → find_game xml bound first game ≡ some (first_with (has_id xml game) nodes)
unfolding find_game
find_game-first_with xml zero first nodes game chain numbered enough = absurd (omega arith)
find_game-first_with xml (suc bound) first [] game chain numbered enough =
    rw (chain, find_game) refl
find_game-first_with xml (suc bound) first (n ∷ ns) game (here, chain) (numbered, rest) enough =
    elim (Option-cases (xml.get_attrib n (codes "id"))) [
      | inl none_there ↦ absurd (numbered none_there)
      | inr (num, there) ↦ elim (Bool-cases (int_eq (atoi num) game)) [
        | inl same ↦ rw (here, there, find_game) rw same refl
        | inr other ↦
            rw (here, there, find_game) rw other
              (find_game-first_with xml bound (xml.get_next_twin n) ns game chain rest
                (omega arith))
      ]
    ]
