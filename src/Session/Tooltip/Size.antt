-- ===== src/Session/Tooltip/Size.antt =====
-- The tooltip of a buddy who plays, with the array of 60 bytes for the game's name.
use xfire.Prelude.{
  ℕ, ◌≡◌, refl, Bool-cases, inl, inr, true, false, List, [], ◌∷◌, ◌++◌, none, some, codes, length,
  ltb, leb, ◌==◌, drop, length-append, append_assoc, if◌then◌else◌, arith,
}
use xfire.Prelude.Int.{ℤ, pos}
use xfire.Buffer.{Bytes}
use xfire.Buffer.Writes.{Writes, Writes-whole}
use xfire.Create.{c_string}
use xfire.Create.Address.{Lacks}
use xfire.Partial.{◌>>=◌}
use xfire.Games.Document.{Xml, Document, live}
use xfire.Games.Document.Table.{IsTable}
use xfire.Games.Names.{xfire_game_name, display, game_name-display}
use xfire.Session.Buddy.{Buddy}
use xfire.Session.Tooltip.{titled, away_line, address_lines, game_lines, xfire_prpl_tooltip_text}

c_string-append : (s rest : Bytes) → Lacks 0 s → c_string (s ++ (0 ∷ rest)) ≡ s
unfolding c_string
c_string-append [] rest h = refl
c_string-append (c ∷ s) rest (differs, h) = ground (arith, c_string-append s rest h)

fits_in :
    (name game_text : Bytes)
    → length game_text ≡ 60
    → leb (length (name ++ (0 ∷ []))) (length game_text) ≡ ltb (length name) 60
fits_in name game_text size = ground (arith, length-append name (0 ∷ []))

game_lines-Writes :
    (xml : Xml) (bound : ℕ) (doc : Document xml.Node) (name game_text : Bytes) (b : Buddy)
    → Writes (xfire_game_name xml bound doc (pos b.game)) 0 (name ++ (0 ∷ [])) tt
    → length game_text ≡ 60
    → (b.game == 0) ≡ false
    → Lacks 0 name
    → game_lines xml bound doc game_text b ≡ (
        if ltb (length name) 60
        then some (titled (codes "Game") name ++ address_lines b.ip b.port)
        else none)
unfolding game_lines
game_lines-Writes xml bound doc name game_text b stores size playing text =
    elim (Bool-cases (ltb (length name) 60)) [
      | inr long ↦
          rw (playing, Writes-whole stores game_text, fits_in name game_text size, long, game_lines)
            refl
      | inl short ↦
          rw
            (playing, Writes-whole stores game_text, fits_in name game_text size, short, game_lines)
            rw
            (
              append_assoc name (0 ∷ []) (drop (length (name ++ (0 ∷ []))) game_text),
              c_string-append name (drop (length (name ++ (0 ∷ []))) game_text) text,
            )
            refl
    ]

-- For a buddy who is online, has a username and plays, a games document that has the table `rows`, and
-- the array of 60 bytes: where the name that is displayed for the game has at most 59 bytes, none of
-- them 0, the tooltip has lines for the username, the away message, the game and its address; where
-- it is longer, the tooltip stores outside the array.
pub tooltip_text-size :
    (xml : Xml) (translate : Bytes → Bytes) (bound : ℕ) (root : xml.Node) (rows : List (ℤ × Bytes))
    (game_text username : Bytes) (b : Buddy)
    → IsTable xml bound root rows
    → length game_text ≡ 60
    → b.is_online ≡ true
    → b.username ≡ some username
    → (b.game == 0) ≡ false
    → Lacks 0 (display rows (pos b.game))
    → xfire_prpl_tooltip_text xml translate bound (live root) game_text b ≡ (
        if ltb (length (display rows (pos b.game))) 60
        then some (
            titled (codes "Username") username
            ++ (away_line translate b.amessage
                ++ (titled (codes "Game") (display rows (pos b.game))
                    ++ address_lines b.ip b.port)))
        else none)
unfolding xfire_prpl_tooltip_text ◌>>=◌
tooltip_text-size xml translate bound root rows game_text username b t size online named playing
      text =
    rw (online, named, ◌>>=◌) rw
      (game_lines-Writes xml bound (live root) (display rows (pos b.game)) game_text b
        (game_name-display xml bound root rows (pos b.game) t) size playing text)
      (ground arith)
