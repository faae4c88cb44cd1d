-- ===== src/Session/Connection/Life.antt =====
-- What is left of the plugin's pointers when a connection has ended.
use xfire.Prelude.{ℕ, ◌≡◌, refl, true, false, Option, none, some}
use xfire.Prelude.Int.{ℤ}
use xfire.Buffer.{Bytes, fault}
use xfire.Partial.{◌>>=◌}
use xfire.Games.Document.{
  Xml, Document, live, freed, parse_document, xfire_parse_games, xfire_parse_linfo_xml,
  xfire_games_cleanup, xfire_linfo_cleanup,
}
use xfire.Games.Names.{xfire_game_name}
use xfire.Games.Info.{xfire_linfo_get}
use xfire.Session.Connection.{Plugin, present, released, xfire_close, xfire_login}

-- The file cannot be read, or holds no XML.
abbrev pub IsUnreadable {ℓ} : {N : Type ℓ} → (Bytes → Option N) → Option Bytes → Type ℓ
IsUnreadable from_str none = Unit
IsUnreadable from_str (some text) = from_str text ≡ none

parse_document-fails :
    {N : Type 0} (from_str : Bytes → Option N) (contents : Option Bytes) (doc : Document N)
    → IsUnreadable from_str contents
    → parse_document from_str contents doc ≡ (false, doc)
unfolding parse_document
parse_document-fails from_str none doc h = refl
parse_document-fails from_str (some text) doc h = rw (h, parse_document) refl

-- After `xfire_close` of a connection with both documents, a second `xfire_close` uses the record that
-- was freed. When the next login gets a connection and cannot read either file, `xfire_game_name`
-- uses the freed document for every game and buffer, and so does `xfire_linfo_get` for every game.
pub close-login :
    (xml : Xml) (p : Plugin xml.Node) (games linfo : xml.Node) (from_str : Bytes → Option xml.Node)
    (games_text linfo_text : Option Bytes)
    → p.proto_data ≡ present
    → p.games ≡ live games
    → p.linfo ≡ live linfo
    → IsUnreadable from_str games_text
    → IsUnreadable from_str linfo_text
    → (q : Plugin xml.Node) × (xfire_close p ≡ some q)
      × (xfire_close q ≡ none)
      × ((bound : ℕ) (game : ℤ) (buffer : Bytes)
          → xfire_game_name xml bound
              (xfire_login from_str true games_text linfo_text q).1.games
              game
              buffer
            ≡ none)
      × ((bound : ℕ) (game : ℤ)
          → xfire_linfo_get xml bound
              (xfire_login from_str true games_text linfo_text q).1.linfo
              game
            ≡ none)
unfolding xfire_close xfire_login xfire_games_cleanup xfire_linfo_cleanup xfire_parse_games
    xfire_parse_linfo_xml ◌>>=◌ xfire_game_name xfire_linfo_get fault
close-login xml p games linfo from_str games_text linfo_text data_there games_there linfo_there
      no_games no_linfo =
    (
      record { proto_data = released; games = freed; linfo = freed; has_gc = false },
      rw (data_there, games_there, linfo_there) refl,
      refl,
      λ bound game buffer. rw (parse_document-fails from_str games_text freed no_games) refl,
      λ bound game. rw (parse_document-fails from_str linfo_text freed no_linfo) refl,
    )
