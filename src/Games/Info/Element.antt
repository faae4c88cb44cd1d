-- ===== src/Games/Info/Element.antt =====
-- The loop over the children of a game, and the fields that a `command` element sets.
use xfire.Prelude.{
  ℕ, zero, suc, ◌<◌, ◌≡◌, refl, ◌∙◌, Bool-cases, inl, inr, List, [], ◌∷◌, ◌++◌, Option, some, codes,
  length, All, Bool, true, false, ◌&&◌, arith,
}
use xfire.Prelude.Int.{ℤ}
use xfire.Buffer.{Bytes}
use xfire.Search.{same_bytes}
use xfire.Partial.{◌>>=◌}
use xfire.Games.Document.{Xml, live}
use xfire.Games.Document.Search.{Chain, first_with, has_id, find_game-first_with}
use xfire.Games.Document.Table.{IsTable, Represents-IsNumbered}
use xfire.Games.Info.{
  Linfo, fill, fill_child, fill_xqf, fill_command, text_of, read_linfo, xfire_linfo_new,
  xfire_linfo_get,
}

abbrev pub filled : (xml : Xml) → List xml.Node → Linfo → Linfo
filled xml [] l = l
filled xml (n ∷ ns) l = filled xml ns (fill_child xml n l)

-- The children of a game are in a chain, and no more than the bound.
pub record HasChildren (xml : Xml) (bound : ℕ) (item : xml.Node) (children : List xml.Node)
    : Type 0 where
  pub chain : Chain xml.next (xml.child item) children
  pub enough : length children < bound

pub fill-filled :
    (xml : Xml) (bound : ℕ) (first : Option xml.Node) (children : List xml.Node) (l : Linfo)
    → Chain xml.next first children
    → length children < bound
    → fill xml bound first l ≡ some (filled xml children l)
unfolding fill
fill-filled xml zero first children l chain enough = absurd (omega arith)
fill-filled xml (suc bound) first [] l chain enough = rw (chain, fill) refl
fill-filled xml (suc bound) first (n ∷ ns) l (here, chain) enough =
    rw (here, fill) (fill-filled xml bound (xml.next n) ns (fill_child xml n l) chain (omega arith))

abbrev pub is_command : (xml : Xml) → xml.Node → Bool
is_command xml n = xml.is_tag n && same_bytes (xml.name n) (codes "command")

-- The texts of the six fields that say how a game is launched.
pub record Fields : Type 0 where
  pub bin : Option Bytes
  pub dir : Option Bytes
  pub gamemod : Option Bytes
  pub options : Option Bytes
  pub connect : Option Bytes
  pub launch : Option Bytes

abbrev pub Says : (xml : Xml) → xml.Node → Bytes → Option Bytes → Type 0
Says xml n field text =
    (element : xml.Node) × (xml.get_child n field ≡ some element) × (xml.get_data element ≡ text)

pub record IsCommand (xml : Xml) (n : xml.Node) (f : Fields) : Type 0 where
  pub is_element : xml.is_tag n ≡ true
  pub is_named : xml.name n ≡ codes "command"
  pub says_bin : Says xml n (codes "bin") f.bin
  pub says_dir : Says xml n (codes "dir") f.dir
  pub says_gamemod : Says xml n (codes "gamemod") f.gamemod
  pub says_options : Says xml n (codes "options") f.options
  pub says_connect : Says xml n (codes "connect") f.connect
  pub says_launch : Says xml n (codes "launch") f.launch

pub record HasFields (l : Linfo) (f : Fields) : Type 0 where
  pub bin : l.c_bin ≡ f.bin
  pub dir : l.c_wdir ≡ f.dir
  pub gamemod : l.c_gmod ≡ f.gamemod
  pub options : l.c_options ≡ f.options
  pub connect : l.c_connect ≡ f.connect
  pub launch : l.c_cmd ≡ f.launch

text_of-Says :
    (xml : Xml) (n : xml.Node) (field : Bytes) (text old : Option Bytes)
    → Says xml n field text
    → text_of xml n field old ≡ text
unfolding text_of
text_of-Says xml n field text old (element, there, says) = rw (there, text_of) says

fill_child-IsCommand :
    (xml : Xml) (n : xml.Node) (f : Fields) (l : Linfo)
    → IsCommand xml n f
    → HasFields (fill_child xml n l) f
unfolding fill_child fill_command same_bytes
fill_child-IsCommand xml n f l c =
    rw (c.is_element, c.is_named)
      record {
        bin = text_of-Says xml n _ f.bin l.c_bin c.says_bin;
        dir = text_of-Says xml n _ f.dir l.c_wdir c.says_dir;
        gamemod = text_of-Says xml n _ f.gamemod l.c_gmod c.says_gamemod;
        options = text_of-Says xml n _ f.options l.c_options c.says_options;
        connect = text_of-Says xml n _ f.connect l.c_connect c.says_connect;
        launch = text_of-Says xml n _ f.launch l.c_cmd c.says_launch;
      }

fill_child-other :
    (xml : Xml) (n : xml.Node) (f : Fields) (l : Linfo)
    → is_command xml n ≡ false
    → HasFields l f
    → HasFields (fill_child xml n l) f
unfolding fill_child fill_xqf
fill_child-other xml n f l other h = elim (Bool-cases (xml.is_tag n)) [
  | inr text ↦ rw text h
  | inl element ↦ elim (Bool-cases (same_bytes (xml.name n) (codes "xqf"))) [
    | inl xqf ↦
        rw (element, xqf)
          record {
            bin = h.bin;
            dir = h.dir;
            gamemod = h.gamemod;
            options = h.options;
            connect = h.connect;
            launch = h.launch;
          }
    | inr not_xqf ↦ rw (element, not_xqf) rw (rw element at other) h
  ]
]

abbrev NotCommand : (xml : Xml) → xml.Node → Type 0
NotCommand xml n = is_command xml n ≡ false

filled-others :
    (xml : Xml) (after : List xml.Node) (f : Fields) (l : Linfo)
    → All (NotCommand xml) after
    → HasFields l f
    → HasFields (filled xml after l) f
filled-others xml [] f l others h = h
filled-others xml (n ∷ ns) f l (other, others) h =
    filled-others xml ns f (fill_child xml n l) others (fill_child-other xml n f l other h)

filled-last :
    (xml : Xml) (before : List xml.Node) (n : xml.Node) (after : List xml.Node) (f : Fields)
    (l : Linfo)
    → IsCommand xml n f
    → All (NotCommand xml) after
    → HasFields (filled xml (before ++ (n ∷ after)) l) f
filled-last xml [] n after f l command others =
    filled-others xml after f (fill_child xml n l) others (fill_child-IsCommand xml n f l command)
filled-last xml (b ∷ before) n after f l command others =
    filled-last xml before n after f (fill_child xml b l) command others

fill_child-kept :
    (xml : Xml) (n : xml.Node) (l : Linfo)
    → ((fill_child xml n l).gameid ≡ l.gameid) × ((fill_child xml n l).name ≡ l.name)
unfolding fill_child fill_xqf fill_command
fill_child-kept xml n l = ground arith

pub filled-kept :
    (xml : Xml) (ns : List xml.Node) (l : Linfo)
    → ((filled xml ns l).gameid ≡ l.gameid) × ((filled xml ns l).name ≡ l.name)
filled-kept xml [] l = (refl, refl)
filled-kept xml (n ∷ ns) l =
    let (same_id, same_name) = fill_child-kept xml n l in
    let (ids, names) = filled-kept xml ns (fill_child xml n l) in (ids ∙ same_id, names ∙ same_name)

-- With a launch document that has a table, and in it a first game `item` with the number whose
-- children are at most the bound: when `n` is the last `command` element among the children and has
-- all six elements, `xfire_linfo_get` returns a record with the game's number, the game's name and
-- the texts of those six elements, whatever `command` and `xqf` elements stand before it.
pub linfo_get-last_command :
    (xml : Xml) (bound : ℕ) (root : xml.Node) (rows : List (ℤ × Bytes)) (game : ℤ)
    (t : IsTable xml bound root rows) (item : xml.Node) (before : List xml.Node) (n : xml.Node)
    (after : List xml.Node) (f : Fields)
    → first_with (has_id xml game) t.nodes ≡ some item
    → HasChildren xml bound item (before ++ (n ∷ after))
    → IsCommand xml n f
    → All (NotCommand xml) after
    → (l : Linfo) × (xfire_linfo_get xml bound (live root) game ≡ some (some l))
      × (l.gameid ≡ game)
      × (l.name ≡ xml.get_attrib item (codes "name"))
      × HasFields l f
unfolding xfire_linfo_get ◌>>=◌ read_linfo
linfo_get-last_command xml bound root rows game t item before n after f first kids command others =
    (
      filled xml (before ++ (n ∷ after)) start,
      rw
          (
            find_game-first_with xml bound _ t.nodes game t.chain
                (Represents-IsNumbered xml t.nodes rows t.shows) t.enough,
            first,
            ◌>>=◌,
            read_linfo,
            fill-filled xml bound (xml.child item) (before ++ (n ∷ after)) start kids.chain
                kids.enough,
          )
          refl,
      (filled-kept xml (before ++ (n ∷ after)) start).0,
      (filled-kept xml (before ++ (n ∷ after)) start).1,
      filled-last xml before n after f start command others,
    )
  where
    start : Linfo
    start = record xfire_linfo_new { gameid = game; name = xml.get_attrib item (codes "name") }
