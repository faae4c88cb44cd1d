-- ===== src/Games/LaunchInfo/Lines.antt =====
-- What is read of a file with four lines, as XQF writes it.
use xfire.Prelude.{
  ℕ, ◌≡◌, ◌≢◌, refl, List, [], ◌∷◌, ◌++◌, map, some, codes, false, take, drop, length,
  length-append, le→leb, All, arith,
}
use xfire.Buffer.{Bytes}
use xfire.Clib.{atoi}
use xfire.Create.Address.{joined, Lacks, Lacks-append}
use xfire.Search.{same_bytes}
use xfire.Partial.{◌>>=◌}
use xfire.Glib.{Glib, ReadsLines, lower}
use xfire.Games.LaunchInfo.{
  XqfInfo, first_mod, xfire_xqf_linfo_new, text_at, read_game_type, read_server_name,
  read_server_addr, read_server_mod, read_line, read_lines, xfire_linfo_parse_xqf,
}

-- The text behind the beginning of a line.
text_at-append : (p t : Bytes) → text_at (p ++ t) (length p) ≡ some t
unfolding text_at
text_at-append p t =
    rw (le→leb (length p) (length (p ++ t)) (omega (arith, length-append p t)), drop_front p t) refl
  where
    drop_front : (p t : Bytes) → drop (length p) (p ++ t) ≡ t
    drop_front [] t = refl
    drop_front (c ∷ p) t = drop_front p t

append_some : (p : Bytes) (c : ℕ) (q : Bytes) → p ++ (c ∷ q) ≢ []
append_some [] c q e = cc
append_some (x ∷ p) c q e = cc

module _ {g : Glib} (laws : ReadsLines g) where
  -- A line with another beginning is passed over.
  other_type :
      (line : Bytes) (l : XqfInfo)
      → same_bytes (map lower (take 8 line)) (codes "gametype") ≡ false
      → read_game_type g line l ≡ some l
  unfolding read_game_type
  other_type line l e = rw (laws.compares line (codes "GameType") 8) rw e refl

  other_name :
      (line : Bytes) (l : XqfInfo)
      → same_bytes (map lower (take 10 line)) (codes "servername") ≡ false
      → read_server_name g line l ≡ some l
  unfolding read_server_name
  other_name line l e = rw (laws.compares line (codes "ServerName") 10) rw e refl

  other_addr :
      (line : Bytes) (l : XqfInfo)
      → same_bytes (map lower (take 10 line)) (codes "serveraddr") ≡ false
      → read_server_addr g line l ≡ some l
  unfolding read_server_addr
  other_addr line l e = rw (laws.compares line (codes "ServerAddr") 10) rw e refl

  other_mod :
      (line : Bytes) (l : XqfInfo)
      → same_bytes (map lower (take 9 line)) (codes "servermod") ≡ false
      → read_server_mod g line l ≡ some l
  unfolding read_server_mod
  other_mod line l e = rw (laws.compares line (codes "ServerMod") 9) rw e refl

  type_line :
      (t : Bytes) (l : XqfInfo)
      → read_line g (codes "GameType " ++ t) l ≡ some (record l { gtype = some t })
  unfolding read_line ◌>>=◌ same_bytes read_game_type
  type_line t l =
      rw
        (
          laws.compares (codes "GameType " ++ t) (codes "GameType") 8,
          text_at-append (codes "GameType ") t,
          other_name (codes "GameType " ++ t) (record l { gtype = some t }) refl,
          other_addr (codes "GameType " ++ t) (record l { gtype = some t }) refl,
          other_mod (codes "GameType " ++ t) (record l { gtype = some t }) refl,
        )
        refl

  name_line :
      (t : Bytes) (l : XqfInfo)
      → read_line g (codes "ServerName " ++ t) l ≡ some (record l { sname = some t })
  unfolding read_line ◌>>=◌ same_bytes read_server_name
  name_line t l =
      rw
        (
          other_type (codes "ServerName " ++ t) l refl,
          laws.compares (codes "ServerName " ++ t) (codes "ServerName") 10,
          text_at-append (codes "ServerName ") t,
          other_addr (codes "ServerName " ++ t) (record l { sname = some t }) refl,
          other_mod (codes "ServerName " ++ t) (record l { sname = some t }) refl,
        )
        refl

  addr_line :
      (host number : Bytes) (l : XqfInfo)
      → Lacks b':' host
      → Lacks b':' number
      → read_line g (codes "ServerAddr " ++ (host ++ (b':' ∷ number))) l
        ≡ some (record l { ip = some host; port = atoi number })
  unfolding read_line ◌>>=◌ same_bytes read_server_addr
  addr_line host number l lacks_host lacks_number =
      rw
        (
          other_type line l refl,
          other_name line l refl,
          laws.compares line (codes "ServerAddr") 10,
          text_at-append (codes "ServerAddr ") (host ++ (b':' ∷ number)),
          laws.splits_bytes.splits b':' host (number ∷ []) (append_some host b':' number)
              (lacks_host, (lacks_number, tt)),
          other_mod line (record l { ip = some host; port = atoi number }) refl,
        )
        refl
    where
      line : Bytes
      line = codes "ServerAddr " ++ (host ++ (b':' ∷ number))

  -- Of several mods the first is taken.
  first_mod_lem :
      (m : Bytes) (ms : List Bytes)
      → All (Lacks b',') (m ∷ ms)
      → first_mod g (joined b',' m ms) ≡ some m
  first_mod_lem m [] (lacks, _) = rw (laws.finds_none b',' m lacks) refl
  first_mod_lem m (q ∷ qs) lacks =
      rw
        (
          laws.finds_some b',' m (joined b',' q qs),
          laws.splits_bytes.splits b',' m (q ∷ qs) (append_some m b',' (joined b',' q qs)) lacks,
        )
        refl

  mod_line :
      (m : Bytes) (ms : List Bytes) (l : XqfInfo)
      → All (Lacks b',') (m ∷ ms)
      → read_line g (codes "ServerMod " ++ joined b',' m ms) l ≡ some (record l { mods = some m })
  unfolding read_line ◌>>=◌ same_bytes read_server_mod
  mod_line m ms l lacks =
      rw
        (
          other_type line l refl,
          other_name line l refl,
          other_addr line l refl,
          laws.compares line (codes "ServerMod") 9,
          text_at-append (codes "ServerMod ") (joined b',' m ms),
          first_mod_lem m ms lacks,
        )
        refl
    where
      line : Bytes
      line = codes "ServerMod " ++ joined b',' m ms

-- The file for a game type, a server's name, host and port, and a list of mods.
abbrev pub launch_info : Bytes → Bytes → Bytes → Bytes → Bytes → List Bytes → Bytes
launch_info type server host number m ms = joined b'\n' (codes "GameType " ++ type) (
    (codes "ServerName " ++ server)
    ∷ (codes "ServerAddr " ++ (host ++ (b':' ∷ number)))
    ∷ (codes "ServerMod " ++ joined b',' m ms)
    ∷ []
    ∷ [])

-- The texts of the file have no line feed; the host and the port have no colon, and the mods no comma.
pub record IsPlain (type server host number m : Bytes) (ms : List Bytes) : Type 0 where
  pub type_line : Lacks b'\n' type
  pub server_line : Lacks b'\n' server
  pub addr_line : Lacks b'\n' host × Lacks b'\n' number
  pub mods_line : Lacks b'\n' (joined b',' m ms)
  pub host_part : Lacks b':' host
  pub number_part : Lacks b':' number
  pub mods_parts : All (Lacks b',') (m ∷ ms)

-- `xfire_linfo_parse_xqf` reads a file of the four lines of XQF back, without a fault: the game type,
-- the server's name, its host, the number that `atoi` has for its port, and the first of its mods.
pub parse_xqf-launch_info :
    {g : Glib} (type server host number m : Bytes) (ms : List Bytes)
    → ReadsLines g
    → IsPlain type server host number m ms
    → xfire_linfo_parse_xqf g (some (launch_info type server host number m ms))
      ≡ some (
          some (record {
            gtype = some type;
            sname = some server;
            ip = some host;
            port = atoi number;
            mods = some m;
          }))
unfolding xfire_linfo_parse_xqf read_lines read_line ◌>>=◌ xfire_xqf_linfo_new
parse_xqf-launch_info type server host number m ms laws plain =
    rw
      (
        laws.splits_bytes.splits b'\n' (codes "GameType " ++ type)
            ((codes "ServerName " ++ server)
              ∷ (codes "ServerAddr " ++ (host ++ (b':' ∷ number)))
              ∷ (codes "ServerMod " ++ joined b',' m ms)
              ∷ []
              ∷ [])
            (λ e. cc)
            (
              Lacks-append b'\n' (codes "GameType ") type (omega arith) plain.type_line,
              (
                Lacks-append b'\n' (codes "ServerName ") server (omega arith) plain.server_line,
                (
                  Lacks-append b'\n' (codes "ServerAddr ") (host ++ (b':' ∷ number)) (omega arith) (
                      Lacks-append b'\n' host (b':' ∷ number) plain.addr_line.0
                        (omega arith, plain.addr_line.1)),
                  (
                    Lacks-append b'\n' (codes "ServerMod ") (joined b',' m ms) (omega arith)
                        plain.mods_line,
                    (tt, tt),
                  ),
                ),
              ),
            ),
        type_line laws type xfire_xqf_linfo_new,
        name_line laws server (record xfire_xqf_linfo_new { gtype = some type }),
        addr_line laws host number
            (record xfire_xqf_linfo_new { gtype = some type; sname = some server }) plain.host_part
            plain.number_part,
        mod_line laws m ms
            (record xfire_xqf_linfo_new {
              gtype = some type;
              sname = some server;
              ip = some host;
              port = atoi number;
            })
            plain.mods_parts,
      )
      refl
