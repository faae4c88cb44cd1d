-- ===== src/Games/Command/Substitution.antt =====
-- A delimiter is replaced where it stands, if it stands at one place.
use xfire.Prelude.{◌≡◌, ◌≢◌, refl, [], ◌∷◌, ◌++◌, Option, none, some}
use xfire.Prelude.Int.{ℤ}
use xfire.Buffer.{Bytes}
use xfire.Glib.{Glib, Free, Splits}
use xfire.Games.Info.{Linfo}
use xfire.Games.Command.{xfire_launch_parse, command_arguments, xfire_linfo_get_cmd}

-- `xfire_launch_parse` replaces a delimiter that is not empty and stands at one place of the text, and
-- nothing else.
pub launch_parse-once :
    {g : Glib} (d p q replacement : Bytes)
    → Splits g
    → d ≢ []
    → Free d p (d ++ q)
    → Free d q []
    → xfire_launch_parse g (some (p ++ (d ++ q))) (some replacement) d ≡ p ++ (replacement ++ q)
unfolding xfire_launch_parse
launch_parse-once d p q replacement laws some_text before after =
    rw (laws.once d p q some_text before after, laws.joins replacement p q) refl

pub launch_parse-whole :
    {g : Glib} (d p replacement : Bytes)
    → Splits g
    → d ≢ []
    → Free d p []
    → xfire_launch_parse g (some p) (some replacement) d ≡ p
unfolding xfire_launch_parse
launch_parse-whole d [] replacement laws some_text free = rw (laws.empty d) refl
launch_parse-whole d (c ∷ p) replacement laws some_text free =
    rw (laws.whole d (c ∷ p) some_text (λ e. cc) free) refl

-- For a game whose `command` element has no `options` element, the command of `xfire_linfo_get_cmd` is
-- the program and a blank, whatever its `launch`, `connect` and `gamemod` elements say and whatever
-- the server's address is: the address is lost.
pub get_cmd-no_options :
    {g : Glib} (l : Linfo) (bin : Bytes) (ip : Option Bytes) (prt : ℤ) (mod_name : Option Bytes)
    → Splits g
    → l.c_bin ≡ some bin
    → l.c_options ≡ none
    → xfire_linfo_get_cmd g l ip prt mod_name ≡ some (bin ++ (b' ' ∷ []))
unfolding xfire_linfo_get_cmd command_arguments xfire_launch_parse
get_cmd-no_options l bin ip prt mod_name laws program missing =
    rw (program, missing, laws.strips_empty) refl
