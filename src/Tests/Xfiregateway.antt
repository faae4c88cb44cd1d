-- ===== src/Tests/Xfiregateway.antt =====
-- The gateway at concrete inputs.
use xfire.Prelude.{◌≡◌, true, List, [], ◌∷◌, some, none, codes}
use xfire.Prelude.Int.{pos}
use xfire.Buffer.{Bytes}
use xfire.Xfiregateway.User.{Game, Status, UserPresence, User}
use xfire.Xfiregateway.User.Presence.{get_presence}
use xfire.Xfiregateway.User.Presence.Last.{get_presence-last_presence}
use xfire.Xfirelib.Reader.{Received}

abbrev game : Game
game = record {
  info =
      some (record { xfireid = 4; changestatus = true; goimid = codes "q3"; name = codes "Quake" });
  ip = 1 ∷ 0 ∷ 0 ∷ 127 ∷ [];
  port = pos 27960;
}

abbrev home : UserPresence
home = record { status = Status.available; statusmsg = []; priority = pos 5; games = game ∷ [] }

abbrev work : UserPresence
work = record { status = Status.away; statusmsg = codes "lunch"; priority = pos 1; games = [] }

abbrev resources : List (Bytes × UserPresence)
resources = (codes "home", home) ∷ (codes "work", work) ∷ []

abbrev somebody : User
somebody = record {
  jid = codes "a@b";
  name = codes "a";
  password = codes "pw";
  inroster = [];
  presences = resources;
  client = none;
  lastsentgame = 0;
  lastsentgame2 = 0;
}

-- The presence with the lower priority is the last one.
get_presence-last_presence_example : get_presence resources ≡ some work
get_presence-last_presence_example = get_presence-last_presence resources
