-- ===== src/Xfiregateway/User/Presence/Connected.antt =====
-- When a user of the gateway is connected to Xfire.
use xfire.Prelude.{◌≡◌, List, Option, some, All}
use xfire.Xfiregateway.User.{GameInfo, Game, Sent, User, is_xfire_connected, user_is_online}
use xfire.Xfirelib.Reader.{Received}

-- The gateway's table has every game that the user's resources play.
abbrev pub Known : List Game → Type 0
Known = All (λ game. (info : GameInfo) × (game.info ≡ some info))

-- A user with these presences, who is connected exactly if there are any.
abbrev pub InStep : User → User × List Sent → Type 0
InStep user r = (is_xfire_connected r.0 ≡ user_is_online user) × (r.0.presences ≡ user.presences)
