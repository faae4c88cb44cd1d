-- ===== src/Xfiregateway/User/Presence/Last.antt =====
-- What User::getPresence returns.
use xfire.Prelude.{◌≡◌, refl, List, [], ◌∷◌, Option, none, some}
use xfire.Buffer.{Bytes}
use xfire.Xfiregateway.User.{UserPresence}
use xfire.Xfiregateway.User.Presence.{presence_loop, get_presence}

-- The presence of the last resource, in the order of the map.
abbrev pub last_presence : List (Bytes × UserPresence) → Option UserPresence → Option UserPresence
last_presence [] before = before
last_presence ((resource, pres) ∷ presences) before = last_presence presences (some pres)

presence_loop-last_presence :
    (presences : List (Bytes × UserPresence)) (pres currentpres : Option UserPresence)
    → (presence_loop presences pres currentpres).0 ≡ last_presence presences pres
unfolding presence_loop
presence_loop-last_presence [] pres currentpres = refl
presence_loop-last_presence ((resource, next) ∷ presences) pres currentpres =
    presence_loop-last_presence presences (some next) _

-- getPresence returns the presence of the last resource, whatever the priorities are.
pub get_presence-last_presence :
    (presences : List (Bytes × UserPresence))
    → get_presence presences ≡ last_presence presences none
unfolding get_presence
get_presence-last_presence presences = presence_loop-last_presence presences none none
