-- ===== src/Xfiregateway/User/Presence.antt =====
-- User::getPresence, presenceChanged and receivedPresence (xfiregateway/src/user.cpp).
pub mod Last
pub mod Connected
use xfire.Prelude.{
  ℕ, Bool, true, false, List, [], ◌∷◌, ◌++◌, Option, none, some, codes, ltb, ◌==◌, ◌&&◌, ◌||◌, not,
  if◌then◌else◌,
}
use xfire.Prelude.Int.{ℤ, pos, negsuc}
use xfire.Partial.{◌>>=◌}
use xfire.Buffer.{Bytes}
use xfire.Clib.{atoi}
use xfire.Search.{same_bytes}
use xfire.Xfirelib.Packet.{Content}
use xfire.Xfirelib.BuddyList.{BuddyListEntry, get_buddy_by_name}
use xfire.Xfiregateway.User.{
  GameInfo, Game, Buddy, Status, available, away, UserPresence, Sent, User, address_of,
  is_in_roster, is_empty, send_unavailable_for_all_buddies, mirror_presence,
  send_presence_tag_for_buddy,
}

unfoldable pub greater : ℤ → ℤ → Bool
greater (pos a) (pos b) = ltb b a
greater (pos a) (negsuc b) = true
greater (negsuc a) (pos b) = false
greater (negsuc a) (negsuc b) = ltb a b

-- The loop of `getPresence`: `pres` and `currentpres`. The function returns `pres`.
unfoldable pub presence_loop :
    List (Bytes × UserPresence)
    → Option UserPresence
    → Option UserPresence
    → Option UserPresence × Option UserPresence
unfolding greater
presence_loop [] pres currentpres = (pres, currentpres)
presence_loop ((resource, next) ∷ presences) pres currentpres =
    let current : Option UserPresence = elim currentpres [
      | none ↦ some next
      | some best ↦ if greater next.priority best.priority then some next else some best
    ] in
    presence_loop presences (some next) current

unfoldable pub get_presence : List (Bytes × UserPresence) → Option UserPresence
unfolding presence_loop
get_presence presences = (presence_loop presences none none).0

-- What the loop over the games keeps: the packets, and the four variables.
pub record Sending : Type 0 where
  pub sentfirst : Bool
  pub sentsecond : Bool
  pub lastsentgame : ℕ
  pub lastsentgame2 : ℕ

unfoldable pub game_sent : GameInfo → Game → Sending → Sending × List Sent
game_sent info game s =
    if info.changestatus
    then (if not s.sentfirst && not (s.lastsentgame == info.xfireid)
        then (
          record s { sentfirst = true; lastsentgame = info.xfireid },
          Sent.packet (Content.send_game_status (pos info.xfireid) game.ip game.port) ∷ [],
        )
        else (record s { sentfirst = true }, []))
    else (if not s.sentsecond && not (s.lastsentgame2 == info.xfireid)
        then (
          record s { sentsecond = true; lastsentgame2 = info.xfireid },
          Sent.packet (Content.send_game_status2 (pos info.xfireid) game.ip game.port) ∷ [],
        )
        else (record s { sentsecond = true }, []))

-- A game without an info is a null pointer that is followed.
unfoldable pub games_loop : List Game → Sending → Option (Sending × List Sent)
unfolding ◌>>=◌ game_sent
games_loop [] s = some (s, [])
games_loop (game ∷ games) s =
    let round = game.info >>= λ info.
    let step = game_sent info game s in
    games_loop games step.0 >>= λ (rest : Sending × List Sent). some (rest.0, step.1 ++ rest.1) in
    if s.sentfirst && s.sentsecond then some (s, []) else round

-- What is sent for a presence while there is a client. The packets at the end are new ones, whose game
-- is what the new object holds, `stray`.
unfoldable pub send_presence : ℤ → UserPresence → ℕ → ℕ → Option (Sending × List Sent)
unfolding ◌>>=◌ games_loop
send_presence stray pres lastsentgame lastsentgame2 = do
  let awaymsg : Bytes = elim pres.status [
    | available ↦ []
    | away ↦ codes "away: " ++ pres.statusmsg
  ]
  (s, games) ← games_loop pres.games (record {
    sentfirst = false;
    sentsecond = false;
    lastsentgame = lastsentgame;
    lastsentgame2 = lastsentgame2;
  })
  let no_address : Bytes = 0 ∷ 0 ∷ 0 ∷ 0 ∷ []
  let first =
      if not s.sentfirst && ltb 0 s.lastsentgame
      then Sent.packet (Content.send_game_status stray no_address (pos 0)) ∷ []
      else []
  let second =
      if not s.sentsecond && ltb 0 s.lastsentgame2
      then Sent.packet (Content.send_game_status2 stray no_address (pos 0)) ∷ []
      else []
  some (s, Sent.packet (Content.send_status_message awaymsg) ∷ (games ++ (first ++ second)))

-- The user behind the handler, and what was sent.
unfoldable pub presence_changed : Bytes → ℤ → User → Option (User × List Sent)
unfolding ◌>>=◌ get_presence send_presence mirror_presence send_unavailable_for_all_buddies
presence_changed fqdn stray user = elim (get_presence user.presences) [
  | some pres ↦
      let opened : User × List Sent = elim user.client [
        | some entries ↦ (user, [])
        | none ↦
            let connected = record user { client = some [] } in
            (
              connected,
              mirror_presence fqdn connected ++ (Sent.connect user.name user.password ∷ []),
            )
      ] in
      send_presence stray pres user.lastsentgame user.lastsentgame2
      >>= λ (told : Sending × List Sent).
          let user = record opened.0 {
            lastsentgame = told.0.lastsentgame;
            lastsentgame2 = told.0.lastsentgame2;
          } in
          some (user, opened.1 ++ (told.1 ++ mirror_presence fqdn user))
  | none ↦
      let closed : User × List Sent = elim user.client [
        | none ↦ (user, [])
        | some entries ↦ (
          record user { client = none },
          send_unavailable_for_all_buddies fqdn user entries ++ (Sent.disconnect ∷ []),
        )
      ] in
      some (closed.0, closed.1 ++ mirror_presence fqdn closed.0)
]

-- The keys of the map are ordered as strings.
unfoldable pub before : Bytes → Bytes → Bool
before a [] = false
before [] (b ∷ bs) = true
before (x ∷ xs) (y ∷ ys) = let rest = before xs ys in ltb x y || (x == y && rest)

unfoldable pub find_presence : Bytes → List (Bytes × UserPresence) → Option UserPresence
unfolding same_bytes
find_presence resource [] = none
find_presence resource ((other, pres) ∷ presences) =
    let rest = find_presence resource presences in
    if same_bytes other resource then some pres else rest

unfoldable pub store_presence :
    Bytes → UserPresence → List (Bytes × UserPresence) → List (Bytes × UserPresence)
unfolding before same_bytes
store_presence resource pres [] = (resource, pres) ∷ []
store_presence resource pres ((other, old) ∷ presences) =
    let rest = store_presence resource pres presences in
    if same_bytes other resource
    then (resource, pres) ∷ presences
    else if before resource other
    then (resource, pres) ∷ (other, old) ∷ presences
    else (other, old) ∷ rest

unfoldable pub erase_presence : Bytes → List (Bytes × UserPresence) → List (Bytes × UserPresence)
unfolding same_bytes
erase_presence resource [] = []
erase_presence resource ((other, old) ∷ presences) =
    let rest = erase_presence resource presences in
    if same_bytes other resource then presences else (other, old) ∷ rest

-- The subtypes of gloox's stanzas.
pub data Subtype : Type 0 where
  subscribed subscribe unsubscribe unsubscribed presence_available other : Subtype

-- A presence without a name in its address: the resource, the status, its text, the text of the tag
-- priority, and the games of its tags, which GOIMGame and the library's sscanf make.
pub record Announced : Type 0 where
  pub unavailable : Bool
  pub subtype : Subtype
  pub status : Status
  pub statusmsg : Bytes
  pub priority : Option Bytes
  pub games : List Game

-- The object that is stored; a new one has the priority `unset` until it is given one.
unfoldable pub announced_presence : ℤ → Announced → Option UserPresence → UserPresence
unfolding atoi
announced_presence unset a old =
    let kept : ℤ = elim old [ none ↦ unset | some pres ↦ pres.priority ] in
    let games : List Game = elim old [ none ↦ [] | some pres ↦ pres.games ] in
    let priority : ℤ = elim a.priority [ none ↦ kept | some cdata ↦ atoi cdata ] in
    record {
      status = a.status;
      statusmsg = a.statusmsg;
      priority = priority;
      games = games ++ a.games;
    }

unfoldable pub received_own_presence :
    Bytes → ℤ → ℤ → User → Bytes → Announced → Option (User × List Sent)
unfolding presence_changed find_presence store_presence erase_presence announced_presence
received_own_presence fqdn stray unset user resource a =
    let pres = announced_presence unset a (find_presence resource user.presences) in
    let stored = store_presence resource pres user.presences in
    let presences : List (Bytes × UserPresence) =
      if a.unavailable then erase_presence resource user.presences else (elim a.subtype [
        | presence_available ↦ stored
        | subscribed ↦ user.presences
        | subscribe ↦ user.presences
        | unsubscribe ↦ user.presences
        | unsubscribed ↦ user.presences
        | other ↦ user.presences
      ]) in
    presence_changed fqdn stray (record user { presences = presences })

-- A presence for a buddy, whose name the stanza's address has; `from` and `to` are the bare addresses.
unfoldable pub received_buddy_presence :
    Bytes → User → List Buddy → Subtype → Bytes → Bytes → Bytes → Option (User × List Sent)
unfolding ◌>>=◌ is_in_roster get_buddy_by_name send_presence_tag_for_buddy
received_buddy_presence fqdn user entries subtype from to username =
    let known = get_buddy_by_name username entries in
    let answered : Option (List Sent) = elim known [
      | none ↦ some (Sent.packet (Content.send_accept_invitation username) ∷ [])
      | some buddy ↦ send_presence_tag_for_buddy fqdn user buddy
    ] in
    let joined = answered >>= λ sent.
    some (record user { inroster = user.inroster ++ (username ∷ []) }, sent) in
    let removed : Sent = elim known [
      | none ↦ Sent.packet (Content.send_deny_invitation username)
      | some entry ↦ Sent.packet (Content.send_remove_buddy (pos entry.userid))
    ] in
    elim subtype [
      | subscribed ↦ if is_in_roster username user.inroster then some (user, []) else joined
      | subscribe ↦ elim known [
        | some buddy ↦ some (user, Sent.presence_tag from to (some (codes "subscribed")) [] ∷ [])
        | none ↦ some (
          user,
          Sent.packet (
                Content.invite_buddy (username ∷ []) (
                  codes "Pls add me :) (Default msg by GOIM xfire jabber gateway http://goim.us )"
                  ∷ []))
              ∷ [],
        )
      ]
      | unsubscribe ↦ some (
        user,
        removed
            ∷ Sent.presence_tag user.jid (address_of username fqdn) (some (codes "unsubscribe")) []
            ∷ [],
      )
      | unsubscribed ↦ some (
        user,
        removed
            ∷ Sent.presence_tag user.jid (address_of username fqdn) (some (codes "unsubscribed")) []
            ∷ [],
      )
      | presence_available ↦ some (user, [])
      | other ↦ some (user, [])
    ]

-- `receivedPresence`: for a buddy, where the address has a name, or from one of the user's resources.
unfoldable pub received_presence :
    Bytes → ℤ → ℤ → User → Bytes → Bytes → Bytes → Bytes → Announced → Option (User × List Sent)
unfolding received_own_presence received_buddy_presence is_empty
received_presence fqdn stray unset user resource from to username a =
    let own = received_own_presence fqdn stray unset user resource a in
    if is_empty username then own else (elim user.client [
      | none ↦ some (user, [])
      | some entries ↦ received_buddy_presence fqdn user entries a.subtype from to username
    ])
