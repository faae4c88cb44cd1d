-- ===== src/Xfiregateway/User.antt =====
-- xfiregateway/src/user.cpp: a user of the gateway, with the presences of the user's Jabber resources and
-- the client for Xfire. Stanzas are built by the library gloox, and are written as what it is asked for.
pub mod Presence
pub mod Received
use xfire.Prelude.{
  ℕ, Bool, true, false, List, [], ◌∷◌, ◌++◌, Option, none, some, codes, get_elem?, ltb, ◌==◌,
  if◌then◌else◌,
}
use xfire.Prelude.Int.{ℤ, pos}
use xfire.Partial.{◌>>=◌}
use xfire.Buffer.{Bytes}
use xfire.Clib.{format_d}
use xfire.Search.{same_bytes}
use xfire.Xfirelib.Packet.{Content}
use xfire.Xfirelib.BuddyList.{BuddyListEntry, is_online, get_buddy_by_name}

-- GOIMGameInfo and GOIMGame of parsegamexml.h; a game of an unknown id has no info.
pub record GameInfo : Type 0 where
  pub xfireid : ℕ
  pub changestatus : Bool
  pub goimid : Bytes
  pub name : Bytes

pub record Game : Type 0 where
  pub info : Option GameInfo
  pub ip : Bytes
  pub port : ℤ

abbrev pub Buddy : Type 0
Buddy = BuddyListEntry Game

-- `getTarget`: the octets stand in the reverse order.
unfoldable pub get_target : Game → Option Bytes
unfolding ◌>>=◌
get_target game = do
  a ← get_elem? game.ip 3
  b ← get_elem? game.ip 2
  c ← get_elem? game.ip 1
  d ← get_elem? game.ip 0
  some (
      format_d (pos a)
      ++ (codes "."
          ++ (format_d (pos b)
              ++ (codes "."
                  ++ (format_d (pos c)
                      ++ (codes "." ++ (format_d (pos d) ++ (codes ":" ++ format_d game.port))))))))

-- PresenceAvailable of gloox, or another of its presences.
pub data Status : Type 0 where
  available away : Status

pub record UserPresence : Type 0 where
  pub status : Status
  pub statusmsg : Bytes
  pub priority : ℤ
  pub games : List Game

-- A child of a tag: its name, its attributes and its text.
pub record Child : Type 0 where
  pub name : Bytes
  pub attributes : List (Bytes × Bytes)
  pub cdata : Bytes

-- What goes out: a presence tag with its addresses, type and children, a stanza that gloox makes for a
-- message or for PresenceUnavailable, a packet or a chat message for Xfire, and the beginning and the end
-- of a connection to it.
pub data Sent : Type 0 where
  presence_tag : Bytes → Bytes → Option Bytes → List Child → Sent
  unavailable_stanza : Bytes → Bytes → Sent
  message_stanza : Bytes → Bytes → Bytes → Sent
  packet : Content → Sent
  chat : Bytes → Bytes → Sent
  connect : Bytes → Bytes → Sent
  disconnect : Sent

-- The presences by their resources, in the order of a std::map. The client is its buddy list.
pub record User : Type 0 where
  pub jid : Bytes
  pub name : Bytes
  pub password : Bytes
  pub inroster : List Bytes
  pub presences : List (Bytes × UserPresence)
  pub client : Option (List Buddy)
  pub lastsentgame : ℕ
  pub lastsentgame2 : ℕ

unfoldable pub is_xfire_connected : User → Bool
is_xfire_connected user = elim user.client [ none ↦ false | some entries ↦ true ]

abbrev pub some_presence : List (Bytes × UserPresence) → Bool
some_presence [] = false
some_presence (pres ∷ presences) = true

unfoldable pub user_is_online : User → Bool
user_is_online user = some_presence user.presences

abbrev pub address_of : Bytes → Bytes → Bytes
address_of username fqdn = username ++ (codes "@" ++ fqdn)

unfoldable pub is_in_roster : Bytes → List Bytes → Bool
unfolding same_bytes
is_in_roster username [] = false
is_in_roster username (other ∷ inroster) =
    let rest = is_in_roster username inroster in if same_bytes other username then true else rest

unfoldable pub send_unavailable_for_all_buddies : Bytes → User → List Buddy → List Sent
unfolding is_in_roster
send_unavailable_for_all_buddies fqdn user [] = []
send_unavailable_for_all_buddies fqdn user (buddy ∷ entries) =
    let rest = send_unavailable_for_all_buddies fqdn user entries in
    if is_in_roster buddy.username user.inroster
    then Sent.unavailable_stanza user.jid (address_of buddy.username fqdn) ∷ rest
    else rest

unfoldable pub pre_remove : Bytes → Bytes → List Bytes → List Sent
pre_remove fqdn jid [] = []
pre_remove fqdn jid (username ∷ inroster) =
    Sent.presence_tag jid (address_of username fqdn) (some (codes "unavailable")) []
    ∷ Sent.presence_tag jid (address_of username fqdn) (some (codes "unsubscribe")) []
    ∷ Sent.presence_tag jid (address_of username fqdn) (some (codes "unsubscribed")) []
    ∷ pre_remove fqdn jid inroster

unfoldable pub send_initial_presences : Bytes → User → List Sent
send_initial_presences fqdn user = Sent.presence_tag user.jid fqdn (some (codes "probe")) [] ∷ []

unfoldable pub mirror_presence : Bytes → User → List Sent
mirror_presence fqdn user = elim user.client [
  | none ↦ Sent.presence_tag user.jid fqdn (some (codes "unavailable")) [] ∷ []
  | some entries ↦ Sent.presence_tag user.jid fqdn none [] ∷ []
]

-- The child for a game, and the text that is added to the status for it.
unfoldable pub create_packet_extension : Game → Option (Child × Bytes)
unfolding ◌>>=◌ get_target
create_packet_extension game = do
  info ← game.info
  target ← get_target game
  some (
    record {
      name = codes "x";
      attributes =
          (codes "xmlns", codes "http://goim.sphene.net/gameStatus")
          ∷ (codes "game", info.goimid)
          ∷ (codes "target", target)
          ∷ [];
      cdata = [];
    },
    codes "Playing: " ++ (info.name ++ (codes " at " ++ (target ++ codes "  "))),
  )

unfoldable pub extension_for : Option Game → Option (List Child × Bytes)
unfolding ◌>>=◌ create_packet_extension
extension_for none = some ([], [])
extension_for (some game) =
    create_packet_extension game >>= λ (made : Child × Bytes). some (made.0 ∷ [], made.1)

abbrev pub away_children : Bytes → List Child
away_children status =
    record { name = codes "show"; attributes = []; cdata = codes "away" }
    ∷ record { name = codes "status"; attributes = []; cdata = status }
    ∷ []

unfoldable pub is_empty : Bytes → Bool
is_empty [] = true
is_empty (c ∷ s) = false

unfoldable pub send_presence_tag_for_buddy : Bytes → User → Buddy → Option (List Sent)
unfolding ◌>>=◌ extension_for is_online is_empty
send_presence_tag_for_buddy fqdn user buddy =
    let from = address_of buddy.username fqdn in
    let online = extension_for buddy.game_obj >>= λ (first : List Child × Bytes).
    extension_for buddy.game2_obj >>= λ (second : List Child × Bytes).
    let own = first.1 ++ second.1 in
    let stated = if is_empty buddy.statusmsg then [] else away_children buddy.statusmsg in
    let playing =
      if is_empty buddy.statusmsg then (if is_empty own then [] else away_children own) else [] in
    some
      (Sent.presence_tag user.jid from none (stated ++ (first.0 ++ (second.0 ++ playing))) ∷ []) in
    if is_online buddy
    then online
    else some (Sent.presence_tag user.jid from (some (codes "unavailable")) [] ∷ [])

-- `receivedMessage`: the sender's address, the name it is for, and the body.
unfoldable pub received_message : Bytes → User → Bytes → Bytes → Bytes → List Sent
unfolding is_empty get_buddy_by_name is_online
received_message fqdn user from to_username body =
    let offline =
      Sent.message_stanza from
        (codes
          "Error while sending message: User is not online (xfire does not support offline message sending) !")
        fqdn
      ∷ [] in
    if is_empty body then [] else (elim user.client [
      | none ↦
          Sent.message_stanza from (codes "Error while sending message: No Client connection !")
            fqdn
          ∷ []
      | some entries ↦ elim (get_buddy_by_name to_username entries) [
        | none ↦ offline
        | some entry ↦ if is_online entry then Sent.chat entry.sid body ∷ [] else offline
      ]
    ])
