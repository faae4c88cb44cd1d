-- ===== src/Xfiregateway/User/Received.antt =====
-- User::receivedPacket (xfiregateway/src/user.cpp): what a packet from Xfire is told to the Jabber server.
use xfire.Prelude.{
  ℕ, Bool, true, false, List, [], ◌∷◌, ◌++◌, Option, none, some, codes, if◌then◌else◌,
}
use xfire.Partial.{◌>>=◌}
use xfire.Buffer.{Bytes}
use xfire.Search.{same_bytes}
use xfire.Xfirelib.Value.{get_value}
use xfire.Xfirelib.Reader.{Class, Received}
use xfire.Xfirelib.BuddyList.{get_buddy_by_id, get_buddy_by_sid}
use xfire.Xfiregateway.User.{
  Buddy, Sent, User, address_of, is_in_roster, send_unavailable_for_all_buddies,
  send_presence_tag_for_buddy,
}

-- The loops over the users of a packet: those who are in the list are told.
unfoldable pub tell_buddies : Bytes → User → List (Option Buddy) → Option (List Sent)
unfolding ◌>>=◌ send_presence_tag_for_buddy
tell_buddies fqdn user [] = some []
tell_buddies fqdn user (none ∷ buddies) = tell_buddies fqdn user buddies
tell_buddies fqdn user (some buddy ∷ buddies) =
    send_presence_tag_for_buddy fqdn user buddy >>= λ sent.
    tell_buddies fqdn user buddies >>= λ rest. some (sent ++ rest)

unfoldable pub found_by_id : List Buddy → List ℕ → List (Option Buddy)
unfolding get_buddy_by_id
found_by_id entries [] = []
found_by_id entries (userid ∷ userids) =
    get_buddy_by_id userid entries ∷ found_by_id entries userids

unfoldable pub found_by_sid : List Buddy → List Bytes → List (Option Buddy)
unfolding get_buddy_by_sid
found_by_sid entries [] = []
found_by_sid entries (sid ∷ sids) = get_buddy_by_sid sid entries ∷ found_by_sid entries sids

-- The loop over the whole list: who is not in the roster is asked for.
unfoldable pub subscribe_all : Bytes → User → List Buddy → List Sent
unfolding is_in_roster
subscribe_all fqdn user [] = []
subscribe_all fqdn user (buddy ∷ entries) =
    let rest = subscribe_all fqdn user entries in
    if is_in_roster buddy.username user.inroster
    then rest
    else Sent.presence_tag user.jid (address_of buddy.username fqdn) (some (codes "subscribe")) []
      ∷ rest

unfoldable pub erase_name : Bytes → List Bytes → List Bytes
unfolding same_bytes
erase_name username [] = []
erase_name username (other ∷ inroster) =
    let rest = erase_name username inroster in
    if same_bytes other username then inroster else other ∷ rest

abbrev pub is_other_login : Class → Bool
is_other_login Class.other_login = true
is_other_login c = false

-- `entries` is the client's list, which the packet has changed already, and `removed` the name that the
-- list put into a packet about a removed buddy. Without a client, and for a message from nobody in the
-- list, a null pointer is followed.
unfoldable pub received_packet :
    Bytes → User → List Buddy → Option Bytes → Received → Option (User × List Sent)
unfolding ◌>>=◌ tell_buddies found_by_id found_by_sid subscribe_all erase_name
    send_unavailable_for_all_buddies get_value get_buddy_by_sid
received_packet fqdn user entries removed (Received.message packet) =
    get_value packet.sid >>= λ sid. get_buddy_by_sid sid entries >>= λ buddy.
    some (user, Sent.message_stanza user.jid packet.message (address_of buddy.username fqdn) ∷ [])
received_packet fqdn user entries removed (Received.buddies_names names) =
    some (user, subscribe_all fqdn user entries)
received_packet fqdn user entries removed (Received.buddies_online userids sids) =
    tell_buddies fqdn user (found_by_id entries userids) >>= λ sent. some (user, sent)
received_packet fqdn user entries removed (Received.status_message sids msgs) =
    tell_buddies fqdn user (found_by_sid entries sids) >>= λ sent. some (user, sent)
received_packet fqdn user entries removed (Received.buddies_games is_first games) =
    let told =
      tell_buddies fqdn user (found_by_sid entries games.sids) >>= λ sent. some (user, sent) in
    if is_first then told else some (user, [])
received_packet fqdn user entries removed (Received.invite_request name nick msg) =
    some
      (user, Sent.presence_tag user.jid (address_of name fqdn) (some (codes "subscribe")) [] ∷ [])
received_packet fqdn user entries removed (Received.remove_buddy userid) =
    let username : Bytes = elim removed [ none ↦ [] | some username ↦ username ] in
    some (
      record user { inroster = erase_name username user.inroster },
      Sent.presence_tag user.jid (address_of username fqdn) (some (codes "unsubscribed")) [] ∷ [],
    )
received_packet fqdn user entries removed (Received.silent c) =
    if is_other_login c
    then some (
      record user { client = none },
      send_unavailable_for_all_buddies fqdn user entries
          ++ (Sent.message_stanza user.jid
                (codes "Someone else logged into the same account. Forced to disconnect.") fqdn
              ∷ Sent.unavailable_stanza user.jid fqdn
              ∷ []),
    )
    else some (user, [])
received_packet fqdn user entries removed (Received.auth salt) = some (user, [])
received_packet fqdn user entries removed (Received.nickname_change userid nickname) =
    some (user, [])
