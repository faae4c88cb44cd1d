-- ===== src/Xfirelib/Client.antt =====
-- xfirelib/src/client.cpp, with the counters of SendMessagePacket (sendmessagepacket.cpp) and
-- BuddyList::receivedPacket (buddylist.cpp): what the library sends by itself, and what a packet changes.
mod Cut
pub mod Answers
pub mod Ids
pub mod Online
use xfire.Prelude.{
  ℕ, zero, suc, ◌+◌, Bool, true, false, List, [], ◌∷◌, ◌++◌, Option, none, some, codes, length,
  get_elem?, ◌==◌, if◌then◌else◌,
}
use xfire.Prelude.Int.{ℤ, pos, signed_char}
use xfire.Partial.{◌>>=◌}
use xfire.Buffer.{Bytes, read_at}
use xfire.Create.{c_string}
use xfire.Search.{same_bytes}
use xfire.Xfirelib.Value.{get_value}
use xfire.Xfirelib.Packet.{Content, send_packet}
use xfire.Xfirelib.Incoming.{MessagePacket, Games, first_byte}
use xfire.Xfirelib.Reader.{Received}
use xfire.Xfirelib.BuddyList.{
  BuddyListEntry, get_buddy_by_id, get_buddy_by_name, get_buddy_by_sid, init_entries,
  update_online_buddies, update_buddies_game, erase_entry, update_status, update_nickname,
}

-- `Client::send`: without a socket nothing is sent, and without a fault.
unfoldable pub send : (Bytes → Bytes) → (ℕ → Bytes) → Bool → Content → Option (List Bytes)
send sha1 fresh connected content =
    if connected
    then (elim (send_packet sha1 fresh content) [ none ↦ none | some bytes ↦ some (bytes ∷ []) ])
    else some []

-- `Client::connect`, once there is a socket: the program's protocol version is 100.
unfoldable pub connect : (Bytes → Bytes) → (ℕ → Bytes) → Option (List Bytes)
unfolding send ◌>>=◌
connect sha1 fresh = send sha1 fresh true Content.client_information >>= λ information.
    send sha1 fresh true (Content.client_version (pos 100)) >>= λ version.
    some (codes "UA01" ∷ (information ++ version))

-- `getImIndex`: the first byte of the number, as a `char`.
unfoldable pub get_im_index : MessagePacket → Option ℤ
unfolding ◌>>=◌ first_byte
get_im_index packet = packet.imindex >>= λ v. first_byte v >>= λ b. some (signed_char b)

-- `Client::receivedPacket` for a message: a chat message is acknowledged, and a question is sent back.
unfoldable pub answer_message :
    (Bytes → Bytes) → (ℕ → Bytes) → Bool → MessagePacket → Option (List Bytes)
unfolding ◌>>=◌ send get_im_index first_byte
answer_message sha1 fresh connected packet =
    let acknowledged = get_value packet.sid >>= λ sid. read_at sid 0 16 >>= λ sid.
    get_im_index packet >>= λ imindex.
    send sha1 fresh connected (Content.message_ack sid imindex) in
    let sent_back =
      packet.buf >>= λ buf. send sha1 fresh connected (Content.echo buf packet.buf_length) in
    first_byte packet.msgtype >>= λ kind.
    if kind == 0 then acknowledged else if kind == 2 then sent_back else some []

unfoldable pub client_received :
    (Bytes → Bytes) → (ℕ → Bytes) → Bool → Bytes → Bytes → Received → Option (List Bytes)
unfolding send answer_message
client_received sha1 fresh connected username password (Received.auth salt) =
    send sha1 fresh connected (Content.client_login username password salt)
client_received sha1 fresh connected username password (Received.message packet) =
    answer_message sha1 fresh connected packet
client_received sha1 fresh connected username password (Received.silent c) = some []
client_received sha1 fresh connected username password (Received.buddies_online userids sids) =
    some []
client_received sha1 fresh connected username password (Received.buddies_names names) = some []
client_received sha1 fresh connected username password (Received.buddies_games is_first games) =
    some []
client_received sha1 fresh connected username password (Received.invite_request name nick msg) =
    some []
client_received sha1 fresh connected username password (Received.remove_buddy userid) = some []
client_received sha1 fresh connected username password (Received.status_message sids msgs) = some []
client_received sha1 fresh connected username password (Received.nickname_change userid nickname) =
    some []

-- `SendMessagePacket::imindexes`, a map from session ids to the number of the last message. As a string
-- the id ends at its first 0, or with the 16 bytes, since the field behind them is 0 then.
unfoldable pub last_index : Bytes → List (Bytes × ℕ) → Option ℕ
last_index sid [] = none
last_index sid ((other, index) ∷ imindexes) =
    let rest = last_index sid imindexes in if same_bytes other sid then some index else rest

unfoldable pub set_index : Bytes → ℕ → List (Bytes × ℕ) → List (Bytes × ℕ)
set_index sid index [] = (sid, index) ∷ []
set_index sid index ((other, old) ∷ imindexes) =
    let rest = set_index sid index imindexes in
    if same_bytes other sid then (other, index) ∷ imindexes else (other, old) ∷ rest

-- `initIMIndex`: the number of the next message, and the map behind it.
unfoldable pub init_im_index : Bytes → List (Bytes × ℕ) → ℕ × List (Bytes × ℕ)
unfolding last_index set_index
init_im_index sid imindexes =
    let str_sid = c_string sid in
    let imindex : ℕ = elim (last_index str_sid imindexes) [ none ↦ 1 | some last ↦ last + 1 ] in
    (imindex, set_index str_sid imindex imindexes)

module _ {Game : Type 0} where
  -- `init`, and the content that is sent then. For a name that is not in the list the session id stays
  -- what the new object holds, `garbage`.
  unfoldable pub new_message :
      Bytes
      → List (BuddyListEntry Game)
      → List (Bytes × ℕ)
      → Bytes
      → Bytes
      → Content × List (Bytes × ℕ)
  unfolding get_buddy_by_name init_im_index
  new_message garbage entries imindexes username message =
      let sid : Bytes = elim (get_buddy_by_name username entries) [
        | none ↦ garbage
        | some entry ↦ entry.sid
      ] in
      let numbered = init_im_index sid imindexes in
      (Content.send_message sid (pos numbered.0) message, numbered.1)

  -- `BuddyList::receivedPacket`: the entries behind it, and the name that it adds to a packet about a
  -- removed buddy. The case for games has no `break`: the next one takes the packet for one about a
  -- removed buddy, reads `stray` as its id, and, where that is somebody's, writes to a name that is not
  -- there.
  unfoldable pub buddies_received :
      Option (ℕ → ℕ → Games → Option Game)
      → ℕ
      → Received
      → List (BuddyListEntry Game)
      → Option (List (BuddyListEntry Game) × Option Bytes)
  unfolding ◌>>=◌ init_entries update_online_buddies update_buddies_game erase_entry update_status
      update_nickname get_buddy_by_id
  buddies_received resolver stray (Received.buddies_names names) entries =
      init_entries names.usernames 0 names entries >>= λ entries. some (entries, none)
  buddies_received resolver stray (Received.buddies_online userids sids) entries =
      update_online_buddies userids 0 sids entries >>= λ entries. some (entries, none)
  buddies_received resolver stray (Received.buddies_games is_first games) entries =
      update_buddies_game resolver is_first games.sids 0 games entries >>= λ entries.
      elim (get_buddy_by_id stray entries) [ none ↦ some (entries, none) | some _ ↦ none ]
  buddies_received resolver stray (Received.remove_buddy userid) entries =
      let username : Option Bytes = elim (get_buddy_by_id userid entries) [
        | none ↦ none
        | some entry ↦ some entry.username
      ] in
      some (erase_entry userid entries, username)
  buddies_received resolver stray (Received.status_message sids msgs) entries =
      update_status sids 0 msgs entries >>= λ entries. some (entries, none)
  buddies_received resolver stray (Received.nickname_change userid nickname) entries =
      some (update_nickname userid nickname entries, none)
  buddies_received resolver stray (Received.silent c) entries = some (entries, none)
  buddies_received resolver stray (Received.auth salt) entries = some (entries, none)
  buddies_received resolver stray (Received.message packet) entries = some (entries, none)
  buddies_received resolver stray (Received.invite_request name nick msg) entries =
      some (entries, none)
