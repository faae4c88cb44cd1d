-- ===== src/Xfirelib/Reader.antt =====
-- xfirelib/src/packetreader.cpp, and the receiving part of xfirepacket.cpp: packets are cut out of the
-- bytes that the socket delivers, and read by the class for their number.
pub mod Frames
pub mod Streams
use xfire.Prelude.{
  ℕ, zero, suc, ◌+◌, ◌-◌, ◌*◌, Bool, true, false, List, [], ◌∷◌, ◌++◌, Option, none, some, length,
  take, drop, ltb, ◌==◌, if◌then◌else◌,
}
use xfire.Partial.{◌>>=◌}
use xfire.Buffer.{Bytes}
use xfire.Xfirelib.Value.{VariableValue}
use xfire.Xfirelib.Incoming.{
  MessagePacket, Names, Games, parse_auth, parse_login_success, parse_message, parse_online,
  parse_names, parse_games, parse_invite_request, parse_remove, parse_status, parse_nickname,
}

-- The classes below XFirePacketContent that `initPackets` registers.
pub data Class : Type 0 where
  client_information auth login_failed login_success message : Class
  buddies_online buddies_names buddies_games buddies_games2 : Class
  other_login invite_buddy invite_request remove_buddy did : Class
  status_message old_version prefs nickname_change : Class

unfoldable pub class_id : Class → ℕ
class_id Class.client_information = 18
class_id Class.auth = 128
class_id Class.login_failed = 129
class_id Class.login_success = 130
class_id Class.message = 133
class_id Class.buddies_online = 132
class_id Class.buddies_names = 131
class_id Class.buddies_games = 135
class_id Class.buddies_games2 = 147
class_id Class.other_login = 145
class_id Class.invite_buddy = 6
class_id Class.invite_request = 138
class_id Class.remove_buddy = 139
class_id Class.did = 144
class_id Class.status_message = 154
class_id Class.old_version = 134
class_id Class.prefs = 141
class_id Class.nickname_change = 161

abbrev pub registered : List Class
registered =
    Class.client_information ∷ Class.auth ∷ Class.login_failed ∷ Class.login_success ∷ Class.message
    ∷ Class.buddies_online ∷ Class.buddies_names ∷ Class.buddies_games ∷ Class.buddies_games2
    ∷ Class.other_login ∷ Class.invite_buddy ∷ Class.invite_request ∷ Class.remove_buddy ∷ Class.did
    ∷ Class.status_message ∷ Class.old_version ∷ Class.prefs ∷ Class.nickname_change ∷ []

unfoldable pub class_among : ℕ → List Class → Option Class
unfolding class_id
class_among packet_id [] = none
class_among packet_id (c ∷ classes) =
    let rest = class_among packet_id classes in if class_id c == packet_id then some c else rest

unfoldable pub get_packet_content_class : ℕ → Option Class
unfolding class_among
get_packet_content_class packet_id = class_among packet_id registered

-- A content that was read; `silent` is one of a class that keeps nothing.
pub data Received : Type 0 where
  silent : Class → Received
  auth : VariableValue → Received
  message : MessagePacket → Received
  buddies_online : List ℕ → List Bytes → Received
  buddies_names : Names → Received
  buddies_games : Bool → Games → Received
  invite_request : Bytes → Bytes → Bytes → Received
  remove_buddy : ℕ → Received
  status_message : List Bytes → List Bytes → Received
  nickname_change : ℕ → Bytes → Received

-- `newPacket` and `parseContent`.
unfoldable pub parse_content : Class → Bytes → ℕ → ℕ → Option Received
unfolding ◌>>=◌
parse_content Class.auth buf length atts = parse_auth buf >>= λ salt. some (auth salt)
parse_content Class.login_success buf length atts =
    parse_login_success buf atts 0 >>= λ read. some (silent Class.login_success)
parse_content Class.message buf length atts =
    parse_message buf length >>= λ packet. some (message packet)
parse_content Class.buddies_online buf length atts =
    parse_online buf >>= λ (read : List ℕ × List Bytes). some (buddies_online read.0 read.1)
parse_content Class.buddies_names buf length atts =
    parse_names buf >>= λ names. some (buddies_names names)
parse_content Class.buddies_games buf length atts =
    parse_games buf >>= λ games. some (buddies_games true games)
parse_content Class.buddies_games2 buf length atts =
    parse_games buf >>= λ games. some (buddies_games false games)
parse_content Class.invite_request buf length atts =
    parse_invite_request buf >>= λ (read : Bytes × Bytes × Bytes).
    some (invite_request read.0 read.1 read.2)
parse_content Class.remove_buddy buf length atts =
    parse_remove buf >>= λ userid. some (remove_buddy userid)
parse_content Class.status_message buf length atts =
    parse_status buf >>= λ (read : List Bytes × List Bytes). some (status_message read.0 read.1)
parse_content Class.nickname_change buf length atts =
    parse_nickname buf >>= λ (read : ℕ × Bytes). some (nickname_change read.0 read.1)
parse_content Class.client_information buf length atts = some (silent Class.client_information)
parse_content Class.login_failed buf length atts = some (silent Class.login_failed)
parse_content Class.other_login buf length atts = some (silent Class.other_login)
parse_content Class.invite_buddy buf length atts = some (silent Class.invite_buddy)
parse_content Class.did buf length atts = some (silent Class.did)
parse_content Class.old_version buf length atts = some (silent Class.old_version)
parse_content Class.prefs buf length atts = some (silent Class.prefs)

-- A SocketException, an access outside an array, or a packet with its content, if there is one, and
-- what the socket delivers behind it.
pub data Reception : Type 0 where
  closed : Reception
  crashed : Reception
  packet : Option Received → Bytes → Reception

-- `stream` is what the socket delivers before it is closed; `recv` waits for the number of bytes it is
-- asked for. `fresh n` is what a new array of `n` bytes holds. For a length below five the size of the
-- array, `len-5`, wraps around.
unfoldable pub recv_content : ℕ → ℕ → ℕ → Bytes → ℕ → Bytes → Reception
recv_content len packetid atts contentbuf r2 rest =
    if ltb len 5
    then crashed
    else if r2 == 0
    then packet none rest
    else (elim (get_packet_content_class packetid) [
      | none ↦ packet none rest
      | some c ↦ elim (parse_content c contentbuf r2 atts) [
        | none ↦ crashed
        | some content ↦ packet (some content) rest
      ]
    ])

unfoldable pub recv_packet : (ℕ → Bytes) → Bytes → Reception
recv_packet fresh (b0 ∷ b1 ∷ b2 ∷ b3 ∷ b4 ∷ stream) =
    let len = b0 + b1 * 256 in
    let got = take (len - 5) stream in
    recv_content len b2 b4 (got ++ drop (length got) (fresh (len - 5))) (length got)
      (drop (len - 5) stream)
recv_packet fresh stream = closed

-- `run`: the contents that are handed to the listeners, and how the loop ends. The bound is on the
-- rounds; `none` is one that ran out.
unfoldable pub run : ℕ → (ℕ → Bytes) → Bytes → Option (List Received × Reception)
run zero fresh stream = none
run (suc bound) fresh stream = elim (recv_packet fresh stream) [
  | closed ↦ some ([], closed)
  | crashed ↦ some ([], crashed)
  | packet content rest ↦ elim (run bound fresh rest) [
    | none ↦ none
    | some (contents, end) ↦ elim content [
      | none ↦ some (contents, end)
      | some content ↦ some (content ∷ contents, end)
    ]
  ]
]
