-- ===== src/Tests/Packets.antt =====
-- The packet routines at concrete inputs.
use xfire.Prelude.{
  ◌≡◌, ◌++◌, refl, [], ◌∷◌, some, none, codes, replicate, drop, leb, if◌then◌else◌, arith,
}
use xfire.Prelude.Int.{pos}
use xfire.Buffer.{Bytes}
use xfire.Wire.{encode_counting, stored, written}
use xfire.Utils.{decode_string, to_string}
use xfire.Utils.Hex.{hex_text, decode_string-to_string}
use xfire.Create.Address.{xfire_ipaddr_init, IpAddress}
use xfire.Create.Address.Dotted.{dotted, ipaddr_init-dotted}
use xfire.Packets.Chat.{
  xfire_make_im, xfire_send_alias_change, xfire_create_away_old, xfire_create_away, xfire_set_back,
  xfire_keep_alive_packet,
}
use xfire.Packets.Chat.Format.{
  im_packet, make_im-written, alias_packet, state_packets-written, away_old_packet, away_packet,
  keep_alive_packet,
}
use xfire.Packets.Buddies.{xfire_invitation_accept, xfire_invitation_deny, xfire_add_new_buddy}
use xfire.Packets.Buddies.Format.{accept_packet, deny_packet, new_buddy_packet, invitations-written}
use xfire.Packets.Game.{xfire_join_game}
use xfire.Packets.Game.Format.{game_packet, join_game-written, join_game_crash}
use xfire.Packets.Login.{Locals, xfire_create_auth, xfire_open_connection2}
use xfire.Packets.Login.Format.{IsSha1, HasSizes, proof_text, auth_packet, create_auth-stored}
use xfire.Packets.Login.Open.{opening, open_connection2-opening}
use xfire.Session.Incoming.{xfire_send_auth}
use xfire.Session.Incoming.Salt.{send_auth-stored}
use xfire.Tests.Split.{strsplit, strsplit-SplitsBytes}

abbrev array : Bytes
array = replicate 200 0

abbrev two_bytes : Bytes
two_bytes = replicate 2 0

abbrev pub sha1 : Bytes → Bytes
sha1 t = replicate 20 7

pub sha1-IsSha1 : IsSha1 sha1
sha1-IsSha1 = record { size = λ t. refl; bytes = λ t. omega arith }

abbrev locals : Locals
locals = record { hex = replicate 2 0; sha_local = replicate 40 0; sha_string = replicate 40 0 }

locals-HasSizes : HasSizes locals
locals-HasSizes = record { hex = refl; sha_local = refl; sha_string = refl }

create_auth-stored_example :
    xfire_create_auth sha1 locals (replicate 40 0x61 ++ []) (codes "pw") (codes "me") array
    ≡ stored
        (encode_counting 3 (
          auth_packet (codes "me") (proof_text sha1 (codes "me") (codes "pw") (replicate 40 0x61))))
        array
create_auth-stored_example =
    create_auth-stored sha1 locals (codes "me") (codes "pw") (replicate 40 0x61) [] sha1-IsSha1
      locals-HasSizes (omega arith) refl (omega arith) array (omega arith)

make_im-written_example :
    xfire_make_im (replicate 16 7) (codes "hi") 300 array
    ≡ written (im_packet (replicate 16 7) (codes "hi") 300) array
make_im-written_example = make_im-written (replicate 16 7) (codes "hi") 300 array refl (omega arith)

join_game-written_example :
    xfire_join_game strsplit (pos 4236) (pos 27015) (some (dotted 10 0 0 255)) array
    ≡ written (game_packet 4236 27015 10 0 0 255) array
join_game-written_example =
    join_game-written strsplit 4236 27015 10 0 0 255 array strsplit-SplitsBytes (omega arith)
      (omega arith) (omega arith)

join_game_crash_example :
    xfire_join_game strsplit (pos 1) (pos 2) (some (codes "1.2.3")) array ≡ none
unfolding strsplit
join_game_crash_example =
    join_game_crash strsplit (pos 1) (pos 2) (codes "1.2.3") array (λ e. ground arith)
      (λ e. ground arith)

ipaddr_init-dotted_example :
    (ips : IpAddress) × (xfire_ipaddr_init strsplit (dotted 10 0 0 255) ≡ some (some ips))
    × (ips.octet ≡ 10 ∷ 0 ∷ 0 ∷ 255 ∷ [])
ipaddr_init-dotted_example =
    ipaddr_init-dotted strsplit 10 0 0 255 strsplit-SplitsBytes (omega arith)

open_connection2-opening_example :
    xfire_open_connection2 100 (replicate 39 0 ++ (0 ∷ 0 ∷ 0 ∷ 171 ∷ replicate 30 0))
    ≡ (if leb 26 30 then some (69, opening 171 100 ++ drop 26 (replicate 30 0)) else none)
open_connection2-opening_example =
    open_connection2-opening 100 (replicate 39 0) 0 0 0 171 (replicate 30 0) refl

decode_string-to_string_example :
    (to_string two_bytes (18 ∷ 255 ∷ []) 2 (replicate 5 1)
      ≡ some (tt, (hex_text (18 ∷ 255 ∷ []) ++ 0 ∷ []) ++ drop 5 (replicate 5 1)))
    × (decode_string (hex_text (18 ∷ 255 ∷ [])) (replicate 4 1)
        ≡ some (tt, (18 ∷ 255 ∷ []) ++ drop 2 (replicate 4 1)))
decode_string-to_string_example =
    decode_string-to_string (18 ∷ 255 ∷ []) two_bytes (replicate 5 1) (replicate 4 1) (omega arith)
      refl (omega arith) (omega arith)

send_auth-stored_example :
    xfire_send_auth sha1 locals
      (replicate 41 3)
      (replicate 8 1 ++ (replicate 40 0x61 ++ replicate 9 2))
      48
      (codes "pw")
      (codes "me")
      array
    ≡ stored
        (encode_counting 3 (
          auth_packet (codes "me") (proof_text sha1 (codes "me") (codes "pw") (replicate 40 0x61))))
        array
send_auth-stored_example =
    send_auth-stored sha1 locals (replicate 8 1) (replicate 40 0x61) (replicate 9 2)
      (replicate 41 3) (codes "me") (codes "pw") array sha1-IsSha1 locals-HasSizes refl refl refl
      (omega arith) (omega arith)

state_packets-written_example :
    (xfire_send_alias_change (some (codes "me")) array ≡ written (alias_packet (codes "me")) array)
    × (xfire_create_away (codes "me") array ≡ written (away_packet (codes "me")) array)
    × (xfire_create_away_old (codes "me") array ≡ written (away_old_packet (codes "me")) array)
    × (xfire_set_back array ≡ written (away_packet []) array)
    × (xfire_keep_alive_packet array ≡ written keep_alive_packet array)
state_packets-written_example = state_packets-written (codes "me") array (omega arith)

invitations-written_example :
    (xfire_invitation_accept (codes "me") array ≡ written (accept_packet (codes "me")) array)
    × (xfire_invitation_deny (codes "me") array ≡ written (deny_packet (codes "me")) array)
    × (xfire_add_new_buddy (codes "me") array ≡ written (new_buddy_packet (codes "me")) array)
invitations-written_example = invitations-written (codes "me") array (omega arith)
