-- ===== src/Xfirelib/Packet/Contents.antt =====
-- What each content writes, as the packet of the protocol that it stands for.
use xfire.Prelude.{
  ℕ, ◌+◌, ◌*◌, ◌<◌, ◌≡◌, inl, inr, refl, sym, ap, ◌∙◌, [], ◌∷◌, ◌++◌, some, none, codes, length,
  length-append, leb, if◌then◌else◌, drop, Bool-cases, All, IsByte, arith,
}
use xfire.Prelude.Int.{ℤ, pos}
use xfire.Buffer.{Bytes}
use xfire.Buffer.Writes.{Writes, Writes-whole, read_at-append}
use xfire.Packets.Login.Format.{IsSha1, IsText, proof_text}
use xfire.Packets.Login.Open.{skins_packet, version_packet}
use xfire.Packets.Chat.Format.{alias_packet, away_packet, keep_alive_packet}
use xfire.Packets.Buddies.Format.{accept_packet, deny_packet, delete_packet}
use xfire.Packets.Game.Format.{game_packet}
use xfire.Utils.Hex.{length-hex_text}
use xfire.Wire.{Packet, nil, attr, named, text, encode_attrs, encode_counting, le32}
use xfire.Xfirelib.Value.{VariableValue, get_value, bytes_of_long}
use xfire.Xfirelib.Outgoing.Bodies.{
  message_attrs, peer_attrs, send_message-Writes, message_ack-Writes,
}
use xfire.Xfirelib.Outgoing.Plain.{
  client_information-Writes, client_version-Writes, send_keep_alive-Writes, write_text-Writes,
  send_status_message-Writes, send_remove_buddy-Writes, address, game_attrs,
  send_game_status-Writes, send_accept_invitation-Writes, invite_buddy-Writes,
}
use xfire.Xfirelib.Outgoing.Login.{login_attrs, client_login-Writes}
use xfire.Xfirelib.Packet.{
  Content, client_information, client_version, client_login, send_message, message_ack,
  send_keep_alive, send_status_message, send_nick_change, send_remove_buddy, send_game_status,
  send_game_status2, send_accept_invitation, send_deny_invitation, invite_buddy, get_packet_id,
  get_packet_attribute_count, get_packet_size, get_packet_content, send_packet,
}

-- A content that fills `body` from the front of the array is sent behind its header, or runs out of the
-- array.
pub send_packet-Writes :
    (sha1 : Bytes → Bytes) (fresh : ℕ → Bytes) (c : Content) (p : Packet) (n : ℕ)
    → ((k : ℕ) → length (fresh k) ≡ k)
    → Writes (get_packet_content sha1 c) 0 (encode_attrs p.attrs) n
    → n ≡ length (encode_attrs p.attrs)
    → get_packet_id c ≡ p.type
    → send_packet sha1 fresh c ≡ (
        if leb (length (encode_attrs p.attrs)) (get_packet_size c)
        then some (encode_counting (get_packet_attribute_count c) p)
        else none)
unfolding send_packet encode_counting
send_packet-Writes sha1 fresh c p n sized w total id =
    elim (Bool-cases (leb (length (encode_attrs p.attrs)) (get_packet_size c))) [
      | inr full ↦
          rw
            (
              Writes-whole w (fresh (get_packet_size c)),
              sized (get_packet_size c),
              full,
              send_packet,
            )
            refl
      | inl fits ↦
          rw
            (
              Writes-whole w (fresh (get_packet_size c)),
              sized (get_packet_size c),
              fits,
              send_packet,
              read_at-append (encode_attrs p.attrs)
                  (drop (length (encode_attrs p.attrs)) (fresh (get_packet_size c))) n (sym total),
              send_packet,
              id,
            )
            (ground (arith, total))
    ]

abbrev pub message_packet : Bytes → ℕ → Bytes → Packet
message_packet id imindex message = record { type = 2; attrs = message_attrs id imindex message }

abbrev pub ack_packet : Bytes → ℕ → Packet
ack_packet id imindex = record { type = 2; attrs = peer_attrs id 1 imindex nil }

abbrev pub login_packet : Bytes → Bytes → Packet
login_packet name digest = record { type = 1; attrs = login_attrs name digest }

abbrev pub second_game_packet : ℕ → ℕ → ℕ → Packet
second_game_packet game ip port = record {
  type = 15;
  attrs = game_attrs (codes "vid") (codes "vip") (codes "vport") game ip port;
}

abbrev pub invite_packet : Bytes → Bytes → Packet
invite_packet name msg = record {
  type = 6;
  attrs = attr (named (codes "name")) (text name) (attr (named (codes "msg")) (text msg) nil);
}

-- The packet of the protocol that a content stands for, with what it needs of its data.
pub data StandsFor (sha1 : Bytes → Bytes) : Content → Packet → Type 0 where
  information : StandsFor sha1 client_information skins_packet
  version : (n : ℕ) → StandsFor sha1 (client_version (pos n)) (version_packet n)
  login :
      (name password salt more : Bytes) (v : VariableValue)
      → IsSha1 sha1
      → IsText name
      → IsText password
      → length salt ≡ 40
      → IsText salt
      → get_value v ≡ some (salt ++ more)
      → length name < 256
      → StandsFor sha1
          (client_login name password v)
          (login_packet name (proof_text sha1 name password salt))
  message :
      (id body : Bytes) (n : ℕ)
      → length id ≡ 16
      → StandsFor sha1 (send_message id (pos n) body) (message_packet id n body)
  ack :
      (id : Bytes) (z : ℤ) (n : ℕ)
      → length id ≡ 16
      → bytes_of_long z 4 ≡ le32 n
      → StandsFor sha1 (message_ack id z) (ack_packet id n)
  keep_alive : StandsFor sha1 send_keep_alive keep_alive_packet
  status :
      (awaymsg : Bytes)
      → length awaymsg < 256
      → StandsFor sha1 (send_status_message awaymsg) (away_packet awaymsg)
  nick :
      (name : Bytes)
      → length name < 256
      → StandsFor sha1 (send_nick_change name) (alias_packet name)
  remove : (userid : ℕ) → StandsFor sha1 (send_remove_buddy (pos userid)) (delete_packet userid)
  game :
      (game a b c d port : ℕ)
      → All IsByte (a ∷ b ∷ c ∷ d ∷ [])
      → StandsFor sha1
          (send_game_status (pos game) (d ∷ c ∷ b ∷ a ∷ []) (pos port))
          (game_packet game port a b c d)
  game2 :
      (game a b c d port : ℕ)
      → All IsByte (a ∷ b ∷ c ∷ d ∷ [])
      → StandsFor sha1
          (send_game_status2 (pos game) (d ∷ c ∷ b ∷ a ∷ []) (pos port))
          (second_game_packet game (address a b c d) port)
  accept :
      (name : Bytes)
      → length name < 256
      → IsText name
      → StandsFor sha1 (send_accept_invitation name) (accept_packet name)
  deny :
      (name : Bytes)
      → length name < 256
      → IsText name
      → StandsFor sha1 (send_deny_invitation name) (deny_packet name)
  invite :
      (name msg : Bytes)
      → length name < 256
      → length msg < 256
      → StandsFor sha1 (invite_buddy (name ∷ []) (msg ∷ [])) (invite_packet name msg)

length-proof_text :
    (sha1 : Bytes → Bytes) (name password salt : Bytes)
    → IsSha1 sha1
    → length (proof_text sha1 name password salt) ≡ 40
length-proof_text sha1 name password salt digest =
    length-hex_text _ ∙ ap (λ n. n * 2) (digest.size _)

pub send_packet-content :
    (sha1 : Bytes → Bytes) (fresh : ℕ → Bytes) (c : Content) (p : Packet)
    → ((k : ℕ) → length (fresh k) ≡ k)
    → StandsFor sha1 c p
    → send_packet sha1 fresh c ≡ (
        if leb (length (encode_attrs p.attrs)) (get_packet_size c)
        then some (encode_counting (get_packet_attribute_count c) p)
        else none)
unfolding get_packet_content get_packet_id encode_attrs
send_packet-content sha1 fresh _ _ sized information =
    send_packet-Writes sha1 fresh client_information skins_packet 46 sized client_information-Writes
      refl refl
send_packet-content sha1 fresh _ _ sized (version n) =
    send_packet-Writes sha1 fresh (client_version (pos n)) (version_packet n) 13 sized
      (client_version-Writes n) refl refl
send_packet-content sha1 fresh _ _ sized
      (login name password salt more v digest hn hp full plain read short) =
    send_packet-Writes sha1 fresh (client_login name password v)
      (login_packet name (proof_text sha1 name password salt)) (60 + length name) sized
      (client_login-Writes sha1 name password salt more digest hn hp full plain v read short)
      (omega (
        arith,
        length-append name,
        length-append (proof_text sha1 name password salt),
        length-proof_text sha1 name password salt digest,
      ))
      refl
send_packet-content sha1 fresh _ _ sized (message id body n size) =
    send_packet-Writes sha1 fresh (send_message id (pos n) body) (message_packet id n body)
      (63 + length body) sized (send_message-Writes id body n size)
      (omega (arith, length-append id, length-append (body ++ []) [], length-append body [], size))
      refl
send_packet-content sha1 fresh _ _ sized (ack id z n size e) =
    send_packet-Writes sha1 fresh (message_ack id z) (ack_packet id n) 57 sized
      (message_ack-Writes id z n size e) (omega (arith, length-append id, size)) refl
send_packet-content sha1 fresh _ _ sized keep_alive =
    send_packet-Writes sha1 fresh send_keep_alive keep_alive_packet 21 sized send_keep_alive-Writes
      refl refl
send_packet-content sha1 fresh _ _ sized (status awaymsg short) =
    send_packet-Writes sha1 fresh (send_status_message awaymsg) (away_packet awaymsg)
      (4 + length awaymsg) sized (send_status_message-Writes awaymsg short)
      (omega (arith, length-append awaymsg)) refl
send_packet-content sha1 fresh _ _ sized (nick name short) =
    send_packet-Writes sha1 fresh (send_nick_change name) (alias_packet name) _ sized
      (write_text-Writes (codes "nick") name short) (omega (arith, length-append name)) refl
send_packet-content sha1 fresh _ _ sized (remove userid) =
    send_packet-Writes sha1 fresh (send_remove_buddy (pos userid)) (delete_packet userid) 12 sized
      (send_remove_buddy-Writes userid) refl refl
send_packet-content sha1 fresh _ _ sized (game id a b c d port bytes) =
    send_packet-Writes sha1 fresh (send_game_status (pos id) (d ∷ c ∷ b ∷ a ∷ []) (pos port))
      (game_packet id port a b c d) _ sized
      (send_game_status-Writes (codes "gameid") (codes "gip") (codes "gport") id a b c d port bytes)
      refl refl
send_packet-content sha1 fresh _ _ sized (game2 id a b c d port bytes) =
    send_packet-Writes sha1 fresh (send_game_status2 (pos id) (d ∷ c ∷ b ∷ a ∷ []) (pos port))
      (second_game_packet id (address a b c d) port) _ sized
      (send_game_status-Writes (codes "vid") (codes "vip") (codes "vport") id a b c d port bytes)
      refl refl
send_packet-content sha1 fresh _ _ sized (accept name short plain) =
    send_packet-Writes sha1 fresh (send_accept_invitation name) (accept_packet name)
      (8 + length name) sized (send_accept_invitation-Writes name short plain)
      (omega (arith, length-append name)) refl
send_packet-content sha1 fresh _ _ sized (deny name short plain) =
    send_packet-Writes sha1 fresh (send_deny_invitation name) (deny_packet name) (8 + length name)
      sized (send_accept_invitation-Writes name short plain) (omega (arith, length-append name))
      refl
send_packet-content sha1 fresh _ _ sized (invite name msg short short_msg) =
    send_packet-Writes sha1 fresh (invite_buddy (name ∷ []) (msg ∷ [])) (invite_packet name msg)
      (15 + length name + length msg) sized (invite_buddy-Writes name msg short short_msg)
      (omega (arith, length-append name, length-append msg)) refl
