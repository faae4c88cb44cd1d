-- ===== src/Xfirelib/Packet/Protocol.antt =====
-- What is sent follows the packet format, and is what gfire sends.
use xfire.Prelude.{ℕ, ◌≡◌, refl, some, none, length, leb, if◌then◌else◌}
use mathlib.Core.Path.{subst}
use xfire.Buffer.{Bytes}
use xfire.Wire.{Packet, count, encode_attrs, encode_counting}
use xfire.Xfirelib.Packet.Contents.{
  information, version, login, message, ack, keep_alive, status, nick, remove, game, game2, accept,
  deny, invite, StandsFor, send_packet-content,
}
use xfire.Xfirelib.Packet.{
  Content, send_accept_invitation, send_deny_invitation, get_packet_attribute_count,
  get_packet_size, send_packet,
}

-- The number of attributes in the header: that of the packet, but for the answers to an invitation.
abbrev pub stated_count : Content → Packet → ℕ
stated_count (send_accept_invitation name) p = 3
stated_count (send_deny_invitation name) p = 3
stated_count c p = count p.attrs

count-StandsFor :
    (sha1 : Bytes → Bytes) (c : Content) (p : Packet)
    → StandsFor sha1 c p
    → get_packet_attribute_count c ≡ stated_count c p
unfolding get_packet_attribute_count
count-StandsFor sha1 _ _ information = refl
count-StandsFor sha1 _ _ (version n) = refl
count-StandsFor sha1 _ _ (login name password salt more v digest hn hp full plain read short) = refl
count-StandsFor sha1 _ _ (message id body n size) = refl
count-StandsFor sha1 _ _ (ack id z n size e) = refl
count-StandsFor sha1 _ _ keep_alive = refl
count-StandsFor sha1 _ _ (status awaymsg short) = refl
count-StandsFor sha1 _ _ (nick name short) = refl
count-StandsFor sha1 _ _ (remove userid) = refl
count-StandsFor sha1 _ _ (game id a b c d port bytes) = refl
count-StandsFor sha1 _ _ (game2 id a b c d port bytes) = refl
count-StandsFor sha1 _ _ (accept name short plain) = refl
count-StandsFor sha1 _ _ (deny name short plain) = refl
count-StandsFor sha1 _ _ (invite name msg short short_msg) = refl

pub send_packet-StandsFor :
    (sha1 : Bytes → Bytes) (fresh : ℕ → Bytes) (c : Content) (p : Packet)
    → ((k : ℕ) → length (fresh k) ≡ k)
    → StandsFor sha1 c p
    → send_packet sha1 fresh c ≡ (
        if leb (length (encode_attrs p.attrs)) (get_packet_size c)
        then some (encode_counting (stated_count c p) p)
        else none)
send_packet-StandsFor sha1 fresh c p sized stands =
    subst
      (λ k. send_packet sha1 fresh c ≡ (
        if leb (length (encode_attrs p.attrs)) (get_packet_size c)
        then some (encode_counting k p)
        else none))
      (count-StandsFor sha1 c p stands) (send_packet-content sha1 fresh c p sized stands)
