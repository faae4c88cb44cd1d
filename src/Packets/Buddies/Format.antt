-- ===== src/Packets/Buddies/Format.antt =====
-- The contact list packets follow the packet format.
use xfire.Prelude.{
  ℕ, ◌+◌, ◌*◌, ◌<◌, ◌≡◌, refl, ap, [], ◌∷◌, codes, length, append-nil, arith, All, IsByte,
  length-append,
}
use xfire.Buffer.{Bytes}
use xfire.Buffer.Writes.{
  put-Writes, puts-Writes, memcpy-Writes, then-Writes, end-Writes, bind-Writes, Writes-whole,
  Writes-eq, on-Writes,
}
use xfire.Create.{strlen}
use xfire.Create.Pieces.{string_items, add_att_name-Writes, add_array_att-Writes, packet-Writes}
use xfire.Wire.{Packet, nil, attr, named, text, word, encode_attrs, written}
use xfire.Utils.Hex.{hex_text, decode_string-Writes}
use xfire.Packets.Buddies.{
  xfire_invitation_accept, xfire_invitation_deny, invitation_message, xfire_add_new_buddy,
  xfire_delete_buddy,
}

abbrev pub accept_packet : Bytes → Packet
accept_packet name = record { type = 7; attrs = attr (named (codes "name")) (text name) nil }

abbrev pub deny_packet : Bytes → Packet
deny_packet name = record { type = 8; attrs = attr (named (codes "name")) (text name) nil }

-- For a name shorter than 256, accepting an invitation writes its packet, or runs out of the array.
pub invitation_accept-written :
    (name b : Bytes)
    → strlen name < 256
    → xfire_invitation_accept name b ≡ written (accept_packet name) b
unfolding xfire_invitation_accept encode_attrs
invitation_accept-written name b short =
    Writes-whole
      (packet-Writes (accept_packet name)
        (bind-Writes _ (add_att_name-Writes 5 _) refl
          (then-Writes (puts-Writes 10 _) refl (end-Writes (memcpy-Writes 13 name _ refl) refl)))
        (omega arith) (ground (arith, append-nil name)))
      b

-- For a name shorter than 256, denying an invitation writes its packet, or runs out of the array.
pub invitation_deny-written :
    (name b : Bytes)
    → strlen name < 256
    → xfire_invitation_deny name b ≡ written (deny_packet name) b
unfolding xfire_invitation_deny encode_attrs
invitation_deny-written name b short =
    Writes-whole
      (packet-Writes (deny_packet name)
        (bind-Writes _ (add_att_name-Writes 5 _) refl
          (then-Writes (puts-Writes 10 _) refl (end-Writes (memcpy-Writes 13 name _ refl) refl)))
        (omega arith) (ground (arith, append-nil name)))
      b

abbrev pub new_buddy_packet : Bytes → Packet
new_buddy_packet name = record {
  type = 6;
  attrs =
      attr (named (codes "name")) (text name)
        (attr (named (codes "msg")) (text invitation_message) nil);
}

-- For a name shorter than 256, inviting a buddy writes a packet with the name and a fixed message, or
-- runs out of the array.
pub add_new_buddy-written :
    (name b : Bytes)
    → strlen name < 256
    → xfire_add_new_buddy name b ≡ written (new_buddy_packet name) b
unfolding xfire_add_new_buddy encode_attrs
add_new_buddy-written name b short =
    Writes-whole
      (packet-Writes (new_buddy_packet name)
        (Writes-eq
          (bind-Writes _ (add_att_name-Writes 5 _) refl (
            bind-Writes _ (add_array_att-Writes 10 (name ∷ [])) (omega arith) (
              bind-Writes _ (add_att_name-Writes (11 + length (string_items (name ∷ []))) _)
                (omega arith) (add_array_att-Writes _ (invitation_message ∷ [])))))
          refl (omega (arith, ap length (append-nil name))))
        (rw (append-nil name, length-append name) (omega arith)) (ground (arith, append-nil name)))
      b

abbrev pub delete_packet : ℕ → Packet
delete_packet user = record { type = 9; attrs = attr (named (codes "userid")) (word user) nil }

-- For a user id of four bytes, given as the text that `toString` writes for it, and a local array
-- of four bytes, `xfire_delete_buddy` writes the packet that removes this user, or runs out of the
-- array.
pub delete_buddy-written :
    (w x y z : ℕ) (userid b : Bytes)
    → All IsByte (w ∷ x ∷ y ∷ z ∷ [])
    → length userid ≡ 4
    → xfire_delete_buddy userid (hex_text (w ∷ x ∷ y ∷ z ∷ [])) b
      ≡ written (delete_packet (w + x * 256 + y * 65536 + z * 16777216)) b
unfolding xfire_delete_buddy encode_attrs
delete_buddy-written w x y z userid b h room =
    Writes-whole
      (packet-Writes (delete_packet (w + x * 256 + y * 65536 + z * 16777216))
        (bind-Writes _ (add_att_name-Writes 5 _) refl (
          on-Writes _ userid (decode_string-Writes (w ∷ x ∷ y ∷ z ∷ []) h) room (
            then-Writes (put-Writes 12 2) refl
              (end-Writes (memcpy-Writes 13 (w ∷ x ∷ y ∷ z ∷ []) 4 refl) refl))))
        (omega arith) (ground arith))
      b

-- For a name shorter than 256 and any array: accepting an invitation, denying it and inviting a buddy
-- write their packets with this name, the last one with a fixed message, or run out of the array.
pub invitations-written :
    (name b : Bytes)
    → strlen name < 256
    → (xfire_invitation_accept name b ≡ written (accept_packet name) b)
      × (xfire_invitation_deny name b ≡ written (deny_packet name) b)
      × (xfire_add_new_buddy name b ≡ written (new_buddy_packet name) b)
invitations-written name b short = (
  invitation_accept-written name b short,
  invitation_deny-written name b short,
  add_new_buddy-written name b short,
)
