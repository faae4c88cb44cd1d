-- ===== src/Session/Contacts/Bounds.antt =====
-- Adding and removing a buddy, with the arrays of the sizes that the code has.
use xfire.Prelude.{
  ℕ, ◌+◌, ◌*◌, ◌≡◌, refl, Bool-cases, inl, inr, [], ◌∷◌, ◌++◌, none, some, codes, length, ltb,
  le→leb, drop, length-append, All, IsByte, if◌then◌else◌, arith,
}
use xfire.Buffer.{Bytes, write}
use xfire.Buffer.Writes.{read_at-append}
use xfire.Create.{strlen}
use xfire.Wire.{encode_key, encode_text, named, encode, encode_attrs}
use xfire.Utils.Hex.{hex_text}
use xfire.Partial.{◌>>=◌}
use xfire.Packets.Buddies.{invitation_message, xfire_add_new_buddy}
use xfire.Packets.Buddies.Format.{
  new_buddy_packet, add_new_buddy-written, delete_packet, delete_buddy-written,
}
use xfire.Session.Away.Packet.{write_packet-written}
use xfire.Session.Contacts.{copied_name, xfire_new_buddy, xfire_rem_buddy}

copied_name_lem :
    (array name : Bytes)
    → length array ≡ 26
    → copied_name array name ≡ (if ltb (strlen name) 26 then some name else none)
unfolding copied_name write
copied_name_lem array name size = ground (arith, length-append name (0 ∷ []))

length-new_buddy : (name : Bytes) → length (encode (new_buddy_packet name)) ≡ 33 + length name
unfolding encode encode_attrs
length-new_buddy name = omega (
  arith,
  length-append name
      (encode_key (named (codes "msg")) ++ ((1 ∷ encode_text invitation_message) ++ [])),
)

-- With its arrays of 512 and 26 bytes, `xfire_new_buddy` writes the invitation packet for a name of at
-- most 25 bytes, and stores outside the array for every longer one.
pub new_buddy-bounds :
    (buffer array name : Bytes)
    → length buffer ≡ 512
    → length array ≡ 26
    → xfire_new_buddy buffer array name
      ≡ (if ltb (strlen name) 26 then some (encode (new_buddy_packet name)) else none)
unfolding xfire_new_buddy ◌>>=◌
new_buddy-bounds buffer array name room size = elim (Bool-cases (ltb (strlen name) 26)) [
  | inr long ↦ rw (copied_name_lem array name size, long, ◌>>=◌) refl
  | inl short ↦
      rw (copied_name_lem array name size, short, ◌>>=◌)
        (write_packet-written buffer (xfire_add_new_buddy name) (new_buddy_packet name)
          (add_new_buddy-written name buffer (ground arith))
          (ground (arith, length-new_buddy name)))
]

-- With an array of 17 bytes, one of 26 and one of 4, `xfire_rem_buddy` writes the packet that removes
-- the user with the four bytes of the buddy's name, which is the text that `toString` has for them.
pub rem_buddy-packet :
    (userid buffer array : Bytes) (w x y z : ℕ)
    → length userid ≡ 4
    → length buffer ≡ 17
    → length array ≡ 26
    → All IsByte (w ∷ x ∷ y ∷ z ∷ [])
    → xfire_rem_buddy userid buffer array (hex_text (w ∷ x ∷ y ∷ z ∷ []))
      ≡ some (encode (delete_packet (w + x * 256 + y * 65536 + z * 16777216)))
unfolding xfire_rem_buddy ◌>>=◌ encode
rem_buddy-packet userid buffer array w x y z small room size bytes =
    rw (copied_name_lem array (hex_text (w ∷ x ∷ y ∷ z ∷ [])) size, ◌>>=◌) rw
      (delete_buddy-written w x y z userid buffer bytes small) rw
      (le→leb 17 (length buffer) (omega arith))
      (read_at-append (encode (delete_packet (w + x * 256 + y * 65536 + z * 16777216)))
        (drop 17 buffer) 17 refl)
