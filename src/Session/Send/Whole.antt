-- ===== src/Session/Send/Whole.antt =====
-- The parts of a message, put together, are the message, and they are numbered in order.
use Prim.Native.Nat.{min}
use xfire.Prelude.{
  ℕ, zero, suc, ◌+◌, ◌-◌, ◌≤◌, ◌<◌, ◌≡◌, refl, sym, ap, ◌∙◌, true, false, inl, inr, Bool-cases,
  List, [], ◌∷◌, ◌++◌, some, length, drop, ltb, le→leb, All, IsByte, arith, length-take,
  length-drop, length-append, take-append-drop, drop-drop, append-nil,
}
use xfire.Buffer.{Bytes}
use xfire.Buffer.Writes.{Writes-whole, read_at-append}
use xfire.Utils.{decode_string}
use xfire.Utils.Hex.{hex_text, decode_string-Writes}
use xfire.Wire.{encode, encode_attrs}
use xfire.Packets.Chat.{xfire_make_im}
use xfire.Packets.Chat.Format.{im_packet, make_im-written}
use xfire.Session.Buddy.{Buddy}
use xfire.Session.Send.{Sent, part_at, make_part, send_parts, xfire_send_im, went_out}

abbrev pub im_bytes : Bytes → Bytes → ℕ → Bytes
im_bytes id part imindex = encode (im_packet id part imindex)

-- The packets of the parts, numbered from behind `imindex` on.
abbrev pub im_packets : Bytes → ℕ → List Bytes → List Bytes
im_packets id imindex [] = []
im_packets id imindex (p ∷ ps) = im_bytes id p (imindex + 1) ∷ im_packets id (imindex + 1) ps

abbrev pub sent : List Bytes → ℕ → Sent
sent packets imindex = record { packets = packets; imindex = imindex }

abbrev pub concat : List Bytes → Bytes
concat [] = []
concat (p ∷ ps) = p ++ concat ps

abbrev pub IsPart : Bytes → Type 0
IsPart p = (0 < length p) × (length p ≤ 255)

length-im_bytes :
    (id part : Bytes) (imindex : ℕ)
    → length id ≡ 16
    → length (im_bytes id part imindex) ≡ 68 + length part
unfolding encode encode_attrs
length-im_bytes id part imindex h =
    rw (length-append id) (omega (arith, h, length-append part [], length-append (part ++ []) []))

drop_past : (n : ℕ) (xs : Bytes) → length xs ≤ n → drop n xs ≡ []
drop_past zero [] h = refl
drop_past zero (x ∷ xs) h = absurd (omega arith)
drop_past (suc n) [] h = refl
drop_past (suc n) (x ∷ xs) h = drop_past n xs (omega arith)

make_part-im :
    (buffer sid id part : Bytes) (imindex : ℕ)
    → length id ≡ 16
    → All IsByte id
    → length sid ≡ 16
    → length part ≤ 255
    → 323 ≤ length buffer
    → make_part buffer sid (hex_text id) part imindex
      ≡ some (
        im_bytes id part imindex,
        im_bytes id part imindex ++ drop (length (im_bytes id part imindex)) buffer,
        id,
      )
unfolding make_part
make_part-im buffer sid id part imindex hi bytes hs short room =
    rw (decoded, made, read_at-append (im_bytes id part imindex) _ _ refl, make_part) refl
  where
    decoded : decode_string (hex_text id) sid ≡ some (tt, id)
    decoded =
        Writes-whole (decode_string-Writes id bytes) sid
        ∙ rw
            (
              hi,
              drop_past 16 sid (omega arith),
              append-nil id,
              le→leb 16 (length sid) (omega arith),
            )
            refl

    made :
        xfire_make_im id part imindex buffer
        ≡ some (
          length (im_bytes id part imindex),
          im_bytes id part imindex ++ drop (length (im_bytes id part imindex)) buffer,
        )
    made =
        make_im-written id part imindex buffer hi (omega arith)
        ∙ rw
            (le→leb (length (im_bytes id part imindex)) (length buffer)
              (omega (arith, length-im_bytes id part imindex hi)))
            refl

length-part_at :
    (message : Bytes) (index : ℕ)
    → length (part_at message index) ≡ min 255 (length message - index)
unfolding part_at
length-part_at message index =
    length-take 255 (drop index message) ∙ ap (min 255) (length-drop index message)

-- What is left of a message is a part and what is left behind it.
part_then_rest :
    (message : Bytes) (index : ℕ)
    → part_at message index ++ drop (index + 255) message ≡ drop index message
unfolding part_at
part_then_rest message index =
    rw (← drop-drop index 255 message) (take-append-drop 255 (drop index message))

ltb-true : (a b : ℕ) → ltb a b ≡ true → a < b
ltb-true a b h = ground arith

ltb-false : (a b : ℕ) → ltb a b ≡ false → b ≤ a
ltb-false a b h = ground arith

send_parts-whole :
    (rounds : ℕ) (buffer sid id message : Bytes) (imindex index : ℕ)
    → length message ≤ rounds + index
    → length id ≡ 16
    → All IsByte id
    → length sid ≡ 16
    → 323 ≤ length buffer
    → (ps : List Bytes) × (send_parts rounds buffer sid (hex_text id) message imindex index
        ≡ some (sent (im_packets id imindex ps) (imindex + length ps)))
      × (concat ps ≡ drop index message)
      × All IsPart ps
unfolding send_parts
send_parts-whole zero buffer sid id message imindex index enough hi bytes hs room =
    ([], ap (λ n. some (sent [] n)) (omega arith), sym (drop_past index message (omega arith)), tt)
send_parts-whole (suc rounds) buffer sid id message imindex index enough hi bytes hs room =
    elim (Bool-cases (ltb index (length message))) [
      | inr done ↦ (
        [],
        rw (done, send_parts) (ap (λ n. some (sent [] n)) (omega arith)),
        sym (drop_past index message (ltb-false index (length message) done)),
        tt,
      )
      | inl more ↦
          let below = ltb-true index (length message) more in
          let p = part_at message index in
          let rest =
            send_parts-whole rounds
              (im_bytes id p (imindex + 1) ++ drop (length (im_bytes id p (imindex + 1))) buffer) id
              id message (imindex + 1) (index + 255) (omega arith) hi bytes hi
              (omega (
                arith,
                room,
                length-append (im_bytes id p (imindex + 1))
                    (drop (length (im_bytes id p (imindex + 1))) buffer),
                length-drop (length (im_bytes id p (imindex + 1))) buffer,
              )) in
          (
            p ∷ rest.0,
            rw
                (
                  more,
                  make_part-im buffer sid id p (imindex + 1) hi bytes hs
                      (omega (arith, length-part_at message index)) room,
                  rest.1,
                  send_parts,
                )
                (ap (λ n. some (sent (im_packets id imindex (p ∷ rest.0)) n)) (omega arith)),
            ap (λ k. p ++ k) rest.2 ∙ part_then_rest message index,
            (
              (
                omega (arith, below, length-part_at message index),
                omega (arith, length-part_at message index),
              ),
              rest.3,
            ),
          )
    ]

-- A message for an online buddy whose session id is known as the text of 16 bytes, with a local
-- array of 16 bytes for the id and one of at least 323 bytes for the packet (the code's has 1024):
-- `xfire_send_im` writes one packet for each of some parts, which are not empty, have at most 255
-- bytes, and put together are the message; they are numbered from behind the buddy's counter on,
-- and the counter ends at the last number.
pub send_im-whole :
    (buffer sid id message : Bytes) (buddy : Buddy)
    → buddy.is_online ≡ true
    → buddy.sid ≡ some (hex_text id)
    → length id ≡ 16
    → All IsByte id
    → length sid ≡ 16
    → 323 ≤ length buffer
    → (ps : List Bytes) × (xfire_send_im buffer sid (some buddy) message
        ≡ some (went_out (sent (im_packets id buddy.imindex ps) (buddy.imindex + length ps))))
      × (concat ps ≡ message)
      × All IsPart ps
unfolding xfire_send_im
send_im-whole buffer sid id message buddy online known hi bytes hs room =
    let parts =
      send_parts-whole (length message) buffer sid id message buddy.imindex 0 (omega arith) hi bytes
        hs room in
    (parts.0, rw (online, known, parts.1, xfire_send_im) refl, parts.2, parts.3)
