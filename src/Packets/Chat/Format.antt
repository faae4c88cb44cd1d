-- ===== src/Packets/Chat/Format.antt =====
-- The chat packets follow the packet format.
use xfire.Prelude.{
  ℕ, ◌%◌, ◌<◌, ◌≡◌, refl, [], some, codes, length, length-append, append-nil, arith,
}
use xfire.Buffer.{Bytes}
use xfire.Buffer.Writes.{
  Writes, put-Writes, puts-Writes, memcpy-Writes, then-Writes, end-Writes, bind-Writes,
  Writes-whole,
}
use xfire.Create.{strlen}
use xfire.Create.Pieces.{add_att_name-Writes, packet-Writes, counting-Writes}
use xfire.Wire.{
  Packet, nil, attr, named, numbered, text, word, sid, group, words, encode, encode_attrs,
  encode_counting, stored, written,
}
use xfire.Packets.Chat.{
  xfire_make_im, xfire_send_alias_change, xfire_create_away_old, xfire_create_away,
  xfire_set_back_old, xfire_set_back, xfire_keep_alive_packet,
}

-- A message to the session `id`; its number is kept modulo 256.
abbrev pub im_packet : Bytes → Bytes → ℕ → Packet
im_packet id message imindex = record {
  type = 2;
  attrs = attr (named (codes "sid")) (sid id) (
      attr (named (codes "peermsg"))
        (group (
          attr (named (codes "msgtype")) (word 0) (
            attr (named (codes "imindex")) (word (imindex % 256))
              (attr (named (codes "im")) (text message) nil))))
        nil);
}

make_im-Writes :
    (id message : Bytes) (imindex : ℕ)
    → length id ≡ 16
    → strlen message < 256
    → Writes
        (xfire_make_im id message imindex)
        0
        (encode (im_packet id message imindex))
        (length (encode (im_packet id message imindex)))
unfolding xfire_make_im encode_attrs
make_im-Writes id message imindex h short =
    packet-Writes (im_packet id message imindex)
      (bind-Writes _ (add_att_name-Writes 5 _) refl (
        then-Writes (put-Writes 9 3) refl (
          then-Writes (memcpy-Writes 10 id 16 h) (omega arith) (
            bind-Writes _ (add_att_name-Writes 26 _) (omega arith) (
              then-Writes (puts-Writes 34 _) refl (
                bind-Writes _ (add_att_name-Writes 36 _) refl (
                  then-Writes (puts-Writes 44 _) refl (
                    bind-Writes _ (add_att_name-Writes 49 _) refl (
                      then-Writes (puts-Writes 57 _) refl (
                        bind-Writes _ (add_att_name-Writes 62 _) refl (
                          then-Writes (puts-Writes 65 _) refl
                            (end-Writes (memcpy-Writes 68 message _ refl) refl))))))))))))
      (rw (length-append id) (omega (arith, h))) (ground (arith, append-nil message))

-- For a session id of 16 bytes and a message shorter than 256, `xfire_make_im` leaves the message
-- packet in front of the array and returns its length, where the array has room for it; where it
-- has not, the routine writes outside the array.
pub make_im-written :
    (id message : Bytes) (imindex : ℕ) (b : Bytes)
    → length id ≡ 16
    → strlen message < 256
    → xfire_make_im id message imindex b ≡ written (im_packet id message imindex) b
make_im-written id message imindex b h short =
    Writes-whole (make_im-Writes id message imindex h short) b

abbrev pub alias_packet : Bytes → Packet
alias_packet name = record { type = 14; attrs = attr (named (codes "nick")) (text name) nil }

-- For a nickname shorter than 256, `xfire_send_alias_change` writes the nickname packet, or runs out
-- of the array where that has no room for it.
pub send_alias_change-written :
    (name b : Bytes)
    → strlen name < 256
    → xfire_send_alias_change (some name) b ≡ written (alias_packet name) b
unfolding xfire_send_alias_change encode_attrs
send_alias_change-written name b short =
    Writes-whole
      (packet-Writes (alias_packet name)
        (bind-Writes _ (add_att_name-Writes 5 _) refl
          (then-Writes (puts-Writes 10 _) refl (end-Writes (memcpy-Writes 13 name _ refl) refl)))
        (omega arith) (ground (arith, append-nil name)))
      b

abbrev pub away_old_packet : Bytes → Packet
away_old_packet away = record {
  type = 11;
  attrs =
      attr (named (codes "type")) (word 1)
        (attr (named (codes "status")) (group (attr (named (codes "t")) (text away) nil)) nil);
}

-- For a text shorter than 256, `xfire_create_away_old` writes the older away packet, or runs out of
-- the array.
pub create_away_old-written :
    (away b : Bytes)
    → strlen away < 256
    → xfire_create_away_old away b ≡ written (away_old_packet away) b
unfolding xfire_create_away_old encode_attrs
create_away_old-written away b short =
    Writes-whole
      (packet-Writes (away_old_packet away)
        (bind-Writes _ (add_att_name-Writes 5 _) refl (
          then-Writes (puts-Writes 10 _) refl (
            bind-Writes _ (add_att_name-Writes 15 _) refl (
              then-Writes (puts-Writes 22 _) refl (
                bind-Writes _ (add_att_name-Writes 24 _) refl (
                  then-Writes (puts-Writes 26 _) refl
                    (end-Writes (memcpy-Writes 29 away _ refl) refl)))))))
        (omega arith) (ground (arith, append-nil away)))
      b

abbrev pub away_packet : Bytes → Packet
away_packet away = record { type = 32; attrs = attr (numbered 0x2e) (text away) nil }

create_away-Writes :
    (away : Bytes)
    → strlen away < 256
    → Writes
        (xfire_create_away away)
        0
        (encode (away_packet away))
        (length (encode (away_packet away)))
unfolding xfire_create_away encode_attrs
create_away-Writes away short =
    packet-Writes (away_packet away)
      (then-Writes (puts-Writes 5 _) refl (end-Writes (memcpy-Writes 9 away _ refl) refl))
      (omega arith) (ground (arith, append-nil away))

-- For a text shorter than 256, `xfire_create_away` writes the away packet, or runs out of the array.
pub create_away-written :
    (away b : Bytes) → strlen away < 256 → xfire_create_away away b ≡ written (away_packet away) b
create_away-written away b short = Writes-whole (create_away-Writes away short) b

-- `xfire_set_back` writes the away packet with an empty text, or runs out of the array.
pub set_back-written : (b : Bytes) → xfire_set_back b ≡ written (away_packet []) b
unfolding xfire_set_back encode_attrs
set_back-written b =
    Writes-whole (packet-Writes (away_packet []) (end-Writes (puts-Writes 5 _) refl) refl refl) b

abbrev pub type_packet : Packet
type_packet = record { type = 11; attrs = attr (named (codes "type")) (word 0) nil }

-- `xfire_set_back_old` stores a packet with one attribute behind a header that counts two, or runs
-- out of the array.
pub set_back_old-stored :
    (b : Bytes) → xfire_set_back_old b ≡ stored (encode_counting 2 type_packet) b
unfolding xfire_set_back_old encode_attrs
set_back_old-stored b =
    Writes-whole
      (counting-Writes 2 type_packet
        (bind-Writes _ (add_att_name-Writes 5 _) refl (end-Writes (puts-Writes 10 _) refl)) refl
        refl)
      b

abbrev pub keep_alive_packet : Packet
keep_alive_packet = record {
  type = 13;
  attrs = attr (named (codes "value")) (word 0) (attr (named (codes "stats")) (words []) nil);
}

-- `xfire_keep_alive_packet` writes the keep-alive packet, or runs out of the array.
pub keep_alive-written : (b : Bytes) → xfire_keep_alive_packet b ≡ written keep_alive_packet b
unfolding xfire_keep_alive_packet encode_attrs
keep_alive-written b =
    Writes-whole
      (packet-Writes keep_alive_packet
        (bind-Writes _ (add_att_name-Writes 5 _) refl (
          then-Writes (puts-Writes 11 _) refl
            (bind-Writes _ (add_att_name-Writes 16 _) refl (end-Writes (puts-Writes 22 _) refl))))
        refl refl)
      b

-- For a text shorter than 256 and any array: `xfire_send_alias_change`, `xfire_create_away` and
-- `xfire_create_away_old` write the nickname packet and the two away packets with this text,
-- `xfire_set_back` writes the away packet with an empty text, and `xfire_keep_alive_packet` writes
-- the keep-alive packet; each runs out of the array where its packet has no room.
pub state_packets-written :
    (name b : Bytes)
    → strlen name < 256
    → (xfire_send_alias_change (some name) b ≡ written (alias_packet name) b)
      × (xfire_create_away name b ≡ written (away_packet name) b)
      × (xfire_create_away_old name b ≡ written (away_old_packet name) b)
      × (xfire_set_back b ≡ written (away_packet []) b)
      × (xfire_keep_alive_packet b ≡ written keep_alive_packet b)
state_packets-written name b short = (
  send_alias_change-written name b short,
  create_away-written name b short,
  create_away_old-written name b short,
  set_back-written b,
  keep_alive-written b,
)
