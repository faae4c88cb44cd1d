-- ===== src/Xfirelib/Outgoing/Plain.antt =====
-- The contents of the other packets that follow the packet format.
use xfire.Prelude.{
  ℕ, ◌+◌, ◌*◌, ◌%◌, ◌<◌, ◌≡◌, refl, List, [], ◌∷◌, ◌++◌, codes, length, length-append, append-nil,
  append_assoc, All, IsByte, arith,
}
use xfire.Prelude.Int.{pos, to_byte}
use xfire.Buffer.{Bytes}
use xfire.Buffer.Writes.{
  Writes, Writes-eq, put-Writes, puts-Writes, memcpy-Writes, then-Writes, bind-Writes, pure-Writes,
  end-Writes, silent-Writes, known-Writes, read_at-whole,
}
use xfire.Create.{strlen}
use xfire.Create.Pieces.{string_items}
use xfire.Packets.Login.Format.{IsText, c_string-IsText}
use xfire.Packets.Login.Open.{skins_packet, version_packet}
use xfire.Packets.Chat.Format.{away_packet, keep_alive_packet}
use xfire.Packets.Buddies.Format.{accept_packet, delete_packet}
use xfire.Wire.{Attrs, nil, attr, named, text, word, encode_attrs, le32}
use xfire.Xfirelib.Value.{no_value, set_value}
use xfire.Xfirelib.Writing.Pieces.{write_name-Writes, write_value-Writes, add_attribut_name-Writes}
use xfire.Xfirelib.Outgoing
use xfire.Xfirelib.Outgoing.Bodies.{write_number-Writes, write_bytes-Writes}

pub client_information-Writes :
    Writes Outgoing.client_information 0 (encode_attrs skins_packet.attrs) 46
unfolding Outgoing.client_information Outgoing.skin_versions encode_attrs
client_information-Writes = bind-Writes _ (add_attribut_name-Writes 0 _) refl (
    then-Writes (puts-Writes 5 _) refl (
      then-Writes (memcpy-Writes 11 _ 8 refl) refl (
        then-Writes (puts-Writes 19 _) refl (
          then-Writes (memcpy-Writes 21 _ 5 refl) refl (
            bind-Writes _ (write_name-Writes (record no_value { name = codes "version" }) 26) refl (
              then-Writes (puts-Writes 34 _) refl (
                then-Writes (puts-Writes 38 _) refl
                  (then-Writes (puts-Writes 42 _) refl (pure-Writes 46 46)))))))))

pub client_version-Writes :
    (version : ℕ)
    → Writes
        (Outgoing.client_version (pos version))
        0
        (encode_attrs (version_packet version).attrs)
        13
unfolding Outgoing.client_version encode_attrs to_byte
client_version-Writes version =
    Writes-eq
      (bind-Writes _ (add_attribut_name-Writes 0 _) refl (end-Writes (puts-Writes 8 _) refl))
      (ground arith) refl

pub send_keep_alive-Writes :
    Writes Outgoing.send_keep_alive 0 (encode_attrs keep_alive_packet.attrs) 21
unfolding Outgoing.send_keep_alive encode_attrs
send_keep_alive-Writes =
    bind-Writes _ (write_name-Writes (record no_value { name = codes "value" }) 0) refl (
      then-Writes (puts-Writes 6 _) refl (
        bind-Writes _ (write_name-Writes (record no_value { name = codes "stats" }) 11) refl
          (end-Writes (puts-Writes 17 _) refl)))

-- A text shorter than 256 behind its name.
pub write_text-Writes :
    (name value : Bytes)
    → length value < 256
    → Writes
        (Outgoing.write_text name value 0)
        0
        (encode_attrs (attr (named name) (text value) nil))
        (strlen name + 1 + 3 + length value)
unfolding Outgoing.write_text encode_attrs set_value
write_text-Writes name value short =
    Writes-eq
      (bind-Writes _ (write_name-Writes (Outgoing.valued name value) 0) (omega arith) (
        then-Writes (puts-Writes _ (1 ∷ length value % 256 ∷ 0 ∷ [])) (omega arith) (
          bind-Writes _ (write_value-Writes (Outgoing.valued name value) _ value refl refl)
            (omega arith) (pure-Writes (0 + (strlen name + 1) + 3 + length value) _))))
      (ground (arith, append-nil value)) (omega arith)

pub send_status_message-Writes :
    (awaymsg : Bytes)
    → length awaymsg < 256
    → Writes
        (Outgoing.send_status_message awaymsg)
        0
        (encode_attrs (away_packet awaymsg).attrs)
        (4 + length awaymsg)
unfolding Outgoing.send_status_message encode_attrs
send_status_message-Writes awaymsg short =
    Writes-eq
      (then-Writes (puts-Writes 0 _) refl (end-Writes (memcpy-Writes 4 awaymsg _ refl) refl))
      (ground (arith, append-nil awaymsg)) refl

pub send_remove_buddy-Writes :
    (userid : ℕ)
    → Writes
        (Outgoing.send_remove_buddy (pos userid))
        0
        (encode_attrs (delete_packet userid).attrs)
        12
unfolding Outgoing.send_remove_buddy encode_attrs
send_remove_buddy-Writes userid = write_number-Writes (codes "userid") userid 0

-- The four bytes of an address as one number.
abbrev pub address : ℕ → ℕ → ℕ → ℕ → ℕ
address a b c d = d + c * 256 + b * 65536 + a * 16777216

abbrev pub game_attrs : Bytes → Bytes → Bytes → ℕ → ℕ → ℕ → Attrs
game_attrs game_name ip_name port_name game ip port =
    attr (named game_name) (word game)
      (attr (named ip_name) (word ip) (attr (named port_name) (word port) nil))

address-le32 :
    (a b c d : ℕ) → All IsByte (a ∷ b ∷ c ∷ d ∷ []) → (d ∷ c ∷ b ∷ a ∷ []) ≡ le32 (address a b c d)
address-le32 a b c d h = ground arith

pub send_game_status-Writes :
    (game_name ip_name port_name : Bytes) (game a b c d port : ℕ)
    → All IsByte (a ∷ b ∷ c ∷ d ∷ [])
    → Writes
        (Outgoing.send_game_status game_name ip_name port_name
          (pos game)
          (d ∷ c ∷ b ∷ a ∷ [])
          (pos port))
        0
        (encode_attrs (game_attrs game_name ip_name port_name game (address a b c d) port))
        (strlen game_name + strlen ip_name + strlen port_name + 18)
unfolding Outgoing.send_game_status encode_attrs
send_game_status-Writes game_name ip_name port_name game a b c d port bytes =
    Writes-eq
      (bind-Writes _ (write_number-Writes game_name game 0) (omega (arith, length-append game_name))
        (silent-Writes _ (known-Writes _ _ _ (read_at-whole (d ∷ c ∷ b ∷ a ∷ []) 4 refl)) (
          bind-Writes _ (write_bytes-Writes ip_name (d ∷ c ∷ b ∷ a ∷ []) 2 _)
            (omega (arith, length-append ip_name)) (write_number-Writes port_name port _))))
      (rw (address-le32 a b c d bytes) (simp (append_assoc, append-nil))) (omega arith)

pub send_accept_invitation-Writes :
    (name : Bytes)
    → length name < 256
    → IsText name
    → Writes
        (Outgoing.send_accept_invitation name)
        0
        (encode_attrs (accept_packet name).attrs)
        (8 + length name)
unfolding Outgoing.send_accept_invitation encode_attrs set_value
send_accept_invitation-Writes name short plain = rw (c_string-IsText name plain) (
    Writes-eq
      (bind-Writes _ (write_name-Writes (Outgoing.valued (codes "name") name) 0) (omega arith) (
        then-Writes (puts-Writes _ (1 ∷ length name % 256 ∷ 0 ∷ [])) (omega arith) (
          bind-Writes _ (write_value-Writes (Outgoing.valued (codes "name") name) _ name refl refl)
            (omega arith) (pure-Writes (8 + length name) _))))
      (ground (arith, append-nil name)) (omega arith))

write_strings-Writes :
    (names : List Bytes) (i : ℕ)
    → Writes
        (Outgoing.write_strings names i)
        i
        (string_items names)
        (i + length (string_items names))
unfolding Outgoing.write_strings
write_strings-Writes [] i = Writes-eq (pure-Writes i i) refl (omega arith)
write_strings-Writes (name ∷ names) i =
    Writes-eq
      (then-Writes (puts-Writes i (length name % 256 ∷ 0 ∷ [])) refl (
        then-Writes (memcpy-Writes (i + 2) name _ refl) refl
          (write_strings-Writes names (i + 2 + length name))))
      refl (omega (arith, length-append name (string_items names)))

-- The number of strings, in one byte, stands where the packet format has the tag 1 of a text: so the
-- content follows the format for one name with one message.
pub invite_buddy-Writes :
    (name msg : Bytes)
    → length name < 256
    → length msg < 256
    → Writes
        (Outgoing.invite_buddy (name ∷ []) (msg ∷ []))
        0
        (encode_attrs
          (attr (named (codes "name")) (text name) (attr (named (codes "msg")) (text msg) nil)))
        (15 + length name + length msg)
unfolding Outgoing.invite_buddy encode_attrs
invite_buddy-Writes name msg short short_msg =
    Writes-eq
      (bind-Writes _ (write_name-Writes (record no_value { name = codes "name" }) 0) (omega arith) (
        then-Writes (put-Writes 5 1) (omega arith) (
          bind-Writes _ (write_strings-Writes (name ∷ []) 6) (omega arith) (
            bind-Writes _ (write_name-Writes (record no_value { name = codes "msg" }) _)
              (omega arith)
              (then-Writes (put-Writes _ 1) (omega arith) (write_strings-Writes (msg ∷ []) _))))))
      (ground (arith, append-nil name, append-nil msg))
      (omega (arith, append_nil_length name, append_nil_length msg))
  where
    append_nil_length : (s : Bytes) → length (s ++ []) ≡ length s
    append_nil_length s = rw (append-nil s)
