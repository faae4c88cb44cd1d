-- ===== src/Xfirelib/Client/Answers.antt =====
-- What the client sends by itself, beside what gfire sends.
use xfire.Prelude.{
  ℕ, ◌%◌, ◌<◌, ◌≡◌, refl, ◌∙◌, true, [], ◌∷◌, ◌++◌, some, codes, length, take, get_elem?, ltb,
  le→leb, length-append, ◌≤◌, List, drop, All, IsByte, Bool-cases, inl, inr, arith,
}
use xfire.Prelude.Int.{pos, signed_char, to_byte, div_256}
use xfire.Buffer.{Bytes}
use xfire.Buffer.Writes.{read_at-whole}
use xfire.Packets.Login.Open.{skins_packet, version_packet}
use xfire.Wire.{encode, encode_attrs, le32}
use mathlib.Core.Path.{subst}
use xfire.Packets.Login.Format.{IsText}
use xfire.Search.{find_string, xfire_read_fix_attr}
use xfire.Session.Buddy.{Buddy, deliver}
use xfire.Session.Buddy.News.{HasId, tell_all}
use xfire.Session.Incoming.{HandlerLocals, xfire_get_im}
use xfire.Session.Incoming.Told.{told}
use xfire.Session.Incoming.Message.{answer, get_im-tell_all}
use xfire.Xfirelib.Value.{set_value, bytes_of_long}
use xfire.Xfirelib.Packet.{Content, get_packet_size, get_packet_attribute_count}
use xfire.Xfirelib.Packet.Contents.{StandsFor, ack_packet}
use xfire.Xfirelib.Packet.Protocol.{send_packet-StandsFor}
use xfire.Xfirelib.Outgoing.Bodies.{message_attrs}
use xfire.Xfirelib.Incoming.{MessagePacket, first_byte, parse_message}
use xfire.Xfirelib.Incoming.Steps.{known_step, bytes_step}
use xfire.Xfirelib.Incoming.Message.{message_read, named, parse_message-content}
use xfire.Xfirelib.Client.Cut.{cut, cut-IsMessage, head-cut, size_place, text_place, answer-ack}
use xfire.Xfirelib.Client.{send, connect, get_im_index, answer_message}

-- A number that is read as a `char` and written as four bytes again.
signed_char-le32 : (b : ℕ) → b < 256 → bytes_of_long (signed_char b) 4 ≡ le32 b
unfolding bytes_of_long signed_char to_byte div_256
signed_char-le32 b h = elim (Bool-cases (ltb b 128)) [
  | inl low ↦ rw low (ground arith)
  | inr high ↦ rw high (ground arith)
]

module _ (sha1 : Bytes → Bytes) (fresh : ℕ → Bytes) (sized : (n : ℕ) → length (fresh n) ≡ n) where
  -- The client opens a connection with the bytes UA01, and the packets for the skins and for the version
  -- as the protocol has them; what gfire sends for these differs from them in two bytes.
  pub connect-opening :
      connect sha1 fresh
      ≡ some (codes "UA01" ∷ encode skins_packet ∷ encode (version_packet 100) ∷ [])
  unfolding connect encode get_packet_size get_packet_attribute_count
  connect-opening =
      rw
        (
          send_packet-StandsFor sha1 fresh Content.client_information skins_packet sized
              StandsFor.information,
          send,
          send_packet-StandsFor sha1 fresh (Content.client_version (pos 100)) (version_packet 100)
              sized (StandsFor.version 100),
          send,
        )
        refl

  get_im_index-read :
      (id message : Bytes) (n len : ℕ)
      → get_im_index (message_read id n message len) ≡ some (signed_char (n % 256))
  unfolding get_im_index first_byte set_value
  get_im_index-read id message n len =
      known_step _ _ (n % 256)
        (bytes_step (λ bytes. get_elem? bytes 0) (le32 n) (named (codes "imindex")))

  answer_message-read :
      (id message : Bytes) (n len : ℕ)
      → length id ≡ 16
      → answer_message sha1 fresh true (message_read id n message len)
        ≡ some (encode (ack_packet id (n % 256)) ∷ [])
  unfolding answer_message set_value first_byte encode get_packet_size get_packet_attribute_count
  answer_message-read id message n len size =
      known_step _ _ 0 (bytes_step (λ bytes. get_elem? bytes 0) (le32 0) (named (codes "msgtype")))
      ∙ bytes_step _ id (named (codes "sid"))
      ∙ known_step _ _ id (read_at-whole id 16 size)
      ∙ known_step _ _ (signed_char (n % 256)) (get_im_index-read id message n len)
      ∙ rw
          (
            send_packet-StandsFor sha1 fresh (Content.message_ack id (signed_char (n % 256)))
                (ack_packet id (n % 256)) sized
                (StandsFor.ack id (signed_char (n % 256)) (n % 256) size
                  (signed_char-le32 (n % 256) (omega arith))),
            send,
            le→leb (length (encode_attrs (ack_packet id (n % 256)).attrs)) 100
                (omega (arith, length-append id, size)),
          )
          refl

  -- For a session id of 16 bytes, buddies who all have such an id as text, and a message shorter than
  -- 256 without a 0, in the attributes of the protocol's message packet, and arrays of the sizes that are
  -- asked for, with at least 63 bytes for gfire's reply: the client reads the packet without a fault
  -- and, while connected, answers with the acknowledgement for this session and the lowest byte of the
  -- message's number. Where gfire reads the id and a kind that begins with 0 out of the same packet, and
  -- finds "im" in its place: `xfire_get_im` delivers the message to our online buddies with this id and
  -- returns 62 bytes to send, and these are the acknowledgement with the whole number.
  pub answer_message-answer :
      (locals : HandlerLocals) (id message buffer kinds : Bytes) (n len index after : ℕ)
      (bs : List Buddy)
      → length id ≡ 16
      → length message < 256
      → IsText message
      → 63 ≤ length buffer
      → length locals.temp ≡ 16
      → All IsByte id
      → All HasId bs
      → xfire_read_fix_attr
          (encode_attrs (message_attrs id n message))
          (codes "sid")
          (pos len)
          4
          0
          16
          locals.sid
        ≡ some (index, id)
      → xfire_read_fix_attr
          (encode_attrs (message_attrs id n message))
          (codes "msgtype")
          (pos len)
          8
          index
          4
          locals.msgtype
        ≡ some (after, 0 ∷ kinds)
      → find_string (encode_attrs (message_attrs id n message)) (codes "im") (pos len) 2
        ≡ some (some 58)
      → ((m : MessagePacket) × (parse_message (encode_attrs (message_attrs id n message)) len
            ≡ some m)
          × (answer_message sha1 fresh true m ≡ some (encode (ack_packet id (n % 256)) ∷ [])))
        × ((reply : Bytes) × (xfire_get_im locals
                (encode_attrs (message_attrs id n message))
                len
                bs
                buffer
              ≡ some (told 62 (tell_all id (deliver message) bs), reply))
            × (take 62 reply ≡ encode (ack_packet id n)))
  answer_message-answer locals id message buffer kinds n len index after bs size short plain room
        temp bytes known sid_read kind_read found =
      (
        (
          message_read id n message len,
          parse_message-content id message n len size (omega arith),
          answer_message-read id message n len size,
        ),
        (
          answer (cut id n message) ++ drop 58 (drop 5 buffer),
          subst
              (λ p.
                xfire_read_fix_attr p (codes "sid") (pos len) 4 0 16 locals.sid ≡ some (index, id)
                → xfire_read_fix_attr p (codes "msgtype") (pos len) 8 index 4 locals.msgtype
                  ≡ some (after, 0 ∷ kinds)
                → find_string p (codes "im") (pos len) 2 ≡ some (some 58)
                → xfire_get_im locals p len bs buffer
                  ≡ some (
                    told 62 (tell_all id (deliver message) bs),
                    answer (cut id n message) ++ drop 58 (drop 5 buffer),
                  ))
              (head-cut id message n)
              (λ a b c.
                get_im-tell_all locals (cut id n message) buffer len index after 58 id kinds message
                  bs (cut-IsMessage id message n size) room temp bytes known plain short a b c
                  (size_place id message n size short) (text_place id message n size))
              sid_read kind_read found,
          answer-ack id message (drop 58 (drop 5 buffer)) n size,
        ),
      )
