-- ===== src/Xfirelib/Incoming/Message.antt =====
-- A message that is read back from the content that SendMessagePacket writes.
use xfire.Prelude.{
  ℕ, ◌+◌, ◌<◌, ◌≤◌, ◌≡◌, refl, sym, ap, ◌∙◌, [], ◌∷◌, ◌++◌, none, some, codes, length, take, drop,
  get_elem?, le→leb, take-length_append, length-append, append-nil, append_assoc, arith,
}
use mathlib.Core.Path.{subst}
use xfire.Prelude.Int.{pos}
use xfire.Buffer.{Bytes}
use xfire.Buffer.Writes.{Writes-whole}
use xfire.Wire.{encode_attrs, le16, le32}
use xfire.Xfirelib.Value.{
  VariableValue, no_value, set_value, get_value, get_value_as_long, long_of_bytes,
}
use xfire.Xfirelib.Value.Places.{
  read_value-At, At, At-drop, At-whole, get_value-set, get_value_as_long-set,
}
use xfire.Xfirelib.Outgoing
use xfire.Xfirelib.Outgoing.Bodies.{message_attrs, send_message-Writes}
use xfire.Xfirelib.Incoming.{MessagePacket, first_byte, chat_message, parse_message}
use xfire.Xfirelib.Incoming.Steps.{known_step, name_step, value_step, long_step, bytes_step}

pub long-le32 : (n : ℕ) → n < 4294967296 → long_of_bytes 1 (le32 n) ≡ n
unfolding long_of_bytes
long-le32 n h = omega arith

pub long-le16 : (n : ℕ) → n < 65536 → long_of_bytes 1 (le16 n) ≡ n
unfolding long_of_bytes
long-le16 n h = omega arith

abbrev pub named : Bytes → VariableValue
named name = record no_value { name = name }

abbrev pub value_of : Bytes → Bytes → VariableValue
value_of name bytes = record { name = name; value = some bytes; value_length = length bytes }

-- The object that a message becomes.
abbrev pub message_read : Bytes → ℕ → Bytes → ℕ → MessagePacket
message_read id n message len = record {
  sid = value_of (codes "sid") id;
  msgtype = value_of (codes "msgtype") (le32 0);
  imindex = some (value_of (codes "imindex") (le32 n));
  message = message;
  buf = none;
  buf_length = len;
}

module _ (buf id message : Bytes) (n len : ℕ) (size : length id ≡ 16)
    (short : length message < 65536) where
  abbrev text : Bytes
  text = 2 ∷ codes "im" ++ (1 ∷ le16 (length message) ++ message)

  abbrev index_and_text : Bytes
  index_and_text = 7 ∷ codes "imindex" ++ (2 ∷ le32 n ++ text)

  abbrev before : MessagePacket
  before = record (message_read id n message len) { imindex = none; message = [] }

  chat_message-read :
      At buf 44 index_and_text → chat_message buf 44 before ≡ some (message_read id n message len)
  unfolding chat_message set_value
  chat_message-read a =
      name_step _ no_value (codes "imindex") (2 ∷ le32 n ++ text) a (omega arith) (omega arith)
      ∙ value_step _ (named (codes "imindex")) 4 (le32 n) text b refl
      ∙ name_step _ no_value (codes "im") (1 ∷ le16 (length message) ++ message) c (omega arith)
          (omega arith)
      ∙ value_step _ (named (codes "im")) 2 (le16 (length message)) message d refl
      ∙ long_step _ (le16 (length message)) (named (codes "im"))
      ∙ known_step _ _ _ (
          read_value-At message [] (value_of (codes "im") (le16 (length message))) e
            (sym (long-le16 (length message) short)))
      ∙ bytes_step _ message (value_of (codes "im") (le16 (length message)))
    where
      b : At buf 53 (le32 n ++ text)
      b = At-drop (7 ∷ codes "imindex" ++ (2 ∷ [])) a refl

      c : At buf 57 text
      c = At-drop (le32 n) b refl

      d : At buf 61 (le16 (length message) ++ message)
      d = At-drop (2 ∷ codes "im" ++ (1 ∷ [])) c refl

      e : At buf 63 (message ++ [])
      e = rw (append-nil message) (At-drop (le16 (length message)) d refl)

  abbrev kind_and_rest : Bytes
  kind_and_rest = 7 ∷ codes "msgtype" ++ (2 ∷ le32 0 ++ index_and_text)

  parse_message-read :
      At buf 0 (3 ∷ codes "sid" ++ (3 ∷ id ++ (7 ∷ codes "peermsg" ++ (5 ∷ 3 ∷ kind_and_rest))))
      → parse_message buf len ≡ some (message_read id n message len)
  unfolding parse_message set_value first_byte
  parse_message-read a =
      name_step _ no_value (codes "sid")
        (3 ∷ id ++ (7 ∷ codes "peermsg" ++ (5 ∷ 3 ∷ kind_and_rest))) a (omega arith) (omega arith)
      ∙ value_step _ (named (codes "sid")) 16 id (7 ∷ codes "peermsg" ++ (5 ∷ 3 ∷ kind_and_rest)) b
          size
      ∙ name_step _ no_value (codes "peermsg") (5 ∷ 3 ∷ kind_and_rest) c (omega arith) (omega arith)
      ∙ name_step _ no_value (codes "msgtype") (2 ∷ le32 0 ++ index_and_text) d (omega arith)
          (omega arith)
      ∙ value_step _ (named (codes "msgtype")) 4 (le32 0) index_and_text e refl
      ∙ known_step _ _ 0 (bytes_step _ (le32 0) (named (codes "msgtype")))
      ∙ chat_message-read f
    where
      b : At buf 5 (id ++ (7 ∷ codes "peermsg" ++ (5 ∷ 3 ∷ kind_and_rest)))
      b = At-drop (3 ∷ codes "sid" ++ (3 ∷ [])) a refl

      c : At buf 21 (7 ∷ codes "peermsg" ++ (5 ∷ 3 ∷ kind_and_rest))
      c = At-drop id b (omega (arith, size))

      d : At buf 31 kind_and_rest
      d = At-drop (7 ∷ codes "peermsg" ++ (5 ∷ 3 ∷ [])) c refl

      e : At buf 40 (le32 0 ++ index_and_text)
      e = At-drop (7 ∷ codes "msgtype" ++ (2 ∷ [])) d refl

      f : At buf 44 index_and_text
      f = At-drop (le32 0) e refl

pub message_attrs-bytes :
    (id message : Bytes) (n : ℕ)
    → encode_attrs (message_attrs id n message)
      ≡ 3 ∷ codes "sid"
        ++ (3 ∷ id
            ++ (7 ∷ codes "peermsg"
                ++ (5
                    ∷ 3
                    ∷ (7 ∷ codes "msgtype"
                        ++ (2 ∷ le32 0
                            ++ (7 ∷ codes "imindex"
                                ++ (2 ∷ le32 n
                                    ++ (2 ∷ codes "im"
                                        ++ (1 ∷ le16 (length message) ++ message)))))))))
unfolding encode_attrs
message_attrs-bytes id message n = simp (append-nil, append_assoc)

pub parse_message-content :
    (id message : Bytes) (n len : ℕ)
    → length id ≡ 16
    → length message < 65536
    → parse_message (encode_attrs (message_attrs id n message)) len
      ≡ some (message_read id n message len)
parse_message-content id message n len size short =
    parse_message-read (encode_attrs (message_attrs id n message)) id message n len size short (
      subst (λ k. At (encode_attrs (message_attrs id n message)) 0 k)
        (message_attrs-bytes id message n) (At-whole _))

-- For a session id of 16 bytes, a number below 2 ^ 32, a message shorter than 65536, and an array with
-- room for 63 bytes more than the message has: SendMessagePacket writes its content to the front of the
-- array, and MessagePacket reads from these bytes, and from nothing behind them, a chat message with this
-- session id, this number and this message.
pub parse_message-send_message :
    (id message b : Bytes) (n : ℕ)
    → length id ≡ 16
    → n < 4294967296
    → length message < 65536
    → 63 + length message ≤ length b
    → (b' : Bytes) × (m : MessagePacket) × (Outgoing.send_message id (pos n) message b
        ≡ some (63 + length message, b'))
      × (parse_message (take (63 + length message) b') (63 + length message) ≡ some m)
      × (get_value m.sid ≡ some id)
      × (first_byte m.msgtype ≡ some 0)
      × ((v : VariableValue) × (m.imindex ≡ some v) × (get_value_as_long v ≡ some n))
      × (m.message ≡ message)
unfolding first_byte set_value
parse_message-send_message id message b n size low short room = (
  content ++ drop (length content) b,
  message_read id n message (63 + length message),
  Writes-whole (send_message-Writes id message n size) b
      ∙ rw (le→leb (length content) (length b) (omega (arith, length-content))) refl,
  subst
      (λ k.
        parse_message k (63 + length message)
        ≡ some (message_read id n message (63 + length message)))
      (sym front) (parse_message-content id message n (63 + length message) size short),
  get_value-set id (named (codes "sid")),
  bytes_step (λ bytes. get_elem? bytes 0) (le32 0) (named (codes "msgtype")),
  (
    value_of (codes "imindex") (le32 n),
    refl,
    get_value_as_long-set (le32 n) (named (codes "imindex")) ∙ ap some (long-le32 n low),
  ),
  refl,
)
  where
    content : Bytes
    content = encode_attrs (message_attrs id n message)

    length-content : length content ≡ 63 + length message
    length-content =
        ap length (message_attrs-bytes id message n) ∙ omega (arith, size, length-append id)

    front : take (63 + length message) (content ++ drop (length content) b) ≡ content
    front =
        ap (λ k. take k (content ++ drop (length content) b)) (sym length-content)
        ∙ take-length_append content (drop (length content) b)
