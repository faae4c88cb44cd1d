-- ===== src/Xfirelib/Client/Cut.antt =====
-- The message packet of the protocol as gfire's handler cuts it, and the answer that it makes of it.
use xfire.Prelude.{
  ℕ, ◌%◌, ◌<◌, ◌≡◌, refl, sym, ap, ◌∙◌, [], ◌∷◌, ◌++◌, some, codes, length, take, get_elem?,
  length-append, append_assoc, append-nil, take-length_append, ◌+◌, arith,
}
use xfire.Buffer.{Bytes, read_at}
use xfire.Wire.{encode, encode_attrs, le16, le32}
use xfire.Session.GameNews.Rows.{read_at-behind, elem-behind}
use xfire.Session.Incoming.Message.{Message, IsMessage, head, length-head, answer}
use xfire.Xfirelib.Packet.Contents.{ack_packet}
use xfire.Xfirelib.Outgoing.Bodies.{message_attrs}
use xfire.Xfirelib.Incoming.Message.{message_attrs-bytes}

-- The message of the protocol as gfire cuts it: two of its bytes change in the answer.
abbrev pub cut : Bytes → ℕ → Bytes → Message
cut id n message = record {
  p = 3 ∷ codes "sid" ++ (3 ∷ id ++ (7 ∷ codes "peermsg" ++ (5 ∷ [])));
  x = 3;
  q = 7 ∷ codes "msgtype" ++ (2 ∷ []);
  y = 0;
  r = 0 ∷ 0 ∷ 0 ∷ (7 ∷ codes "imindex" ++ (2 ∷ le32 n ++ (2 ∷ [])));
  more = codes "im" ++ (1 ∷ le16 (length message) ++ message);
}

pub ack_packet-bytes :
    (id : Bytes) (n : ℕ)
    → length id ≡ 16
    → encode (ack_packet id n) ≡ 62 ∷ 0 ∷ 2 ∷ 0 ∷ 2 ∷ encode_attrs (ack_packet id n).attrs
unfolding encode
ack_packet-bytes id n size = rw size_57 refl
  where
    size_57 : length (encode_attrs (ack_packet id n).attrs) ≡ 57
    size_57 = unfold encode_attrs in omega (arith, length-append id, size)

pub answer-cut :
    (id message : Bytes) (n : ℕ)
    → answer (cut id n message)
      ≡ (62 ∷ 0 ∷ 2 ∷ 0 ∷ 2 ∷ encode_attrs (ack_packet id n).attrs) ++ (2 ∷ [])
unfolding encode_attrs
answer-cut id message n = simp (append_assoc, append-nil)

pub cut-IsMessage : (id message : Bytes) (n : ℕ) → length id ≡ 16 → IsMessage (cut id n message)
cut-IsMessage id message n size = record {
  p_size = omega (arith, length-append id, size);
  q_size = refl;
  r_size = refl;
}

pub head-cut :
    (id message : Bytes) (n : ℕ)
    → head (cut id n message) ++ (cut id n message).more ≡ encode_attrs (message_attrs id n message)
head-cut id message n = rw (message_attrs-bytes id message n) (simp append_assoc)

length-front :
    (id message more : Bytes) (n : ℕ)
    → length id ≡ 16
    → length (head (cut id n message) ++ more) ≡ 58 + length more
length-front id message more n size = omega (
  arith,
  length-append (head (cut id n message)) more,
  length-head (cut id n message) (cut-IsMessage id message n size),
)

-- Where gfire looks for the length of the message, and for the message.
pub size_place :
    (id message : Bytes) (n : ℕ)
    → length id ≡ 16
    → length message < 256
    → get_elem? (head (cut id n message) ++ (cut id n message).more) 61 ≡ some (length message)
size_place id message n size short =
    ap (λ k. get_elem? k 61)
      (sym (
        append_assoc (head (cut id n message)) (codes "im" ++ (1 ∷ []))
          (le16 (length message) ++ message)))
    ∙ elem-behind (head (cut id n message) ++ (codes "im" ++ (1 ∷ []))) _ (length message % 256) 61
        (length-front id message _ n size)
    ∙ ap some (omega arith)

pub text_place :
    (id message : Bytes) (n : ℕ)
    → length id ≡ 16
    → read_at (head (cut id n message) ++ (cut id n message).more) 63 (length message)
      ≡ some message
text_place id message n size =
    ap (λ k. read_at k 63 (length message)) regrouped
    ∙ read_at-behind (head (cut id n message) ++ (codes "im" ++ (1 ∷ le16 (length message))))
        message [] 63 (length message) (length-front id message _ n size) refl
  where
    regrouped :
        head (cut id n message) ++ (cut id n message).more
        ≡ (head (cut id n message) ++ (codes "im" ++ (1 ∷ le16 (length message))))
          ++ (message ++ [])
    regrouped = rw (append-nil message) (
        sym (
          append_assoc (head (cut id n message)) (codes "im" ++ (1 ∷ le16 (length message)))
            message))

pub answer-ack :
    (id message rest : Bytes) (n : ℕ)
    → length id ≡ 16
    → take 62 (answer (cut id n message) ++ rest) ≡ encode (ack_packet id n)
answer-ack id message rest n size =
    ap (λ b. take 62 (b ++ rest))
      (answer-cut id message n ∙ ap (λ b. b ++ (2 ∷ [])) (sym (ack_packet-bytes id n size)))
    ∙ ap (take 62) (append_assoc (encode (ack_packet id n)) (2 ∷ []) rest)
    ∙ ap (λ k. take k (encode (ack_packet id n) ++ (2 ∷ rest))) (sym length-ack)
    ∙ take-length_append (encode (ack_packet id n)) (2 ∷ rest)
  where
    length-ack : length (encode (ack_packet id n)) ≡ 62
    length-ack =
        rw (ack_packet-bytes id n size)
          (unfold encode_attrs in omega (arith, length-append id, size))
