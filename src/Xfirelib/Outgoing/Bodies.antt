-- ===== src/Xfirelib/Outgoing/Bodies.antt =====
-- The contents that follow the packet format.
use xfire.Prelude.{
  ℕ, ◌+◌, ◌%◌, ◌/◌, ◌≡◌, refl, ap, [], ◌∷◌, ◌++◌, some, codes, length, length-append, append-nil,
  append_assoc, arith,
}
use xfire.Prelude.Int.{ℤ, pos}
use xfire.Buffer.{Bytes}
use xfire.Buffer.Writes.{
  Writes, Writes-eq, put-Writes, puts-Writes, then-Writes, bind-Writes, pure-Writes, silent-Writes,
  known-Writes, read_at-whole,
}
use xfire.Create.{strlen}
use xfire.Wire.{Attrs, nil, attr, named, text, word, sid, group, encode_attrs, le32}
use xfire.Xfirelib.Value.{VariableValue, no_value, set_value, set_value_from_long, bytes_of_long}
use xfire.Xfirelib.Writing.Pieces.{write_name-Writes, write_value-Writes, bytes_of_long-le32}
use xfire.Xfirelib.Outgoing

pub write_tagged-Writes :
    (v : VariableValue) (tag i : ℕ) (bytes : Bytes)
    → v.value ≡ some bytes
    → v.value_length ≡ length bytes
    → Writes
        (Outgoing.write_tagged v tag i)
        i
        ((strlen v.name % 256 ∷ v.name) ++ (tag ∷ bytes))
        (i + (strlen v.name + 1) + 1 + length bytes)
unfolding Outgoing.write_tagged
write_tagged-Writes v tag i bytes here size =
    Writes-eq
      (bind-Writes _ (write_name-Writes v i) (omega arith) (
        then-Writes (put-Writes _ tag) (omega arith) (
          bind-Writes _ (write_value-Writes v _ bytes here size) (omega arith)
            (pure-Writes (i + (strlen v.name + 1) + 1 + length bytes) _))))
      (ap (λ t. (strlen v.name % 256 ∷ v.name) ++ (tag ∷ t)) (append-nil bytes))
      (omega (arith, size))

-- A number behind its name, given by its four bytes.
pub write_long-Writes :
    (name : Bytes) (z : ℤ) (n i : ℕ)
    → bytes_of_long z 4 ≡ le32 n
    → Writes
        (Outgoing.write_tagged (Outgoing.numbered name z) 2 i)
        i
        ((strlen name % 256 ∷ name) ++ (2 ∷ le32 n))
        (i + (strlen name + 1) + 1 + 4)
unfolding set_value_from_long
write_long-Writes name z n i e =
    write_tagged-Writes (Outgoing.numbered name z) 2 i (le32 n) (ap some e) refl

pub write_number-Writes :
    (name : Bytes) (n i : ℕ)
    → Writes
        (Outgoing.write_tagged (Outgoing.numbered name (pos n)) 2 i)
        i
        ((strlen name % 256 ∷ name) ++ (2 ∷ le32 n))
        (i + (strlen name + 1) + 1 + 4)
write_number-Writes name n i = write_long-Writes name (pos n) n i (bytes_of_long-le32 n)

pub write_bytes-Writes :
    (name bytes : Bytes) (tag i : ℕ)
    → Writes
        (Outgoing.write_tagged (Outgoing.valued name bytes) tag i)
        i
        ((strlen name % 256 ∷ name) ++ (tag ∷ bytes))
        (i + (strlen name + 1) + 1 + length bytes)
unfolding set_value
write_bytes-Writes name bytes tag i =
    write_tagged-Writes (Outgoing.valued name bytes) tag i bytes refl refl

-- The attributes of a message and of its answer.
abbrev pub peer_attrs : Bytes → ℕ → ℕ → Attrs → Attrs
peer_attrs id kind imindex more = attr (named (codes "sid")) (sid id) (
    attr (named (codes "peermsg"))
      (group (
        attr (named (codes "msgtype")) (word kind)
          (attr (named (codes "imindex")) (word imindex) more)))
      nil)

-- What stands in front of the text of a message, where the group has `n` attributes.
abbrev pub peer_front : Bytes → ℕ → ℕ → ℕ → Bytes
peer_front id n kind imindex =
    (3 ∷ codes "sid")
    ++ ((3 ∷ id)
        ++ ((7 ∷ codes "peermsg")
            ++ (5
                ∷ n
                ∷ ((7 ∷ codes "msgtype")
                    ++ ((2 ∷ le32 kind) ++ ((7 ∷ codes "imindex") ++ (2 ∷ le32 imindex)))))))

pub peer_message-Writes :
    (id : Bytes) (n kind imindex : ℕ) (z : ℤ)
    → length id ≡ 16
    → bytes_of_long z 4 ≡ le32 imindex
    → Writes (Outgoing.peer_message id n (pos kind) z) 0 (peer_front id n kind imindex) 57
unfolding Outgoing.peer_message
peer_message-Writes id n kind imindex z h e =
    silent-Writes _ (known-Writes _ _ _ (read_at-whole id 16 h)) (
      Writes-eq
        (bind-Writes _ (write_bytes-Writes (codes "sid") id 3 0) (omega (arith, h)) (
          bind-Writes _ (write_name-Writes (record no_value { name = codes "peermsg" }) _)
            (omega (arith, h))
            (then-Writes (puts-Writes _ (5 ∷ n ∷ [])) (omega (arith, h)) (
              bind-Writes _ (write_number-Writes (codes "msgtype") kind _) (omega (arith, h))
                (write_long-Writes (codes "imindex") z imindex _ e)))))
        (refl) (omega (arith, h)))

abbrev pub message_attrs : Bytes → ℕ → Bytes → Attrs
message_attrs id imindex message =
    peer_attrs id 0 imindex (attr (named (codes "im")) (text message) nil)

-- For a session id of 16 bytes, the content of a message is that of the protocol's message packet.
pub send_message-Writes :
    (id message : Bytes) (imindex : ℕ)
    → length id ≡ 16
    → Writes
        (Outgoing.send_message id (pos imindex) message)
        0
        (encode_attrs (message_attrs id imindex message))
        (63 + length message)
unfolding Outgoing.send_message encode_attrs set_value
send_message-Writes id message imindex h =
    Writes-eq
      (bind-Writes _
        (peer_message-Writes id 3 0 imindex (pos imindex) h (bytes_of_long-le32 imindex))
        (omega (arith, h, length-append id))
        (bind-Writes _ (write_name-Writes (Outgoing.valued (codes "im") message) 57) (omega arith) (
          then-Writes (puts-Writes 60 (1 ∷ length message % 256 ∷ length message / 256 % 256 ∷ []))
            (omega arith)
            (bind-Writes _
              (write_value-Writes (Outgoing.valued (codes "im") message) 63 message refl refl)
              (omega arith) (pure-Writes (63 + length message) _)))))
      (simp (append_assoc, append-nil)) (omega arith)

-- For a session id of 16 bytes, the content of an answer is that of the protocol's answer.
pub message_ack-Writes :
    (id : Bytes) (z : ℤ) (imindex : ℕ)
    → length id ≡ 16
    → bytes_of_long z 4 ≡ le32 imindex
    → Writes (Outgoing.message_ack id z) 0 (encode_attrs (peer_attrs id 1 imindex nil)) 57
unfolding Outgoing.message_ack encode_attrs
message_ack-Writes id z imindex h e =
    Writes-eq (peer_message-Writes id 2 1 imindex z h e) (simp (append_assoc, append-nil)) refl
