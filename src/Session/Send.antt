-- ===== src/Session/Send.antt =====
-- Sending a message (gfire/src/xfire.c): it goes out in parts of at most 255 bytes, each of them a
-- packet with a number of its own.
pub mod Whole
use xfire.Prelude.{
  ℕ, zero, suc, ◌+◌, Bool, true, false, List, [], ◌∷◌, Option, none, some, length, take, drop, ltb,
}
use xfire.Buffer.{Bytes, read_at}
use xfire.Create.{strlen}
use xfire.Utils.{decode_string}
use xfire.Packets.Chat.{xfire_make_im}
use xfire.Session.Buddy.{Buddy}

-- The packets that were written, and the buddy's counter of messages.
pub record Sent : Type 0 where
  pub packets : List Bytes
  pub imindex : ℕ

-- The string in `temp` after `strncpy(temp, message+index, 255)` and the closing 0.
unfoldable pub part_at : Bytes → ℕ → Bytes
part_at message index = take 255 (drop index message)

-- One round up to the write: the packet, and what the two local arrays hold then.
unfoldable pub make_part : Bytes → Bytes → Bytes → Bytes → ℕ → Option (Bytes × Bytes × Bytes)
make_part buffer sid text part imindex = elim (decode_string text sid) [
  | none ↦ none
  | some (_, sid) ↦ elim (xfire_make_im sid part imindex buffer) [
    | none ↦ none
    | some (im_size, buffer) ↦ elim (read_at buffer 0 im_size) [
      | none ↦ none
      | some packet ↦ some (packet, buffer, sid)
    ]
  ]
]

-- The loop, with a bound on its rounds; the message's length is enough. `buffer` and `sid` are the
-- local arrays, and `text` is the buddy's session id.
unfoldable pub send_parts : ℕ → Bytes → Bytes → Bytes → Bytes → ℕ → ℕ → Option Sent
send_parts zero buffer sid text message imindex index =
    some (record { packets = []; imindex = imindex })
send_parts (suc rounds) buffer sid text message imindex index = elim (ltb index (strlen message)) [
  | false ↦ some (record { packets = []; imindex = imindex })
  | true ↦ elim (make_part buffer sid text (part_at message index) (imindex + 1)) [
    | none ↦ none
    | some (packet, buffer, sid) ↦
        elim (send_parts rounds buffer sid text message (imindex + 1) (index + 255)) [
          | none ↦ none
          | some sent ↦ some (record { packets = packet ∷ sent.packets; imindex = sent.imindex })
        ]
  ]
]

-- What the user sees, or what goes out.
pub data Reply : Type 0 where
  not_in_list : Reply
  is_offline : Reply
  went_out : Sent → Reply

-- `buddy` is what gaim finds under the name. A buddy who is online and has no session id is a null
-- pointer in `decodeString`, unless the message is empty.
unfoldable pub xfire_send_im : Bytes → Bytes → Option Buddy → Bytes → Option Reply
xfire_send_im buffer sid none message = some not_in_list
xfire_send_im buffer sid (some buddy) message = elim buddy.is_online [
  | false ↦ some is_offline
  | true ↦ elim buddy.sid [
    | none ↦ elim message [
      | [] ↦ some (went_out (record { packets = []; imindex = buddy.imindex }))
      | _ ∷ _ ↦ none
    ]
    | some text ↦ elim (send_parts (strlen message) buffer sid text message buddy.imindex 0) [
      | none ↦ none
      | some sent ↦ some (went_out sent)
    ]
  ]
]
