-- ===== src/Tests/Xfirelib.antt =====
-- xfirelib at concrete inputs.
use xfire.Prelude.{
  ℕ, ◌≡◌, refl, true, Option, List, [], ◌∷◌, ◌++◌, some, none, codes, replicate, length,
  length-replicate, if◌then◌else◌, take, ◌==◌, arith,
}
use mathlib.Core.Option
use xfire.Prelude.Int.{pos}
use xfire.Buffer.{Bytes, given, write, ◌>>=◌, ◌>>◌}
use xfire.Wire.{Packet, encode, encode_attrs}
use xfire.Packets.Chat.Format.{away_packet}
use xfire.Search.{find_string, find_string2, xfire_read_fix_attr}
use xfire.Session.Buddy.{deliver}
use xfire.Session.Buddy.News.{tell_all}
use xfire.Session.Incoming.{HandlerLocals, xfire_get_im}
use xfire.Session.Incoming.Told.{told}
use xfire.Tests.Session.{buddy, buddy-HasId}
use xfire.Tests.Packets.{sha1}
use xfire.Xfirelib.Packet.Contents.{ack_packet, message_packet}
use xfire.Xfirelib.Value.{VariableValue, get_value, get_value_as_long}
use xfire.Xfirelib.Outgoing.Bodies.{message_attrs}
use xfire.Xfirelib.Outgoing.{send_message}
use xfire.Xfirelib.Incoming.{MessagePacket, first_byte, parse_message}
use xfire.Xfirelib.Incoming.Message.{parse_message-send_message}
use xfire.Xfirelib.Reader.{Received, Reception, recv_packet, run}
use xfire.Xfirelib.Reader.Frames.{IsFramed, content_of, recv_packet-encode}
use xfire.Xfirelib.Reader.Streams.{run-ends, run-read_all, streamed, read_all}
use xfire.Xfirelib.Client.{answer_message, buddies_received}
use xfire.Xfirelib.Client.Online.{online_packet, recv_packet-come_online}
use xfire.Xfirelib.Incoming.Lists.{names_attrs, parse_names-encode_attrs}
use xfire.Xfirelib.Client.Ids.{ids_after, buddies_received-ids_after}
use xfire.Xfirelib.Incoming.{Names, parse_names}
use xfire.Xfirelib.Client.Answers.{answer_message-answer}
use xfire.Xfirelib.BuddyList.{BuddyListEntry, new_entry, get_buddy_by_id, erase_entry}
use xfire.Xfirelib.BuddyList.Ids.{ids, get_buddy_by_id-erase_entry}
use xfire.Xfirelib.BuddyList.Online.{come_online}

abbrev fresh : ℕ → Bytes
fresh n = replicate n 0

fresh-sized : (n : ℕ) → length (fresh n) ≡ n
fresh-sized n = length-replicate n 0

abbrev id : Bytes
id = replicate 16 7

abbrev hi : Packet
hi = message_packet id 300 (codes "hi")

hi-IsFramed : IsFramed hi
unfolding encode_attrs
hi-IsFramed = record {
  type_small = omega arith;
  count_small = omega arith;
  some_body = omega arith;
  body_small = omega arith;
}

-- A packet of a type that the reader does not know.
abbrev away : Packet
away = away_packet (codes "afk")

away-IsFramed : IsFramed away
unfolding encode_attrs
away-IsFramed = record {
  type_small = omega arith;
  count_small = omega arith;
  some_body = omega arith;
  body_small = omega arith;
}

abbrev locals : HandlerLocals
locals = record {
  sid = replicate 16 0;
  msgtype = replicate 4 0;
  status = replicate 2 0;
  temp = replicate 16 0;
}

abbrev greeting : Bytes
greeting = encode_attrs (message_attrs id 300 (codes "hi"))

greeting_sid : xfire_read_fix_attr greeting (codes "sid") (pos 65) 4 0 16 locals.sid ≡ some (21, id)
unfolding encode_attrs xfire_read_fix_attr ◌>>=◌ given find_string2 ◌>>◌ write
greeting_sid = refl

greeting_kind :
    xfire_read_fix_attr greeting (codes "msgtype") (pos 65) 8 21 4 locals.msgtype
    ≡ some (44, replicate 4 0)
unfolding encode_attrs xfire_read_fix_attr ◌>>=◌ given find_string2 ◌>>◌ write
greeting_kind = refl

greeting_place : find_string greeting (codes "im") (pos 65) 2 ≡ some (some 58)
unfolding encode_attrs find_string
greeting_place = refl

answer_message-answer_example :
    ((m : MessagePacket) × (parse_message greeting 65 ≡ some m)
      × (answer_message sha1 fresh true m ≡ some (encode (ack_packet id 44) ∷ [])))
    × ((reply : Bytes) × (xfire_get_im locals greeting 65 (buddy ∷ []) (replicate 155 0)
          ≡ some (told 62 (tell_all id (deliver (codes "hi")) (buddy ∷ [])), reply))
        × (take 62 reply ≡ encode (ack_packet id 300)))
answer_message-answer_example =
    answer_message-answer sha1 fresh fresh-sized locals id (codes "hi") (replicate 155 0)
      (replicate 3 0) 300 65 21 44 (buddy ∷ []) refl (omega arith) (omega arith) (omega arith) refl
      (omega arith) (buddy-HasId, tt) greeting_sid greeting_kind greeting_place

recv_packet-encode_example :
    recv_packet fresh (encode hi ++ (1 ∷ 2 ∷ [])) ≡ content_of hi (1 ∷ 2 ∷ [])
recv_packet-encode_example = recv_packet-encode fresh hi (1 ∷ 2 ∷ []) fresh-sized hi-IsFramed

run-ends_example : (r : List Received × Reception) × (run 6 fresh (9 ∷ 0 ∷ 2 ∷ 0 ∷ 1 ∷ []) ≡ some r)
run-ends_example = run-ends 6 fresh (9 ∷ 0 ∷ 2 ∷ 0 ∷ 1 ∷ []) (omega arith)

run-read_all_example : run 3 fresh (streamed (away ∷ hi ∷ [])) ≡ some (read_all (away ∷ hi ∷ []))
run-read_all_example =
    run-read_all 3 fresh (away ∷ hi ∷ []) fresh-sized (away-IsFramed, (hi-IsFramed, tt))
      (omega arith)

parse_message-send_message_example :
    (b' : Bytes) × (m : MessagePacket) × (send_message id (pos 300) (codes "hi") (replicate 80 0)
      ≡ some (65, b'))
    × (parse_message (take 65 b') 65 ≡ some m)
    × (get_value m.sid ≡ some id)
    × (first_byte m.msgtype ≡ some 0)
    × ((v : VariableValue) × (m.imindex ≡ some v) × (get_value_as_long v ≡ some 300))
    × (m.message ≡ codes "hi")
parse_message-send_message_example =
    parse_message-send_message id (codes "hi") (replicate 80 0) 300 refl (omega arith) (omega arith)
      (omega arith)

abbrev entries : List (BuddyListEntry ℕ)
entries = new_entry 5 (codes "A") (codes "a") ∷ new_entry 6 (codes "B") (codes "b") ∷ []

get_buddy_by_id-erase_entry_example :
    get_buddy_by_id 6 (erase_entry 5 entries) ≡ (if 5 == 6 then none else get_buddy_by_id 6 entries)
unfolding new_entry
get_buddy_by_id-erase_entry_example =
    get_buddy_by_id-erase_entry 5 6 entries (((omega arith), tt), (tt, tt))

-- Two buddies more, and one who is in the list has come online.
abbrev more_names : Names
more_names = record {
  usernames = codes "c" ∷ codes "d" ∷ [];
  nicks = codes "C" ∷ codes "D" ∷ [];
  userids = 7 ∷ 8 ∷ [];
}

buddies_received-ids_after_example :
    (r : List (BuddyListEntry ℕ) × Option Bytes) × (buddies_received none 3
        (Received.buddies_names more_names)
        entries
      ≡ some r)
    × (ids r.0 ≡ ids_after (Received.buddies_names more_names) (ids entries))
buddies_received-ids_after_example =
    buddies_received-ids_after none 3 (Received.buddies_names more_names) entries
      (omega arith, omega arith)

recv_packet-come_online_example :
    (recv_packet fresh (encode (online_packet (6 ∷ 9 ∷ []) (id ∷ id ∷ [])) ++ (1 ∷ []))
      ≡ Reception.packet (some (Received.buddies_online (6 ∷ 9 ∷ []) (id ∷ id ∷ []))) (1 ∷ []))
    × ((entries2 : List (BuddyListEntry ℕ)) × (buddies_received none 3
            (Received.buddies_online (6 ∷ 9 ∷ []) (id ∷ id ∷ []))
            entries
          ≡ some (entries2, none))
        × (ids entries2 ≡ ids entries)
        × ((u : ℕ)
            → get_buddy_by_id u entries2
              ≡ Option.map (come_online u (6 ∷ 9 ∷ []) (id ∷ id ∷ [])) (get_buddy_by_id u entries)))
recv_packet-come_online_example =
    recv_packet-come_online (6 ∷ 9 ∷ []) (id ∷ id ∷ []) (omega arith) (omega arith)
      (refl, (refl, tt)) (omega arith) fresh (1 ∷ []) none 3 entries fresh-sized

parse_names-encode_attrs_example :
    parse_names (encode_attrs (names_attrs more_names)) ≡ some more_names
parse_names-encode_attrs_example =
    parse_names-encode_attrs more_names (omega arith) (omega arith) (omega arith) (omega arith)
      (omega arith) (omega arith)
