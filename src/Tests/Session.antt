-- ===== src/Tests/Session.antt =====
-- The session's theorems at concrete calls.
use xfire.Prelude.{
  ℕ, ◌+◌, ◌≡◌, refl, true, List, [], ◌∷◌, none, some, codes, replicate, length, length-replicate,
  All, arith,
}
use xfire.Buffer.{Bytes}
use xfire.Utils.{hex_sum, xfire_hex_to_int_c}
use xfire.Utils.Hex.{hex_text}
use xfire.Wire.{encode}
use xfire.Session.Receive.{Receiver, header_length}
use xfire.Session.Receive.Reassembly.{IsIdle}
use xfire.Session.Buddy.{Buddy}
use xfire.Session.Buddy.News.{HasId}
use xfire.Session.Send.{xfire_send_im, went_out}
use xfire.Session.Send.Whole.{IsPart, im_packets, sent, concat, send_im-whole}
use xfire.Session.Away.{xfire_set_away}
use xfire.Session.Away.Packet.{state_packet, set_away-state_packet}
use xfire.Tests.Split.{strsplit, strsplit-SplitsBytes}

abbrev pub idle : Receiver
idle = record { temp_length = 0; temp_buffer = []; temp_buffer_index = 0 }

pub idle-IsIdle : IsIdle idle
idle-IsIdle = record { none_missing = refl; at_start = refl }

-- A packet of ten bytes.
abbrev pub ten_header : Bytes
ten_header = 10 ∷ 0 ∷ 133 ∷ 0 ∷ 1 ∷ []

pub ten_header_length : header_length ten_header ≡ 10
unfolding header_length xfire_hex_to_int_c hex_sum
ten_header_length = refl

-- The arrays that `malloc` returns.
abbrev pub allocated : Bytes
allocated = replicate 65536 0

pub length-allocated : length allocated ≡ 65536
length-allocated = length-replicate {A = ℕ} 65536 0

abbrev pub buddy : Buddy
buddy = record {
  is_ours = true;
  is_online = true;
  name = codes "friend";
  sid = some (hex_text (replicate 16 9));
  imindex = 4;
  amessage = none;
  game = 0;
  port = 0;
  ip = none;
  username = none;
  alias = none;
}

pub buddy-HasId : HasId buddy
buddy-HasId = (replicate 16 9, record { text = refl; size = refl; bytes = omega arith })

send_im-whole_example :
    (ps : List Bytes) × (xfire_send_im
        (replicate 1024 0)
        (replicate 16 0)
        (some buddy)
        (replicate 300 0x61)
      ≡ some (went_out (sent (im_packets (replicate 16 9) 4 ps) (4 + length ps))))
    × (concat ps ≡ replicate 300 0x61)
    × All IsPart ps
send_im-whole_example =
    send_im-whole (replicate 1024 0) (replicate 16 0) (replicate 16 9) (replicate 300 0x61) buddy
      refl refl refl (omega arith) refl (omega arith)

set_away-state_packet_example :
    xfire_set_away strsplit (λ t. t) (replicate 1024 0) (some (codes "Busy")) none
    ≡ some (encode (state_packet (λ t. t) (some (codes "Busy")) none))
set_away-state_packet_example =
    set_away-state_packet strsplit (λ t. t) (replicate 1024 0) (some (codes "Busy")) none
      strsplit-SplitsBytes tt (omega arith) (omega arith)
