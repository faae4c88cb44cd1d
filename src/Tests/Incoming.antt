-- ===== src/Tests/Incoming.antt =====
-- The theorems on the handlers for a message and for a status at concrete inputs.
use xfire.Prelude.{◌≡◌, refl, [], ◌∷◌, ◌++◌, some, codes, replicate, arith}
use xfire.Prelude.Int.{pos}
use xfire.Buffer.{Bytes, read_at, ◌>>=◌, ◌>>◌, pure, given, write, put}
use xfire.Utils.{xfire_hex_to_int_c, hex_sum}
use xfire.Search.{
  same_bytes, find_string, find_nth, find_string2, find_from, rounds_between, place_after,
  xfire_read_fix_attr, xfire_read_var_attr,
}
use xfire.Session.Buddy.{deliver, change_status}
use xfire.Session.Buddy.News.{tell_all}
use xfire.Session.Incoming.{HandlerLocals, xfire_get_im, xfire_read_status}
use xfire.Session.Incoming.Told.{told, went_away, read_status-tell_all}
use xfire.Session.Incoming.Message.{Message, head, answer, get_im-tell_all}
use xfire.Tests.Session.{buddy, buddy-HasId}

abbrev locals : HandlerLocals
locals = record {
  sid = replicate 16 7;
  msgtype = replicate 4 7;
  status = replicate 2 7;
  temp = replicate 16 0;
}

-- The message "ok", as gfire/protocol.md has it.
abbrev message : Message
message = record {
  p = 3 ∷ (codes "sid" ++ (3 ∷ (replicate 16 9 ++ (7 ∷ (codes "peermsg" ++ (5 ∷ []))))));
  x = 3;
  q = 7 ∷ (codes "msgtype" ++ (2 ∷ []));
  y = 0;
  r = 0 ∷ 0 ∷ 0 ∷ 7 ∷ (codes "imindex" ++ (2 ∷ 2 ∷ 0 ∷ 0 ∷ 0 ∷ 2 ∷ []));
  more = codes "im" ++ (1 ∷ 2 ∷ 0 ∷ codes "ok");
}

im_sid :
    xfire_read_fix_attr (head message ++ message.more) (codes "sid") (pos 65) 4 0 16 locals.sid
    ≡ some (21, replicate 16 9)
unfolding xfire_read_fix_attr find_string2 find_from rounds_between place_after read_at same_bytes
    ◌>>=◌ ◌>>◌ pure given write
im_sid = refl

im_kind :
    xfire_read_fix_attr
      (head message ++ message.more)
      (codes "msgtype")
      (pos 65)
      8
      21
      4
      locals.msgtype
    ≡ some (44, replicate 4 0)
unfolding xfire_read_fix_attr find_string2 find_from rounds_between place_after read_at same_bytes
    ◌>>=◌ ◌>>◌ pure given write
im_kind = refl

im_place : find_string (head message ++ message.more) (codes "im") (pos 65) 2 ≡ some (some 58)
unfolding find_string find_nth rounds_between read_at same_bytes
im_place = refl

im_text : read_at (head message ++ message.more) 63 2 ≡ some (codes "ok")
unfolding read_at
im_text = refl

get_im-tell_all_example :
    xfire_get_im locals (head message ++ message.more) 65 (buddy ∷ []) (replicate 155 0)
    ≡ some (
      told 62 (tell_all (replicate 16 9) (deliver (codes "ok")) (buddy ∷ [])),
      answer message ++ replicate 92 0,
    )
get_im-tell_all_example =
    get_im-tell_all locals message (replicate 155 0) 65 21 44 58 (replicate 16 9) (replicate 3 0)
      (codes "ok") (buddy ∷ []) (record { p_size = refl; q_size = refl; r_size = refl })
      (omega arith) refl (omega arith) (buddy-HasId, tt) (omega arith) (omega arith) im_sid im_kind
      im_place refl im_text

-- A status with the text "out".
abbrev status_packet : Bytes
status_packet =
    codes "sid"
    ++ (3
        ∷ (replicate 16 9
            ++ (codes "type"
                ++ (2
                    ∷ 1
                    ∷ 0
                    ∷ 0
                    ∷ 0
                    ∷ (codes "status" ++ (5 ∷ 1 ∷ (codes "t" ++ (1 ∷ 3 ∷ 0 ∷ codes "out"))))))))

status_sid :
    xfire_read_fix_attr status_packet (codes "sid") (pos 44) 4 0 16 locals.sid
    ≡ some (20, replicate 16 9)
unfolding xfire_read_fix_attr find_string2 find_from rounds_between place_after read_at same_bytes
    ◌>>=◌ ◌>>◌ pure given write
status_sid = refl

status_kind :
    xfire_read_fix_attr status_packet (codes "type") (pos 44) 5 20 4 locals.msgtype
    ≡ some (29, 1 ∷ replicate 3 0)
unfolding xfire_read_fix_attr find_string2 find_from rounds_between place_after read_at same_bytes
    ◌>>=◌ ◌>>◌ pure given write
status_kind = refl

status_state :
    xfire_read_fix_attr status_packet (codes "status") (pos 44) 6 29 2 locals.status
    ≡ some (37, 5 ∷ 1 ∷ [])
unfolding xfire_read_fix_attr find_string2 find_from rounds_between place_after read_at same_bytes
    ◌>>=◌ ◌>>◌ pure given write
status_state = refl

status_text :
    xfire_read_var_attr status_packet (codes "t") (pos 44) 1 37 200 (replicate 200 7)
    ≡ some (44, codes "out" ++ 0 ∷ replicate 196 7)
unfolding xfire_read_var_attr find_string2 find_from rounds_between place_after read_at same_bytes
    xfire_hex_to_int_c hex_sum ◌>>=◌ ◌>>◌ pure given write put
status_text = refl

read_status-tell_all_example :
    xfire_read_status locals status_packet 44 (buddy ∷ []) (replicate 200 7)
    ≡ some (
      told 0 (tell_all (replicate 16 9) (change_status (codes "out")) (buddy ∷ [])),
      codes "out" ++ 0 ∷ replicate 196 7,
    )
read_status-tell_all_example =
    read_status-tell_all locals status_packet (replicate 200 7) 44 20 29 1 (replicate 16 9)
      (replicate 3 0) (codes "out") (replicate 196 7) (buddy ∷ []) refl (omega arith)
      (buddy-HasId, tt) (omega arith) status_sid status_kind
      (went_away 1 37 44 (5 ∷ 1 ∷ []) (codes "out" ++ 0 ∷ replicate 196 7) (omega arith)
        status_state status_text)

-- The same news in the newer packet.
abbrev new_packet : Bytes
new_packet =
    codes "sid"
    ++ (4 ∷ 3 ∷ 1 ∷ 0 ∷ (replicate 16 9 ++ (codes "msg" ++ (4 ∷ 1 ∷ 1 ∷ 0 ∷ 3 ∷ 0 ∷ codes "out"))))

new_sid :
    xfire_read_fix_attr new_packet (codes "sid") (pos 35) 7 0 16 locals.sid
    ≡ some (23, replicate 16 9)
unfolding xfire_read_fix_attr find_string2 find_from rounds_between place_after read_at same_bytes
    ◌>>=◌ ◌>>◌ pure given write
new_sid = refl

new_text :
    xfire_read_var_attr new_packet (codes "msg") (pos 35) 6 23 200 (replicate 200 7)
    ≡ some (35, codes "out" ++ 0 ∷ replicate 196 7)
unfolding xfire_read_var_attr find_string2 find_from rounds_between place_after read_at same_bytes
    xfire_hex_to_int_c hex_sum ◌>>=◌ ◌>>◌ pure given write put
new_text = refl
