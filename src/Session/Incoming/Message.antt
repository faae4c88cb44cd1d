-- ===== src/Session/Incoming/Message.antt =====
-- The handler for a message (gfire/src/xfire.c), from what is read out of the packet on.
use xfire.Prelude.{
  ℕ, ◌+◌, ◌≤◌, ◌<◌, ◌≡◌, refl, ap, ◌∙◌, [], ◌∷◌, ◌++◌, some, codes, length, drop, get_elem?, All,
  IsByte, length-append, length-drop, append_assoc, List, le→leb, arith,
}
use mathlib.Core.Path.{subst}
use xfire.Prelude.Int.{pos}
use xfire.Buffer.{Bytes, pure, put, write, memcpy, read_at, given}
use xfire.Buffer.Writes.{Writes-whole, write-Writes, read_at-append}
use xfire.Buffer.Overlap.{put_inside}
use xfire.Create.{xfire_add_header}
use xfire.Create.Pieces.{add_header-Writes}
use xfire.Packets.Login.Format.{IsText, c_string-IsText}
use xfire.Search.Read.{xfire_hex_to_int_c_lem}
use xfire.Search.{find_string, xfire_read_fix_attr}
use xfire.Session.Buddy.{Buddy, deliver}
use xfire.Session.Buddy.News.{HasId, tell_all, check_buddy_im-tell_all}
use xfire.Session.Incoming.{HandlerLocals, get_message, xfire_get_im}
use xfire.Buffer.Steps.{then_known, given_known, store_known}
use xfire.Session.Incoming.Told.{told}

-- A message packet, with the two bytes that its answer changes.
pub record Message : Type 0 where
  pub p : Bytes
  pub x : ℕ
  pub q : Bytes
  pub y : ℕ
  pub r : Bytes
  pub more : Bytes

abbrev pub head : Message → Bytes
head k = k.p ++ (k.x ∷ (k.q ++ (k.y ∷ k.r)))

-- The answer repeats the first 58 bytes of the packet behind another header, two of them changed.
abbrev pub answer : Message → Bytes
answer k = 62 ∷ 0 ∷ 2 ∷ 0 ∷ 2 ∷ (k.p ++ (2 ∷ (k.q ++ (1 ∷ k.r))))

pub record IsMessage (k : Message) : Type 0 where
  pub p_size : length k.p ≡ 30
  pub q_size : length k.q ≡ 9
  pub r_size : length k.r ≡ 17

abbrev header : Bytes
header = 62 ∷ 0 ∷ 2 ∷ 0 ∷ 2 ∷ []

pub length-head : (k : Message) → IsMessage k → length (head k) ≡ 58
length-head k h = omega (
  arith,
  length-append k.p (k.x ∷ (k.q ++ (k.y ∷ k.r))),
  length-append k.q (k.y ∷ k.r),
  h.p_size,
  h.q_size,
  h.r_size,
)

headed :
    (buffer : Bytes)
    → 63 ≤ length buffer
    → xfire_add_header 62 2 2 buffer ≡ some (tt, header ++ drop 5 buffer)
headed buffer room =
    Writes-whole (add_header-Writes 62 2 2) buffer
    ∙ rw (le→leb 5 (length buffer) (omega arith)) refl

copied :
    (k : Message) (buffer : Bytes)
    → IsMessage k
    → 63 ≤ length buffer
    → memcpy 5 (head k ++ k.more) 58 (header ++ drop 5 buffer)
      ≡ some (tt, header ++ (head k ++ drop 58 (drop 5 buffer)))
unfolding memcpy
copied k buffer h room =
    rw (read_at-append (head k) k.more 58 (length-head k h), memcpy)
      (subst
        (λ n.
          write 5 (head k) (header ++ drop 5 buffer)
          ≡ some (tt, header ++ (head k ++ drop n (drop 5 buffer))))
        (length-head k h)
        (store_known header (drop 5 buffer) (write-Writes 5 (head k)) refl
          (omega (arith, length-head k h, length-drop 5 buffer))))

first_put :
    (k : Message) (rest : Bytes)
    → IsMessage k
    → put 35 2 (header ++ (head k ++ rest))
      ≡ some (tt, (header ++ k.p) ++ (2 ∷ (k.q ++ (k.y ∷ (k.r ++ rest)))))
first_put k rest h =
    ap (put 35 2) regrouped
    ∙ put_inside (header ++ k.p) 35 k.x 2 (k.q ++ (k.y ∷ (k.r ++ rest)))
        (omega (arith, length-append header k.p, h.p_size))
  where
    regrouped :
        header ++ (head k ++ rest) ≡ (header ++ k.p) ++ (k.x ∷ (k.q ++ (k.y ∷ (k.r ++ rest))))
    regrouped =
        rw (append_assoc k.p (k.x ∷ (k.q ++ (k.y ∷ k.r))) rest, append_assoc k.q (k.y ∷ k.r) rest)
          refl

second_put :
    (k : Message) (rest : Bytes)
    → IsMessage k
    → put 45 1 ((header ++ k.p) ++ (2 ∷ (k.q ++ (k.y ∷ (k.r ++ rest)))))
      ≡ some (tt, answer k ++ rest)
second_put k rest h =
    ap (put 45 1) regrouped
    ∙ put_inside ((header ++ k.p) ++ (2 ∷ k.q)) 45 k.y 1 (k.r ++ rest) (
        omega (
          arith,
          length-append (header ++ k.p) (2 ∷ k.q),
          length-append header k.p,
          h.p_size,
          h.q_size,
        ))
    ∙ ap (λ b. some (tt, b)) changed
  where
    regrouped :
        (header ++ k.p) ++ (2 ∷ (k.q ++ (k.y ∷ (k.r ++ rest))))
        ≡ ((header ++ k.p) ++ (2 ∷ k.q)) ++ (k.y ∷ (k.r ++ rest))
    regrouped = rw (append_assoc (header ++ k.p) (2 ∷ k.q) (k.y ∷ (k.r ++ rest))) refl

    changed : ((header ++ k.p) ++ (2 ∷ k.q)) ++ (1 ∷ (k.r ++ rest)) ≡ answer k ++ rest
    changed =
        rw
          (
            append_assoc (header ++ k.p) (2 ∷ k.q) (1 ∷ (k.r ++ rest)),
            append_assoc header k.p (2 ∷ (k.q ++ (1 ∷ (k.r ++ rest)))),
            append_assoc k.p (2 ∷ (k.q ++ (1 ∷ k.r))) rest,
            append_assoc k.q (1 ∷ k.r) rest,
          )
          refl

-- For buddies who all have a session id of 16 bytes as text, a local array of 16 bytes, an array of
-- at least 63 bytes for the reply, and a packet that begins with the 58 bytes of `k`: where the
-- session id `sid` and a kind of message whose first byte is 0 are read from the packet, "im" is found
-- at place `m`, and a text of less than 256 bytes without a 0 stands 5 places on, with its length 3
-- places on: `xfire_get_im` delivers the text to our online buddies with that id, changes no buddy,
-- stores the answer, which is the packet's front behind a new header with two of its bytes changed,
-- and returns 62 as its size.
pub get_im-tell_all :
    (locals : HandlerLocals) (k : Message) (buffer : Bytes) (len index after m : ℕ)
    (sid kinds text : Bytes) (bs : List Buddy)
    → IsMessage k
    → 63 ≤ length buffer
    → length locals.temp ≡ 16
    → All IsByte sid
    → All HasId bs
    → IsText text
    → length text < 256
    → xfire_read_fix_attr (head k ++ k.more) (codes "sid") (pos len) 4 0 16 locals.sid
      ≡ some (index, sid)
    → xfire_read_fix_attr (head k ++ k.more) (codes "msgtype") (pos len) 8 index 4 locals.msgtype
      ≡ some (after, 0 ∷ kinds)
    → find_string (head k ++ k.more) (codes "im") (pos len) 2 ≡ some (some m)
    → get_elem? (head k ++ k.more) (m + 3) ≡ some (length text)
    → read_at (head k ++ k.more) (m + 5) (length text) ≡ some text
    → xfire_get_im locals (head k ++ k.more) len bs buffer
      ≡ some (told 62 (tell_all sid (deliver text) bs), answer k ++ drop 58 (drop 5 buffer))
unfolding xfire_get_im get_message given pure
get_im-tell_all locals k buffer len index after m sid kinds text bs is_message room temp bytes known
      plain short sid_read kind_read found size text_read =
    given_known _ _ buffer (index, sid) sid_read
    ∙ given_known _ _ buffer (after, 0 ∷ kinds) kind_read
    ∙ given_known _ _ buffer 0 refl
    ∙ given_known _ _ buffer (some m) found
    ∙ then_known _ _ buffer _ (headed buffer room)
    ∙ then_known _ _ _ _ (copied k buffer is_message room)
    ∙ then_known _ _ _ _ (first_put k _ is_message)
    ∙ then_known _ _ _ _ (second_put k _ is_message)
    ∙ given_known _ _ _ m refl
    ∙ given_known _ _ _ (length text) size
    ∙ given_known _ _ _ text (rw (xfire_hex_to_int_c_lem (length text) short) text_read)
    ∙ given_known _ _ _ (tell_all sid (deliver text) bs) (
        rw (c_string-IsText text plain)
          (check_buddy_im-tell_all locals.temp sid text bs temp bytes known))
    ∙ refl
