-- ===== src/Session/Incoming/Told.antt =====
-- The handlers for a status (gfire/src/xfire.c), from what is read out of the packet on.
use xfire.Prelude.{
  ℕ, ◌≤◌, ◌≡◌, ◌≢◌, false, refl, ap, ◌∙◌, [], ◌∷◌, ◌++◌, some, codes, length, drop, All, IsByte,
  length-append, ◌==◌, if◌then◌else◌, List, le→leb, arith,
}
use xfire.Prelude.Int.{pos}
use xfire.Buffer.{Bytes, Op, ◌>>=◌, pure, memcpy, given}
use xfire.Buffer.Writes.{memcpy-Writes, Writes-whole}
use xfire.Packets.Login.Format.{IsText}
use xfire.Search.{xfire_read_fix_attr, xfire_read_var_attr}
use xfire.Session.Buddy.{Buddy, Event, change_status}
use xfire.Session.Buddy.News.{HasId, tell_all, check_buddy_status-tell_all}
use xfire.Session.Incoming.{
  HandlerLocals, Handled, string_in, with_text, xfire_read_status, xfire_read_status_new,
}
use xfire.Session.Incoming.Salt.{c_string-closed}
use xfire.Buffer.Steps.{bind_known, then_known, given_known}

-- What a handler returns that has told gaim the news and has a reply of `n` bytes.
abbrev pub told : ℕ → List Buddy × List Event → Handled
told n news = record { size = n; buddies = news.0; events = news.1 }

string_in-closed : (s rest : Bytes) → IsText s → string_in (s ++ 0 ∷ rest) ≡ some s
unfolding string_in
string_in-closed s rest h =
    rw (c_string-closed s rest h) (ground (arith, length-append s (0 ∷ rest)))

with_text-tell_all :
    (locals : HandlerLocals) (sid message rest : Bytes) (bs : List Buddy)
    → length locals.temp ≡ 16
    → All IsByte sid
    → All HasId bs
    → IsText message
    → with_text locals sid bs (message ++ 0 ∷ rest)
      ≡ some (told 0 (tell_all sid (change_status message) bs), message ++ 0 ∷ rest)
unfolding with_text
with_text-tell_all locals sid message rest bs room bytes known plain =
    rw
      (
        string_in-closed message rest plain,
        with_text,
        check_buddy_status-tell_all locals.temp sid message bs room bytes known,
      )
      refl

-- For buddies who all have a session id of 16 bytes as text, and a local array of 16 bytes: where the
-- session id `sid` and the text `message` are read from the packet, and the text is closed by a 0,
-- `xfire_read_status_new` gives the text as new status to our online buddies with that id, changes
-- nobody else, and answers nothing.
pub read_status_new-tell_all :
    (locals : HandlerLocals) (packet text : Bytes) (len index after : ℕ) (sid message rest : Bytes)
    (bs : List Buddy)
    → length locals.temp ≡ 16
    → All IsByte sid
    → All HasId bs
    → IsText message
    → xfire_read_fix_attr packet (codes "sid") (pos len) 7 0 16 locals.sid ≡ some (index, sid)
    → xfire_read_var_attr packet (codes "msg") (pos len) 6 index 200 text
      ≡ some (after, message ++ 0 ∷ rest)
    → xfire_read_status_new locals packet len bs text
      ≡ some (told 0 (tell_all sid (change_status message) bs), message ++ 0 ∷ rest)
unfolding xfire_read_status_new
read_status_new-tell_all locals packet text len index after sid message rest bs room bytes known
      plain sid_read text_read =
    given_known _ _ text (index, sid) sid_read
    ∙ bind_known _ _ text (message ++ 0 ∷ rest) after text_read
    ∙ with_text-tell_all locals sid message rest bs room bytes known plain

-- What `text` holds, by the packet's type: "Online" for 0, and else the text of the packet.
pub data TextRead (locals : HandlerLocals) (packet : Bytes) (len index : ℕ) (text : Bytes)
    : ℕ → Bytes → Type 0 where
  came_back :
      7 ≤ length text
      → TextRead locals packet len index text 0 (codes "Online" ++ (0 ∷ drop 7 text))
  went_away :
      (kind after_status after : ℕ) (status filled : Bytes)
      → kind ≢ 0
      → xfire_read_fix_attr packet (codes "status") (pos len) 6 index 2 locals.status
        ≡ some (after_status, status)
      → xfire_read_var_attr packet (codes "t") (pos len) 1 after_status 200 text
        ≡ some (after, filled)
      → TextRead locals packet len index text kind filled

online_stored :
    (text : Bytes)
    → 7 ≤ length text
    → memcpy 0 (codes "Online" ++ (0 ∷ [])) 7 text ≡ some (tt, codes "Online" ++ (0 ∷ drop 7 text))
online_stored text room =
    Writes-whole (memcpy-Writes 0 (codes "Online" ++ (0 ∷ [])) 7 refl) text
    ∙ rw (le→leb 7 (length text) room) refl

-- For buddies who all have a session id of 16 bytes as text, and a local array of 16 bytes: where the
-- session id `sid` and the type are read from the packet, and the text for that type, "Online" for 0
-- and the packet's own for the others, is `message` with a closing 0, `xfire_read_status` gives it as
-- new status to our online buddies with that id, changes nobody else, and answers nothing.
pub read_status-tell_all :
    (locals : HandlerLocals) (packet text : Bytes) (len index after kind : ℕ)
    (sid kinds message rest : Bytes) (bs : List Buddy)
    → length locals.temp ≡ 16
    → All IsByte sid
    → All HasId bs
    → IsText message
    → xfire_read_fix_attr packet (codes "sid") (pos len) 4 0 16 locals.sid ≡ some (index, sid)
    → xfire_read_fix_attr packet (codes "type") (pos len) 5 index 4 locals.msgtype
      ≡ some (after, kind ∷ kinds)
    → TextRead locals packet len after text kind (message ++ 0 ∷ rest)
    → xfire_read_status locals packet len bs text
      ≡ some (told 0 (tell_all sid (change_status message) bs), message ++ 0 ∷ rest)
unfolding xfire_read_status pure
read_status-tell_all locals packet text len index after kind sid kinds message rest bs room bytes
      known plain sid_read kind_read text_read =
    given_known _ _ text (index, sid) sid_read
    ∙ given_known _ _ text (after, kind ∷ kinds) kind_read
    ∙ given_known _ _ text kind refl
    ∙ then_known _ _ text (message ++ 0 ∷ rest) (stored kind (message ++ 0 ∷ rest) text_read)
    ∙ with_text-tell_all locals sid message rest bs room bytes known plain
  where
    away : Op (Unit {0})
    away =
        given (xfire_read_fix_attr packet (codes "status") (pos len) 6 after 2 locals.status)
        >>= λ (read : ℕ × Bytes).
            xfire_read_var_attr packet (codes "t") (pos len) 1 read.0 200 >>= λ (next : ℕ). pure tt

    stored :
        (kind : ℕ) (filled : Bytes)
        → TextRead locals packet len after text kind filled
        → (if kind == 0 then memcpy 0 (codes "Online" ++ (0 ∷ [])) 7 else away) text
          ≡ some (tt, filled)
    stored _ _ (came_back enough) = online_stored text enough
    stored _ _ (went_away kind next_status next status filled other status_read text_read) =
        ap (λ t. (if t then memcpy 0 (codes "Online" ++ (0 ∷ [])) 7 else away) text)
          (differs kind other)
        ∙ given_known _ _ text (next_status, status) status_read
        ∙ bind_known _ _ text filled next text_read
        ∙ refl
      where
        differs : (k : ℕ) → k ≢ 0 → (k == 0) ≡ false
        differs k h = ground arith
