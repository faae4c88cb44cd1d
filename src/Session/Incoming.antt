-- ===== src/Session/Incoming.antt =====
-- Handlers of packets that come in (gfire/src/xfire.c): the salt of a login, a message, and a status.
-- The local arrays are arguments, with what lies in them.
pub mod Salt
pub mod Told
pub mod Message
use xfire.Prelude.{
  ℕ, ◌+◌, ◌-◌, Bool, List, [], ◌∷◌, ◌++◌, Option, none, some, codes, length, replicate, get_elem?,
  ◌==◌, ◌^◌, ltb, if◌then◌else◌,
}
use xfire.Prelude.Int.{pos}
use xfire.Buffer.{Bytes, Op, ◌>>=◌, ◌>>◌, pure, put, write, memcpy, read_at, given}
use xfire.Create.{c_string, xfire_add_header}
use xfire.Utils.{xfire_hex_to_int_c}
use xfire.Packets.Login.{Locals, xfire_create_auth}
use xfire.Search.{find_string, xfire_read_fix_attr, xfire_read_var_attr}
use xfire.Session.Buddy.{Buddy, Event, for_each, xfire_check_buddy_im, xfire_check_buddy_status}

-- `strncpy(salt, s, 41)`, for the string that stands in `s`.
unfoldable pub strncpy_41 : Bytes → Bytes
strncpy_41 s = let text = c_string s in text ++ replicate (41 - length text) 0

-- The rounds of the loop from 8 on. `length` is an int there: a number from 2 ^ 31 on is negative.
abbrev pub salt_rounds : ℕ → ℕ
salt_rounds length = if ltb length (2 ^ 31) then length - 8 else 0

-- `salt_temp` has 41 bytes. The result is what `salt` holds then.
unfoldable pub xfire_login_salt : Bytes → Bytes → ℕ → Option Bytes
xfire_login_salt salt_temp packet length = elim (read_at packet 8 (salt_rounds length)) [
  | none ↦ none
  | some bs ↦ elim ((put 40 0x00 >> write 0 bs) salt_temp) [
    | none ↦ none
    | some (_, salt_temp) ↦ some (strncpy_41 salt_temp)
  ]
]

unfoldable pub xfire_send_auth : (Bytes → Bytes) → Locals → Bytes → Bytes → ℕ → Bytes → Bytes → Op ℕ
xfire_send_auth sha1 locals salt_temp packet len passwd name = do
  salt ← given (xfire_login_salt salt_temp packet len)
  xfire_create_auth sha1 locals salt passwd name

-- The local arrays of the handlers below, and `temp` of the checks over the buddies.
pub record HandlerLocals : Type 0 where
  pub sid : Bytes
  pub msgtype : Bytes
  pub status : Bytes
  pub temp : Bytes

-- The number of bytes to be written from the reply, the buddies, and what gaim is told.
pub record Handled : Type 0 where
  pub size : ℕ
  pub buddies : List Buddy
  pub events : List Event

-- The branch of `xfire_get_im` for a chat message. A message that is not found is a null pointer.
unfoldable pub get_message : HandlerLocals → Bytes → ℕ → Bytes → List Buddy → Op Handled
get_message locals packet len sid buddies = do
  found ← given (find_string packet (codes "im") (pos len) 2)
  xfire_add_header 62 2 2
  memcpy 5 packet 58
  put 35 0x02
  put 45 0x01
  message ← given found
  byte ← given (get_elem? packet (message + 3))
  text ← given (read_at packet (message + 5) (xfire_hex_to_int_c byte))
  (buddies, events) ←
      given (for_each (xfire_check_buddy_im locals.temp sid (c_string text)) buddies)
  pure (record { size = 62; buddies = buddies; events = events })

-- The array is `local_packet`, the reply.
unfoldable pub xfire_get_im : HandlerLocals → Bytes → ℕ → List Buddy → Op Handled
xfire_get_im locals packet len buddies = do
  (index, sid) ← given (xfire_read_fix_attr packet (codes "sid") (pos len) 4 0 16 locals.sid)
  (index, msgtype) ←
      given (xfire_read_fix_attr packet (codes "msgtype") (pos len) 8 index 4 locals.msgtype)
  kind ← given (get_elem? msgtype 0)
  let nothing = pure {A = Handled} (record { size = 0; buddies = buddies; events = [] })
  let answer =
      xfire_add_header 155 2 2
      >> (memcpy 5 packet len
          >> pure {A = Handled} (record { size = 155; buddies = buddies; events = [] }))
  if kind == 0
      then get_message locals packet len sid buddies
      else if kind == 1
      then nothing
      else if kind == 2
      then answer
      else nothing

-- The string in an array of that size; without a 0 in it, `strlen` reads on behind the array.
unfoldable pub string_in : Bytes → Option Bytes
string_in text = let s = c_string text in if length s == length text then none else some s

-- The buddies are told the string that `text` holds. It is read here whether or not there is a buddy
-- to tell; the source reads it only for one with the session id.
unfoldable pub with_text : HandlerLocals → Bytes → List Buddy → Op Handled
with_text locals sid buddies text = elim (string_in text) [
  | none ↦ none
  | some message ↦ elim (for_each (xfire_check_buddy_status locals.temp sid message) buddies) [
    | none ↦ none
    | some (buddies, events) ↦ some (record { size = 0; buddies = buddies; events = events }, text)
  ]
]

-- The array is `text`, of 200 bytes; `type` is read into `msgtype`.
unfoldable pub xfire_read_status : HandlerLocals → Bytes → ℕ → List Buddy → Op Handled
xfire_read_status locals packet len buddies = do
  (index, sid) ← given (xfire_read_fix_attr packet (codes "sid") (pos len) 4 0 16 locals.sid)
  (index, type) ←
      given (xfire_read_fix_attr packet (codes "type") (pos len) 5 index 4 locals.msgtype)
  kind ← given (get_elem? type 0)
  let back = memcpy 0 (codes "Online" ++ 0 ∷ []) 7
  let away =
      given (xfire_read_fix_attr packet (codes "status") (pos len) 6 index 2 locals.status)
      >>= λ (read : ℕ × Bytes).
          xfire_read_var_attr packet (codes "t") (pos len) 1 read.0 200 >>= λ (after : ℕ). pure tt
  (if kind == 0 then back else away)
  with_text locals sid buddies

unfoldable pub xfire_read_status_new : HandlerLocals → Bytes → ℕ → List Buddy → Op Handled
xfire_read_status_new locals packet len buddies = do
  (index, sid) ← given (xfire_read_fix_attr packet (codes "sid") (pos len) 7 0 16 locals.sid)
  index ← xfire_read_var_attr packet (codes "msg") (pos len) 6 index 200
  with_text locals sid buddies
