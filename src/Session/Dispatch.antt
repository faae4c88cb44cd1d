-- ===== src/Session/Dispatch.antt =====
-- The switch of `xfire_packet_handler` over the type of a packet (gfire/src/xfire.c). `none` as a
-- result is a fault.
pub mod Quiet
pub mod Stream
use xfire.Prelude.{
  ℕ, ◌*◌, ◌+◌, Bool, true, false, ◌||◌, List, [], ◌∷◌, ◌++◌, map, Option, none, some, codes, length,
  get_elem?, ◌==◌, if◌then◌else◌,
}
use xfire.Buffer.{Bytes, read_at}
use xfire.Partial.{◌>>=◌}
use xfire.Utils.{xfire_hex_to_int_c}
use xfire.Packets.Login.{Locals}
use xfire.Session.Buddy.{Buddy, Event}
use xfire.Session.Receive.{header_length, wrapped_sub}
use xfire.Session.Incoming.{
  HandlerLocals, Handled, xfire_send_auth, xfire_get_im, xfire_read_status, xfire_read_status_new,
}
use xfire.Session.Contacts.{xfire_read_invitation, xfire_login_check}
use xfire.Session.Roster.{Blist, ListLocals, xfire_read_buddys, xfire_read_buddy_online}
use xfire.Session.GameNews.{GameLocals, xfire_game_status}

-- What the handlers take from gaim: SHA-1, the account and the buddy list.
pub record Gaim : Type 0 where
  pub sha1 : Bytes → Bytes
  pub password : Bytes
  pub username : Bytes
  pub alias : Option Bytes
  pub blist : Blist

-- The local arrays of the handlers, with what lies in them.
pub record Arrays : Type 0 where
  pub auth : Locals
  pub salt_temp : Bytes
  pub handler : HandlerLocals
  pub text : Bytes
  pub lists : ListLocals
  pub games : GameLocals
  pub name : Bytes
  pub nick : Bytes
  pub alias_buffer : Bytes

-- What the user or gaim gets to know.
pub data Notice : Type 0 where
  news : Event → Notice
  login_sent is_connected : Notice
  says_error : Bytes → Notice
  asks_about : Bytes → Notice

-- What a packet leads to: packets that are written, the buddies, and what is said.
pub record Dispatched : Type 0 where
  pub written : List Bytes
  pub buddies : List Buddy
  pub notices : List Notice

abbrev pub quiet : List Buddy → Option Dispatched
quiet buddies = some (record { written = []; buddies = buddies; notices = [] })

-- `gaim_connection_error`
abbrev pub report : Bytes → List Buddy → Option Dispatched
report text buddies =
    some (record { written = []; buddies = buddies; notices = says_error text ∷ [] })

abbrev pub with_news : Option (List Buddy × List Event) → Option Dispatched
with_news none = none
with_news (some (buddies, events)) =
    some (record { written = []; buddies = buddies; notices = map news events })

-- The end of a handler that returns how many bytes of the array are to be written, if there are any.
unfoldable pub reply : Option (Handled × Bytes) → Option Dispatched
unfolding ◌>>=◌ read_at
reply none = none
reply (some (handled, buffer)) = read_at buffer 0 handled.size >>= λ packet. some (record {
  written = if handled.size == 0 then [] else packet ∷ [];
  buddies = handled.buddies;
  notices = map news handled.events;
})

unfoldable pub salt_received : Gaim → Arrays → Bytes → Bytes → ℕ → List Buddy → Option Dispatched
unfolding xfire_send_auth read_at ◌>>=◌
salt_received gaim arrays buffer packet len buddies =
    elim (xfire_send_auth gaim.sha1 arrays.auth arrays.salt_temp packet len gaim.password
      gaim.username buffer) [
        | none ↦ none
        | some (size, buffer) ↦ read_at buffer 0 size >>= λ packet.
            some (record { written = packet ∷ []; buddies = buddies; notices = login_sent ∷ [] })
      ]

abbrev pub one_packet : Option Bytes → List Bytes
one_packet none = []
one_packet (some packet) = packet ∷ []

unfoldable pub logged_in : Gaim → Arrays → Bytes → ℕ → List Buddy → Option Dispatched
unfolding xfire_login_check ◌>>=◌
logged_in gaim arrays packet len buddies =
    xfire_login_check arrays.alias_buffer arrays.nick gaim.alias packet len >>= λ sent.
    some (record { written = one_packet sent; buddies = buddies; notices = is_connected ∷ [] })

unfoldable pub buddys_received : Gaim → Arrays → Bytes → ℕ → List Buddy → Option Dispatched
unfolding xfire_read_buddys ◌>>=◌
buddys_received gaim arrays packet len buddies =
    xfire_read_buddys gaim.blist arrays.lists packet len buddies >>= quiet

unfoldable pub invited : Arrays → Bytes → ℕ → List Buddy → Option Dispatched
unfolding xfire_read_invitation ◌>>=◌
invited arrays packet len buddies = xfire_read_invitation arrays.name packet len >>= λ name.
    some (record { written = []; buddies = buddies; notices = asks_about name ∷ [] })

-- `show_val` reads the packet to print it. The case 154 does it twice, since it has no `break`.
unfoldable pub shown : Bytes → ℕ → List Buddy → Option Dispatched
unfolding read_at ◌>>=◌
shown packet len buddies = read_at packet 0 len >>= λ bytes. quiet buddies

unfoldable pub status_new : Arrays → Bytes → ℕ → List Buddy → Option Dispatched
unfolding read_at ◌>>=◌ xfire_read_status_new reply
status_new arrays packet len buddies = read_at packet 0 len >>= λ bytes.
    reply (xfire_read_status_new arrays.handler packet len buddies arrays.text)

-- The types that are known and only logged.
abbrev pub is_ignored : ℕ → Bool
is_ignored command =
    command == 136
    || command == 137
    || command == 139
    || command == 141
    || command == 143
    || command == 144
    || command == 147
    || command == 148

-- The switch; `buffer` is the array of 1024 bytes for the packet that is written.
unfoldable pub switch : Gaim → Arrays → Bytes → ℕ → Bytes → ℕ → List Buddy → Option Dispatched
unfolding salt_received logged_in buddys_received invited shown status_new xfire_read_buddy_online
    xfire_get_im xfire_game_status xfire_read_status reply
switch gaim arrays buffer command packet len buddies =
    if command == 128
    then salt_received gaim arrays buffer packet len buddies
    else if command == 129
    then report (codes "wrong passwd/username") buddies
    else if command == 130
    then logged_in gaim arrays packet len buddies
    else if command == 131
    then buddys_received gaim arrays packet len buddies
    else if command == 132
    then with_news (xfire_read_buddy_online gaim.blist arrays.lists packet len buddies)
    else if command == 133
    then reply (xfire_get_im arrays.handler packet len buddies buffer)
    else if command == 134
    then report
        (codes "login ok, but version too old, change version number in the account options")
        buddies
    else if command == 135
    then with_news (xfire_game_status arrays.games packet len buddies)
    else if command == 138
    then invited arrays packet len buddies
    else if command == 142
    then reply (xfire_read_status arrays.handler packet len buddies arrays.text)
    else if command == 145
    then report (codes "Someone else is online with our account") buddies
    else if command == 154
    then status_new arrays packet len buddies
    else if is_ignored command
    then quiet buddies
    else shown packet len buddies

-- The handler from the place on where the packet is put together.
unfoldable pub dispatch : Gaim → Arrays → Bytes → Bytes → Bytes → List Buddy → Option Dispatched
unfolding switch ◌>>=◌
dispatch gaim arrays buffer header packet buddies = get_elem? header 2 >>= λ type.
    switch gaim arrays buffer (xfire_hex_to_int_c type) packet
      (wrapped_sub (header_length header) 5) buddies
