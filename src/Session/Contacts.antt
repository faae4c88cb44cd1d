-- ===== src/Session/Contacts.antt =====
-- Invitations, adding and removing a buddy, the nickname and the keep-alive packet (gfire/src/xfire.c).
-- The local arrays are arguments, with what lies in them; `none` as a result is a fault.
pub mod Bounds
use xfire.Prelude.{
  ℕ, Bool, true, false, List, [], ◌∷◌, ◌++◌, Option, none, some, codes, length, if◌then◌else◌,
}
use xfire.Prelude.Int.{pos}
use xfire.Buffer.{Bytes, write, read_at}
use xfire.Partial.{◌>>=◌}
use xfire.Search.{same_bytes, xfire_read_var_attr}
use xfire.Packets.Chat.{xfire_send_alias_change, xfire_keep_alive_packet}
use xfire.Packets.Buddies.{
  xfire_invitation_accept, xfire_invitation_deny, xfire_add_new_buddy, xfire_delete_buddy,
}
use xfire.Session.Away.{write_packet}
use xfire.Session.Incoming.{string_in}

-- The result 0 takes the timer away. `connected` is that the state is not GAIM_DISCONNECTED.
unfoldable pub xfire_keep_alive : Bool → Bytes → Option (ℕ × List Bytes)
unfolding write_packet ◌>>=◌
xfire_keep_alive connected buffer =
    if connected
    then (write_packet buffer xfire_keep_alive_packet >>= λ packet. some (1, packet ∷ []))
    else some (0, [])

-- The packet that answers an invitation; `name` is the string that `xfire_read_invitation` kept.
unfoldable pub xfire_accept_buddy : Bytes → Bytes → Option Bytes
unfolding write_packet
xfire_accept_buddy buffer name = write_packet buffer (xfire_invitation_accept name)

unfoldable pub xfire_deny_buddy : Bytes → Bytes → Option Bytes
unfolding write_packet
xfire_deny_buddy buffer name = write_packet buffer (xfire_invitation_deny name)

-- The name that the user is asked about, and that the answer is for; `array` has 26 bytes.
unfoldable pub xfire_read_invitation : Bytes → Bytes → ℕ → Option Bytes
unfolding string_in
xfire_read_invitation array packet len =
    elim (xfire_read_var_attr packet (codes "name") (pos len) 7 0 26 array) [
      | none ↦ none
      | some (_, name) ↦ string_in name
    ]

-- `strncpy(name, buddy->name, strlen(buddy->name)+1)` and the string that the array holds then.
unfoldable pub copied_name : Bytes → Bytes → Option Bytes
unfolding write
copied_name array name = elim (write 0 (name ++ (0 ∷ [])) array) [
  | none ↦ none
  | some _ ↦ some name
]

-- The packet that is written; gaim removes the buddy from its list then.
unfoldable pub xfire_new_buddy : Bytes → Bytes → Bytes → Option Bytes
unfolding copied_name write_packet ◌>>=◌
xfire_new_buddy buffer array name =
    copied_name array name >>= λ name. write_packet buffer (xfire_add_new_buddy name)

-- The 17 bytes that are written; `userid` is the local array of `xfire_delete_buddy`.
unfoldable pub xfire_rem_buddy : Bytes → Bytes → Bytes → Bytes → Option Bytes
unfolding copied_name read_at ◌>>=◌
xfire_rem_buddy userid buffer array name = copied_name array name >>= λ name.
    elim (xfire_delete_buddy userid name buffer) [
      | none ↦ none
      | some (_, buffer) ↦ read_at buffer 0 17
    ]

-- The packet with the nickname, if the account has one and the server has another.
unfoldable pub xfire_login_check : Bytes → Bytes → Option Bytes → Bytes → ℕ → Option (Option Bytes)
unfolding write_packet string_in ◌>>=◌ same_bytes
xfire_login_check buffer array alias packet len =
    elim (xfire_read_var_attr packet (codes "nick") (pos len) 4 0 50 array) [
      | none ↦ none
      | some (_, nick) ↦ elim alias [
        | none ↦ some none
        | some alias ↦ string_in nick >>= λ nick.
            if same_bytes nick alias
            then some none
            else (write_packet buffer (xfire_send_alias_change (some alias)) >>= λ packet.
                some (some packet))
      ]
    ]
