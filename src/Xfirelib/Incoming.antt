-- ===== src/Xfirelib/Incoming.antt =====
-- The contents of the packets that xfirelib receives: parseContent of each class below
-- XFireRecvPacketContent (xfirelib/src), on the array that XFirePacket::recvPacket fills.
pub mod Steps
pub mod Message
pub mod Lists
use xfire.Prelude.{
  ℕ, zero, suc, ◌+◌, true, false, List, [], ◌∷◌, Option, none, some, codes, get_elem?, ◌==◌,
  if◌then◌else◌,
}
use xfire.Partial.{◌>>=◌}
use xfire.Buffer.{Bytes, read_at}
use xfire.Search.{same_bytes}
use xfire.Xfirelib.Value.{
  VariableValue, no_value, get_value, get_value_as_long, read_name, read_value, read_counted_value,
  read_variable_value,
}

-- `index += …`
abbrev pub advance : ℕ → Option (ℕ × VariableValue) → Option (ℕ × VariableValue)
advance index (some (read, v)) = some (index + read, v)
advance index none = none

-- MessagePacket. `imindex` is set for a chat message only, and `buf` for a question only.
pub record MessagePacket : Type 0 where
  pub sid : VariableValue
  pub msgtype : VariableValue
  pub imindex : Option VariableValue
  pub message : Bytes
  pub buf : Option Bytes
  pub buf_length : ℕ

unfoldable pub first_byte : VariableValue → Option ℕ
unfolding ◌>>=◌ get_value
first_byte v = get_value v >>= λ bytes. get_elem? bytes 0

-- The branch for a chat message, from the place behind its kind.
unfoldable pub chat_message : Bytes → ℕ → MessagePacket → Option MessagePacket
unfolding ◌>>=◌ read_name read_value get_value get_value_as_long
chat_message buf index packet = do
  (index, imindex) ← advance index (read_name buf index no_value)
  (index, imindex) ← advance (index + 1) (read_value buf (index + 1) 4 imindex)
  (index, temp) ← advance index (read_name buf index no_value)
  (index, temp) ← advance (index + 1) (read_value buf (index + 1) 2 temp)
  message_length ← get_value_as_long temp
  (read, temp) ← read_value buf index message_length temp
  message ← get_value temp
  some (record packet { imindex = some imindex; message = message })

unfoldable pub parse_message : Bytes → ℕ → Option MessagePacket
unfolding ◌>>=◌ read_name read_value first_byte chat_message
parse_message buf length = do
  (index, sid) ← advance 0 (read_name buf 0 no_value)
  (index, sid) ← advance (index + 1) (read_value buf (index + 1) 16 sid)
  (index, peermsg) ← advance index (read_name buf index no_value)
  (index, msgtype) ← advance (index + 2) (read_name buf (index + 2) no_value)
  (index, msgtype) ← advance (index + 1) (read_value buf (index + 1) 4 msgtype)
  kind ← first_byte msgtype
  let packet : MessagePacket = record {
    sid = sid;
    msgtype = msgtype;
    imindex = none;
    message = [];
    buf = none;
    buf_length = length;
  }
  let chat = chat_message buf index packet
  let question = read_at buf 0 150 >>= λ bytes. some (record packet { buf = some bytes })
  if kind == 0
      then chat
      else if kind == 1
      then some packet
      else if kind == 2
      then question
      else some packet

-- The loops that read `n` values of the same size, as numbers and as arrays.
unfoldable pub read_longs : Bytes → ℕ → ℕ → ℕ → Option (ℕ × List ℕ)
unfolding ◌>>=◌ read_value get_value_as_long
read_longs buf size zero index = some (index, [])
read_longs buf size (suc n) index = do
  (index, v) ← advance index (read_value buf index size no_value)
  value ← get_value_as_long v
  (index, rest) ← read_longs buf size n index
  some (index, value ∷ rest)

unfoldable pub read_values : Bytes → ℕ → ℕ → ℕ → Option (ℕ × List Bytes)
unfolding ◌>>=◌ read_value get_value
read_values buf size zero index = some (index, [])
read_values buf size (suc n) index = do
  (index, v) ← advance index (read_value buf index size no_value)
  value ← get_value v
  (index, rest) ← read_values buf size n index
  some (index, value ∷ rest)

-- The loop of `readStrings`: each string stands behind its length and a byte that is skipped.
unfoldable pub string_loop : Bytes → ℕ → ℕ → Option (ℕ × List Bytes)
unfolding ◌>>=◌ read_value get_value
string_loop buf zero index = some (index, [])
string_loop buf (suc n) index = do
  length ← get_elem? buf index
  (index, v) ← advance (index + 2) (read_value buf (index + 2) length no_value)
  value ← get_value v
  (index, rest) ← string_loop buf n index
  some (index, value ∷ rest)

-- `readStrings`: the number of strings stands behind its own length.
unfoldable pub read_strings : Bytes → ℕ → Option (ℕ × List Bytes)
unfolding ◌>>=◌ read_counted_value get_value_as_long string_loop
read_strings buf index = do
  (index, v) ← advance index (read_counted_value buf index false no_value)
  number ← get_value_as_long v
  string_loop buf number (index + 1)

-- The front of a list behind the name that was read: two bytes are skipped, the number is read, and one
-- more byte is skipped.
unfoldable pub list_number : Bytes → ℕ → Option (ℕ × ℕ)
unfolding ◌>>=◌ read_name
list_number buf index = do
  (index, v) ← advance index (read_name buf index no_value)
  number ← get_elem? buf (index + 2)
  some (index + 4, number)

-- BuddyListNamesPacket
pub record Names : Type 0 where
  pub usernames : List Bytes
  pub nicks : List Bytes
  pub userids : List ℕ

unfoldable pub parse_names : Bytes → Option Names
unfolding ◌>>=◌ read_name read_strings read_counted_value get_value_as_long read_longs
parse_names buf = do
  (index, v) ← advance 0 (read_name buf 0 no_value)
  (index, usernames) ← read_strings buf (index + 1)
  (index, v) ← advance index (read_name buf index no_value)
  (index, nicks) ← read_strings buf (index + 1)
  (index, v) ← advance index (read_name buf index no_value)
  (index, v) ← advance (index + 1) (read_counted_value buf (index + 1) false no_value)
  number ← get_value_as_long v
  (index, userids) ← read_longs buf 4 number index
  some (record { usernames = usernames; nicks = nicks; userids = userids })

-- BuddyListOnlinePacket
unfoldable pub parse_online : Bytes → Option (List ℕ × List Bytes)
unfolding ◌>>=◌ list_number read_longs read_values
parse_online buf = do
  (index, number) ← list_number buf 0
  (index, userids) ← read_longs buf 4 number index
  (index, number) ← list_number buf index
  (index, sids) ← read_values buf 16 number index
  some (userids, sids)

-- BuddyListGamesPacket: `gameids` are the lower halves of the numbers, and `gameids2` the upper ones.
pub record Games : Type 0 where
  pub sids : List Bytes
  pub gameids : List ℕ
  pub gameids2 : List ℕ
  pub ips : List Bytes
  pub ports : List ℕ

unfoldable pub game_loop : Bytes → ℕ → ℕ → Option (ℕ × List ℕ × List ℕ)
unfolding ◌>>=◌ read_value get_value_as_long
game_loop buf zero index = some (index, [], [])
game_loop buf (suc n) index = do
  (index, v) ← advance index (read_value buf index 2 no_value)
  game ← get_value_as_long v
  (index, v) ← advance index (read_value buf index 2 no_value)
  game2 ← get_value_as_long v
  (index, games, games2) ← game_loop buf n index
  some (index, game ∷ games, game2 ∷ games2)

unfoldable pub parse_games : Bytes → Option Games
unfolding ◌>>=◌ list_number read_values game_loop read_longs
parse_games buf = do
  (index, number) ← list_number buf 0
  (index, sids) ← read_values buf 16 number index
  (index, number) ← list_number buf index
  (index, gameids, gameids2) ← game_loop buf number index
  (index, number) ← list_number buf index
  (index, ips) ← read_values buf 4 number index
  (index, number) ← list_number buf index
  (index, ports) ← read_longs buf 4 number index
  some (record { sids = sids; gameids = gameids; gameids2 = gameids2; ips = ips; ports = ports })

-- RecvStatusMessagePacket
unfoldable pub parse_status : Bytes → Option (List Bytes × List Bytes)
unfolding ◌>>=◌ list_number read_values read_name read_strings
parse_status buf = do
  (index, number) ← list_number buf 0
  (index, sids) ← read_values buf 16 number index
  (index, v) ← advance index (read_name buf index no_value)
  (index, msgs) ← read_strings buf (index + 1)
  some (sids, msgs)

-- RecvNicknameChangePacket
unfoldable pub parse_nickname : Bytes → Option (ℕ × Bytes)
unfolding ◌>>=◌ read_value get_value_as_long get_value
parse_nickname buf = do
  (index, v) ← advance 2 (read_value buf 2 4 no_value)
  userid ← get_value_as_long v
  (index, v) ← advance (index + 2) (read_value buf (index + 2) 2 v)
  nickname_length ← get_value_as_long v
  (read, v) ← read_value buf index nickname_length v
  nickname ← get_value v
  some (userid, nickname)

-- RecvRemoveBuddyPacket
unfoldable pub parse_remove : Bytes → Option ℕ
unfolding ◌>>=◌ read_name read_value get_value_as_long
parse_remove buf = do
  (index, v) ← advance 0 (read_name buf 0 no_value)
  (read, v) ← read_value buf (index + 1) 4 v
  get_value_as_long v

-- InviteRequestPacket
unfoldable pub invite_string : Bytes → ℕ → Option (ℕ × Bytes)
unfolding ◌>>=◌ read_name read_counted_value get_value
invite_string buf index = do
  (index, v) ← advance index (read_name buf index no_value)
  (index, v) ← advance (index + 4) (read_counted_value buf (index + 4) true v)
  value ← get_value v
  some (index, value)

unfoldable pub parse_invite_request : Bytes → Option (Bytes × Bytes × Bytes)
unfolding ◌>>=◌ invite_string
parse_invite_request buf = do
  (index, name) ← invite_string buf 0
  (index, nick) ← invite_string buf index
  (index, msg) ← invite_string buf index
  some (name, nick, msg)

-- LoginSuccessPacket: one round of its loop, for the name that was read; the new place, or none where an
-- unknown name ends the loop.
unfoldable pub login_value : Bytes → ℕ → VariableValue → Option (Option ℕ)
unfolding ◌>>=◌ read_value read_counted_value same_bytes
login_value buf read v =
    if same_bytes v.name (codes "userid")
    then (read_value buf (read + 1) 3 v >>= λ (got : ℕ × VariableValue).
        some (some (read + 1 + got.0 + 1)))
    else if same_bytes v.name (codes "sid")
    then (read_value buf (read + 1) 16 v >>= λ (got : ℕ × VariableValue).
        some (some (read + 1 + got.0)))
    else if same_bytes v.name (codes "nick")
    then (read_counted_value buf (read + 1) true v >>= λ (got : ℕ × VariableValue).
        some (some (read + 1 + got.0)))
    else if same_bytes v.name (codes "status")
    then some (some (read + 5))
    else if same_bytes v.name (codes "dlset")
    then some (some (read + 3))
    else some none

-- Nothing is kept: the result is whether the packet was read without a fault.
unfoldable pub parse_login_success : Bytes → ℕ → ℕ → Option (Unit {0})
unfolding ◌>>=◌ read_name login_value
parse_login_success buf zero read = some tt
parse_login_success buf (suc n) read =
    advance read (read_name buf read no_value) >>= λ (named : ℕ × VariableValue).
    login_value buf named.0 named.1 >>= λ next. elim next [
      | none ↦ some tt
      | some read ↦ parse_login_success buf n read
    ]

-- AuthPacket
unfoldable pub parse_auth : Bytes → Option VariableValue
unfolding ◌>>=◌ read_variable_value
parse_auth buf = read_variable_value buf 0 no_value >>= λ (read : ℕ × VariableValue). some read.1
