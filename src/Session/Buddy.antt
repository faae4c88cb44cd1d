-- ===== src/Session/Buddy.antt =====
-- The buddies of gaim's list, as the plugin uses them, and what the server's news does to one of
-- them (gfire/src/xfire.c). Settings of a buddy that may be NULL are options; `none` as a result is
-- a null pointer that is followed.
pub mod News
use xfire.Prelude.{
  ℕ, Bool, true, false, not, ◌&&◌, ◌||◌, List, [], ◌∷◌, ◌++◌, Option, none, some, codes, length,
  take, ltb, leb, ◌==◌, if◌then◌else◌,
}
use xfire.Buffer.{Bytes, read_at}
use xfire.Create.{strlen}
use xfire.Utils.{decode_string}
use xfire.Search.{same_bytes}

pub record Buddy : Type 0 where
  pub is_ours : Bool
  pub is_online : Bool
  pub name : Bytes
  pub sid : Option Bytes
  pub imindex : ℕ
  pub amessage : Option Bytes
  pub game : ℕ
  pub port : ℕ
  pub ip : Option Bytes
  pub username : Option Bytes
  pub alias : Option Bytes

-- What gaim is told: a message from a buddy, and a buddy who is there, away or gone.
pub data Event : Type 0 where
  got_im : Bytes → Bytes → Event
  got_available : Bytes → Event
  got_unavailable : Bytes → Event
  got_offline : Bytes → Event

unfoldable pub xfire_update_buddy : Buddy → Event
xfire_update_buddy buddy = elim buddy.amessage [
  | none ↦ got_available buddy.name
  | some _ ↦ got_unavailable buddy.name
]

-- `decodeString(temp, …)` and `memcmp(temp, data->sid, 16) == 0`, on the local array `temp`.
unfoldable pub is_sid : Bytes → Bytes → Bytes → Option Bool
is_sid temp text sid = elim (decode_string text temp) [
  | none ↦ none
  | some (_, temp) ↦ elim (read_at temp 0 16) [ none ↦ none | some bs ↦ some (same_bytes bs sid) ]
]

abbrev pub unchanged : Buddy → Option (Buddy × List Event)
unchanged buddy = some (buddy, [])

-- One of the three checks: `act` is what it does to the buddy with the id that it looks for.
unfoldable pub check :
    Bytes → Bytes → (Buddy → Buddy × List Event) → Buddy → Bytes → Option (Buddy × List Event)
check temp sid act buddy text = elim (is_sid temp text sid) [
  | none ↦ none
  | some same ↦ some (if same then act buddy else (buddy, []))
]

unfoldable pub deliver : Bytes → Buddy → Buddy × List Event
deliver message b = (b, got_im b.name message ∷ [])

unfoldable pub xfire_check_buddy_im : Bytes → Bytes → Bytes → Buddy → Option (Buddy × List Event)
xfire_check_buddy_im temp sid message buddy =
    if buddy.is_ours && buddy.is_online
    then (elim buddy.sid [ none ↦ none | some text ↦ check temp sid (deliver message) buddy text ])
    else unchanged buddy

unfoldable pub set_game : ℕ → ℕ → Bytes → Buddy → Buddy
set_game game port ip b = record b {
  game = if game == 0 then 0 else game;
  port = if game == 0 then 0 else port;
  ip = if game == 0 then none else some ip;
}

unfoldable pub play : ℕ → ℕ → Bytes → Buddy → Buddy × List Event
play game port ip b = let b' = set_game game port ip b in (b', xfire_update_buddy b' ∷ [])

unfoldable pub xfire_check_buddy_game :
    Bytes → Bytes → ℕ → ℕ → Bytes → Buddy → Option (Buddy × List Event)
xfire_check_buddy_game temp sid game port ip buddy =
    if buddy.is_ours && buddy.is_online
    then (elim buddy.sid [
      | none ↦ unchanged buddy
      | some text ↦ check temp sid (play game port ip) buddy text
    ])
    else unchanged buddy

-- `strncmp("Online", message, strlen(message)) == 0 || strlen(message) == 0`
unfoldable pub is_back : Bytes → Bool
is_back message = same_bytes (take (strlen message) (codes "Online")) message || strlen message == 0

unfoldable pub set_amessage : Option Bytes → Buddy → Buddy
set_amessage amessage b = record b { amessage = amessage }

unfoldable pub change_status : Bytes → Buddy → Buddy × List Event
change_status message b =
    let b' = set_amessage (if is_back message then none else some message) b in
    (b', xfire_update_buddy b' ∷ [])

unfoldable pub xfire_check_buddy_status :
    Bytes → Bytes → Bytes → Buddy → Option (Buddy × List Event)
xfire_check_buddy_status temp sid message buddy =
    if buddy.is_ours && buddy.is_online
    then (elim buddy.sid [
      | none ↦ none
      | some text ↦ check temp sid (change_status message) buddy text
    ])
    else unchanged buddy

-- `g_hash_table_foreach` over the buddies; `none` stops it, as a fault does.
unfoldable pub for_each :
    (Buddy → Option (Buddy × List Event)) → List Buddy → Option (List Buddy × List Event)
for_each f [] = some ([], [])
for_each f (b ∷ bs) = elim (f b) [
  | none ↦ none
  | some (b', events) ↦ elim (for_each f bs) [
    | none ↦ none
    | some (bs', events') ↦ some (b' ∷ bs', events ++ events')
  ]
]
