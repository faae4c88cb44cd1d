-- ===== src/Session/Roster.antt =====
-- The handlers of the two packets that say who the buddies are and which of them are online, and the
-- adding of a buddy (gfire/src/xfire.c). `none` as a result is a fault.
pub mod Overrun
use xfire.Prelude.{
  ℕ, zero, suc, ◌+◌, ◌*◌, Bool, true, false, ◌&&◌, List, [], ◌∷◌, ◌++◌, Option, none, some, codes,
  length, drop, get_elem?, ◌==◌, if◌then◌else◌,
}
use xfire.Prelude.Int.{pos}
use xfire.Buffer.{Bytes, write, read_at}
use xfire.Create.{c_string}
use xfire.Partial.{◌>>=◌}
use xfire.Utils.{to_string}
use xfire.Search.{Listed, xfire_read_dynamic_attr, xfire_read_dynamic_var_attr}
use xfire.Session.Buddy.{Buddy, Event, got_offline, xfire_update_buddy}

-- Gaim's buddy list, as far as the handlers use it: the place of the buddy of our account with a name,
-- a new buddy with an id and a nickname, and the list with that buddy added.
pub record Blist : Type 0 where
  pub find_buddy : List Buddy → Bytes → Option ℕ
  pub buddy_new : Bytes → Bytes → Buddy
  pub add_buddy : Buddy → List Buddy → List Buddy

-- The local arrays, with what lies in them: those for 300 rows of 100, 4 and 16 bytes, those for one
-- id as text, that of `toString`, and what is on the stack where a routine puts its own array.
pub record ListLocals : Type 0 where
  pub friends : Bytes
  pub nicks : Bytes
  pub ids : Bytes
  pub sids : Bytes
  pub userid : Bytes
  pub string_sid : Bytes
  pub temp : Bytes
  pub stack : Bytes

unfoldable pub update_at : ℕ → (Buddy → Buddy) → List Buddy → List Buddy
update_at k f [] = []
update_at zero f (b ∷ bs) = f b ∷ bs
update_at (suc k) f (b ∷ bs) = b ∷ update_at k f bs

-- A new buddy gets its settings before it is added, since gaim keeps the pointer.
unfoldable pub xfire_add_buddy : Blist → Bytes → Bytes → Bytes → List Buddy → List Buddy
unfolding update_at
xfire_add_buddy blist id nick name buddies = elim (blist.find_buddy buddies id) [
  | none ↦
      blist.add_buddy
        (record (blist.buddy_new id nick) { username = some name; game = 0; port = 0; ip = none })
        buddies
  | some k ↦
      update_at k
        (λ b. record b { amessage = none; game = 0; port = 0; ip = none; alias = some nick })
        buddies
]

-- What another array holds after `toString`.
abbrev pub text_in : Bytes → Option (Unit {0} × Bytes) → Option Bytes
text_in array none = none
text_in array (some (_, filled)) = some filled

-- The string from place `k` on; without a 0 behind it, reading goes on behind the array.
abbrev pub ends : Bytes → Bytes → Option Bytes
ends rest s = if length s == length rest then none else some s

unfoldable pub string_from : Bytes → ℕ → Option Bytes
unfolding c_string
string_from array k = ends (drop k array) (c_string (drop k array))

-- `toString(userid, ids[i], 4)`
unfoldable pub id_text : ListLocals → Bytes → ℕ → Option Bytes
unfolding to_string read_at ◌>>=◌
id_text locals ids i =
    read_at ids (i * 4) 4 >>= λ id. text_in locals.userid (to_string locals.temp id 4 locals.userid)

abbrev pub all_zero : Bytes → Bool
all_zero [] = true
all_zero (c ∷ bs) = c == 0 && all_zero bs

-- What gaim is told of a buddy who is there, and the settings that the buddy gets.
abbrev pub presence : Bytes → Buddy → Event
presence sid b = if all_zero sid then got_offline b.name else xfire_update_buddy b

-- One round of the loop of `xfire_read_buddy_online`.
unfoldable pub online_round :
    Blist → ListLocals → Bytes → Bytes → ℕ → List Buddy → Option (List Buddy × List Event)
unfolding id_text string_from update_at to_string ◌>>=◌
online_round blist locals ids sids i buddies = id_text locals ids i >>= λ userid.
    string_from userid 0 >>= λ name. elim (blist.find_buddy buddies name) [
      | none ↦ some (buddies, [])
      | some k ↦ get_elem? buddies k >>= λ b. read_at sids (i * 16) 16 >>= λ sid.
          text_in locals.string_sid (to_string locals.temp sid 16 locals.string_sid) >>= λ filled.
          string_from filled 0 >>= λ text. some (
            update_at k (λ b. record b { sid = some text; imindex = 0 }) buddies,
            presence sid b ∷ [],
          )
    ]

-- The rounds that are left, from row `i` on.
unfoldable pub online_rounds :
    Blist → ListLocals → Bytes → Bytes → ℕ → ℕ → List Buddy → Option (List Buddy × List Event)
unfolding online_round
online_rounds blist locals ids sids zero i buddies = some (buddies, [])
online_rounds blist locals ids sids (suc n) i buddies =
    elim (online_round blist locals ids sids i buddies) [
      | none ↦ none
      | some (buddies, events) ↦ elim (online_rounds blist locals ids sids n (i + 1) buddies) [
        | none ↦ none
        | some (buddies, more) ↦ some (buddies, events ++ more)
      ]
    ]

-- Both calls store the length of their list in `number`, so that of the session ids counts.
unfoldable pub xfire_read_buddy_online :
    Blist → ListLocals → Bytes → ℕ → List Buddy → Option (List Buddy × List Event)
unfolding online_rounds
xfire_read_buddy_online blist locals packet len buddies =
    elim (xfire_read_dynamic_attr packet (pos len) (codes "userid") 4 0 locals.ids) [
      | none ↦ none
      | some (_, ids) ↦
          elim (xfire_read_dynamic_attr packet (pos len) (codes "sid") 16 0 locals.sids) [
            | none ↦ none
            | some (listed, sids) ↦ online_rounds blist locals ids sids listed.number 0 buddies
          ]
    ]

-- The nicknames after `memcpy(nicks[i], friends[i], 100)`, for a user without a nickname.
unfoldable pub nicks_at : Bytes → Bytes → ℕ → Option Bytes
unfolding read_at write ◌>>=◌
nicks_at friends nicks i = get_elem? nicks (i * 100) >>= λ first.
    read_at friends (i * 100) 100 >>= λ friend.
    if first == 0 then text_in nicks (write (i * 100) friend nicks) else some nicks

-- One round of the loop of `xfire_read_buddys`.
unfoldable pub buddy_round :
    Blist → ListLocals → Bytes → Bytes → Bytes → ℕ → List Buddy → Option (List Buddy)
unfolding nicks_at id_text string_from xfire_add_buddy ◌>>=◌
buddy_round blist locals friends nicks ids i buddies = nicks_at friends nicks i >>= λ nicks.
    id_text locals ids i >>= λ userid. string_from userid 0 >>= λ id.
    string_from nicks (i * 100) >>= λ nick.
    string_from friends (i * 100) >>= λ name. some (xfire_add_buddy blist id nick name buddies)

-- A row's nickname is read in its own round only, so that the array need not be passed on.
unfoldable pub buddy_rounds :
    Blist → ListLocals → Bytes → Bytes → Bytes → ℕ → ℕ → List Buddy → Option (List Buddy)
unfolding buddy_round
buddy_rounds blist locals friends nicks ids zero i buddies = some buddies
buddy_rounds blist locals friends nicks ids (suc n) i buddies =
    elim (buddy_round blist locals friends nicks ids i buddies) [
      | none ↦ none
      | some buddies ↦ buddy_rounds blist locals friends nicks ids n (i + 1) buddies
    ]

unfoldable pub xfire_read_buddys : Blist → ListLocals → Bytes → ℕ → List Buddy → Option (List Buddy)
unfolding buddy_rounds
xfire_read_buddys blist locals packet len buddies =
    elim (xfire_read_dynamic_var_attr locals.stack packet (pos len) (codes "friends") 0 100
      locals.friends) [
        | none ↦ none
        | some (listed, friends) ↦
            elim (xfire_read_dynamic_var_attr locals.stack packet (pos len) (codes "nick")
              listed.index 100 locals.nicks) [
                | none ↦ none
                | some (listed, nicks) ↦
                    elim (xfire_read_dynamic_attr packet (pos len) (codes "userid") 4 listed.index
                      locals.ids) [
                        | none ↦ none
                        | some (listed, ids) ↦
                            buddy_rounds blist locals friends nicks ids listed.number 0 buddies
                      ]
              ]
      ]
