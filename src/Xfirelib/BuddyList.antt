-- ===== src/Xfirelib/BuddyList.antt =====
-- xfirelib/src/buddylist.cpp: the entries of the buddy list, and what a packet does to them.
pub mod Ids
pub mod Changes
pub mod Totality
pub mod Online
use xfire.Prelude.{
  ℕ, ◌+◌, Bool, true, false, List, [], ◌∷◌, ◌++◌, Option, none, some, get_elem?, replicate, ◌==◌,
  if◌then◌else◌,
}
use xfire.Partial.{◌>>=◌}
use xfire.Buffer.{Bytes}
use xfire.Create.{c_string}
use xfire.Search.{same_bytes}
use xfire.Xfirelib.Incoming.{Names, Games}

-- The objects for the games are made by the program's XFireGameResolver.
pub record BuddyListEntry (Game : Type 0) : Type 0 where
  pub userid : ℕ
  pub sid : Bytes
  pub nick : Bytes
  pub username : Bytes
  pub statusmsg : Bytes
  pub game : ℕ
  pub game2 : ℕ
  pub game_obj : Option Game
  pub game2_obj : Option Game

-- `isOnline`: the loop over the 16 bytes.
unfoldable pub any_set : Bytes → Bool
any_set [] = false
any_set (b ∷ sid) = let rest = any_set sid in if b == 0 then rest else true

module _ {Game : Type 0} where
  unfoldable pub new_entry : ℕ → Bytes → Bytes → BuddyListEntry Game
  new_entry userid nick username = record {
    userid = userid;
    sid = replicate 16 0;
    nick = nick;
    username = username;
    statusmsg = [];
    game = 0;
    game2 = 0;
    game_obj = none;
    game2_obj = none;
  }

  unfoldable pub is_online : BuddyListEntry Game → Bool
  unfolding any_set
  is_online entry = any_set entry.sid

  -- The first entry that a test accepts: the three loops of `getBuddyById`, `getBuddyByName` and
  -- `getBuddyBySid`.
  unfoldable pub first_entry :
      (BuddyListEntry Game → Bool) → List (BuddyListEntry Game) → Option (BuddyListEntry Game)
  first_entry test [] = none
  first_entry test (entry ∷ entries) =
      let rest = first_entry test entries in if test entry then some entry else rest

  abbrev pub has_id : ℕ → BuddyListEntry Game → Bool
  has_id userid entry = entry.userid == userid

  abbrev pub has_sid : Bytes → BuddyListEntry Game → Bool
  has_sid sid entry = same_bytes sid entry.sid

  unfoldable pub get_buddy_by_id : ℕ → List (BuddyListEntry Game) → Option (BuddyListEntry Game)
  unfolding first_entry
  get_buddy_by_id userid entries = first_entry (has_id userid) entries

  unfoldable pub get_buddy_by_name :
      Bytes → List (BuddyListEntry Game) → Option (BuddyListEntry Game)
  unfolding first_entry
  get_buddy_by_name username entries =
      first_entry (λ entry. same_bytes entry.username username) entries

  unfoldable pub get_buddy_by_sid :
      Bytes → List (BuddyListEntry Game) → Option (BuddyListEntry Game)
  unfolding first_entry
  get_buddy_by_sid sid entries = first_entry (has_sid sid) entries

  -- A change of the entry that such a search finds; without one, nothing changes.
  unfoldable pub change_entry :
      (BuddyListEntry Game → Bool)
      → (BuddyListEntry Game → BuddyListEntry Game)
      → List (BuddyListEntry Game)
      → List (BuddyListEntry Game)
  change_entry test change [] = []
  change_entry test change (entry ∷ entries) =
      let rest = change_entry test change entries in
      if test entry then change entry ∷ entries else entry ∷ rest

  -- `at` throws behind the end of a vector, and nothing catches that.
  unfoldable pub init_entries :
      List Bytes → ℕ → Names → List (BuddyListEntry Game) → Option (List (BuddyListEntry Game))
  unfolding ◌>>=◌ new_entry
  init_entries [] i names entries = some entries
  init_entries (username ∷ usernames) i names entries = get_elem? names.userids i >>= λ userid.
      get_elem? names.nicks i >>= λ nick.
      init_entries usernames (i + 1) names (entries ++ (new_entry userid nick username ∷ []))

  unfoldable pub update_online_buddies :
      List ℕ → ℕ → List Bytes → List (BuddyListEntry Game) → Option (List (BuddyListEntry Game))
  unfolding get_buddy_by_id change_entry
  update_online_buddies [] i sids entries = some entries
  update_online_buddies (userid ∷ userids) i sids entries =
      let missing = update_online_buddies userids (i + 1) sids entries in
      elim (get_buddy_by_id userid entries) [
        | none ↦ missing
        | some _ ↦ elim (get_elem? sids i) [
          | none ↦ none
          | some sid ↦
              update_online_buddies userids (i + 1) sids
                (change_entry (has_id userid) (λ entry. record entry { sid = sid }) entries)
        ]
      ]

  -- The resolver is a function, or NULL. The packet is the first of two kinds or the second.
  unfoldable pub set_game :
      Option (ℕ → ℕ → Games → Option Game)
      → Bool
      → ℕ
      → ℕ
      → Games
      → BuddyListEntry Game
      → BuddyListEntry Game
  set_game resolver is_first game i games entry =
      let object : Option Game = elim resolver [
        | none ↦ none
        | some resolve ↦ resolve game i games
      ] in
      if is_first
      then record entry { game = game; game_obj = object }
      else record entry { game2 = game; game2_obj = object }

  unfoldable pub update_buddies_game :
      Option (ℕ → ℕ → Games → Option Game)
      → Bool
      → List Bytes
      → ℕ
      → Games
      → List (BuddyListEntry Game)
      → Option (List (BuddyListEntry Game))
  unfolding get_buddy_by_sid change_entry set_game
  update_buddies_game resolver is_first [] i games entries = some entries
  update_buddies_game resolver is_first (sid ∷ sids) i games entries =
      let missing = update_buddies_game resolver is_first sids (i + 1) games entries in
      elim (get_buddy_by_sid sid entries) [
        | none ↦ missing
        | some _ ↦ elim (get_elem? games.gameids i) [
          | none ↦ none
          | some game ↦
              update_buddies_game resolver is_first sids (i + 1) games
                (change_entry (has_sid sid) (set_game resolver is_first game i games) entries)
        ]
      ]

  -- The loop that erases the entry of a removed buddy.
  unfoldable pub erase_entry : ℕ → List (BuddyListEntry Game) → List (BuddyListEntry Game)
  erase_entry userid [] = []
  erase_entry userid (entry ∷ entries) =
      let rest = erase_entry userid entries in
      if entry.userid == userid then entries else entry ∷ rest

  -- An id that no entry has ends the loop, and the handler.
  unfoldable pub update_status :
      List Bytes → ℕ → List Bytes → List (BuddyListEntry Game) → Option (List (BuddyListEntry Game))
  unfolding get_buddy_by_sid change_entry
  update_status [] i msgs entries = some entries
  update_status (sid ∷ sids) i msgs entries = elim (get_buddy_by_sid sid entries) [
    | none ↦ some entries
    | some _ ↦ elim (get_elem? msgs i) [
      | none ↦ none
      | some msg ↦
          update_status sids (i + 1) msgs (
            change_entry (has_sid sid) (λ entry. record entry { statusmsg = c_string msg }) entries)
    ]
  ]

  unfoldable pub update_nickname :
      ℕ → Bytes → List (BuddyListEntry Game) → List (BuddyListEntry Game)
  unfolding change_entry
  update_nickname userid nickname entries =
      change_entry (has_id userid) (λ entry. record entry { nick = nickname }) entries
