-- ===== src/Xfirelib/BuddyList/Totality.antt =====
-- The loops of BuddyList that index a second list end without an exception where it is long enough.
use xfire.Prelude.{
  ℕ, zero, suc, ◌+◌, ◌≤◌, ◌<◌, refl, Bool, List, [], ◌∷◌, Option, length, get_elem?, Option-cases,
  inl, inr, arith,
}
use xfire.Partial.{Returns, Returns-bind}
use xfire.Buffer.{Bytes}
use xfire.Xfirelib.Incoming.{Names, Games}
use xfire.Xfirelib.BuddyList.{
  BuddyListEntry, get_buddy_by_id, get_buddy_by_sid, init_entries, update_online_buddies,
  update_buddies_game, update_status,
}

get_elem-Returns : {A : Type 0} (xs : List A) (i : ℕ) → i < length xs → Returns (get_elem? xs i)
get_elem-Returns [] i h = absurd (omega arith)
get_elem-Returns (x ∷ xs) zero h = (x, refl)
get_elem-Returns (x ∷ xs) (suc i) h = get_elem-Returns xs i (omega arith)

module _ {Game : Type 0} where
  pub init_entries-Returns :
      (usernames : List Bytes) (i : ℕ) (names : Names) (entries : List (BuddyListEntry Game))
      → length usernames + i ≤ length names.userids
      → length usernames + i ≤ length names.nicks
      → Returns (init_entries usernames i names entries)
  unfolding init_entries
  init_entries-Returns [] i names entries ids nicks = (entries, refl)
  init_entries-Returns (username ∷ usernames) i names entries ids nicks =
      Returns-bind (get_elem? names.userids i) _ (get_elem-Returns names.userids i (omega arith))
        (λ userid.
          Returns-bind (get_elem? names.nicks i) _ (get_elem-Returns names.nicks i (omega arith))
            (λ nick. init_entries-Returns usernames (i + 1) names _ (omega arith) (omega arith)))

  pub update_online_buddies-Returns :
      (userids : List ℕ) (i : ℕ) (sids : List Bytes) (entries : List (BuddyListEntry Game))
      → length userids + i ≤ length sids
      → Returns (update_online_buddies userids i sids entries)
  unfolding update_online_buddies
  update_online_buddies-Returns [] i sids entries h = (entries, refl)
  update_online_buddies-Returns (userid ∷ userids) i sids entries h =
      let (sid, at_i) = get_elem-Returns sids i (omega arith) in
      elim (Option-cases (get_buddy_by_id userid entries)) [
        | inl missing ↦
            rw (update_online_buddies, missing)
              (update_online_buddies-Returns userids (i + 1) sids entries (omega arith))
        | inr (entry, found) ↦
            rw (update_online_buddies, found, at_i)
              (update_online_buddies-Returns userids (i + 1) sids _ (omega arith))
      ]

  pub update_buddies_game-Returns :
      (resolver : Option (ℕ → ℕ → Games → Option Game)) (is_first : Bool) (sids : List Bytes)
      (i : ℕ) (games : Games) (entries : List (BuddyListEntry Game))
      → length sids + i ≤ length games.gameids
      → Returns (update_buddies_game resolver is_first sids i games entries)
  unfolding update_buddies_game
  update_buddies_game-Returns resolver is_first [] i games entries h = (entries, refl)
  update_buddies_game-Returns resolver is_first (sid ∷ sids) i games entries h =
      let (game, at_i) = get_elem-Returns games.gameids i (omega arith) in
      elim (Option-cases (get_buddy_by_sid sid entries)) [
        | inl missing ↦
            rw (update_buddies_game, missing)
              (update_buddies_game-Returns resolver is_first sids (i + 1) games entries
                (omega arith))
        | inr (entry, found) ↦
            rw (update_buddies_game, found, at_i)
              (update_buddies_game-Returns resolver is_first sids (i + 1) games _ (omega arith))
      ]

  pub update_status-Returns :
      (sids : List Bytes) (i : ℕ) (msgs : List Bytes) (entries : List (BuddyListEntry Game))
      → length sids + i ≤ length msgs
      → Returns (update_status sids i msgs entries)
  unfolding update_status
  update_status-Returns [] i msgs entries h = (entries, refl)
  update_status-Returns (sid ∷ sids) i msgs entries h =
      let (msg, at_i) = get_elem-Returns msgs i (omega arith) in
      elim (Option-cases (get_buddy_by_sid sid entries)) [
        | inl missing ↦ rw (update_status, missing) (entries, refl)
        | inr (entry, found) ↦
            rw (update_status, found, at_i)
              (update_status-Returns sids (i + 1) msgs _ (omega arith))
      ]
