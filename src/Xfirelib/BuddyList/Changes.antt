-- ===== src/Xfirelib/BuddyList/Changes.antt =====
-- What each operation of BuddyList does to the ids of its entries.
use xfire.Prelude.{
  ℕ, ◌+◌, ◌≡◌, refl, ◌∙◌, Bool, true, false, List, [], ◌∷◌, Option, none, some, get_elem?,
  Option-cases, inl, inr,
}
use xfire.Partial.{Ensures}
use xfire.Buffer.{Bytes}
use xfire.Xfirelib.Incoming.{Games}
use xfire.Xfirelib.BuddyList.{
  BuddyListEntry, has_id, has_sid, get_buddy_by_id, get_buddy_by_sid, change_entry,
  update_online_buddies, set_game, update_buddies_game, update_status, update_nickname,
}
use xfire.Xfirelib.BuddyList.Ids.{ids, ids-change_entry}

module _ {Game : Type 0} where
  abbrev pub SameIds : List (BuddyListEntry Game) → List (BuddyListEntry Game) → Type 0
  SameIds entries entries2 = ids entries2 ≡ ids entries

  -- A change of one entry, and then the rest of a loop.
  SameIds-changed :
      (test : BuddyListEntry Game → Bool) (change : BuddyListEntry Game → BuddyListEntry Game)
      (entries : List (BuddyListEntry Game)) (o : Option (List (BuddyListEntry Game)))
      → ((entry : BuddyListEntry Game) → (change entry).userid ≡ entry.userid)
      → Ensures (SameIds (change_entry test change entries)) o
      → Ensures (SameIds entries) o
  SameIds-changed test change entries none keeps h = tt
  SameIds-changed test change entries (some entries2) keeps h =
      h ∙ ids-change_entry test change entries keeps

  pub update_online_buddies-SameIds :
      (userids : List ℕ) (i : ℕ) (sids : List Bytes) (entries : List (BuddyListEntry Game))
      → Ensures (SameIds entries) (update_online_buddies userids i sids entries)
  unfolding update_online_buddies
  update_online_buddies-SameIds [] i sids entries = refl
  update_online_buddies-SameIds (userid ∷ userids) i sids entries =
      elim (Option-cases (get_buddy_by_id userid entries)) [
        | inl missing ↦
            rw (update_online_buddies, missing)
              (update_online_buddies-SameIds userids (i + 1) sids entries)
        | inr (entry, found) ↦ elim (Option-cases (get_elem? sids i)) [
          | inl out ↦ rw (update_online_buddies, found, out) tt
          | inr (sid, at_i) ↦
              rw (update_online_buddies, found, at_i)
                (SameIds-changed (has_id userid) (λ entry. record entry { sid = sid }) entries _
                  (λ entry. refl) (update_online_buddies-SameIds userids (i + 1) sids _))
        ]
      ]

  set_game-userid :
      (resolver : Option (ℕ → ℕ → Games → Option Game)) (is_first : Bool) (game i : ℕ)
      (games : Games) (entry : BuddyListEntry Game)
      → (set_game resolver is_first game i games entry).userid ≡ entry.userid
  unfolding set_game
  set_game-userid resolver true game i games entry = refl
  set_game-userid resolver false game i games entry = refl

  pub update_buddies_game-SameIds :
      (resolver : Option (ℕ → ℕ → Games → Option Game)) (is_first : Bool) (sids : List Bytes)
      (i : ℕ) (games : Games) (entries : List (BuddyListEntry Game))
      → Ensures (SameIds entries) (update_buddies_game resolver is_first sids i games entries)
  unfolding update_buddies_game
  update_buddies_game-SameIds resolver is_first [] i games entries = refl
  update_buddies_game-SameIds resolver is_first (sid ∷ sids) i games entries =
      elim (Option-cases (get_buddy_by_sid sid entries)) [
        | inl missing ↦
            rw (update_buddies_game, missing)
              (update_buddies_game-SameIds resolver is_first sids (i + 1) games entries)
        | inr (entry, found) ↦ elim (Option-cases (get_elem? games.gameids i)) [
          | inl out ↦ rw (update_buddies_game, found, out) tt
          | inr (game, at_i) ↦
              rw (update_buddies_game, found, at_i)
                (SameIds-changed (has_sid sid) (set_game resolver is_first game i games) entries _
                  (set_game-userid resolver is_first game i games)
                  (update_buddies_game-SameIds resolver is_first sids (i + 1) games _))
        ]
      ]

  pub update_status-SameIds :
      (sids : List Bytes) (i : ℕ) (msgs : List Bytes) (entries : List (BuddyListEntry Game))
      → Ensures (SameIds entries) (update_status sids i msgs entries)
  unfolding update_status
  update_status-SameIds [] i msgs entries = refl
  update_status-SameIds (sid ∷ sids) i msgs entries =
      elim (Option-cases (get_buddy_by_sid sid entries)) [
        | inl missing ↦ rw (update_status, missing) refl
        | inr (entry, found) ↦ elim (Option-cases (get_elem? msgs i)) [
          | inl out ↦ rw (update_status, found, out) tt
          | inr (msg, at_i) ↦
              rw (update_status, found, at_i)
                (SameIds-changed (has_sid sid) _ entries _ (λ entry. refl)
                  (update_status-SameIds sids (i + 1) msgs _))
        ]
      ]

  pub update_nickname-SameIds :
      (userid : ℕ) (nickname : Bytes) (entries : List (BuddyListEntry Game))
      → SameIds entries (update_nickname userid nickname entries)
  unfolding update_nickname
  update_nickname-SameIds userid nickname entries =
      ids-change_entry (has_id userid) (λ entry. record entry { nick = nickname }) entries
        (λ entry. refl)
