-- ===== src/Xfirelib/Client/Ids.antt =====
-- The ids in the buddy list behind every packet that BuddyList::receivedPacket is given.
use xfire.Prelude.{
  ℕ, zero, suc, ◌+◌, ◌≡◌, refl, sym, ap, ◌∙◌, List, [], ◌∷◌, ◌++◌, Option, none, some, get_elem?,
  take, drop, length, append_assoc, append-nil, All, Bool-cases, inl, inr, ◌≤◌, ◌≢◌, ◌==◌,
  if◌then◌else◌, arith,
}
use mathlib.Core.Path.{subst}
use mathlib.Core.Option.{some-injective}
use xfire.Partial.{◌>>=◌, Ensures, Ensures-bind, Ensures-self, Ensures-map, Returns}
use xfire.Buffer.{Bytes}
use xfire.Xfirelib.Incoming.{Names, Games}
use xfire.Xfirelib.Reader.{Received}
use xfire.Xfirelib.BuddyList.{BuddyListEntry, new_entry, get_buddy_by_id, init_entries, erase_entry}
use xfire.Xfirelib.BuddyList.Ids.{ids, not-there}
use xfire.Xfirelib.BuddyList.Changes.{
  update_online_buddies-SameIds, update_buddies_game-SameIds, update_status-SameIds,
  update_nickname-SameIds,
}
use xfire.Xfirelib.BuddyList.Totality.{
  init_entries-Returns, update_online_buddies-Returns, update_buddies_game-Returns,
  update_status-Returns,
}
use xfire.Xfirelib.Client.{buddies_received}

drop-get :
    {A : Type 0} (xs : List A) (i : ℕ) (x : A)
    → get_elem? xs i ≡ some x
    → drop i xs ≡ x ∷ drop (suc i) xs
drop-get [] i x h = ground arith
drop-get (y ∷ xs) zero x h = ap (λ k. k ∷ xs) (some-injective _ _ h)
drop-get (y ∷ xs) (suc i) x h = drop-get xs i x h

-- The first place of a number in a list is taken out.
abbrev pub erase : ℕ → List ℕ → List ℕ
erase n [] = []
erase n (x ∷ xs) = let rest = erase n xs in if x == n then xs else x ∷ rest

-- The ids behind a packet: those beside the names of a list are added, known or not, that of a removed
-- buddy goes, and no other packet changes any.
abbrev pub ids_after : Received → List ℕ → List ℕ
ids_after (Received.buddies_names names) before =
    before ++ take (length names.usernames) names.userids
ids_after (Received.remove_buddy userid) before = erase userid before
ids_after content before = before

-- No list of a packet is shorter than the one that the handler goes through, and, for a packet about
-- games, no buddy has the id that is read from behind it.
abbrev pub IsFull : ℕ → Received → List ℕ → Type 0
IsFull stray (Received.buddies_names names) before =
    (length names.usernames ≤ length names.userids) × (length names.usernames ≤ length names.nicks)
IsFull stray (Received.buddies_online userids sids) before = length userids ≤ length sids
IsFull stray (Received.buddies_games is_first games) before =
    (length games.sids ≤ length games.gameids) × All (λ n. stray ≢ n) before
IsFull stray (Received.status_message sids msgs) before = length sids ≤ length msgs
IsFull stray content before = Unit

module _ {Game : Type 0} where
  ids-append :
      (entries others : List (BuddyListEntry Game))
      → ids (entries ++ others) ≡ ids entries ++ ids others
  ids-append [] others = refl
  ids-append (entry ∷ entries) others = ap (◌∷◌ entry.userid) (ids-append entries others)

  -- The new ids are those that stand beside the names.
  abbrev Adds : List ℕ → List (BuddyListEntry Game) → List (BuddyListEntry Game) → Type 0
  Adds new entries entries2 = ids entries2 ≡ ids entries ++ new

  Adds-first :
      (userid i n : ℕ) (nick username : Bytes) (userids : List ℕ)
      (entries entries2 : List (BuddyListEntry Game))
      → get_elem? userids i ≡ some userid
      → Adds
          (take n (drop (i + 1) userids))
          (entries ++ (new_entry userid nick username ∷ []))
          entries2
      → Adds (take (suc n) (drop i userids)) entries entries2
  unfolding new_entry
  Adds-first userid i n nick username userids entries entries2 at_i h =
      h
      ∙ ap (λ k. k ++ take n (drop (i + 1) userids))
          (ids-append entries (new_entry userid nick username ∷ []))
      ∙ append_assoc (ids entries) (userid ∷ []) (take n (drop (i + 1) userids))
      ∙ ap (λ k. ids entries ++ (userid ∷ take n (drop k userids))) {x = i + 1} {y = suc i}
          (omega arith)
      ∙ ap (λ k. ids entries ++ take (suc n) k) (sym (drop-get userids i userid at_i))

  init_entries-Adds :
      (usernames : List Bytes) (i : ℕ) (names : Names) (entries : List (BuddyListEntry Game))
      → Ensures
          (Adds (take (length usernames) (drop i names.userids)) entries)
          (init_entries usernames i names entries)
  unfolding init_entries
  init_entries-Adds [] i names entries = sym (append-nil (ids entries))
  init_entries-Adds (username ∷ usernames) i names entries =
      Ensures-bind (λ userid. get_elem? names.userids i ≡ some userid) added
        (get_elem? names.userids i)
        (λ userid. get_elem? names.nicks i >>= λ nick.
          init_entries usernames (i + 1) names (entries ++ (new_entry userid nick username ∷ [])))
        (Ensures-self (get_elem? names.userids i))
        (λ userid at_i.
          Ensures-bind (λ nick. get_elem? names.nicks i ≡ some nick) added (get_elem? names.nicks i)
            (λ nick.
              init_entries usernames (i + 1) names
                (entries ++ (new_entry userid nick username ∷ [])))
            (Ensures-self (get_elem? names.nicks i))
            (λ nick at_nick.
              Ensures-map _ added
                (init_entries usernames (i + 1) names
                  (entries ++ (new_entry userid nick username ∷ [])))
                (λ entries2.
                  Adds-first userid i (length usernames) nick username names.userids entries
                    entries2 at_i)
                (init_entries-Adds usernames (i + 1) names
                  (entries ++ (new_entry userid nick username ∷ [])))))
    where
      added : List (BuddyListEntry Game) → Type 0
      added = Adds (take (suc (length usernames)) (drop i names.userids)) entries

  -- The entries that are left, with these ids, and what is told of a removed buddy.
  abbrev Leaves : List ℕ → List (BuddyListEntry Game) × Option Bytes → Type 0
  Leaves after r = ids r.0 ≡ after

  abbrev Left : List ℕ → List (BuddyListEntry Game) → Type 0
  Left after entries = ids entries ≡ after

  kept :
      (after : List ℕ) (o : Option (List (BuddyListEntry Game)))
      → Returns o
      → Ensures (Left after) o
      → (r : List (BuddyListEntry Game) × Option Bytes) × ((o >>= λ entries. some (entries, none))
          ≡ some r)
        × Leaves after r
  unfolding ◌>>=◌
  kept after none (a, e) h = ground arith
  kept after (some entries) returned h = ((entries, none), refl, h)

  nobody_removed :
      (entries : List (BuddyListEntry Game)) (o : Option (BuddyListEntry Game))
      → o ≡ none
      → ◌≡◌ {A = Option (List (BuddyListEntry Game) × Option Bytes)}
          (elim o as (λ k. Option (List (BuddyListEntry Game) × Option Bytes)) [
            | none ↦ some (entries, none)
            | some _ ↦ none
          ])
          (some (entries, none))
  nobody_removed entries none h = refl
  nobody_removed entries (some entry) h = ground arith

  kept_whole :
      (stray : ℕ) (after : List ℕ) (o : Option (List (BuddyListEntry Game)))
      → All (λ n. stray ≢ n) after
      → Returns o
      → Ensures (Left after) o
      → (r : List (BuddyListEntry Game) × Option Bytes) × ((o >>= λ entries.
            elim (get_buddy_by_id stray entries) [ none ↦ some (entries, none) | some _ ↦ none ])
          ≡ some r)
        × Leaves after r
  unfolding ◌>>=◌
  kept_whole stray after none absent (a, e) h = ground arith
  kept_whole stray after (some entries) absent returned h = (
    (entries, none),
    nobody_removed entries (get_buddy_by_id stray entries) (
        not-there stray stray entries (subst (All (λ n. stray ≢ n)) (sym h) absent) (ground arith)),
    h,
  )

  erase_entry-erase :
      (userid : ℕ) (entries : List (BuddyListEntry Game))
      → ids (erase_entry userid entries) ≡ erase userid (ids entries)
  unfolding erase_entry
  erase_entry-erase userid [] = refl
  erase_entry-erase userid (entry ∷ entries) = elim (Bool-cases (entry.userid == userid)) [
    | inl found ↦ rw found refl
    | inr other ↦ rw other (ap (◌∷◌ entry.userid) (erase_entry-erase userid entries))
  ]

  -- For a packet whose lists are long enough, and for one about games only where nobody has the id that
  -- is read from behind it: the handler returns, and the ids in the list are those from before, in their
  -- order, without the first of a removed buddy's, and followed by all that stand beside the names of a
  -- list, whether or not the list has them.
  pub buddies_received-ids_after :
      (resolver : Option (ℕ → ℕ → Games → Option Game)) (stray : ℕ) (content : Received)
      (entries : List (BuddyListEntry Game))
      → IsFull stray content (ids entries)
      → (r : List (BuddyListEntry Game) × Option Bytes) × (buddies_received resolver stray content
            entries
          ≡ some r)
        × (ids r.0 ≡ ids_after content (ids entries))
  unfolding buddies_received
  buddies_received-ids_after resolver stray (Received.buddies_names names) entries
        (enough, enough_nicks) =
      kept _ _ (init_entries-Returns names.usernames 0 names entries (omega arith) (omega arith))
        (init_entries-Adds names.usernames 0 names entries)
  buddies_received-ids_after resolver stray (Received.buddies_online userids sids) entries enough =
      kept _ _ (update_online_buddies-Returns userids 0 sids entries (omega arith))
        (update_online_buddies-SameIds userids 0 sids entries)
  buddies_received-ids_after resolver stray (Received.buddies_games is_first games) entries
        (enough, absent) =
      kept_whole stray _ _ absent
        (update_buddies_game-Returns resolver is_first games.sids 0 games entries (omega arith))
        (update_buddies_game-SameIds resolver is_first games.sids 0 games entries)
  buddies_received-ids_after resolver stray (Received.remove_buddy userid) entries full =
      (_, refl, erase_entry-erase userid entries)
  buddies_received-ids_after resolver stray (Received.status_message sids msgs) entries enough =
      kept _ _ (update_status-Returns sids 0 msgs entries (omega arith))
        (update_status-SameIds sids 0 msgs entries)
  buddies_received-ids_after resolver stray (Received.nickname_change userid nickname) entries
        full =
      (_, refl, update_nickname-SameIds userid nickname entries)
  buddies_received-ids_after resolver stray (Received.silent c) entries full = (_, refl, refl)
  buddies_received-ids_after resolver stray (Received.auth salt) entries full = (_, refl, refl)
  buddies_received-ids_after resolver stray (Received.message packet) entries full = (_, refl, refl)
  buddies_received-ids_after resolver stray (Received.invite_request name nick msg) entries full =
      (_, refl, refl)
