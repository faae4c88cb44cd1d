-- ===== src/Xfirelib/BuddyList/Online.antt =====
-- Who comes online, as a change of the entries that are found by id.
use xfire.Prelude.{
  ℕ, ◌+◌, ◌≤◌, ◌<◌, ◌≡◌, refl, sym, ap, ◌∙◌, false, List, [], ◌∷◌, Option, none, some, length,
  get_elem?, drop, ◌==◌, ==_iff, if◌then◌else◌, Bool-cases, Option-cases, inl, inr, zero, suc,
  arith,
}
use mathlib.Core.Option
use xfire.Buffer.{Bytes}
use xfire.Xfirelib.BuddyList.{
  BuddyListEntry, has_id, get_buddy_by_id, change_entry, update_online_buddies,
}
use xfire.Xfirelib.BuddyList.Ids.{ids, ids-change_entry, get_buddy_by_id-change_entry}

-- The session id of a user behind a packet that gives ids to users: the last one that the packet has for
-- the user, or the one from before.
abbrev pub sid_for : ℕ → List ℕ → List Bytes → Bytes → Bytes
sid_for u [] sids old = old
sid_for u (i ∷ userids) [] old = old
sid_for u (i ∷ userids) (sid ∷ sids) old = sid_for u userids sids (if i == u then sid else old)

elem_there :
    {A : Type 0} (xs : List A) (i : ℕ)
    → i < length xs
    → (x : A) × (get_elem? xs i ≡ some x) × (drop i xs ≡ x ∷ drop (suc i) xs)
elem_there [] i h = absurd (omega arith)
elem_there (x ∷ xs) zero h = (x, refl, refl)
elem_there (x ∷ xs) (suc i) h = elem_there xs i (omega arith)

map_same : {A : Type 0} (f : A → A) (o : Option A) → ((a : A) → f a ≡ a) → Option.map f o ≡ o
map_same f none h = refl
map_same f (some a) h = ap some (h a)

module _ {Game : Type 0} where
  abbrev pub with_sid : Bytes → BuddyListEntry Game → BuddyListEntry Game
  with_sid sid entry = record entry { sid = sid }

  abbrev pub come_online : ℕ → List ℕ → List Bytes → BuddyListEntry Game → BuddyListEntry Game
  come_online u userids sids entry = with_sid (sid_for u userids sids entry.sid) entry

  -- What the loop returns from its place `i` on.
  abbrev Online : List ℕ → ℕ → List Bytes → List (BuddyListEntry Game) → Type 0
  Online userids i sids entries =
      (entries2 : List (BuddyListEntry Game)) × (update_online_buddies userids i sids entries
        ≡ some entries2)
      × (ids entries2 ≡ ids entries)
      × ((u : ℕ)
          → get_buddy_by_id u entries2
            ≡ Option.map (come_online u userids (drop i sids)) (get_buddy_by_id u entries))

  come_online-step :
      (u userid : ℕ) (userids : List ℕ) (sid : Bytes) (sids : List Bytes)
      (o : Option (BuddyListEntry Game))
      → Option.map
          (come_online u userids sids)
          (if userid == u then Option.map (with_sid sid) o else o)
        ≡ Option.map (come_online u (userid ∷ userids) (sid ∷ sids)) o
  come_online-step u userid userids sid sids none = ground arith
  come_online-step u userid userids sid sids (some entry) = elim (Bool-cases (userid == u)) [
    | inl same ↦ rw same refl
    | inr other ↦ rw other refl
  ]

  come_online-other :
      (u userid : ℕ) (userids : List ℕ) (sid : Bytes) (sids : List Bytes)
      (o : Option (BuddyListEntry Game))
      → (userid == u) ≡ false
      → Option.map (come_online u userids sids) o
        ≡ Option.map (come_online u (userid ∷ userids) (sid ∷ sids)) o
  come_online-other u userid userids sid sids none other = refl
  come_online-other u userid userids sid sids (some entry) other = rw other refl

  come_online-missing :
      (u userid : ℕ) (userids : List ℕ) (sid : Bytes) (sids : List Bytes)
      (entries : List (BuddyListEntry Game))
      → get_buddy_by_id userid entries ≡ none
      → Option.map (come_online u userids sids) (get_buddy_by_id u entries)
        ≡ Option.map (come_online u (userid ∷ userids) (sid ∷ sids)) (get_buddy_by_id u entries)
  come_online-missing u userid userids sid sids entries missing = elim (Bool-cases (userid == u)) [
    | inl same ↦ rw (sym ((==_iff userid u).0 same), missing) refl
    | inr other ↦ come_online-other u userid userids sid sids (get_buddy_by_id u entries) other
  ]

  Online-there :
      (userid : ℕ) (userids : List ℕ) (i : ℕ) (sids : List Bytes)
      (entries : List (BuddyListEntry Game)) (sid : Bytes) (entry : BuddyListEntry Game)
      → get_buddy_by_id userid entries ≡ some entry
      → get_elem? sids i ≡ some sid
      → drop i sids ≡ sid ∷ drop (i + 1) sids
      → Online userids (i + 1) sids (change_entry (has_id userid) (with_sid sid) entries)
      → Online (userid ∷ userids) i sids entries
  unfolding update_online_buddies
  Online-there userid userids i sids entries sid entry found at_i rest
        (entries2, done, same, each) =
      (
        entries2,
        rw (update_online_buddies, found, at_i) done,
        same ∙ ids-change_entry (has_id userid) (with_sid sid) entries (λ entry. refl),
        λ u.
            each u
            ∙ ap (Option.map (come_online u userids (drop (i + 1) sids)))
                (get_buddy_by_id-change_entry userid u (with_sid sid) entries (λ entry. refl))
            ∙ come_online-step u userid userids sid (drop (i + 1) sids) (get_buddy_by_id u entries)
            ∙ ap (λ k. Option.map (come_online u (userid ∷ userids) k) (get_buddy_by_id u entries))
                (sym rest),
      )

  Online-missing :
      (userid : ℕ) (userids : List ℕ) (i : ℕ) (sids : List Bytes)
      (entries : List (BuddyListEntry Game)) (sid : Bytes)
      → get_buddy_by_id userid entries ≡ none
      → drop i sids ≡ sid ∷ drop (i + 1) sids
      → Online userids (i + 1) sids entries
      → Online (userid ∷ userids) i sids entries
  unfolding update_online_buddies
  Online-missing userid userids i sids entries sid missing rest (entries2, done, same, each) = (
    entries2,
    rw (update_online_buddies, missing) done,
    same,
    λ u.
        each u
        ∙ come_online-missing u userid userids sid (drop (i + 1) sids) entries missing
        ∙ ap (λ k. Option.map (come_online u (userid ∷ userids) k) (get_buddy_by_id u entries))
            (sym rest),
  )

  Online-enough :
      (userids : List ℕ) (i : ℕ) (sids : List Bytes) (entries : List (BuddyListEntry Game))
      → length userids + i ≤ length sids
      → Online userids i sids entries
  unfolding update_online_buddies
  Online-enough [] i sids entries h = (
    entries,
    refl,
    refl,
    λ u.
        sym (map_same (come_online u [] (drop i sids)) (get_buddy_by_id u entries) (λ entry. refl)),
  )
  Online-enough (userid ∷ userids) i sids entries h =
      let (sid, at_i, after) = elem_there sids i (omega arith) in
      let rest = after ∙ ap (λ k. sid ∷ drop k sids) {x = suc i} (omega arith) in
      elim (Option-cases (get_buddy_by_id userid entries)) [
        | inl missing ↦
            Online-missing userid userids i sids entries sid missing rest
              (Online-enough userids (i + 1) sids entries (omega arith))
        | inr (entry, found) ↦
            Online-there userid userids i sids entries sid entry found at_i rest (
              Online-enough userids (i + 1) sids
                (change_entry (has_id userid) (with_sid sid) entries) (omega arith))
      ]

  -- Where a packet has a session id for each of its users: the list has the ids it had, in their order,
  -- and for every user the entry that the list had, with the last session id that the packet gives this
  -- user, or the one from before.
  pub update_online_buddies-come_online :
      (userids : List ℕ) (sids : List Bytes) (entries : List (BuddyListEntry Game))
      → length userids ≤ length sids
      → (entries2 : List (BuddyListEntry Game)) × (update_online_buddies userids 0 sids entries
          ≡ some entries2)
        × (ids entries2 ≡ ids entries)
        × ((u : ℕ)
            → get_buddy_by_id u entries2
              ≡ Option.map (come_online u userids sids) (get_buddy_by_id u entries))
  update_online_buddies-come_online userids sids entries h =
      Online-enough userids 0 sids entries (omega arith)
