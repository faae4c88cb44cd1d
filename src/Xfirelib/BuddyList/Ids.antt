-- ===== src/Xfirelib/BuddyList/Ids.antt =====
-- The ids of the entries: no operation but that for a list of names brings new ones.
use xfire.Prelude.{
  ℕ, ◌≡◌, ◌≢◌, inl, inr, refl, ap, Bool, true, List, [], ◌∷◌, none, ◌==◌, ==_iff, if◌then◌else◌,
  All, Bool-cases, arith,
}
use mathlib.Core.Option
use xfire.Xfirelib.BuddyList.{
  BuddyListEntry, first_entry, has_id, get_buddy_by_id, change_entry, erase_entry,
}

module _ {Game : Type 0} where
  abbrev pub ids : List (BuddyListEntry Game) → List ℕ
  ids [] = []
  ids (entry ∷ entries) = entry.userid ∷ ids entries

  -- A change that leaves the id alone.
  abbrev pub KeepsId : (BuddyListEntry Game → BuddyListEntry Game) → Type 0
  KeepsId change = (entry : BuddyListEntry Game) → (change entry).userid ≡ entry.userid

  pub ids-change_entry :
      (test : BuddyListEntry Game → Bool) (change : BuddyListEntry Game → BuddyListEntry Game)
      (entries : List (BuddyListEntry Game))
      → KeepsId change
      → ids (change_entry test change entries) ≡ ids entries
  unfolding change_entry
  ids-change_entry test change [] keeps = refl
  ids-change_entry test change (entry ∷ entries) keeps = elim (Bool-cases (test entry)) [
    | inl here ↦ rw here (ap (λ k. k ∷ ids entries) (keeps entry))
    | inr later ↦ rw later (ap (◌∷◌ entry.userid) (ids-change_entry test change entries keeps))
  ]

  -- The entry for an id is the first one, before and after.
  pub get_buddy_by_id-change_entry :
      (i j : ℕ) (change : BuddyListEntry Game → BuddyListEntry Game)
      (entries : List (BuddyListEntry Game))
      → KeepsId change
      → get_buddy_by_id j (change_entry (has_id i) change entries) ≡ (
          if i == j
          then Option.map change (get_buddy_by_id j entries)
          else get_buddy_by_id j entries)
  unfolding get_buddy_by_id change_entry first_entry
  get_buddy_by_id-change_entry i j change [] keeps = ground arith
  get_buddy_by_id-change_entry i j change (entry ∷ entries) keeps =
      ground (arith, keeps entry, get_buddy_by_id-change_entry i j change entries keeps)

-- No number stands twice in the list.
abbrev pub Unique : List ℕ → Type 0
Unique [] = Unit
Unique (x ∷ xs) = All (λ y. x ≢ y) xs × Unique xs

pub not-there :
    {Game : Type 0} (i j : ℕ) (entries : List (BuddyListEntry Game))
    → All (λ y. i ≢ y) (ids entries)
    → (i == j) ≡ true
    → get_buddy_by_id j entries ≡ none
unfolding get_buddy_by_id first_entry
not-there i j [] h same = refl
not-there i j (entry ∷ entries) (differs, h) same =
    ground (arith, ==_iff i j, ==_iff entry.userid j, not-there i j entries h same)

-- For a list in which no id stands twice: when the entry with an id is erased, nobody has this id, and
-- everybody else is found as before.
pub get_buddy_by_id-erase_entry :
    {Game : Type 0} (i j : ℕ) (entries : List (BuddyListEntry Game))
    → Unique (ids entries)
    → get_buddy_by_id j (erase_entry i entries)
      ≡ (if i == j then none else get_buddy_by_id j entries)
unfolding get_buddy_by_id erase_entry first_entry
get_buddy_by_id-erase_entry i j [] h = ground arith
get_buddy_by_id-erase_entry i j (entry ∷ entries) (here, h) = ground (
  arith,
  ==_iff i j,
  ==_iff entry.userid i,
  ==_iff entry.userid j,
  not-there entry.userid j entries here,
  get_buddy_by_id-erase_entry i j entries h,
)
