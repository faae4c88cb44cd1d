-- ===== src/Games/LaunchInfo/Matches.antt =====
-- Which game `xfire_xqf_search` finds.
use xfire.Prelude.{
  ℕ, zero, suc, ◌<◌, ◌≡◌, refl, sym, ap, ◌∙◌, ◌++◌, ◌⊎◌, All, Bool, true, false, Bool-cases, inl,
  inr, List, [], ◌∷◌, Option, some, codes, length, if◌then◌else◌, arith,
}
use xfire.Prelude.Int.{ℤ, pos}
use xfire.Search.Find.{same_bytes→≡, same_bytes_self}
use xfire.Buffer.{Bytes}
use xfire.Clib.{atoi}
use xfire.Glib.{Glib}
use xfire.Games.Document.{Xml, live}
use xfire.Games.Document.Search.{Chain}
use xfire.Games.Info.Element.{HasChildren}
use xfire.Games.LaunchInfo.{XqfInfo, is_match, search_children, search_games, xfire_xqf_search}

-- The numbers of the games and their children, in order, with at most `bound` children each.
abbrev pub Rows : (xml : Xml) → ℕ → List xml.Node → List (ℤ × List xml.Node) → Type 0
Rows xml bound [] [] = Unit
Rows xml bound [] (row ∷ rows) = ⊥
Rows xml bound (n ∷ ns) [] = ⊥
Rows xml bound (n ∷ ns) ((id, children) ∷ rows) =
    ((num : Bytes) × (xml.get_attrib n (codes "id") ≡ some num) × (atoi num ≡ id))
    × HasChildren xml bound n children
    × Rows xml bound ns rows

abbrev pub any {ℓ} : {A : Type ℓ} → (A → Bool) → List A → Bool
any p [] = false
any p (x ∷ xs) = if p x then true else any p xs

-- The number of the first game that has a child with the property, and 0 without such a game.
abbrev pub first_number {ℓ} : {N : Type ℓ} → (N → Bool) → List (ℤ × List N) → ℤ
first_number p [] = pos 0
first_number p ((id, children) ∷ rows) = if any p children then id else first_number p rows

refuted : true ≡ false → ⊥
refuted e = cc

any-splits :
    {N : Type 0} (p : N → Bool) (xs : List N)
    → any p xs ≡ true
    → (front back : List N) × (n : N) × (xs ≡ front ++ (n ∷ back)) × (p n ≡ true)
any-splits p [] h = ground arith
any-splits p (x ∷ xs) h = elim (Bool-cases (p x)) [
  | inl holds ↦ ([], xs, x, refl, holds)
  | inr fails ↦
      let (front, back, n, splits, holds) = any-splits p xs (rw fails at h) in
      (x ∷ front, back, n, ap (◌∷◌ x) splits, holds)
]

any-none : {N : Type 0} (p : N → Bool) (xs : List N) → any p xs ≡ false → All (λ n. p n ≡ false) xs
any-none p [] h = tt
any-none p (x ∷ xs) h = elim (Bool-cases (p x)) [
  | inl holds ↦ absurd (refuted (rw holds at h))
  | inr fails ↦ (fails, any-none p xs (rw fails at h))
]

module _ (xml : Xml) (g : Glib) (xqfs : XqfInfo) where
  search_children-any :
      (bound : ℕ) (first : Option xml.Node) (children : List xml.Node)
      → Chain xml.next first children
      → length children < bound
      → search_children xml g xqfs bound first ≡ some (any (is_match xml g xqfs) children)
  unfolding search_children
  search_children-any zero first children chain enough = absurd (omega arith)
  search_children-any (suc bound) first [] chain enough = rw (chain, search_children) refl
  search_children-any (suc bound) first (n ∷ ns) (here, chain) enough =
      elim (Bool-cases (is_match xml g xqfs n)) [
        | inl e ↦ rw (here, search_children) rw e refl
        | inr e ↦
            rw (here, search_children) rw e
              (search_children-any bound (xml.next n) ns chain (omega arith))
      ]

  search_games-first_number :
      (bound games : ℕ) (first : Option xml.Node) (nodes : List xml.Node)
      (rows : List (ℤ × List xml.Node))
      → Chain xml.get_next_twin first nodes
      → length nodes < games
      → Rows xml bound nodes rows
      → search_games xml g xqfs bound games first ≡ some (first_number (is_match xml g xqfs) rows)
  unfolding search_games
  search_games-first_number bound zero first nodes rows chain enough h = absurd (omega arith)
  search_games-first_number bound (suc games) first [] [] chain enough h =
      rw (chain, search_games) refl
  search_games-first_number bound (suc games) first [] (row ∷ rows) chain enough h = absurd h
  search_games-first_number bound (suc games) first (n ∷ ns) [] chain enough h = absurd h
  search_games-first_number bound (suc games) first (n ∷ ns) ((id, children) ∷ rows) (here, chain)
        enough ((num, there, number), kids, rest) =
      elim (Bool-cases (any (is_match xml g xqfs) children)) [
        | inl e ↦
            rw (here, search_games) rw
              (there, search_children-any bound (xml.child n) children kids.chain kids.enough) rw
              (e, number) refl
        | inr e ↦
            rw (here, search_games) rw
              (there, search_children-any bound (xml.child n) children kids.chain kids.enough) rw e
              (search_games-first_number bound games (xml.get_next_twin n) ns rows chain
                (omega arith) rest)
      ]

  -- The child is an element `xqf` whose name is the type of XQF's game, by GLib's comparison of
  -- names, and in whose `modlist` the mod of XQF's game stands, by GLib's search in a text.
  abbrev pub Matches : xml.Node → Type 0
  Matches n =
      (xml.is_tag n ≡ true)
      × (xml.name n ≡ codes "xqf")
      × (g.ascii_strcasecmp (xml.get_attrib n (codes "name")) xqfs.gtype ≡ true)
      × (g.strrstr (xml.get_attrib n (codes "modlist")) xqfs.mods ≡ true)

  is_match-Matches : (n : xml.Node) → is_match xml g xqfs n ≡ true → Matches n
  unfolding is_match
  is_match-Matches n h = (
    ground arith,
    same_bytes→≡ (xml.name n) (codes "xqf") (ground arith),
    ground arith,
    ground arith,
  )

  Matches-is_match : (n : xml.Node) → Matches n → is_match xml g xqfs n ≡ true
  unfolding is_match
  Matches-is_match n (is_tag, named, same_type, has_mod) =
      rw (is_match, is_tag, named, same_type, has_mod) rw (same_bytes_self (codes "xqf")) refl

  -- No game of these has a child that matches.
  abbrev pub NoneMatch : List (ℤ × List xml.Node) → Type 0
  NoneMatch = All (λ row. All (λ n. ¬ Matches n) row.1)

  -- The number is that of the first game with a child that matches, or 0, and there is no such game.
  abbrev pub IsFirstMatch : List (ℤ × List xml.Node) → ℤ → Type 0
  IsFirstMatch rows z =
      ((before after : List (ℤ × List xml.Node)) × (front back : List xml.Node) × (n : xml.Node)
        × (rows ≡ before ++ ((z, front ++ (n ∷ back)) ∷ after))
        × NoneMatch before
        × Matches n)
      ⊎ (NoneMatch rows × (z ≡ pos 0))

  differ :
      (children : List xml.Node)
      → All (λ n. is_match xml g xqfs n ≡ false) children
      → All (λ n. ¬ Matches n) children
  differ [] h = tt
  differ (n ∷ children) (fails, h) =
      (λ matches. refuted (sym (Matches-is_match n matches) ∙ fails), differ children h)

  first_number-IsFirstMatch :
      (rows : List (ℤ × List xml.Node))
      → IsFirstMatch rows (first_number (is_match xml g xqfs) rows)
  first_number-IsFirstMatch [] = inr (tt, refl)
  first_number-IsFirstMatch ((id, children) ∷ rows) =
      elim (Bool-cases (any (is_match xml g xqfs) children)) [
        | inl e ↦
            let (front, back, n, splits, holds) = any-splits (is_match xml g xqfs) children e in
            rw e (
              inl (
                [],
                rows,
                front,
                back,
                n,
                ap (λ k. (id, k) ∷ rows) splits,
                tt,
                is_match-Matches n holds,
              ))
        | inr e ↦ rw e (
            behind id children rows _ (differ children (any-none (is_match xml g xqfs) children e))
              (first_number-IsFirstMatch rows))
      ]
    where
      behind :
          (id : ℤ) (children : List xml.Node) (rows : List (ℤ × List xml.Node)) (z : ℤ)
          → All (λ n. ¬ Matches n) children
          → IsFirstMatch rows z
          → IsFirstMatch ((id, children) ∷ rows) z
      behind id children rows z here
            (inl (before, after, front, back, n, splits, earlier, matches)) =
          inl (
            (id, children) ∷ before,
            after,
            front,
            back,
            n,
            ap (◌∷◌ (id, children)) splits,
            (here, earlier),
            matches,
          )
      behind id children rows z here (inr (nowhere, is_0)) = inr ((here, nowhere), is_0)

-- With a launch document whose games are in a chain, each with a number and less than the bound of
-- children, in a chain too: `xfire_xqf_search` returns a number without a fault. It is that of the first
-- game with a child that is an element `xqf`, whose name equals the type of XQF's game by GLib's
-- comparison and in whose `modlist` GLib finds the mod; or it is 0, and no game has such a child.
pub xqf_search-IsFirstMatch :
    (xml : Xml) (g : Glib) (bound : ℕ) (root : xml.Node) (xqfs : XqfInfo) (nodes : List xml.Node)
    (rows : List (ℤ × List xml.Node))
    → Chain xml.get_next_twin (xml.get_child root (codes "game")) nodes
    → length nodes < bound
    → Rows xml bound nodes rows
    → (z : ℤ) × (xfire_xqf_search xml g bound (live root) xqfs ≡ some z)
      × IsFirstMatch xml g xqfs rows z
unfolding xfire_xqf_search
xqf_search-IsFirstMatch xml g bound root xqfs nodes rows chain enough h = (
  first_number (is_match xml g xqfs) rows,
  search_games-first_number xml g xqfs bound bound _ nodes rows chain enough h,
  first_number-IsFirstMatch xml g xqfs rows,
)
