-- ===== src/Search/Find.antt =====
-- `findString2` finds the first place of a name in an array (gfire/src/x_search.c).
use xfire.Prelude.{
  ℕ, zero, suc, ◌+◌, ◌-◌, ◌≤◌, ◌<◌, ◌≡◌, ◌⊎◌, refl, ap, sym, ◌∙◌, Bool, true, false, ◌&&◌, [], ◌∷◌,
  Option, none, some, length, take, drop, le→leb, ==_iff, arith, inl, inr, Bool-cases,
}
use mathlib.Core.Path.{subst}
use xfire.Prelude.Int.{pos}
use xfire.Buffer.{Bytes, read_at}
use xfire.Search.{same_bytes, find_from, rounds_between, find_string2}

-- The name `c` stands in `s` at place `i`.
abbrev pub Occurs : Bytes → Bytes → ℕ → Type 0
Occurs s c i = take (length c) (drop i s) ≡ c

-- It stands at none of the `n` places from `src` on.
abbrev pub Absent : Bytes → Bytes → ℕ → ℕ → Type 0
Absent s c zero src = Unit
Absent s c (suc n) src = ¬ Occurs s c src × Absent s c n (src + 1)

-- The result is the first of the `n` places from `src` on where the name stands, if there is one.
abbrev pub IsFirst : Bytes → Bytes → ℕ → ℕ → Option ℕ → Type 0
IsFirst s c n src none = Absent s c n src
IsFirst s c n src (some i) = (src ≤ i) × (i < src + n) × Occurs s c i × Absent s c (i - src) src

and-true : (a b : Bool) → (a && b) ≡ true → (a ≡ true) × (b ≡ true)
and-true a b h = ground arith

pub same_bytes→≡ : (a b : Bytes) → same_bytes a b ≡ true → a ≡ b
unfolding same_bytes
same_bytes→≡ [] [] h = refl
same_bytes→≡ [] (y ∷ b) h = ground arith
same_bytes→≡ (x ∷ a) [] h = ground arith
same_bytes→≡ (x ∷ a) (y ∷ b) h =
    let both = and-true _ _ h in
    ap (λ k. k ∷ a) ((==_iff x y).0 both.0) ∙ ap (◌∷◌ y) (same_bytes→≡ a b both.1)

pub same_bytes_self : (a : Bytes) → same_bytes a a ≡ true
unfolding same_bytes
same_bytes_self [] = refl
same_bytes_self (x ∷ a) = rw ((==_iff x x).1 refl) (same_bytes_self a)

find_from-hit :
    (s c : Bytes) (n src : ℕ)
    → src + length c ≤ length s
    → same_bytes (take (length c) (drop src s)) c ≡ true
    → find_from s c (suc n) src ≡ some (some src)
unfolding find_from read_at
find_from-hit s c n src room same = ground (arith, le→leb _ _ room)

find_from-miss :
    (s c : Bytes) (n src : ℕ)
    → src + length c ≤ length s
    → same_bytes (take (length c) (drop src s)) c ≡ false
    → find_from s c (suc n) src ≡ find_from s c n (src + 1)
unfolding find_from read_at
find_from-miss s c n src room differs = ground (arith, le→leb _ _ room)

¬occurs :
    (s c : Bytes) (src : ℕ) → same_bytes (take (length c) (drop src s)) c ≡ false → ¬ Occurs s c src
¬occurs s c src differs occurs = ground (arith, same_bytes_self c, ap (λ a. same_bytes a c) occurs)

IsFirst-later :
    (s c : Bytes) (n src : ℕ) (r : Option ℕ)
    → ¬ Occurs s c src
    → IsFirst s c n (src + 1) r
    → IsFirst s c (suc n) src r
IsFirst-later s c n src none miss later = (miss, later)
IsFirst-later s c n src (some i) miss (above, below, occurs, absent) = (
  omega arith,
  omega arith,
  occurs,
  subst (λ k. Absent s c k src) (steps i src above) (miss, absent),
)
  where
    steps : (i src : ℕ) → src + 1 ≤ i → suc (i - (src + 1)) ≡ i - src
    steps i src h = omega arith

Absent-at : (s c : Bytes) (n src i : ℕ) → Absent s c n src → src ≤ i → i < src + n → ¬ Occurs s c i
Absent-at s c zero src i absent above below = absurd (omega arith)
Absent-at s c (suc n) src i (miss, absent) above below = elim (le_cases src i above) [
  | inl here ↦ λ occurs. miss (subst (Occurs s c) (sym here) occurs)
  | inr later ↦ Absent-at s c n (src + 1) i absent later (omega arith)
]
  where
    le_cases : (src i : ℕ) → src ≤ i → (src ≡ i) ⊎ (src + 1 ≤ i)
    le_cases src i h = ground arith

IsFirst-here : (s c : Bytes) (n src : ℕ) → Occurs s c src → IsFirst s c (suc n) src (some src)
IsFirst-here s c n src occurs =
    (omega arith, omega arith, occurs, subst (λ k. Absent s c k src) (none_passed src) tt)
  where
    none_passed : (src : ℕ) → 0 ≡ src - src
    none_passed src = omega arith

find_from-IsFirst :
    (s c : Bytes) (n src : ℕ)
    → src + n + length c ≤ suc (length s)
    → (r : Option ℕ) × (find_from s c n src ≡ some r) × IsFirst s c n src r
unfolding find_from
find_from-IsFirst s c zero src room = (none, refl, tt)
find_from-IsFirst s c (suc n) src room =
    elim (Bool-cases (same_bytes (take (length c) (drop src s)) c)) [
      | inl same ↦
          let occurs = same_bytes→≡ _ _ same in
          (some src, find_from-hit s c n src (omega arith) same, IsFirst-here s c n src occurs)
      | inr differs ↦
          let rest = find_from-IsFirst s c n (src + 1) (omega arith) in
          (
            rest.0,
            find_from-miss s c n src (omega arith) differs ∙ rest.1,
            IsFirst-later s c n src rest.0 (¬occurs s c src differs) rest.2,
          )
    ]

-- Where the name fits into the array at each place from `index` up to `size`, `findString2` reads
-- nothing outside it, and it returns the first of these places where the name stands, or -1 where
-- it stands at none.
pub find_string2-IsFirst :
    (s c : Bytes) (size index : ℕ)
    → index ≤ size
    → size + length c ≤ suc (length s)
    → (r : Option ℕ) × (find_string2 s c (pos size) index ≡ some r)
      × IsFirst s c (size - index) index r
unfolding find_string2 rounds_between
find_string2-IsFirst s c size index h room =
    rw (le→leb index size h) (find_from-IsFirst s c (size - index) index (omega arith))

Occurs-same :
    (s c : Bytes) (src : ℕ) → Occurs s c src → same_bytes (take (length c) (drop src s)) c ≡ true
Occurs-same s c src occurs = rw occurs (same_bytes_self c)

Occurs-differs :
    (s c : Bytes) (src : ℕ) → ¬ Occurs s c src → same_bytes (take (length c) (drop src s)) c ≡ false
Occurs-differs s c src miss = elim (Bool-cases (same_bytes (take (length c) (drop src s)) c)) [
  | inl same ↦ absurd (miss (same_bytes→≡ _ _ same))
  | inr differs ↦ differs
]

-- The search passes the places where the name does not stand.
find_from-passes :
    (s c : Bytes) (k n src i : ℕ)
    → k < n
    → src + k ≡ i
    → i + length c ≤ length s
    → Absent s c k src
    → Occurs s c i
    → find_from s c n src ≡ some (some i)
find_from-passes s c k zero src i lt e room absent occurs = absurd (omega arith)
find_from-passes s c zero (suc n) src i lt e room absent occurs =
    let here = the_place src i e in
    find_from-hit s c n src (omega arith)
      (Occurs-same s c src (subst (Occurs s c) (sym here) occurs))
    ∙ ap (λ j. some (some j)) here
  where
    the_place : (src i : ℕ) → src + 0 ≡ i → src ≡ i
    the_place src i e = omega arith
find_from-passes s c (suc k) (suc n) src i lt e room (miss, absent) occurs =
    find_from-miss s c n src (omega arith) (Occurs-differs s c src miss)
    ∙ find_from-passes s c k n (src + 1) i (omega arith) (omega arith) (omega arith) absent occurs

-- A name that stands at `i`, and at none of the places from `index` up to it, is found there.
pub find_string2-found :
    (s c : Bytes) (size index i : ℕ)
    → index ≤ i
    → i < size
    → i + length c ≤ length s
    → Absent s c (i - index) index
    → Occurs s c i
    → find_string2 s c (pos size) index ≡ some (some i)
unfolding find_string2 rounds_between
find_string2-found s c size index i h below room absent occurs =
    rw (le→leb index size (omega arith)) (
      find_from-passes s c (i - index) (size - index) index i (omega arith) (omega arith) room
        absent occurs)

-- A name that stands nowhere in the range is reported as missing.
pub find_string2-Absent :
    (s c : Bytes) (size index : ℕ)
    → index ≤ size
    → size + length c ≤ suc (length s)
    → Absent s c (size - index) index
    → find_string2 s c (pos size) index ≡ some none
find_string2-Absent s c size index h room absent =
    outcome (find_string2-IsFirst s c size index h room)
  where
    outcome :
        (r : Option ℕ) × (find_string2 s c (pos size) index ≡ some r)
          × IsFirst s c (size - index) index r
        → find_string2 s c (pos size) index ≡ some none
    outcome (none, found, _) = found
    outcome (some i, found, (above, below, occurs, _)) =
        absurd (Absent-at s c (size - index) index i absent above below occurs)
