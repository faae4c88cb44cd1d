-- ===== src/Glib.antt =====
-- The routines of GLib that read texts. They are not part of the repository, so they are a record of
-- functions, with what GLib documents of them as laws. A text that may be NULL is an option.
use xfire.Prelude.{
  ℕ, ◌+◌, ◌≡◌, ◌≢◌, Bool, true, false, ◌&&◌, List, [], ◌∷◌, ◌++◌, map, Option, some, length, take,
  leb, if◌then◌else◌,
}
use xfire.Buffer.{Bytes}
use xfire.Create.Address.{Lacks, SplitsBytes}
use xfire.Search.{same_bytes}

-- The comparisons stand for a result of 0, and `strrstr` for a result that is not NULL.
pub record Glib : Type 0 where
  pub strsplit : Bytes → Bytes → List Bytes
  pub strjoinv : Bytes → List Bytes → Bytes
  pub strstrip : Bytes → Bytes
  pub ascii_strcasecmp : Option Bytes → Option Bytes → Bool
  pub ascii_strncasecmp : Bytes → Bytes → ℕ → Bool
  pub strrstr : Option Bytes → Option Bytes → Bool

-- `d` does not begin at any place of `p`, where `tail` stands behind `p`.
abbrev pub Free : Bytes → Bytes → Bytes → Type 0
Free d [] tail = Unit
Free d (c ∷ p) tail = (take (length d) (c ∷ (p ++ tail)) ≢ d) × Free d p tail

abbrev pub lower : ℕ → ℕ
lower c = if leb b'A' c && leb c b'Z' then c + 32 else c

-- What the launch command needs: a text is split at the only place of a delimiter, and is left whole
-- where there is none; two parts are joined; an empty text has nothing to strip.
pub record Splits (g : Glib) : Type 0 where
  pub once :
      (d p q : Bytes)
      → d ≢ []
      → Free d p (d ++ q)
      → Free d q []
      → g.strsplit (p ++ (d ++ q)) d ≡ p ∷ q ∷ []
  pub whole : (d p : Bytes) → d ≢ [] → p ≢ [] → Free d p [] → g.strsplit p d ≡ p ∷ []
  pub empty : (d : Bytes) → g.strsplit [] d ≡ []
  pub joins : (s p q : Bytes) → g.strjoinv s (p ∷ q ∷ []) ≡ p ++ (s ++ q)
  pub strips_empty : g.strstrip [] ≡ []

-- What the file of XQF needs: splitting at one byte, comparing the beginnings of two texts without
-- regard to case, and finding one byte in a text.
pub record ReadsLines (g : Glib) : Type 0 where
  pub splits_bytes : SplitsBytes g.strsplit
  pub compares :
      (a b : Bytes) (n : ℕ)
      → g.ascii_strncasecmp a b n ≡ same_bytes (map lower (take n a)) (map lower (take n b))
  pub finds_none : (d : ℕ) (s : Bytes) → Lacks d s → g.strrstr (some s) (some (d ∷ [])) ≡ false
  pub finds_some : (d : ℕ) (p q : Bytes) → g.strrstr (some (p ++ (d ∷ q))) (some (d ∷ [])) ≡ true
