-- ===== src/Tests/Glib.antt =====
-- Functions that split, join, strip and compare texts as GLib's are documented to.
use xfire.Prelude.{
  ℕ, zero, suc, ◌≡◌, ◌≢◌, refl, ◌∙◌, List, [], ◌∷◌, ◌++◌, map, Option, some, Bool, true, false,
  ◌&&◌, ◌||◌, ◌==◌, length, take, append-nil, arith, Bool-cases, inl, inr,
}
use xfire.Buffer.{Bytes}
use xfire.Clib.{skip_spaces, is_space}
use xfire.Create.Address.{joined, Lacks}
use xfire.Search.{same_bytes}
use xfire.Glib.{Glib, Free, Splits, ReadsLines, lower}
use xfire.Tests.Split.{pieces, add_front, pieces-joined}

abbrev pub begins : Bytes → Bytes → Bool
begins [] s = true
begins (c ∷ d) [] = false
begins (c ∷ d) (x ∷ s) = x == c && begins d s

abbrev length_behind : Bytes → ℕ
length_behind [] = 0
length_behind (c ∷ d) = length d

-- The number is how much of a delimiter is still to be passed over.
unfoldable pub parts : Bytes → ℕ → Bytes → List Bytes
parts d k [] = [] ∷ []
parts d (suc k) (c ∷ s) = parts d k s
parts d zero (c ∷ s) = elim (begins d (c ∷ s)) [
  | true ↦ [] ∷ parts d (length_behind d) s
  | false ↦ add_front c (parts d zero s)
]

unfoldable pub split_text : Bytes → Bytes → List Bytes
unfolding parts
split_text [] d = []
split_text (c ∷ s) [] = (c ∷ s) ∷ []
split_text (c ∷ s) (x ∷ d) = parts (x ∷ d) 0 (c ∷ s)

unfoldable pub join_texts : Bytes → List Bytes → Bytes
join_texts s [] = []
join_texts s (p ∷ []) = p
join_texts s (p ∷ q ∷ ps) = p ++ (s ++ join_texts s (q ∷ ps))

abbrev pub reversed : Bytes → Bytes → Bytes
reversed [] r = r
reversed (c ∷ s) r = reversed s (c ∷ r)

unfoldable pub strip : Bytes → Bytes
unfolding skip_spaces is_space
strip s = reversed (skip_spaces (reversed (skip_spaces s) [])) []

abbrev pub occurs : Bytes → Bytes → Bool
occurs [] d = begins d []
occurs (c ∷ s) d = begins d (c ∷ s) || occurs s d

abbrev pub same_or_null : Option Bytes → Option Bytes → Bool
same_or_null (some a) (some b) = same_bytes (map lower a) (map lower b)
same_or_null _ _ = true

abbrev pub occurs_option : Option Bytes → Option Bytes → Bool
occurs_option (some s) (some d) = occurs s d
occurs_option _ _ = false

abbrev pub glib : Glib
glib = record {
  strsplit = split_text;
  strjoinv = join_texts;
  strstrip = strip;
  ascii_strcasecmp = same_or_null;
  ascii_strncasecmp = λ a b n. same_bytes (map lower (take n a)) (map lower (take n b));
  strrstr = occurs_option;
}

begins-take : (d s : Bytes) → begins d s ≡ true → take (length d) s ≡ d
begins-take [] s e = refl
begins-take (c ∷ d) [] e = cc
begins-take (c ∷ d) (x ∷ s) e = ground (arith, begins-take d s)

begins-append : (d q : Bytes) → begins d (d ++ q) ≡ true
begins-append [] q = refl
begins-append (c ∷ d) q = ground (arith, begins-append d q)

parts-skip : (d xs q : Bytes) → parts d (length xs) (xs ++ q) ≡ parts d 0 q
unfolding parts
parts-skip d [] q = refl
parts-skip d (x ∷ xs) q = parts-skip d xs q

abbrev in_front : Bytes → List Bytes → List Bytes
in_front [] ps = ps
in_front (c ∷ s) ps = add_front c (in_front s ps)

parts-Free :
    (d p tail : Bytes) → Free d p tail → parts d 0 (p ++ tail) ≡ in_front p (parts d 0 tail)
unfolding parts
parts-Free d [] tail h = refl
parts-Free d (c ∷ p) tail (here, free) = elim (Bool-cases (begins d (c ∷ (p ++ tail)))) [
  | inl e ↦ absurd (here (begins-take d (c ∷ (p ++ tail)) e))
  | inr e ↦ rw (e, parts) rw (parts-Free d p tail free) refl
]

parts-at : (c : ℕ) (d q : Bytes) → parts (c ∷ d) 0 (c ∷ (d ++ q)) ≡ [] ∷ parts (c ∷ d) 0 q
unfolding parts
parts-at c d q = rw (begins-append (c ∷ d) q, parts) rw (parts-skip (c ∷ d) d q) refl

parts-end : (d p : Bytes) → Free d p [] → parts d 0 p ≡ in_front p ([] ∷ [])
unfolding parts
parts-end d p free = rw (append-nil p) at (parts-Free d p [] free)

in_front-one : (p : Bytes) (ps : List Bytes) → in_front p ([] ∷ ps) ≡ p ∷ ps
in_front-one [] ps = refl
in_front-one (c ∷ p) ps = rw (in_front-one p ps) refl

split_text-some :
    (s : Bytes) (c : ℕ) (d : Bytes) → s ≢ [] → split_text s (c ∷ d) ≡ parts (c ∷ d) 0 s
unfolding split_text
split_text-some [] c d h = absurd (h refl)
split_text-some (x ∷ s) c d h = refl

append_some : (p : Bytes) (c : ℕ) (q : Bytes) → p ++ (c ∷ q) ≢ []
append_some [] c q e = cc
append_some (x ∷ p) c q e = cc

split_text-once :
    (d p q : Bytes)
    → d ≢ []
    → Free d p (d ++ q)
    → Free d q []
    → split_text (p ++ (d ++ q)) d ≡ p ∷ q ∷ []
split_text-once [] p q h before after = absurd (h refl)
split_text-once (c ∷ d) p q h before after =
    rw
      (
        split_text-some (p ++ (c ∷ (d ++ q))) c d (append_some p c (d ++ q)),
        parts-Free (c ∷ d) p (c ∷ (d ++ q)) before,
        parts-at c d q,
        parts-end (c ∷ d) q after,
        in_front-one q [],
        in_front-one p (q ∷ []),
      )
      refl

split_text-whole : (d p : Bytes) → d ≢ [] → p ≢ [] → Free d p [] → split_text p d ≡ p ∷ []
split_text-whole [] p h text free = absurd (h refl)
split_text-whole (c ∷ d) p h text free =
    rw (split_text-some p c d text, parts-end (c ∷ d) p free, in_front-one p []) refl

pub glib-Splits : Splits glib
unfolding split_text join_texts strip skip_spaces
glib-Splits = record {
  once = split_text-once;
  whole = split_text-whole;
  empty = λ d. refl;
  joins = λ s p q. refl;
  strips_empty = refl;
}

parts-pieces : (d : ℕ) (s : Bytes) → parts (d ∷ []) 0 s ≡ pieces d s
unfolding parts pieces
parts-pieces d [] = refl
parts-pieces d (c ∷ s) = elim (Bool-cases (c == d)) [
  | inl e ↦ rw (e, parts) rw (parts-pieces d s) refl
  | inr e ↦ rw (e, parts) rw (parts-pieces d s) refl
]

occurs-Lacks : (d : ℕ) (s : Bytes) → Lacks d s → occurs s (d ∷ []) ≡ false
occurs-Lacks d [] h = refl
occurs-Lacks d (c ∷ s) (differs, h) = ground (arith, occurs-Lacks d s h)

occurs_middle : (d : ℕ) (p q : Bytes) → occurs (p ++ (d ∷ q)) (d ∷ []) ≡ true
occurs_middle d [] q = ground arith
occurs_middle d (c ∷ p) q = ground (arith, occurs_middle d p q)

pub glib-ReadsLines : ReadsLines glib
glib-ReadsLines = record {
  splits_bytes = record {
    splits = λ d p ps text h.
        split_text-some (joined d p ps) d [] text
        ∙ parts-pieces d (joined d p ps)
        ∙ pieces-joined d p ps h;
  };
  compares = λ a b n. refl;
  finds_none = occurs-Lacks;
  finds_some = occurs_middle;
}
