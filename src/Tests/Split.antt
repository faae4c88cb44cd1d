-- ===== src/Tests/Split.antt =====
-- A function that splits texts as GLib's `g_strsplit` is documented to.
use xfire.Prelude.{ℕ, ◌≢◌, ◌≡◌, refl, List, [], ◌∷◌, ◌==◌, if◌then◌else◌, All, arith}
use xfire.Buffer.{Bytes}
use xfire.Create.Address.{joined, Lacks, SplitsBytes}

abbrev pub add_front : ℕ → List Bytes → List Bytes
add_front c [] = (c ∷ []) ∷ []
add_front c (p ∷ ps) = (c ∷ p) ∷ ps

unfoldable pub pieces : ℕ → Bytes → List Bytes
pieces d [] = [] ∷ []
pieces d (c ∷ s) = let rest = pieces d s in if c == d then [] ∷ rest else add_front c rest

unfoldable pub strsplit : Bytes → Bytes → List Bytes
unfolding pieces
strsplit [] ds = []
strsplit (c ∷ s) [] = (c ∷ s) ∷ []
strsplit (c ∷ s) (d ∷ ds) = pieces d (c ∷ s)

pub pieces-joined :
    (d : ℕ) (p : Bytes) (ps : List Bytes)
    → All (Lacks d) (p ∷ ps)
    → pieces d (joined d p ps) ≡ p ∷ ps
unfolding pieces
pieces-joined d [] [] h = refl
pieces-joined d [] (q ∷ qs) (_, h) = ground (arith, pieces-joined d q qs h)
pieces-joined d (c ∷ p) [] ((differs, lacks), h) = ground (arith, pieces-joined d p [] (lacks, h))
pieces-joined d (c ∷ p) (q ∷ qs) ((differs, lacks), h) =
    ground (arith, pieces-joined d p (q ∷ qs) (lacks, h))

strsplit-pieces :
    {r : List Bytes} (d : ℕ) (t : Bytes) → t ≢ [] → pieces d t ≡ r → strsplit t (d ∷ []) ≡ r
unfolding strsplit
strsplit-pieces d [] some_text h = absurd (some_text refl)
strsplit-pieces d (c ∷ t) some_text h = h

pub strsplit-SplitsBytes : SplitsBytes strsplit
strsplit-SplitsBytes = record {
  splits =
      λ d p ps some_text h. strsplit-pieces d (joined d p ps) some_text (pieces-joined d p ps h);
}
