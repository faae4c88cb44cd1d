-- ===== src/Tests/Search.antt =====
-- The searches at concrete packets.
use xfire.Prelude.{ℕ, ◌≡◌, refl, [], ◌∷◌, ◌++◌, some, Option, codes, replicate, drop, arith}
use xfire.Prelude.Int.{pos}
use xfire.Buffer.{Bytes}
use xfire.Search.{find_string2, xfire_read_dynamic_attr}
use xfire.Search.Find.{Absent, IsFirst, find_string2-IsFirst}
use xfire.Search.Read.{read_out, read_dynamic_attr-found}

-- The session id of a packet, and a list of two user ids.
abbrev sid_packet : Bytes
sid_packet = (3 ∷ codes "sid") ++ (3 ∷ replicate 16 9)

abbrev list_packet : Bytes
list_packet = (6 ∷ codes "userid") ++ (4 ∷ 2 ∷ 2 ∷ 0 ∷ 1 ∷ 0 ∷ 0 ∷ 0 ∷ 2 ∷ 0 ∷ 0 ∷ 0 ∷ [])

sid_Absent : Absent sid_packet (codes "sid") 1 0
sid_Absent = (λ same. ground arith, tt)

userid_Absent : Absent list_packet (codes "userid") 1 0
userid_Absent = (λ same. ground arith, tt)

abbrev other_packet : Bytes
other_packet = 0 ∷ 0 ∷ 0 ∷ 0 ∷ 1 ∷ 0 ∷ 9 ∷ 8 ∷ 7 ∷ 6 ∷ []

gip_Absent : Absent other_packet (codes "gip") 4 0
gip_Absent = (
  λ same. ground arith,
  (λ same. ground arith, (λ same. ground arith, (λ same. ground arith, tt))),
)

find_string2-IsFirst_example :
    (r : Option ℕ) × (find_string2 sid_packet (codes "sid") (pos 18) 0 ≡ some r)
    × IsFirst sid_packet (codes "sid") 18 0 r
find_string2-IsFirst_example =
    find_string2-IsFirst sid_packet (codes "sid") 18 0 (omega arith) (omega arith)

read_dynamic_attr-found_example :
    xfire_read_dynamic_attr list_packet (pos 19) (codes "userid") 4 0 (replicate 8 0)
    ≡ some (record { index = 19; number = 2 }, read_out list_packet 11 8 ++ drop 8 (replicate 8 0))
read_dynamic_attr-found_example =
    read_dynamic_attr-found list_packet (codes "userid") (replicate 8 0) 19 0 1 4 2 (omega arith)
      (omega arith) (omega arith) (omega arith) userid_Absent refl refl (omega arith)
