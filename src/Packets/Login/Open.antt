-- ===== src/Packets/Login/Open.antt =====
-- The first packets of a connection: what `xfire_open_connection2` stores, and what it should.
use xfire.Prelude.{
  ℕ, ◌%◌, ◌≡◌, refl, ◌∙◌, [], ◌∷◌, ◌++◌, some, none, codes, length, take, drop, leb, if◌then◌else◌,
  arith, length-append, drop-length_append,
}
use native.Mathlib.Nat.{add-zero}
use xfire.Buffer.{Bytes, ◌>>=◌, ◌>>◌}
use xfire.Buffer.Writes.{
  Writes, Fills, bind-Fills, then-Fills, puts-Writes, memcpy-Writes, then-Writes, end-Writes,
  bind-Writes, Writes-eq, pure-Writes,
}
use xfire.Buffer.Overlap.{put_later}
use xfire.Create.Pieces.{add_att_name-Writes, add_header-Writes}
use xfire.Wire.{Packet, nil, attr, named, word, words, texts, encode}
use xfire.Packets.Login.{open_skins, open_version_list, open_protocol, xfire_open_connection2}

-- The two packets that the protocol wants here: the skins with their versions, and the client's
-- version.
abbrev pub skins_packet : Packet
skins_packet = record {
  type = 18;
  attrs =
      attr (named (codes "skin")) (texts (codes "Standard" ∷ codes "XFire" ∷ []))
        (attr (named (codes "version")) (words (1 ∷ 1 ∷ [])) nil);
}

abbrev pub version_packet : ℕ → Packet
version_packet version = record {
  type = 3;
  attrs = attr (named (codes "version")) (word (version % 256)) nil;
}

abbrev pub intended : ℕ → Bytes
intended version = encode skins_packet ++ encode (version_packet version)

open_skins-Writes : Writes open_skins 0 (take 39 (encode skins_packet)) 39
unfolding open_skins encode
open_skins-Writes = then-Writes (add_header-Writes 51 18 2) refl (
    bind-Writes _ (add_att_name-Writes 5 _) refl (
      then-Writes (puts-Writes 10 _) refl (
        then-Writes (memcpy-Writes 16 _ 8 refl) refl (
          then-Writes (puts-Writes 24 _) refl
            (then-Writes (memcpy-Writes 26 _ 5 refl) refl (add_att_name-Writes 31 _))))))

open_version_list-Fills :
    (done : Bytes) (u v w x : ℕ) (back : Bytes)
    → length done ≡ 39
    → Fills (open_version_list 39) (4 ∷ 0 ∷ 2 ∷ x ∷ []) tt done (u ∷ v ∷ w ∷ x ∷ back)
unfolding open_version_list ◌>>◌
open_version_list-Fills done u v w x back e =
    rw
      (
        put_later done [] 39 u 4 (v ∷ w ∷ x ∷ back) (omega arith),
        put_later done (4 ∷ []) 40 v 2 (w ∷ x ∷ back) (omega arith),
        put_later done (4 ∷ 2 ∷ []) 41 w 2 (x ∷ back) (omega arith),
        put_later done (4 ∷ []) 40 2 0 (2 ∷ x ∷ back) (omega arith),
        ◌>>=◌,
      )
      (ground arith)

open_protocol-Writes :
    (version : ℕ) → Writes (open_protocol version 43) 43 (drop 43 (intended version)) 69
unfolding open_protocol encode
open_protocol-Writes version =
    Writes-eq
      (bind-Writes _
        (then-Writes (puts-Writes 43 _) refl
          (then-Writes (puts-Writes 47 _) refl (pure-Writes 51 51)))
        refl
        (then-Writes (puts-Writes 51 _) refl
          (bind-Writes _ (add_att_name-Writes 56 _) refl (end-Writes (puts-Writes 64 _) refl))))
      (ground arith) refl

-- What the routine stores where the array holds `x` at place 42: the two packets, but with a 0 for
-- the tag of the list of versions, and with `x` for the upper byte of their number.
abbrev pub opening : ℕ → ℕ → Bytes
opening x version = take 40 (intended version) ++ (0 ∷ 2 ∷ x ∷ drop 43 (intended version))

-- In an array of at least 43 bytes, with room for the rest, `xfire_open_connection2` returns 69 and
-- leaves `opening`; byte 42 keeps what the array, which is not initialised, held there. With less
-- room behind that byte it faults.
pub open_connection2-opening :
    (version : ℕ) (front : Bytes) (u v w x : ℕ) (back : Bytes)
    → length front ≡ 39
    → xfire_open_connection2 version (front ++ (u ∷ v ∷ w ∷ x ∷ back))
      ≡ (if leb 26 (length back) then some (69, opening x version ++ drop 26 back) else none)
unfolding xfire_open_connection2 encode
open_connection2-opening version front u v w x back e =
    bind-Fills open_skins _ (take 39 (encode skins_packet))
      ((4 ∷ 0 ∷ 2 ∷ x ∷ []) ++ drop 43 (intended version)) [] _ 39 69
      (open_skins-Writes.fills [] _ refl)
      (rw (behind) (
        then-Fills (open_version_list 39) (open_protocol version 43) (4 ∷ 0 ∷ 2 ∷ x ∷ [])
          (drop 43 (intended version)) (take 39 (encode skins_packet)) (u ∷ v ∷ w ∷ x ∷ back) 69
          (open_version_list-Fills (take 39 (encode skins_packet)) u v w x back refl)
          ((open_protocol-Writes version).fills
            (take 39 (encode skins_packet) ++ (4 ∷ 0 ∷ 2 ∷ x ∷ [])) back refl)))
    ∙ rw (length-append front (u ∷ v ∷ w ∷ x ∷ back), far) (ground (arith, e))
  where
    behind : drop 39 (front ++ (u ∷ v ∷ w ∷ x ∷ back)) ≡ u ∷ v ∷ w ∷ x ∷ back
    behind = rw (← e, ← add-zero (length front)) (drop-length_append 0 front _)

    far : drop 69 (front ++ (u ∷ v ∷ w ∷ x ∷ back)) ≡ drop 26 back
    far = rw (← drop-length_append 30 front (u ∷ v ∷ w ∷ x ∷ back)) (rw e refl)
