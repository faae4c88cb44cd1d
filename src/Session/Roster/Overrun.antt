-- ===== src/Session/Roster/Overrun.antt =====
-- The array for a user's id has five bytes, and the id as text takes nine.
use xfire.Prelude.{
  ℕ, suc, ◌+◌, ◌*◌, ◌<◌, ◌≤◌, ◌≡◌, refl, ◌⊎◌, inl, inr, Option-cases, Bool-cases, List, [], ◌∷◌,
  ◌++◌, none, some, codes, length, take, drop, leb, length-append, length-take, length-drop, leb→le,
  All, IsByte, append-nil, drop_all, ◌∙◌, arith,
}
use xfire.Prelude.Int.{pos, signed_char}
use xfire.Buffer.{Bytes, on, given, memcpy, write, read_at, ◌>>=◌, ◌>>◌, pure, fault}
use xfire.Partial
use xfire.Session.Buddy.{Buddy}
use xfire.Search.{Listed, xfire_read_dynamic_attr}
use xfire.Buffer.Writes.{read_at-whole}
use xfire.Session.Roster.{
  Blist, ListLocals, id_text, online_round, online_rounds, xfire_read_buddy_online,
}
use mathlib.Core.Path.{subst}
use xfire.Utils.{hex_pairs, hex_val, to_string}
use xfire.Utils.Hex.{hex_text, decode_string-to_string}

read_at-length : (src : Bytes) (i n : ℕ) (bs : Bytes) → read_at src i n ≡ some bs → length bs ≡ n
unfolding read_at
read_at-length src i n bs e = grind (arith, length-take n (drop i src), length-drop i src)

-- What a copy into an array comes to: a fault, or an array of the same size that has room for it.
abbrev Copied : ℕ → Bytes → ℕ → Bytes → Type 0
Copied i src n b =
    (memcpy i src n b ≡ none)
    ⊎ ((b' : Bytes) × (memcpy i src n b ≡ some (tt, b'))
        × (length b' ≡ length b)
        × (i + n ≤ length b))

memcpy-Copied : (i : ℕ) (src : Bytes) (n : ℕ) (b : Bytes) → Copied i src n b
unfolding memcpy write fault
memcpy-Copied i src n b = elim (Option-cases (read_at src 0 n)) [
  | inl unread ↦ inl (rw (unread, memcpy) refl)
  | inr (bs, e) ↦ elim (Bool-cases (leb (i + length bs) (length b))) [
    | inr full ↦ inl (rw (e, memcpy) rw full refl)
    | inl fits ↦ inr (
      take i b ++ (bs ++ drop (i + length bs) b),
      rw (e, memcpy) rw fits refl,
      omega (
        arith,
        leb→le (i + length bs) (length b) fits,
        length-append (take i b) (bs ++ drop (i + length bs) b),
        length-append bs (drop (i + length bs) b),
        length-take i b,
        length-drop (i + length bs) b,
      ),
      omega (arith, leb→le (i + length bs) (length b) fits, read_at-length src 0 n bs e),
    )
  ]
]

-- One round of the loop of `toString`: it faults where the rounds behind it do.
hex_pairs-round :
    (temp source : Bytes) (c i : ℕ) (b : Bytes)
    → ((hex b' : Bytes)
        → length b' ≡ length b
        → i * 2 + 2 ≤ length b
        → hex_pairs hex (i + 1) source b' ≡ none)
    → hex_pairs temp i (c ∷ source) b ≡ none
unfolding hex_pairs ◌>>=◌ ◌>>◌ on fault pure
hex_pairs-round temp source c i b rest = elim (Option-cases (hex_val (signed_char c) temp)) [
  | inl unwritten ↦ rw (unwritten, hex_pairs, ◌>>=◌, on) refl
  | inr ((_, hex), e) ↦ elim (memcpy-Copied (i * 2) hex 2 b) [
    | inl outside ↦ rw (e, hex_pairs, ◌>>=◌, on) rw (outside, pure, ◌>>◌, ◌>>=◌) refl
    | inr (b', stored, same, fits) ↦
        rw (e, hex_pairs, ◌>>=◌, on) rw (stored, pure, ◌>>◌, ◌>>=◌) (rest hex b' same fits)
  ]
]

hex_pairs-outside :
    (temp source : Bytes) (c i : ℕ) (b : Bytes)
    → length b < (i + length (c ∷ source)) * 2
    → hex_pairs temp i (c ∷ source) b ≡ none
hex_pairs-outside temp [] c i b small =
    hex_pairs-round temp [] c i b (λ hex b' same fits. absurd (omega arith))
hex_pairs-outside temp (d ∷ source) c i b small =
    hex_pairs-round temp (d ∷ source) c i b
      (λ hex b' same fits. hex_pairs-outside hex source d (i + 1) b' (omega arith))

to_string-outside :
    (temp source b : Bytes) (n : ℕ)
    → length b < length source * 2
    → length source ≡ n
    → to_string temp source n b ≡ none
unfolding to_string ◌>>=◌ ◌>>◌ given pure
to_string-outside temp [] b n small size = absurd (omega arith)
to_string-outside temp (c ∷ source) b n small size =
    rw (read_at-whole (c ∷ source) n size, to_string) rw
      (hex_pairs-outside temp source c 0 b (omega arith), given, pure, ◌>>◌, ◌>>=◌) refl

id_text-outside :
    (locals : ListLocals) (ids : Bytes) (i : ℕ)
    → length locals.userid ≡ 5
    → id_text locals ids i ≡ none
unfolding id_text
id_text-outside locals ids i size = elim (Option-cases (read_at ids (i * 4) 4)) [
  | inl unread ↦ rw (unread, id_text, Partial.◌>>=◌) refl
  | inr (id, e) ↦
      rw (e, id_text, Partial.◌>>=◌) rw
        (to_string-outside locals.temp id locals.userid 4
          (omega (arith, read_at-length ids (i * 4) 4 id e)) (read_at-length ids (i * 4) 4 id e))
        refl
]

-- `xfire_read_buddy_online` has five bytes for a user's id as text. For a packet out of which it reads
-- the ids and at least one session id, where the first id is four bytes: `toString` stores past the end
-- of that array, and the handler faults with it, whatever the buddies are; in an array of nine bytes the
-- text of the id would have had its place.
pub read_buddy_online-overrun :
    (blist : Blist) (locals : ListLocals) (packet ids sids id wide : Bytes) (len n : ℕ)
    (users listed : Listed) (buddies : List Buddy)
    → length locals.userid ≡ 5
    → length locals.temp ≡ 2
    → length wide ≡ 9
    → All IsByte id
    → xfire_read_dynamic_attr packet (pos len) (codes "userid") 4 0 locals.ids ≡ some (users, ids)
    → xfire_read_dynamic_attr packet (pos len) (codes "sid") 16 0 locals.sids ≡ some (listed, sids)
    → listed.number ≡ suc n
    → read_at ids 0 4 ≡ some id
    → (to_string locals.temp id 4 locals.userid ≡ none)
      × (to_string locals.temp id 4 wide ≡ some (tt, hex_text id ++ 0 ∷ []))
      × (xfire_read_buddy_online blist locals packet len buddies ≡ none)
unfolding xfire_read_buddy_online online_rounds online_round
read_buddy_online-overrun blist locals packet ids sids id wide len n users listed buddies size two
      nine bytes ids_read sids_read some_row first_id =
    (
      to_string-outside locals.temp id locals.userid 4
          (omega (arith, read_at-length ids 0 4 id first_id)) (read_at-length ids 0 4 id first_id),
      subst (λ k. to_string locals.temp id k wide ≡ some (tt, hex_text id ++ 0 ∷ [])) four
          ((decode_string-to_string id locals.temp wide id bytes two (omega (arith, four))
              (omega arith)).0
            ∙ rw (drop_all wide (length id * 2 + 1) (omega (arith, four))) (simp append-nil)),
      rw (ids_read, xfire_read_buddy_online) rw sids_read rw
          (some_row, online_rounds, online_round, id_text-outside locals ids 0 size, Partial.◌>>=◌)
          refl,
    )
  where
    four : length id ≡ 4
    four = read_at-length ids 0 4 id first_id
