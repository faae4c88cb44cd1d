-- ===== src/Search/Read.antt =====
-- What the routines of gfire/src/x_search.c read from a packet, where the attribute stands in it and
-- where it does not.
use Prim.Native.Nat.add
use mathlib.Core.Path.{subst}
use xfire.Prelude.{
  ℕ, zero, suc, ◌+◌, ◌-◌, ◌*◌, ◌≤◌, ◌<◌, ◌≡◌, refl, ap, sym, ◌∙◌, [], ◌∷◌, ◌++◌, none, some, length,
  take, drop, get_elem?, le→leb, ◌==◌, ==_iff, every_below_sound, length-take, length-drop,
  drop-drop, append-nil, arith,
}
use xfire.Prelude.Tests.{every_below}
use xfire.Prelude.Int.{pos}
use xfire.Buffer.{Bytes, ◌>>=◌, pure, read_at}
use xfire.Buffer.Writes.{
  Writes, write-Writes, then-Writes, bind-Writes, known-Writes, silent-Writes, pure-Writes,
  Writes-whole, Writes-at, Writes-eq,
}
use xfire.Create.{strlen}
use xfire.Utils.{hex_sum, xfire_hex_to_int_c}
use xfire.Search.{place_after, xfire_read_fix_attr, Listed, copy_rows, xfire_read_dynamic_attr}
use xfire.Search.Find.{Occurs, Absent, find_string2-found, find_string2-Absent}

-- The arithmetic of `xfire_hex_to_int` on one byte gives the byte.
pub xfire_hex_to_int_c_lem : (c : ℕ) → c < 256 → xfire_hex_to_int_c c ≡ c
unfolding every_below xfire_hex_to_int_c hex_sum
xfire_hex_to_int_c_lem c h =
    (==_iff _ c).0 (every_below_sound (λ c. xfire_hex_to_int_c c == c) 256 c h refl)

read_at-fits : (s : Bytes) (i n : ℕ) → i + n ≤ length s → read_at s i n ≡ some (take n (drop i s))
unfolding read_at
read_at-fits s i n h = rw (le→leb _ _ h)

-- What reading `n` bytes to the front of an array leaves there.
abbrev pub read_out : Bytes → ℕ → ℕ → Bytes
read_out s i n = take n (drop i s)

length-read_out : (s : Bytes) (i n : ℕ) → i + n ≤ length s → length (read_out s i n) ≡ n
length-read_out s i n h = rw (length-take n (drop i s), length-drop i s) (omega arith)

-- For a name that stands at `i` inside the range that is searched, and nowhere in it before, and a
-- value behind the name and its tag that lies inside the packet and fits the caller's array: the
-- value is copied to the front of that array, and the place behind the value is returned.
pub read_fix_attr-found :
    (packet attr value : Bytes) (size start i attr_length attr_size : ℕ)
    → start ≤ i
    → i < size
    → i + length attr ≤ length packet
    → i + attr_length + attr_size ≤ length packet
    → attr_size ≤ length value
    → Absent packet attr (i - start) start
    → Occurs packet attr i
    → xfire_read_fix_attr packet attr (pos size) attr_length start attr_size value
      ≡ some (
        i + attr_length + attr_size,
        read_out packet (i + attr_length) attr_size ++ drop attr_size value,
      )
unfolding xfire_read_fix_attr place_after
read_fix_attr-found packet attr value size start i attr_length attr_size h below room room' fits
      absent occurs =
    Writes-whole
      (silent-Writes _
        (known-Writes 0 _ (some i)
          (find_string2-found packet attr size start i h below room absent occurs))
        (silent-Writes _
          (known-Writes 0 _ _ (read_at-fits packet (i + attr_length) attr_size room'))
          (then-Writes (write-Writes 0 _) refl (pure-Writes _ _))))
      value
    ∙ rw (
      append-nil (read_out packet (i + attr_length) attr_size),
      length-read_out packet (i + attr_length) attr_size room',
      le→leb _ _ fits,
    )

take-nil : (n : ℕ) → take {A = ℕ} n [] ≡ []
take-nil zero = refl
take-nil (suc n) = refl

take-add : (m n : ℕ) (xs : Bytes) → take (m + n) xs ≡ take m xs ++ take n (drop m xs)
take-add zero n xs = ap (λ k. take k xs) (omega arith)
take-add (suc m) n [] = take-nil (suc m + n) ∙ sym (take-nil n)
take-add (suc m) n (x ∷ xs) = rw add.suc (ap (◌∷◌ x) (take-add m n xs))

read_out-add :
    (s : Bytes) (i m n k : ℕ) → m + n ≡ k → read_out s i m ++ read_out s (i + m) n ≡ read_out s i k
read_out-add s i m n k e = rw (← e, take-add m n (drop i s), drop-drop i m s)

read_out-none : (s : Bytes) (i k : ℕ) → 0 ≡ k → [] ≡ read_out s i k
read_out-none s i k e = subst (λ k. [] ≡ take k (drop i s)) e refl

-- `n` rows of `att_len` bytes are copied one behind the other, as they stand in the packet.
copy_rows-Writes :
    (packet : Bytes) (att_len n i index : ℕ)
    → index + n * att_len ≤ length packet
    → Writes
        (copy_rows packet att_len n i index)
        (i * att_len)
        (read_out packet index (n * att_len))
        (index + n * att_len)
unfolding copy_rows
copy_rows-Writes packet att_len zero i index room =
    Writes-eq (pure-Writes (i * att_len) index) (read_out-none packet index _ (omega arith))
      (omega arith)
copy_rows-Writes packet att_len (suc n) i index room =
    Writes-eq
      (silent-Writes _ (known-Writes _ _ _ (read_at-fits packet index att_len (omega arith))) (
        then-Writes (write-Writes (i * att_len) _)
          (rw (length-read_out packet index att_len (omega arith)) (omega arith))
          (copy_rows-Writes packet att_len n (i + 1) (index + att_len) (omega arith))))
      (read_out-add packet index att_len (n * att_len) _ (omega arith)) (omega arith)

-- The rows, and what the routine returns.
rows-Writes :
    (packet : Bytes) (att_len number place index : ℕ)
    → number < 256
    → place ≡ index
    → index + number * att_len ≤ length packet
    → Writes {A = Listed}
        (copy_rows packet att_len (xfire_hex_to_int_c number) 0 place >>= λ after.
          pure {A = Listed} (record { index = after; number = xfire_hex_to_int_c number }))
        0
        (read_out packet index (number * att_len) ++ [])
        (record { index = index + number * att_len; number = number })
rows-Writes packet att_len number place index small e room =
    rw (xfire_hex_to_int_c_lem number small, e)
      (bind-Writes _ (Writes-at (copy_rows-Writes packet att_len number 0 index room) (omega arith))
        refl (pure-Writes _ _))

-- For a list whose name stands at `i` inside the range that is searched, and nowhere in it before,
-- with its number of rows, a byte, two bytes behind the name, and with rows that lie inside the
-- packet and fit the caller's array: the rows are copied to the front of that array, and the number
-- and the place behind them are returned.
pub read_dynamic_attr-found :
    (packet attr values : Bytes) (size start i att_len number : ℕ)
    → start ≤ i
    → i < size
    → i + (strlen attr + 2) + 2 + number * att_len ≤ length packet
    → number * att_len ≤ length values
    → Absent packet attr (i - start) start
    → Occurs packet attr i
    → get_elem? packet (i + (strlen attr + 2)) ≡ some number
    → number < 256
    → xfire_read_dynamic_attr packet (pos size) attr att_len start values
      ≡ some (
        record { index = i + (strlen attr + 2) + 2 + number * att_len; number = number },
        read_out packet (i + (strlen attr + 2) + 2) (number * att_len)
            ++ drop (number * att_len) values,
      )
unfolding xfire_read_dynamic_attr place_after
read_dynamic_attr-found packet attr values size start i att_len number h below room fits absent
      occurs byte byte_small =
    Writes-whole
      (silent-Writes _
        (known-Writes 0 _ (some i)
          (find_string2-found packet attr size start i h below (omega arith) absent occurs))
        (silent-Writes _ (known-Writes 0 _ number byte)
          (rows-Writes packet att_len number _ _ byte_small refl room)))
      values
    ∙ rw (
      append-nil (read_out packet (i + (strlen attr + 2) + 2) (number * att_len)),
      length-read_out packet (i + (strlen attr + 2) + 2) (number * att_len) room,
      le→leb _ _ fits,
    )

-- A list whose name is nowhere in the range that is searched is not reported as missing: the byte
-- at the place after the length of its name is taken for the number of rows, and what lies two
-- places on for the rows, as long as they lie inside the packet and fit the caller's array.
pub read_dynamic_attr-missing :
    (packet attr values : Bytes) (size start att_len number : ℕ)
    → start ≤ size
    → size + length attr ≤ suc (length packet)
    → strlen attr + 1 + 2 + number * att_len ≤ length packet
    → number * att_len ≤ length values
    → Absent packet attr (size - start) start
    → get_elem? packet (strlen attr + 1) ≡ some number
    → number < 256
    → xfire_read_dynamic_attr packet (pos size) attr att_len start values
      ≡ some (
        record { index = strlen attr + 1 + 2 + number * att_len; number = number },
        read_out packet (strlen attr + 1 + 2) (number * att_len) ++ drop (number * att_len) values,
      )
unfolding xfire_read_dynamic_attr place_after
read_dynamic_attr-missing packet attr values size start att_len number h top room fits absent byte
      small =
    Writes-whole
      (silent-Writes _
        (known-Writes 0 _ none (find_string2-Absent packet attr size start h top absent))
        (silent-Writes _ (known-Writes 0 _ number (place ∙ byte))
          (rows-Writes packet att_len number _ (strlen attr + 1 + 2) small place_is room)))
      values
    ∙ rw (
      append-nil (read_out packet (strlen attr + 1 + 2) (number * att_len)),
      length-read_out packet (strlen attr + 1 + 2) (number * att_len) room,
      le→leb _ _ fits,
    )
  where
    place_is : strlen attr + 2 - 1 + 2 ≡ strlen attr + 1 + 2
    place_is = omega arith

    place : get_elem? packet (strlen attr + 2 - 1) ≡ get_elem? packet (strlen attr + 1)
    place = ap (get_elem? packet) (omega arith)
