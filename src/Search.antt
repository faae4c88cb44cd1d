-- ===== src/Search.antt =====
-- gfire/src/x_search.c: attributes are looked for by their names in the array of a packet, which is
-- longer than the packet. `none` is a read outside the array.
pub mod Find
pub mod Read
use xfire.Prelude.{
  ℕ, zero, suc, ◌+◌, ◌-◌, ◌*◌, ◌<◌, Bool, true, false, ◌&&◌, List, [], ◌∷◌, ◌++◌, Option, none,
  some, length, take, drop, get_elem?, ltb, leb, ◌==◌, if◌then◌else◌,
}
use xfire.Prelude.Int.{ℤ, pos, negsuc}
use xfire.Buffer.{Bytes, Op, ◌>>=◌, ◌>>◌, pure, put, write, memcpy, read_at, given, on}
use xfire.Create.{strlen}
use xfire.Utils.{xfire_hex_to_int_c}

-- `memcmp(a, b, n) == 0`, on `n` bytes each.
unfoldable pub same_bytes : Bytes → Bytes → Bool
same_bytes [] [] = true
same_bytes (a ∷ rest_a) (b ∷ rest_b) = a == b && same_bytes rest_a rest_b
same_bytes _ _ = false

-- The loop of `findString2`, with the rounds left and the place of `src`.
unfoldable pub find_from : Bytes → Bytes → ℕ → ℕ → Option (Option ℕ)
unfolding read_at same_bytes
find_from s c zero src = some none
find_from s c (suc rounds) src =
    let rest = find_from s c rounds (src + 1) in
    elim (read_at s src (length c)) [
      | none ↦ none
      | some bs ↦ if same_bytes bs c then some (some src) else rest
    ]

-- The rounds of `while (size_s-- != index)`. Where `size_s` is below `index` the test does not stop
-- the loop; one more round than the array has bytes leads outside the array.
unfoldable pub rounds_between : Bytes → ℤ → ℕ → ℕ
rounds_between s (pos size) index = if leb index size then size - index else length s + 1
rounds_between s (negsuc size) index = length s + 1

-- `findString2`; `some none` is its result -1. Every caller passes the length of `c` for `size_c`.
unfoldable pub find_string2 : Bytes → Bytes → ℤ → ℕ → Option (Option ℕ)
unfolding find_from rounds_between
find_string2 s c size_s index = find_from s c (rounds_between s size_s index) index

-- The loop of `findString`, with the number of places that are still to be passed.
unfoldable pub find_nth : Bytes → Bytes → ℕ → ℕ → ℕ → Option (Option ℕ)
unfolding read_at same_bytes
find_nth s c zero src to_find = some none
find_nth s c (suc rounds) src to_find =
    let found = find_nth s c rounds (src + 1) (to_find - 1) in
    let missed = find_nth s c rounds (src + 1) to_find in
    elim (read_at s src (length c)) [
      | none ↦ none
      | some bs ↦
          if same_bytes bs c then (if to_find == 1 then some (some src) else found) else missed
    ]

-- `findString` with a positive `number_to_find`; `some none` is NULL.
unfoldable pub find_string : Bytes → Bytes → ℤ → ℕ → Option (Option ℕ)
unfolding find_nth rounds_between
find_string s c size_s number_to_find = find_nth s c (rounds_between s size_s 0) 0 number_to_find

-- `findString2(…) + k`, for a positive `k`.
unfoldable pub place_after : Option ℕ → ℕ → ℕ
place_after (some i) k = i + k
place_after none k = k - 1

unfoldable pub xfire_read_var_attr : Bytes → Bytes → ℤ → ℕ → ℕ → ℕ → Op ℕ
unfolding place_after
xfire_read_var_attr packet attr packet_length attr_length start max_length = do
  found ← given (find_string2 packet attr packet_length start)
  let length_index = place_after found (attr_length + 1)
  byte ← given (get_elem? packet length_index)
  let length = xfire_hex_to_int_c byte
  (if leb length max_length
      then (given (read_at packet (length_index + 2) length) >>= λ bytes. write 0 bytes)
      else pure tt)
  (if ltb length max_length then put length 0 else pure tt)
  pure (length_index + 2 + length)

unfoldable pub xfire_read_fix_attr : Bytes → Bytes → ℤ → ℕ → ℕ → ℕ → Op ℕ
unfolding place_after
xfire_read_fix_attr packet attr packet_length attr_length start attr_size = do
  found ← given (find_string2 packet attr packet_length start)
  let att_index = place_after found attr_length
  bytes ← given (read_at packet att_index attr_size)
  write 0 bytes
  pure (att_index + attr_size)

-- What the two routines for lists return: the place after the list, and its length; the rows go
-- into the array that they work on.
pub record Listed : Type 0 where
  pub index : ℕ
  pub number : ℕ

-- The loop that copies rows of `att_len` bytes; in the array they stand one behind the other.
unfoldable pub copy_rows : Bytes → ℕ → ℕ → ℕ → ℕ → Op ℕ
copy_rows packet att_len zero i index = pure index
copy_rows packet att_len (suc n) i index = do
  bytes ← given (read_at packet index att_len)
  write (i * att_len) bytes
  copy_rows packet att_len n (i + 1) (index + att_len)

-- The test for -1 never succeeds, since `number_index` counts the name's length already. `vals` is
-- the local array, filled before it is copied.
unfoldable pub xfire_read_dynamic_attr : Bytes → ℤ → Bytes → ℕ → ℕ → Op Listed
unfolding place_after copy_rows
xfire_read_dynamic_attr packet packet_length attr att_len start = do
  found ← given (find_string2 packet attr packet_length start)
  let number_index = place_after found (strlen attr + 2)
  byte ← given (get_elem? packet number_index)
  let number = xfire_hex_to_int_c byte
  index ← copy_rows packet att_len number 0 (number_index + 2)
  pure (record { index = index; number = number })

-- The loop that copies texts, each into a row of `value_len` bytes, with a 0 behind it.
unfoldable pub copy_texts : Bytes → ℕ → ℕ → ℕ → ℕ → Op ℕ
copy_texts packet value_len zero i index = pure index
copy_texts packet value_len (suc n) i index = do
  byte ← given (get_elem? packet index)
  let length = xfire_hex_to_int_c byte
  bytes ← given (read_at packet (index + 2) length)
  write (i * value_len) bytes
  put (i * value_len + length) 0x00
  copy_texts packet value_len n (i + 1) (index + 2 + length)

-- `vals` is the local array, which is not initialised: `stack` is what lies there. It is copied
-- into the caller's array when all texts are read.
unfoldable pub xfire_read_dynamic_var_attr : Bytes → Bytes → ℤ → Bytes → ℕ → ℕ → Op Listed
unfolding place_after copy_texts
xfire_read_dynamic_var_attr stack packet packet_length attr start value_len = do
  found ← given (find_string2 packet attr packet_length start)
  let number_index = place_after found (strlen attr + 2)
  byte ← given (get_elem? packet number_index)
  let number = xfire_hex_to_int_c byte
  vals ← given (read_at stack 0 (value_len * number))
  (index, vals) ← given (copy_texts packet value_len number 0 (number_index + 2) vals)
  write 0 vals
  pure (record { index = index; number = number })
