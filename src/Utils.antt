-- ===== src/Utils.antt =====
-- gfire/src/x_utils.c: numbers and session ids as hexadecimal text, and the password hash.
pub mod Hex
pub mod Hash
use Prim.Native.Nat.{bit_and}
use xfire.Prelude.{
  ℕ, zero, suc, ◌+◌, ◌-◌, ◌*◌, ◌/◌, ◌^◌, List, [], ◌∷◌, ◌++◌, Option, none, some, length,
  if◌then◌else◌,
}
use xfire.Prelude.Int.{ℤ, pos, negsuc, ◌+ℤ◌, to_byte, signed_char, is_negative}
use xfire.Buffer.{Bytes, Op, ◌>>=◌, ◌>>◌, pure, put, write, memcpy, read_at, on, given}
use xfire.Clib.{strtol_16, format_02x}

-- The loop of `xfire_hex_to_int` over the bytes that are left.
unfoldable pub hex_sum : ℕ → Bytes → ℕ
hex_sum sum [] = sum
hex_sum sum (h ∷ hex) = hex_sum ((sum * 16 + bit_and h 0xf0 / 2 ^ 4) * 16 + bit_and h 0x0f) hex

-- `count` bytes of the array; the sum stays an `int` for up to three of them.
unfoldable pub xfire_hex_to_int : Bytes → ℕ → Option ℕ
unfolding hex_sum read_at
xfire_hex_to_int hex count = elim (read_at hex 0 count) [
  | none ↦ none
  | some bs ↦ some (hex_sum 0 bs)
]

-- `temp` has one byte, so nothing is read outside it.
unfoldable pub xfire_hex_to_int_c : ℕ → ℕ
unfolding hex_sum
xfire_hex_to_int_c hex = hex_sum 0 (hex ∷ [])

-- An `int` as `%x` prints it.
unfoldable pub as_unsigned : ℤ → ℕ
as_unsigned (pos n) = n
as_unsigned (negsuc n) = 2 ^ 32 - 1 - n

unfoldable pub hex_val : ℤ → Op (Unit {0})
unfolding as_unsigned
hex_val val =
    let val = if is_negative val then val +ℤ pos 256 else val in
    let temp = format_02x (as_unsigned val) in memcpy 0 temp (length temp)

-- The loop of `decodeString`; `source` is the string from place `2 * k` on. Behind an odd number of
-- characters stands the 0 that ends the string, and it ends `temp` too.
unfoldable pub decode_pairs : ℕ → Bytes → Op (Unit {0})
decode_pairs k [] = pure tt
decode_pairs k (a ∷ []) = put k (to_byte (strtol_16 (a ∷ [])))
decode_pairs k (a ∷ b ∷ source) = do
  put k (to_byte (strtol_16 (a ∷ b ∷ [])))
  decode_pairs (k + 1) source

unfoldable pub decode_string : Bytes → Op (Unit {0})
unfolding decode_pairs
decode_string source = decode_pairs 0 source

-- The loop of `toString` from place `i` on; `temp` is its array of two characters.
unfoldable pub hex_pairs : Bytes → ℕ → Bytes → Op (Unit {0})
hex_pairs temp i [] = pure tt
hex_pairs temp i (c ∷ source) = do
  temp ← on temp (hex_val (signed_char c))
  memcpy (i * 2) temp 2
  hex_pairs temp (i + 1) source

-- `temp` is not initialised: the argument is what it holds.
unfoldable pub to_string : Bytes → Bytes → ℕ → Op (Unit {0})
unfolding hex_pairs
to_string temp source length = do
  bytes ← given (read_at source 0 length)
  hex_pairs temp 0 bytes
  put (length * 2) 0x00

-- The loop of `hashSha1`: it adds 256 to a negative number before `hexVal` would.
unfoldable pub digest_pairs : Bytes → ℕ → Bytes → Op (Unit {0})
digest_pairs hex i [] = pure tt
digest_pairs hex i (c ∷ sha) = do
  let number = signed_char c
  let number = if is_negative number then number +ℤ pos 256 else number
  hex ← on hex (hex_val number)
  memcpy (i * 2) hex 2
  digest_pairs hex (i + 1) sha

-- `shaInit`, `shaUpdate` and `shaFinal` are gaim's: `sha1` is the digest that they leave for a text.
-- `hex` and `sha_local` are not initialised; `sha` is the array that the operation works on.
unfoldable pub hash_sha1 : (Bytes → Bytes) → Bytes → Bytes → Bytes → Op (Unit {0})
unfolding digest_pairs
hash_sha1 sha1 hex sha_local string = do
  write 0 (sha1 string)
  digest ← given (read_at (sha1 string) 0 20)
  sha_local ← on sha_local (digest_pairs hex 0 digest)
  memcpy 0 sha_local 40
