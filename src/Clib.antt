-- ===== src/Clib.antt =====
-- The C library's number conversions, on strings without their closing 0.
use xfire.Prelude.{
  ℕ, zero, suc, ◌+◌, ◌-◌, ◌*◌, ◌/◌, ◌%◌, Bool, ◌&&◌, ◌||◌, [], ◌∷◌, ◌++◌, Option, none, some, ltb,
  leb, ◌==◌, if◌then◌else◌,
}
use xfire.Prelude.Int.{ℤ, pos, negsuc, sub_ℕ}
use xfire.Buffer.{Bytes}

-- A blank that `atoi` and `strtol` skip: space, or 9 to 13.
unfoldable pub is_space : ℕ → Bool
is_space c = c == 32 || (leb 9 c && leb c 13)

unfoldable pub skip_spaces : Bytes → Bytes
unfolding is_space
skip_spaces [] = []
skip_spaces (c ∷ s) = let rest = skip_spaces s in if is_space c then rest else c ∷ s

-- The value of a digit or letter, in base 36 at most.
unfoldable pub digit_value : ℕ → Option ℕ
digit_value c =
    if leb b'0' c && leb c b'9'
    then some (c - b'0')
    else if leb b'a' c && leb c b'z'
    then some (c - b'a' + 10)
    else if leb b'A' c && leb c b'Z'
    then some (c - b'A' + 10)
    else none

-- The digits up to the first byte that is none in this base, behind the value so far.
unfoldable pub scan_digits : ℕ → Bytes → ℕ → ℕ
unfolding digit_value
scan_digits base [] n = n
scan_digits base (c ∷ s) n = elim (digit_value c) [
  | none ↦ n
  | some d ↦ let rest = scan_digits base s (n * base + d) in if ltb d base then rest else n
]

-- Behind the blanks: a sign, if there is one, and the number.
abbrev signed_by : (Bytes → ℕ) → Bytes → ℤ
signed_by number [] = pos 0
signed_by number (c ∷ s) =
    if c == b'-'
    then sub_ℕ 0 (number s)
    else if c == b'+'
    then pos (number s)
    else pos (number (c ∷ s))

-- `atoi(s)`
unfoldable pub atoi : Bytes → ℤ
unfolding skip_spaces scan_digits
atoi s = signed_by (λ t. scan_digits 10 t 0) (skip_spaces s)

-- Base 16 allows `0x` in front of the digits.
unfoldable pub skip_0x : Bytes → Bytes
skip_0x (a ∷ x ∷ s) = if a == b'0' && (x == b'x' || x == b'X') then s else a ∷ x ∷ s
skip_0x s = s

-- `strtol(s, NULL, 16)`
unfoldable pub strtol_16 : Bytes → ℤ
unfolding skip_spaces scan_digits skip_0x
strtol_16 s = signed_by (λ t. scan_digits 16 (skip_0x t) 0) (skip_spaces s)

-- The digits of an unsigned number; ten places hold each 32-bit number in base 10 and 16.
unfoldable pub hex_digit : ℕ → ℕ
hex_digit d = if ltb d 10 then b'0' + d else b'a' + (d - 10)

unfoldable pub digits : ℕ → ℕ → ℕ → Bytes
unfolding hex_digit
digits zero base n = []
digits (suc places) base n =
    let rest = digits places base (n / base) in
    if ltb n base then hex_digit n ∷ [] else rest ++ (hex_digit (n % base) ∷ [])

-- `%02x`, of an unsigned 32-bit number.
unfoldable pub format_02x : ℕ → Bytes
unfolding digits
format_02x n = if ltb n 16 then b'0' ∷ digits 10 16 n else digits 10 16 n

-- `%d`
unfoldable pub format_d : ℤ → Bytes
unfolding digits
format_d (pos n) = digits 10 10 n
format_d (negsuc n) = b'-' ∷ digits 10 10 (n + 1)
