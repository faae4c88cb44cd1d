-- ===== src/Utils/Hex.antt =====
-- Hexadecimal text: `toString` writes two digits for each byte, and `decodeString` reads them back.
use xfire.Prelude.{
  ℕ, ◌+◌, ◌*◌, ◌/◌, ◌%◌, ◌≤◌, ◌<◌, ◌≡◌, refl, ◌∙◌, [], ◌∷◌, ◌++◌, some, length, drop, length-append,
  every_below_sound, ==_iff, ◌==◌, All, IsByte, arith, if◌then◌else◌,
}
use xfire.Prelude.Tests.{every_below}
use xfire.Prelude.Int.{pos, to_byte, signed_char, ◌+ℤ◌, is_negative}
use xfire.Buffer.{Bytes, pure, on, put}
use xfire.Buffer.Writes.{
  Writes, put-Writes, memcpy-Writes, then-Writes, bind-Writes, Writes-whole, pure-Writes,
  read_at-whole, on_whole, given-Writes, Writes-at,
}
use xfire.Clib.{hex_digit, format_02x, strtol_16}
use xfire.Utils.{hex_val, decode_pairs, decode_string, hex_pairs, to_string}

abbrev pub hex_pair : ℕ → Bytes
hex_pair c = hex_digit (c / 16) ∷ hex_digit (c % 16) ∷ []

abbrev pub hex_text : Bytes → Bytes
hex_text [] = []
hex_text (c ∷ s) = hex_digit (c / 16) ∷ hex_digit (c % 16) ∷ hex_text s

pub format_02x_lem : (c : ℕ) → c < 256 → format_02x c ≡ hex_pair c
unfolding format_02x
format_02x_lem c h = ground arith

-- A stored byte is read as a negative number where its top bit is set; adding 256 mends that.
pub unsigned_value :
    (c : ℕ)
    → c < 256
    → (if is_negative (signed_char c) then signed_char c +ℤ pos 256 else signed_char c) ≡ pos c
unfolding signed_char ◌+ℤ◌
unsigned_value c h = ground arith

pub hex_val_pos : (c : ℕ) → c < 256 → Writes (hex_val (pos c)) 0 (hex_pair c) tt
unfolding hex_val
hex_val_pos c h = rw (format_02x_lem c h) (memcpy-Writes 0 (hex_pair c) 2 refl)

hex_val_char : (c : ℕ) → c < 256 → hex_val (signed_char c) ≡ hex_val (pos c)
unfolding hex_val
hex_val_char c h = rw (unsigned_value c h)

-- One round of the loop of `toString`.
pair-Writes :
    (temp : Bytes) (c : ℕ)
    → c < 256
    → length temp ≡ 2
    → on temp (hex_val (signed_char c)) ≡ pure (hex_pair c)
pair-Writes temp c hc ht = rw (hex_val_char c hc) (on_whole temp (hex_val_pos c hc) ht)

hex_pairs-Writes :
    (source temp : Bytes) (i : ℕ)
    → All IsByte source
    → length temp ≡ 2
    → Writes (hex_pairs temp i source) (i * 2) (hex_text source) tt
unfolding hex_pairs
hex_pairs-Writes [] temp i _ _ = pure-Writes _ tt
hex_pairs-Writes (c ∷ source) temp i (hc, hs) ht = rw (pair-Writes temp c hc ht) (
    bind-Writes _ (pure-Writes _ (hex_pair c)) (omega arith) (
      then-Writes (memcpy-Writes (i * 2) (hex_pair c) 2 refl) (omega arith)
        (hex_pairs-Writes source (hex_pair c) (i + 1) hs refl)))

pub length-hex_text : (source : Bytes) → length (hex_text source) ≡ length source * 2
length-hex_text [] = refl
length-hex_text (c ∷ source) = omega (arith, length-hex_text source)

to_string-Writes :
    (source temp : Bytes)
    → All IsByte source
    → length temp ≡ 2
    → Writes (to_string temp source (length source)) 0 (hex_text source ++ 0 ∷ []) tt
unfolding to_string
to_string-Writes source temp hs ht = rw (read_at-whole source _ refl) (
    bind-Writes _ (given-Writes 0 source) refl (
      then-Writes (hex_pairs-Writes source temp 0 hs ht) refl
        (Writes-at (put-Writes _ 0) (omega (arith, length-hex_text source)))))

pub read_back : (c : ℕ) → c < 256 → to_byte (strtol_16 (hex_pair c)) ≡ c
unfolding every_below strtol_16 to_byte hex_digit
read_back c h =
    (==_iff _ c).0 (every_below_sound (λ c. to_byte (strtol_16 (hex_pair c)) == c) 256 c h refl)

put_back : (k c : ℕ) → c < 256 → Writes (put k (to_byte (strtol_16 (hex_pair c)))) k (c ∷ []) tt
put_back k c h = rw (read_back c h) (put-Writes k c)

decode_pairs-Writes :
    (source : Bytes) (k : ℕ)
    → All IsByte source
    → Writes (decode_pairs k (hex_text source)) k source tt
unfolding decode_pairs
decode_pairs-Writes [] k _ = pure-Writes k tt
decode_pairs-Writes (c ∷ source) k (hc, hs) =
    then-Writes (put_back k c hc) refl (decode_pairs-Writes source (k + 1) hs)

-- For every array of bytes, with a local array of two bytes and with room for the result:
-- `toString` writes two digits a byte and a closing 0, and `decodeString` reads the array back from
-- that text; what lies behind is kept.
pub decode_string-to_string :
    (source temp text dest : Bytes)
    → All IsByte source
    → length temp ≡ 2
    → length source * 2 < length text
    → length source ≤ length dest
    → (to_string temp source (length source) text
        ≡ some (tt, (hex_text source ++ 0 ∷ []) ++ drop (length source * 2 + 1) text))
      × (decode_string (hex_text source) dest ≡ some (tt, source ++ drop (length source) dest))
unfolding decode_string
decode_string-to_string source temp text dest hs ht room room' = (
  Writes-whole (to_string-Writes source temp hs ht) text
      ∙ ground (arith, length-append (hex_text source) (0 ∷ []), length-hex_text source),
  Writes-whole (decode_pairs-Writes source 0 hs) dest ∙ ground arith,
)

pub decode_string-Writes :
    (source : Bytes) → All IsByte source → Writes (decode_string (hex_text source)) 0 source tt
unfolding decode_string
decode_string-Writes source h = decode_pairs-Writes source 0 h
