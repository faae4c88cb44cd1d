-- ===== src/Wire.antt =====
-- The packet format of gfire/protocol.md, as a description apart from the routines that write it:
-- a header with the length, the type and the number of attributes, then the attributes.
use xfire.Prelude.{
  ℕ, suc, ◌+◌, ◌/◌, ◌%◌, List, [], ◌∷◌, ◌++◌, Option, none, some, length, drop, leb, if◌then◌else◌,
}
use xfire.Buffer.{Bytes}

-- An attribute has a name or, in the newer packets, a number.
pub data Key : Type 0 where
  named : Bytes → Key
  numbered : ℕ → Key

-- The values by their tags: 1 a string, 2 four bytes, 3 a session id of 16 bytes, 4 a list
-- of strings, of numbers or of session ids, and 5 a group of attributes.
mutual
  pub data Value : Type 0 where
    text : Bytes → Value
    word : ℕ → Value
    sid : Bytes → Value
    texts : List Bytes → Value
    words : List ℕ → Value
    sids : List Bytes → Value
    group : Attrs → Value

  pub data Attrs : Type 0 where
    nil : Attrs
    attr : Key → Value → Attrs → Attrs

pub record Packet : Type 0 where
  pub type : ℕ
  pub attrs : Attrs

-- Numbers stand with their lowest byte first.
abbrev pub le16 : ℕ → Bytes
le16 n = n % 256 ∷ n / 256 % 256 ∷ []

abbrev pub le32 : ℕ → Bytes
le32 n = n % 256 ∷ n / 256 % 256 ∷ n / 65536 % 256 ∷ n / 16777216 % 256 ∷ []

abbrev pub encode_text : Bytes → Bytes
encode_text s = length s % 256 ∷ length s / 256 % 256 ∷ s

abbrev pub encode_texts : List Bytes → Bytes
encode_texts [] = []
encode_texts (s ∷ ss) = encode_text s ++ encode_texts ss

abbrev pub encode_words : List ℕ → Bytes
encode_words [] = []
encode_words (n ∷ ns) = le32 n ++ encode_words ns

abbrev pub encode_sids : List Bytes → Bytes
encode_sids [] = []
encode_sids (s ∷ ss) = s ++ encode_sids ss

abbrev pub encode_key : Key → Bytes
encode_key (named k) = length k % 256 ∷ k
encode_key (numbered n) = n ∷ []

abbrev pub count : Attrs → ℕ
count nil = 0
count (attr k v rest) = suc (count rest)

unfoldable mutual
  pub encode_value : Value → Bytes
  encode_value (text s) = 1 ∷ encode_text s
  encode_value (word n) = 2 ∷ le32 n
  encode_value (sid s) = 3 ∷ s
  encode_value (texts ss) = 4 ∷ 1 ∷ (le16 (length ss) ++ encode_texts ss)
  encode_value (words ns) = 4 ∷ 2 ∷ (le16 (length ns) ++ encode_words ns)
  encode_value (sids ss) = 4 ∷ 3 ∷ (le16 (length ss) ++ encode_sids ss)
  encode_value (group attrs) = 5 ∷ count attrs % 256 ∷ encode_attrs attrs

  pub encode_attrs : Attrs → Bytes
  encode_attrs nil = []
  encode_attrs (attr k v rest) = encode_key k ++ (encode_value v ++ encode_attrs rest)

-- A packet whose header names `n` attributes. The length counts the header's five bytes too.
unfoldable pub encode_counting : ℕ → Packet → Bytes
unfolding encode_attrs
encode_counting n p =
    let body = encode_attrs p.attrs in le16 (5 + length body) ++ (p.type % 256 ∷ 0 ∷ n % 256 ∷ body)

-- A packet with the right number in its header.
unfoldable pub encode : Packet → Bytes
unfolding encode_counting
encode p = encode_counting (count p.attrs) p

-- What storing `bs` in front of an array `b` leaves of it, with the number of bytes; `none` where
-- the array is too short for them.
abbrev pub stored : Bytes → Bytes → Option (ℕ × Bytes)
stored bs b =
    if leb (length bs) (length b) then some (length bs, bs ++ drop (length bs) b) else none

abbrev pub written : Packet → Bytes → Option (ℕ × Bytes)
written p b = stored (encode p) b
