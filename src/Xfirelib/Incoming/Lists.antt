-- ===== src/Xfirelib/Incoming/Lists.antt =====
-- The lists in the packets about buddies, where the bytes at their place are known.
use xfire.Prelude.{
  ℕ, ◌+◌, ◌*◌, ◌%◌, ◌/◌, ◌<◌, ◌≡◌, refl, ap, ◌∙◌, List, [], ◌∷◌, ◌++◌, Option, some, length, All,
  false, codes, length-append, append_assoc, arith,
}
use mathlib.Core.Path.{subst}
use xfire.Partial.{◌>>=◌}
use xfire.Buffer.{Bytes}
use xfire.Packets.Login.Format.{IsText}
use xfire.Wire.{
  Attrs, nil, attr, named, texts, words, sids, encode_attrs, encode_texts, encode_words,
  encode_sids, le16, le32,
}
use xfire.Xfirelib.Value.{
  VariableValue, no_value, set_value, long_of_bytes, read_counted_value, read_bytes,
}
use xfire.Xfirelib.Value.Places.{At, At-drop, At-whole, At-read}
use xfire.Xfirelib.Incoming.{
  advance, read_longs, read_values, string_loop, read_strings, list_number, Names, parse_names,
  parse_online,
}
use xfire.Xfirelib.Incoming.Steps.{
  known_step, name_step, value_step, long_step, bytes_step, get_step,
}
use xfire.Xfirelib.Incoming.Message.{long-le32, long-le16}

pub read_longs-At :
    (buf : Bytes) (i : ℕ) (ns : List ℕ) (rest : Bytes)
    → At buf i (encode_words ns ++ rest)
    → All (λ n. n < 4294967296) ns
    → read_longs buf 4 (length ns) i ≡ some (i + length (encode_words ns), ns)
unfolding read_longs
read_longs-At buf i [] rest at low = ap (λ k. some (k, [])) {x = i} {y = i + 0} (omega arith)
read_longs-At buf i (n ∷ ns) rest at (h, low) =
    value_step _ no_value 4 (le32 n) (encode_words ns ++ rest) at refl
    ∙ long_step _ (le32 n) no_value
    ∙ known_step _ _ _ (read_longs-At buf (i + 4) ns rest (At-drop (le32 n) at refl) low)
    ∙ ap (λ k. some (i + 4 + length (encode_words ns), k ∷ ns)) (long-le32 n h)
    ∙ ap (λ k. some (k, n ∷ ns)) {x = i + 4 + length (encode_words ns)}
        {y = i + length (encode_words (n ∷ ns))} (omega arith)

pub read_values-At :
    (buf : Bytes) (i : ℕ) (ss : List Bytes) (rest : Bytes)
    → At buf i (encode_sids ss ++ rest)
    → All (λ s. length s ≡ 16) ss
    → read_values buf 16 (length ss) i ≡ some (i + length (encode_sids ss), ss)
unfolding read_values
read_values-At buf i [] rest at size = ap (λ k. some (k, [])) {x = i} {y = i + 0} (omega arith)
read_values-At buf i (s ∷ ss) rest at (h, size) =
    value_step _ no_value 16 s (encode_sids ss ++ rest)
      (subst (At buf i) (append_assoc s (encode_sids ss) rest) at) h
    ∙ bytes_step _ s no_value
    ∙ known_step _ _ _ (
        read_values-At buf (i + 16) ss rest
          (At-drop s (subst (At buf i) (append_assoc s (encode_sids ss) rest) at)
            (ap (λ k. i + k) h))
          size)
    ∙ ap (λ k. some (k, s ∷ ss)) {x = i + 16 + length (encode_sids ss)}
        {y = i + length (s ++ encode_sids ss)} (omega (arith, h, length-append s (encode_sids ss)))

pub list_number-At :
    (buf : Bytes) (i : ℕ) (name : Bytes) (kind type number zero_byte : ℕ) (rest : Bytes)
    → At buf i (length name ∷ name ++ (kind ∷ type ∷ number ∷ zero_byte ∷ rest))
    → length name < 128
    → IsText name
    → list_number buf i ≡ some (i + (1 + length name) + 4, number)
unfolding list_number
list_number-At buf i name kind type number zero_byte rest at short plain =
    name_step _ no_value name (kind ∷ type ∷ number ∷ zero_byte ∷ rest) at short plain
    ∙ get_step _ (zero_byte ∷ rest) place
  where
    place : At buf (i + (1 + length name) + 2) (number ∷ zero_byte ∷ rest)
    place = At-drop (kind ∷ type ∷ []) (At-drop (length name ∷ name) at (omega arith)) refl

-- A list of strings of at most 255 bytes.
pub string_loop-At :
    (buf : Bytes) (i : ℕ) (ss : List Bytes) (rest : Bytes)
    → At buf i (encode_texts ss ++ rest)
    → All (λ s. length s < 256) ss
    → string_loop buf (length ss) i ≡ some (i + length (encode_texts ss), ss)
unfolding string_loop
string_loop-At buf i [] rest at short = ap (λ k. some (k, [])) {x = i} {y = i + 0} (omega arith)
string_loop-At buf i (s ∷ ss) rest at (h, short) =
    get_step _ (length s / 256 % 256 ∷ (s ++ (encode_texts ss ++ rest))) place
    ∙ value_step _ no_value (length s % 256) s (encode_texts ss ++ rest) behind (omega (arith, h))
    ∙ bytes_step _ s no_value
    ∙ known_step _ _ _ (
        string_loop-At buf (i + 2 + length s % 256) ss rest (At-drop s behind (omega (arith, h)))
          short)
    ∙ ap (λ k. some (k, s ∷ ss)) {x = i + 2 + length s % 256 + length (encode_texts ss)}
        {y = i + length (encode_texts (s ∷ ss))}
        (omega (arith, h, length-append s (encode_texts ss)))
  where
    place : At buf i (length s % 256 ∷ length s / 256 % 256 ∷ (s ++ (encode_texts ss ++ rest)))
    place =
        subst (At buf i)
          (ap (λ k. length s % 256 ∷ length s / 256 % 256 ∷ k)
            (append_assoc s (encode_texts ss) rest))
          at

    behind : At buf (i + 2) (s ++ (encode_texts ss ++ rest))
    behind = At-drop (length s % 256 ∷ length s / 256 % 256 ∷ []) place refl

-- A name and the front of a list with the tag of its items: the number of items is a value whose
-- length is this tag.
pub counted_step :
    {B : Type 0} (f : ℕ × VariableValue → Option B) (v : VariableValue) {buf : Bytes} {i : ℕ}
    (type : ℕ) (bs rest : Bytes)
    → At buf i (type ∷ bs ++ rest)
    → length bs ≡ type
    → (advance i (read_counted_value buf i false v) >>= f) ≡ f (i + (1 + type), set_value bs v)
unfolding read_counted_value read_bytes
counted_step f v {buf} {i} type bs rest at size = known_step _ f _ (
    ap (advance i) (
      get_step _ (bs ++ rest) at
      ∙ known_step _ _ bs (At-read bs rest (At-drop (type ∷ []) at refl) size)))

pub read_strings-At :
    (buf : Bytes) (i : ℕ) (ss : List Bytes) (rest : Bytes)
    → At buf i (1 ∷ le16 (length ss) ++ (encode_texts ss ++ rest))
    → length ss < 256
    → All (λ s. length s < 256) ss
    → read_strings buf i ≡ some (i + 3 + length (encode_texts ss), ss)
unfolding read_strings long_of_bytes
read_strings-At buf i ss rest at few short =
    counted_step _ no_value 1 (length ss % 256 ∷ [])
      (length ss / 256 % 256 ∷ (encode_texts ss ++ rest)) at refl
    ∙ long_step _ (length ss % 256 ∷ []) no_value
    ∙ ap (λ n. string_loop buf n (i + (1 + 1) + 1)) {x = length ss % 256 * 1 + 0} {y = length ss}
        (omega (arith, few))
    ∙ string_loop-At buf (i + (1 + 1) + 1) ss rest (At-drop (1 ∷ le16 (length ss)) at (omega arith))
        short
    ∙ ap (λ k. some (k, ss)) {x = i + (1 + 1) + 1 + length (encode_texts ss)}
        {y = i + 3 + length (encode_texts ss)} (omega arith)

-- The attributes of the two packets, as gfire/protocol.md has them.
abbrev pub online_attrs : List ℕ → List Bytes → Attrs
online_attrs userids ss =
    attr (named (codes "userid")) (words userids) (attr (named (codes "sid")) (sids ss) nil)

abbrev pub names_attrs : Names → Attrs
names_attrs names = attr (named (codes "friends")) (texts names.usernames) (
    attr (named (codes "nick")) (texts names.nicks)
      (attr (named (codes "userid")) (words names.userids) nil))

-- For at most 255 users with numbers of four bytes, and at most 255 session ids of 16 bytes: the packet
-- that says who is online is read as the users and the session ids that it has, in their order.
pub parse_online-encode_attrs :
    (userids : List ℕ) (ss : List Bytes)
    → length userids < 256
    → All (λ n. n < 4294967296) userids
    → length ss < 256
    → All (λ s. length s ≡ 16) ss
    → parse_online (encode_attrs (online_attrs userids ss)) ≡ some (userids, ss)
unfolding parse_online encode_attrs
parse_online-encode_attrs userids ss few low few_ss size =
    known_step {A = ℕ × ℕ} _ _ (11, length userids)
      (list_number-At buf 0 (codes "userid") 4 2 (length userids % 256) (length userids / 256 % 256)
          (encode_words userids ++ back) (At-whole buf) (omega arith) (omega arith)
        ∙ ap (λ k. some (11, k)) {x = length userids % 256} {y = length userids}
            (omega (arith, few)))
    ∙ known_step _ _ _ (read_longs-At buf 11 userids back at_userids low)
    ∙ known_step {A = ℕ × ℕ} _ _ (11 + length (encode_words userids) + 4 + 4, length ss)
        (list_number-At buf (11 + length (encode_words userids)) (codes "sid") 4 3 (length ss % 256)
            (length ss / 256 % 256) (encode_sids ss ++ []) at_back (omega arith) (omega arith)
          ∙ ap (λ k. some (11 + length (encode_words userids) + 4 + 4, k)) {x = length ss % 256}
              {y = length ss} (omega (arith, few_ss)))
    ∙ known_step _ _ _
        (read_values-At buf (11 + length (encode_words userids) + 4 + 4) ss [] at_sids size)
  where
    buf : Bytes
    buf = encode_attrs (online_attrs userids ss)

    back : Bytes
    back = 3 ∷ codes "sid" ++ (4 ∷ 3 ∷ le16 (length ss) ++ (encode_sids ss ++ []))

    at_userids : At buf 11 (encode_words userids ++ back)
    at_userids = At-drop (6 ∷ codes "userid" ++ (4 ∷ 2 ∷ le16 (length userids))) (At-whole buf) refl

    at_back : At buf (11 + length (encode_words userids)) back
    at_back = At-drop (encode_words userids) at_userids refl

    at_sids : At buf (11 + length (encode_words userids) + 4 + 4) (encode_sids ss ++ [])
    at_sids = At-drop (3 ∷ codes "sid" ++ (4 ∷ 3 ∷ le16 (length ss))) at_back (omega arith)

-- For lists of at most 255 names, nicknames and numbers, with names and nicknames of at most 255 bytes
-- and numbers of four: the packet with the buddy list is read as the names, the nicknames and the
-- numbers that it has, in their order.
pub parse_names-encode_attrs :
    (names : Names)
    → length names.usernames < 256
    → All (λ s. length s < 256) names.usernames
    → length names.nicks < 256
    → All (λ s. length s < 256) names.nicks
    → length names.userids < 256
    → All (λ n. n < 4294967296) names.userids
    → parse_names (encode_attrs (names_attrs names)) ≡ some names
unfolding parse_names encode_attrs long_of_bytes
parse_names-encode_attrs names few short few_nicks short_nicks few_ids low =
    name_step _ no_value (codes "friends")
      (4 ∷ 1 ∷ le16 (length names.usernames) ++ (encode_texts names.usernames ++ nick_part))
      (At-whole buf) (omega arith) (omega arith)
    ∙ known_step _ _ _ (
        read_strings-At buf 9 names.usernames nick_part
          (At-drop (7 ∷ codes "friends" ++ (4 ∷ [])) (At-whole buf) refl) few short)
    ∙ name_step _ no_value (codes "nick")
        (4 ∷ 1 ∷ le16 (length names.nicks) ++ (encode_texts names.nicks ++ id_part)) at_nick
        (omega arith) (omega arith)
    ∙ known_step _ _ _ (
        read_strings-At buf (here + 5 + 1) names.nicks id_part
          (At-drop (4 ∷ codes "nick" ++ (4 ∷ [])) at_nick (omega arith)) few_nicks short_nicks)
    ∙ name_step _ no_value (codes "userid")
        (4 ∷ 2 ∷ le16 (length names.userids) ++ (encode_words names.userids ++ [])) at_id
        (omega arith) (omega arith)
    ∙ counted_step _ no_value 2 (le16 (length names.userids)) (encode_words names.userids ++ [])
        (At-drop (6 ∷ codes "userid" ++ (4 ∷ [])) at_id (omega arith)) refl
    ∙ long_step _ (le16 (length names.userids)) no_value
    ∙ known_step _ _ _ (
        ap (λ n. read_longs buf 4 n at_ids)
          (long-le16 (length names.userids) (omega (arith, few_ids)))
        ∙ read_longs-At buf at_ids names.userids []
            (At-drop (6 ∷ codes "userid" ++ (4 ∷ 2 ∷ le16 (length names.userids))) at_id
              (omega arith))
            low)
  where
    buf : Bytes
    buf = encode_attrs (names_attrs names)

    id_part : Bytes
    id_part =
        6 ∷ codes "userid"
        ++ (4 ∷ 2 ∷ le16 (length names.userids) ++ (encode_words names.userids ++ []))

    nick_part : Bytes
    nick_part =
        4 ∷ codes "nick"
        ++ (4 ∷ 1 ∷ le16 (length names.nicks) ++ (encode_texts names.nicks ++ id_part))

    here : ℕ
    here = 12 + length (encode_texts names.usernames)

    there : ℕ
    there = here + 5 + 1 + 3 + length (encode_texts names.nicks)

    at_nick : At buf here nick_part
    at_nick =
        At-drop (encode_texts names.usernames)
          (At-drop (7 ∷ codes "friends" ++ (4 ∷ 1 ∷ le16 (length names.usernames))) (At-whole buf)
            refl)
          refl

    at_id : At buf there id_part
    at_id =
        At-drop (encode_texts names.nicks)
          (At-drop (4 ∷ codes "nick" ++ (4 ∷ 1 ∷ le16 (length names.nicks))) at_nick refl)
          (omega arith)

    at_ids : ℕ
    at_ids = there + 7 + 1 + 3
