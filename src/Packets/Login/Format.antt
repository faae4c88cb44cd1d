-- ===== src/Packets/Login/Format.antt =====
-- The packets of a login against the packet format.
use xfire.Prelude.{
  ℕ, ◌+◌, ◌<◌, ◌≡◌, refl, [], ◌∷◌, ◌++◌, some, codes, length, replicate, arith, All, IsByte,
  length-append,
}
use xfire.Buffer.{Bytes, ◌>>=◌, ◌>>◌, put, memset, pure, on}
use xfire.Buffer.Writes.{
  read_at-append, Writes, put-Writes, puts-Writes, memcpy-Writes, then-Writes, bind-Writes,
  Writes-whole, Writes-eq, on_whole, silent-Writes, known-Writes, read_at-whole, pure-Writes,
}
use xfire.Buffer.Overlap.{ahead-Writes}
use xfire.Create.{strlen, c_string, xfire_add_att_name}
use xfire.Create.Pieces.{add_att_name-Writes, counting-Writes}
use xfire.Wire.{Packet, nil, attr, named, text, word, sid, encode_counting, encode_attrs, stored}
use xfire.Utils.Hex.{hex_text, length-hex_text}
use xfire.Utils.Hash.{hash_sha1-Writes}
use xfire.Utils.{hash_sha1}
use xfire.Clib.{hex_digit}
use xfire.Packets.Login.{secret, join_hash_it, crypt_password, Locals, xfire_create_auth}

-- What is known of SHA-1: a digest has 20 bytes.
pub record IsSha1 (sha1 : Bytes → Bytes) : Type 0 where
  pub size : (t : Bytes) → length (sha1 t) ≡ 20
  pub bytes : (t : Bytes) → All IsByte (sha1 t)

-- The local arrays have the sizes that they are declared with.
pub record HasSizes (locals : Locals) : Type 0 where
  pub hex : length locals.hex ≡ 2
  pub sha_local : length locals.sha_local ≡ 40
  pub sha_string : length locals.sha_string ≡ 40

abbrev pub IsText : Bytes → Type 0
IsText = All (λ c. 0 < c)

pub c_string-IsText : (s : Bytes) → IsText s → c_string s ≡ s
unfolding c_string
c_string-IsText [] h = refl
c_string-IsText (c ∷ s) (hc, hs) = ground (arith, c_string-IsText s hs)

pub hex_text-IsText : (s t : Bytes) → IsText t → IsText (hex_text s ++ t)
hex_text-IsText [] t h = h
hex_text-IsText (c ∷ s) t h = (positive _, (positive _, hex_text-IsText s t h))
  where
    positive : (d : ℕ) → 0 < hex_digit d
    positive d = unfold hex_digit in ground arith

join_hash_it_lem :
    (name passwd : Bytes)
    → strlen name + strlen passwd < 87
    → join_hash_it name passwd ≡ some ((name ++ passwd) ++ secret)
unfolding join_hash_it
join_hash_it_lem name passwd h = ground (arith, length-append name passwd)

-- The text that proves that the user knows the password, in answer to the server's salt.
abbrev pub proof_text : (Bytes → Bytes) → Bytes → Bytes → Bytes → Bytes
proof_text sha1 name passwd salt =
    hex_text (sha1 (hex_text (sha1 ((name ++ passwd) ++ secret)) ++ salt))

abbrev pub auth_packet : Bytes → Bytes → Packet
auth_packet name digest = record {
  type = 1;
  attrs = attr (named (codes "name")) (text name) (
      attr (named (codes "password")) (text digest) (
        attr (named (codes "flags")) (word 0)
          (attr (named (codes "sid")) (sid (replicate 16 0)) nil)));
}

-- The end of the packet: the zeros are stored first, and the last name then over some of them.
zeros-Writes :
    (i : ℕ)
    → Writes
        (memset i 0 25
          >> (xfire_add_att_name (i + 4) (codes "sid") >>= λ index.
              put index 3 >> pure (index + 17)))
        i
        (replicate 4 0 ++ ((3 ∷ codes "sid") ++ 3 ∷ replicate 16 0))
        (i + 4 + 1 + 3 + 17)
unfolding memset
zeros-Writes i = ahead-Writes (replicate 4 0) (replicate 21 0) refl (omega arith) (
    bind-Writes _ (add_att_name-Writes (i + 4) (codes "sid")) (omega arith)
      (then-Writes (put-Writes _ 3) refl (pure-Writes _ (i + 4 + 1 + 3 + 17))))

module _ (sha1 : Bytes → Bytes) (locals : Locals) (name passwd salt tail : Bytes)
    (digest : IsSha1 sha1) (sizes : HasSizes locals) (fits : strlen name + strlen passwd < 87)
    (full : length salt ≡ 40) (plain : IsText salt) where
  -- The second text that is hashed.
  abbrev salted : Bytes
  salted = hex_text (sha1 ((name ++ passwd) ++ secret)) ++ salt

  length-digest : (t : Bytes) → length (hex_text (sha1 t)) ≡ 40
  length-digest t = omega (arith, length-hex_text (sha1 t), digest.size t)

  hash-Writes :
      (i : ℕ) (b t : Bytes)
      → length b ≡ 40
      → Writes (on b (hash_sha1 sha1 locals.hex locals.sha_local t)) i [] (hex_text (sha1 t))
  hash-Writes i b t h =
      rw
        (on_whole b
          (hash_sha1-Writes sha1 locals.hex locals.sha_local t (digest.size t) (digest.bytes t)
            sizes.hex sizes.sha_local)
          (omega (arith, length-digest t)))
        (pure-Writes i _)

  salted-IsText : IsText salted
  salted-IsText = hex_text-IsText (sha1 ((name ++ passwd) ++ secret)) salt plain

  crypt_password-Writes :
      (i : ℕ)
      → Writes
          (crypt_password sha1 locals (salt ++ tail) passwd name)
          i
          []
          (proof_text sha1 name passwd salt)
  unfolding crypt_password
  crypt_password-Writes i =
      silent-Writes _ (known-Writes i _ _ (join_hash_it_lem name passwd fits)) (
        silent-Writes _
          (hash-Writes i locals.sha_string ((name ++ passwd) ++ secret) sizes.sha_string)
          (silent-Writes _ (known-Writes i _ _ (read_at-whole _ 40 (length-digest _))) (
            silent-Writes _ (known-Writes i _ _ (read_at-append salt tail 40 full)) (
              rw (c_string-IsText salted salted-IsText) (
                hash-Writes i (hex_text (sha1 ((name ++ passwd) ++ secret))) salted
                  (length-digest _))))))

  -- For a SHA-1 with digests of 20 bytes, local arrays of the sizes in the code, a name and a
  -- password that fit the routine's array of 100 bytes with the secret, a name shorter than 256 and
  -- a salt of 40 characters that are not 0: `xfire_create_auth` stores the login packet, which has
  -- the name, the hash of the protocol, the flags and an empty session id, behind a header that
  -- counts three attributes for these four. Where the array has no room it runs out of it.
  pub create_auth-stored :
      (b : Bytes)
      → strlen name < 256
      → xfire_create_auth sha1 locals (salt ++ tail) passwd name b
        ≡ stored (encode_counting 3 (auth_packet name (proof_text sha1 name passwd salt))) b
  unfolding xfire_create_auth encode_attrs
  create_auth-stored b short =
      Writes-whole
        (counting-Writes 3 (auth_packet name (proof_text sha1 name passwd salt))
          (bind-Writes _ (add_att_name-Writes 5 _) refl (
            then-Writes (puts-Writes 10 _) refl (
              then-Writes (memcpy-Writes 13 name _ refl) refl (
                bind-Writes _ (add_att_name-Writes (13 + strlen name) (codes "password"))
                  (omega arith)
                  (then-Writes (puts-Writes (13 + strlen name + 1 + 8) (1 ∷ 0x28 ∷ 0 ∷ []))
                    (omega arith)
                    (silent-Writes _ (crypt_password-Writes _) (
                      then-Writes
                        (memcpy-Writes (13 + strlen name + 1 + 8 + 3) _ 40 (length-digest salted))
                        (omega (arith, length-digest salted))
                        (bind-Writes _
                          (add_att_name-Writes (13 + strlen name + 1 + 8 + 3 + 40) (codes "flags"))
                          (omega arith)
                          (then-Writes (put-Writes (13 + strlen name + 1 + 8 + 3 + 40 + 1 + 5) 2)
                            (omega arith)
                            (Writes-eq
                              (zeros-Writes (13 + strlen name + 1 + 8 + 3 + 40 + 1 + 5 + 1)) refl
                              (omega arith)))))))))))
          (rw (length-append name) (
            omega (
              arith,
              length-append (hex_text (sha1 salted)) (
                  5 ∷ codes "flags"
                  ++ (2 ∷ replicate 4 0 ++ ((3 ∷ codes "sid") ++ 3 ∷ replicate 16 0))),
              length-digest salted,
            )))
          (ground (arith, length-digest salted)))
        b
