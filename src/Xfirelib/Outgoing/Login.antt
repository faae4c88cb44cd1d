-- ===== src/Xfirelib/Outgoing/Login.antt =====
-- The login packet of ClientLoginPacket (xfirelib/src/clientloginpacket.cpp).
use xfire.Prelude.{
  ◌+◌, ◌%◌, ◌/◌, ◌<◌, ◌≡◌, refl, ap, [], ◌∷◌, ◌++◌, some, codes, length, append-nil, append_assoc,
  All, IsByte, arith,
}
use xfire.Buffer.{Bytes}
use xfire.Buffer.Writes.{
  Writes, Writes-eq, write-Writes, puts-Writes, memcpy-Writes, then-Writes, bind-Writes, end-Writes,
  silent-Writes, known-Writes, read_at-append,
}
use xfire.Utils.Hex.{hex_text, length-hex_text, format_02x_lem}
use xfire.Packets.Login.{secret}
use xfire.Packets.Login.Format.{IsSha1, IsText, c_string-IsText, hex_text-IsText, proof_text}
use xfire.Wire.{Attrs, nil, attr, named, text, encode_attrs}
use xfire.Xfirelib.Value.{VariableValue, get_value}
use xfire.Xfirelib.Writing.Pieces.{add_attribut_name-Writes}
use xfire.Xfirelib.Outgoing

digest_text-hex_text :
    (digest : Bytes) → All IsByte digest → Outgoing.digest_text digest ≡ hex_text digest
unfolding Outgoing.digest_text
digest_text-hex_text [] h = refl
digest_text-hex_text (c ∷ digest) (hc, h) = rw (format_02x_lem c hc, digest_text-hex_text digest h)

append-IsText : (s t : Bytes) → IsText s → IsText t → IsText (s ++ t)
append-IsText [] t hs ht = ht
append-IsText (c ∷ s) t (hc, hs) ht = (hc, append-IsText s t hs ht)

abbrev pub login_attrs : Bytes → Bytes → Attrs
login_attrs name digest =
    attr (named (codes "name")) (text name) (attr (named (codes "password")) (text digest) nil)

login_bytes :
    (name d : Bytes)
    → length name < 256
    → length d ≡ 40
    → (4 ∷ codes "name")
        ++ ((1 ∷ length name % 256 ∷ 0 ∷ [])
            ++ (name ++ ((8 ∷ codes "password") ++ ((1 ∷ 40 ∷ 0 ∷ []) ++ d))))
      ≡ encode_attrs (login_attrs name d)
unfolding encode_attrs
login_bytes name d short size = rw (size, append-nil d, upper) refl
  where
    upper : length name / 256 % 256 ≡ 0
    upper = omega arith

module _ (sha1 : Bytes → Bytes) (name password salt more : Bytes) (digest : IsSha1 sha1)
    (plain_name : IsText name) (plain_password : IsText password) (full : length salt ≡ 40)
    (plain : IsText salt) where
  -- The answer to the server's salt is the one of gfire.
  pub crypt_password-proof_text :
      Outgoing.crypt_password sha1 name password (salt ++ more)
      ≡ some (proof_text sha1 name password salt)
  unfolding Outgoing.crypt_password
  crypt_password-proof_text =
      rw (read_at-append salt more 40 full, Outgoing.crypt_password)
        (ap some (
          rw
            (
              c_string-IsText (name ++ (password ++ secret)) (
                  append-IsText name (password ++ secret) plain_name
                    (append-IsText password secret plain_password (omega arith))),
              ← append_assoc name password secret,
              digest_text-hex_text (sha1 ((name ++ password) ++ secret)) (digest.bytes _),
              c_string-IsText (hex_text (sha1 ((name ++ password) ++ secret)) ++ salt)
                  (hex_text-IsText (sha1 ((name ++ password) ++ secret)) salt plain),
            )
            (digest_text-hex_text _ (digest.bytes _))))

  length-proof_text : length (proof_text sha1 name password salt) ≡ 40
  length-proof_text = omega (
    arith,
    length-hex_text (sha1 (hex_text (sha1 ((name ++ password) ++ secret)) ++ salt)),
    digest.size (hex_text (sha1 ((name ++ password) ++ secret)) ++ salt),
  )

  pub client_login-Writes :
      (v : VariableValue)
      → get_value v ≡ some (salt ++ more)
      → length name < 256
      → Writes
          (Outgoing.client_login sha1 name password v)
          0
          (encode_attrs (login_attrs name (proof_text sha1 name password salt)))
          (60 + length name)
  unfolding Outgoing.client_login
  client_login-Writes v read short =
      Writes-eq
        (bind-Writes _ (add_attribut_name-Writes 0 (codes "name")) (omega arith) (
          then-Writes (puts-Writes 5 (1 ∷ length name % 256 ∷ 0 ∷ [])) (omega arith) (
            then-Writes (write-Writes 8 name) (omega arith) (
              silent-Writes _ (known-Writes _ _ _ read) (
                silent-Writes _ (known-Writes _ _ _ crypt_password-proof_text) (
                  bind-Writes _ (add_attribut_name-Writes (8 + length name) (codes "password"))
                    (omega arith)
                    (then-Writes (puts-Writes _ (1 ∷ 40 ∷ 0 ∷ [])) (omega arith) (
                      end-Writes
                        (memcpy-Writes _ (proof_text sha1 name password salt) 40 length-proof_text)
                        (omega (arith, length-proof_text))))))))))
        (login_bytes name (proof_text sha1 name password salt) short length-proof_text)
        (omega arith)
