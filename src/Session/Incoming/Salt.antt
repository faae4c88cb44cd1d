-- ===== src/Session/Incoming/Salt.antt =====
-- The answer to the server's salt.
use xfire.Prelude.{
  ℕ, ◌+◌, ◌<◌, ◌≡◌, refl, ap, sym, ◌∙◌, [], ◌∷◌, ◌++◌, some, length, take, drop, le→leb, arith,
  length-append, length-drop, length-take, take-append-drop, take-length_append, drop-length_append,
  drop_all,
}
use mathlib.Core.Path.{subst}
use xfire.Buffer.{Bytes, ◌>>=◌, ◌>>◌, pure, put, write, read_at, given}
use xfire.Buffer.Writes.{write-Writes, put-Writes, Writes-whole}
use xfire.Create.{strlen, c_string}
use xfire.Wire.{encode_counting, stored}
use xfire.Packets.Login.{Locals}
use xfire.Packets.Login.Format.{
  IsSha1, HasSizes, IsText, auth_packet, proof_text, create_auth-stored,
}
use xfire.Session.Incoming.{strncpy_41, xfire_login_salt, xfire_send_auth}

pub c_string-closed : (s more : Bytes) → IsText s → c_string (s ++ 0 ∷ more) ≡ s
unfolding c_string
c_string-closed [] more h = refl
c_string-closed (c ∷ s) more (hc, hs) = ground (arith, c_string-closed s more hs)

drop_front : (xs ys : Bytes) (n : ℕ) → length xs ≡ n → drop n (xs ++ ys) ≡ ys
drop_front xs ys n e = ap (λ k. drop k (xs ++ ys)) (omega arith) ∙ drop-length_append 0 xs ys

take_front : (xs ys : Bytes) (n : ℕ) → length xs ≡ n → take n (xs ++ ys) ≡ xs
take_front xs ys n e = ap (λ k. take k (xs ++ ys)) (sym e) ∙ take-length_append xs ys

closed_last :
    (salt_temp : Bytes)
    → length salt_temp ≡ 41
    → put 40 0 salt_temp ≡ some (tt, take 40 salt_temp ++ 0 ∷ [])
closed_last salt_temp h =
    subst (λ s. put 40 0 s ≡ some (tt, take 40 salt_temp ++ 0 ∷ [])) (take-append-drop 40 salt_temp)
      ((put-Writes 40 0).fills (take 40 salt_temp) (drop 40 salt_temp)
          (length-take 40 salt_temp ∙ omega arith)
        ∙ rw
            (
              drop_all (drop 40 salt_temp) 1 (length-drop 40 salt_temp ∙ omega arith),
              le→leb 1 (length (drop 40 salt_temp)) (omega (arith, length-drop 40 salt_temp)),
            )
            refl)

salt_copied :
    (salt salt_temp : Bytes)
    → length salt ≡ 40
    → length salt_temp ≡ 41
    → (put 40 0 >> write 0 salt) salt_temp ≡ some (tt, salt ++ 0 ∷ [])
unfolding ◌>>◌ ◌>>=◌
salt_copied salt salt_temp hs ht = rw (closed_last salt_temp ht, ◌>>◌, ◌>>=◌) written_over
  where
    size : length (take 40 salt_temp) ≡ length salt
    size = length-take 40 salt_temp ∙ omega arith

    written_over : write 0 salt (take 40 salt_temp ++ 0 ∷ []) ≡ some (tt, salt ++ 0 ∷ [])
    written_over =
        Writes-whole (write-Writes 0 salt) (take 40 salt_temp ++ 0 ∷ [])
        ∙ rw
            (
              drop_front (take 40 salt_temp) (0 ∷ []) (length salt) size,
              le→leb (length salt) (length (take 40 salt_temp ++ 0 ∷ []))
                  (omega (arith, size, length-append (take 40 salt_temp) (0 ∷ []))),
            )
            refl

salt_read :
    (front salt more : Bytes)
    → length front ≡ 8
    → length salt ≡ 40
    → read_at (front ++ (salt ++ more)) 8 40 ≡ some salt
unfolding read_at
salt_read front salt more hf hs =
    rw
      (
        le→leb 48 (length (front ++ (salt ++ more)))
            (omega (arith, length-append front (salt ++ more), length-append salt more)),
        drop_front front (salt ++ more) 8 hf,
        take_front salt more 40 hs,
      )
      refl

login_salt-read :
    (front salt more salt_temp : Bytes)
    → length front ≡ 8
    → length salt ≡ 40
    → length salt_temp ≡ 41
    → IsText salt
    → xfire_login_salt salt_temp (front ++ (salt ++ more)) 48 ≡ some (salt ++ 0 ∷ [])
unfolding xfire_login_salt strncpy_41
login_salt-read front salt more salt_temp hf hs ht plain =
    rw
      (
        salt_read front salt more hf hs,
        salt_copied salt salt_temp hs ht,
        c_string-closed salt [] plain,
        hs,
        xfire_login_salt,
        strncpy_41,
      )
      refl

-- For the packet with the server's salt, 48 bytes with the 40 characters of the salt at place 8, and
-- under the conditions on the name, the password and the arrays that `create_auth-stored` has,
-- `xfire_send_auth` stores the login packet for that salt, or runs out of the array.
pub send_auth-stored :
    (sha1 : Bytes → Bytes) (locals : Locals) (front salt more salt_temp name passwd b : Bytes)
    → IsSha1 sha1
    → HasSizes locals
    → length front ≡ 8
    → length salt ≡ 40
    → length salt_temp ≡ 41
    → IsText salt
    → strlen name + strlen passwd < 87
    → xfire_send_auth sha1 locals salt_temp (front ++ (salt ++ more)) 48 passwd name b
      ≡ stored (encode_counting 3 (auth_packet name (proof_text sha1 name passwd salt))) b
unfolding xfire_send_auth ◌>>=◌ given pure
send_auth-stored sha1 locals front salt more salt_temp name passwd b digest sizes hf hs ht plain
      fits =
    rw (login_salt-read front salt more salt_temp hf hs ht plain) (
      create_auth-stored sha1 locals name passwd salt (0 ∷ []) digest sizes fits hs plain b
        (omega arith))
