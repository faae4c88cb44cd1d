-- ===== src/Utils/Hash.antt =====
-- `hashSha1` leaves the digest as hexadecimal text.
use xfire.Prelude.{ℕ, ◌+◌, ◌*◌, ◌≡◌, refl, [], ◌∷◌, length, All, IsByte, arith}
use xfire.Buffer.{Bytes}
use xfire.Buffer.Writes.{
  Writes, memcpy-Writes, then-Writes, bind-Writes, pure-Writes, read_at-whole, on-Writes,
  given-Writes,
}
use xfire.Buffer.Overlap.{overwrite-Writes}
use xfire.Utils.{digest_pairs, hash_sha1}
use xfire.Utils.Hex.{hex_pair, hex_text, length-hex_text, unsigned_value, hex_val_pos}

digest_pairs-Writes :
    (sha hex : Bytes) (i : ℕ)
    → All IsByte sha
    → length hex ≡ 2
    → Writes (digest_pairs hex i sha) (i * 2) (hex_text sha) tt
unfolding digest_pairs
digest_pairs-Writes [] hex i _ _ = pure-Writes _ tt
digest_pairs-Writes (c ∷ sha) hex i (hc, hs) hh = rw (unsigned_value c hc) (
    on-Writes _ hex (hex_val_pos c hc) hh (
      then-Writes (memcpy-Writes (i * 2) (hex_pair c) 2 refl) (omega arith)
        (digest_pairs-Writes sha (hex_pair c) (i + 1) hs refl)))

-- For a digest of 20 bytes, `hashSha1` fills 40 bytes of the caller's array with the digest's
-- hexadecimal digits.
pub hash_sha1-Writes :
    (sha1 : Bytes → Bytes) (hex sha_local string : Bytes)
    → length (sha1 string) ≡ 20
    → All IsByte (sha1 string)
    → length hex ≡ 2
    → length sha_local ≡ 40
    → Writes (hash_sha1 sha1 hex sha_local string) 0 (hex_text (sha1 string)) tt
unfolding hash_sha1
hash_sha1-Writes sha1 hex sha_local string hd hb hh hl = rw (read_at-whole (sha1 string) 20 hd) (
    overwrite-Writes (sha1 string) (omega (arith, length-hex_text (sha1 string))) (
      bind-Writes _ (given-Writes 0 (sha1 string)) refl (
        on-Writes _ sha_local (digest_pairs-Writes (sha1 string) hex 0 hb hh)
          (omega (arith, length-hex_text (sha1 string)))
          (memcpy-Writes 0 (hex_text (sha1 string)) 40
            (omega (arith, length-hex_text (sha1 string)))))))
