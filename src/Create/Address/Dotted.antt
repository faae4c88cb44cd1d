-- ===== src/Create/Address/Dotted.antt =====
-- An address that is printed in dotted form is read back as its four octets.
use xfire.Prelude.{
  ℕ, zero, suc, ◌+◌, ◌/◌, ◌%◌, ◌≤◌, ◌<◌, ◌≢◌, ◌≡◌, refl, ap, ◌∙◌, append_assoc, List, [], ◌∷◌, ◌++◌,
  some, Bool, true, ◌&&◌, codes, length, length-append, ◌==◌, leb, ltb, every_below_sound, All,
  IsByte, drop, replicate, map, arith, Bool-cases, inl, inr,
}
use xfire.Prelude.Tests.{every_below}
use xfire.Prelude.Int.{pos, to_byte}
use xfire.Buffer.{Bytes, write}
use xfire.Buffer.Writes.{Writes-whole, write-Writes}
use xfire.Clib.{hex_digit, digits, format_d, atoi}
use xfire.Create.Address.{joined, Lacks, SplitsBytes, IpAddress, xfire_ipaddr_init}

abbrev pub dotted : ℕ → ℕ → ℕ → ℕ → Bytes
dotted a b c d =
    joined b'.' (format_d (pos a)) (format_d (pos b) ∷ format_d (pos c) ∷ format_d (pos d) ∷ [])

All-append {ℓ} : (P : ℕ → Type ℓ) (xs ys : Bytes) → All P xs → All P ys → All P (xs ++ ys)
All-append P [] ys _ h = h
All-append P (x ∷ xs) ys (p, ps) h = (p, All-append P xs ys ps h)

hex_digit-ne-dot : (d : ℕ) → hex_digit d ≢ b'.'
unfolding hex_digit
hex_digit-ne-dot d h = ground arith

digits-Lacks : (places base n : ℕ) → Lacks b'.' (digits places base n)
unfolding digits
digits-Lacks zero base n = tt
digits-Lacks (suc places) base n = elim (Bool-cases (ltb n base)) [
  | inl one ↦ rw one (hex_digit-ne-dot n, tt)
  | inr more ↦
      rw more
        (All-append _ _ _ (digits-Lacks places base (n / base)) (hex_digit-ne-dot (n % base), tt))
]

format_d-Lacks : (n : ℕ) → Lacks b'.' (format_d (pos n))
unfolding format_d
format_d-Lacks n = digits-Lacks 10 10 n

abbrev octet_test : ℕ → Bool
octet_test a =
    (to_byte (atoi (format_d (pos a))) == a)
    && (leb 1 (length (format_d (pos a))) && leb (length (format_d (pos a))) 3)

octet_test-true : (a : ℕ) → a < 256 → octet_test a ≡ true
unfolding every_below atoi format_d to_byte
octet_test-true a h = every_below_sound octet_test 256 a h refl

octet_facts :
    (a : ℕ)
    → a < 256
    → (to_byte (atoi (format_d (pos a))) ≡ a)
      × (1 ≤ length (format_d (pos a)))
      × (length (format_d (pos a)) ≤ 3)
octet_facts a h = ground (arith, octet_test-true a h)

length-dotted :
    (a b c d : ℕ)
    → a < 256
    → b < 256
    → c < 256
    → d < 256
    → (1 ≤ length (dotted a b c d)) × (length (dotted a b c d) ≤ 15)
length-dotted a b c d ha hb hc hd =
    rw
      (
        length-append (format_d (pos a)),
        length-append (format_d (pos b)),
        length-append (format_d (pos c)),
      )
      (omega (arith, octet_facts a ha, octet_facts b hb, octet_facts c hc, octet_facts d hd))

pub dotted-ne-nil : (a b c d : ℕ) → All IsByte (a ∷ b ∷ c ∷ d ∷ []) → dotted a b c d ≢ []
dotted-ne-nil a b c d (ha, (hb, (hc, (hd, _)))) e =
    absurd (omega (arith, ap length e, length-dotted a b c d ha hb hc hd))

-- For a `g_strsplit` that splits, `xfire_ipaddr_init` reads the four octets, which are bytes, of an
-- address that is printed in dotted form.
pub ipaddr_init-dotted :
    (strsplit : Bytes → Bytes → List Bytes) (a b c d : ℕ)
    → SplitsBytes strsplit
    → All IsByte (a ∷ b ∷ c ∷ d ∷ [])
    → (ips : IpAddress) × (xfire_ipaddr_init strsplit (dotted a b c d) ≡ some (some ips))
      × (ips.octet ≡ a ∷ b ∷ c ∷ d ∷ [])
unfolding xfire_ipaddr_init
ipaddr_init-dotted strsplit a b c d law (ha, (hb, (hc, (hd, _)))) = (
  record {
    octet = map (λ s. to_byte (atoi s)) (strsplit (dotted a b c d) (codes "."));
    ipstr = dotted a b c d ++ (0 ∷ drop (length (dotted a b c d) + 1) (replicate 16 0));
  },
  rw (copied, parts) (ground (arith, size)),
  rw (parts)
      (ground (arith, octet_facts a ha, octet_facts b hb, octet_facts c hc, octet_facts d hd)),
)
  where
    size : (1 ≤ length (dotted a b c d)) × (length (dotted a b c d) ≤ 15)
    size = length-dotted a b c d ha hb hc hd

    copied :
        write 0 (dotted a b c d ++ 0 ∷ []) (replicate 16 0)
        ≡ some (tt, dotted a b c d ++ (0 ∷ drop (length (dotted a b c d) + 1) (replicate 16 0)))
    copied =
        Writes-whole (write-Writes 0 (dotted a b c d ++ 0 ∷ [])) (replicate 16 0)
        ∙ rw (length-append (dotted a b c d) (0 ∷ []), append_assoc (dotted a b c d) (0 ∷ []))
            (ground (arith, size))

    parts :
        strsplit (dotted a b c d) (codes ".")
        ≡ format_d (pos a) ∷ format_d (pos b) ∷ format_d (pos c) ∷ format_d (pos d) ∷ []
    parts =
        law.splits b'.' (format_d (pos a)) _ (dotted-ne-nil a b c d (ha, (hb, (hc, (hd, tt)))))
          (format_d-Lacks a, (format_d-Lacks b, (format_d-Lacks c, (format_d-Lacks d, tt))))
