-- ===== src/Create/Pieces.antt =====
-- What each piece of a packet writes.
use xfire.Prelude.{
  ℕ, ◌+◌, ◌/◌, ◌%◌, ◌≡◌, refl, List, [], ◌∷◌, ◌++◌, length, length-append, arith, append_assoc,
  drop-drop, length-drop, drop-append_ge, drop, Bool-cases, inl, inr, leb, if◌then◌else◌, some,
  none, ◌∙◌,
}
use native.Mathlib.Nat.{add_assoc}
use xfire.Buffer.{Bytes, Op, ◌>>=◌, ◌>>◌}
use xfire.Wire.{Packet, encode, encode_counting, encode_attrs, count}
use xfire.Buffer.Writes.{
  Writes, put-Writes, memcpy-Writes, then-Writes, end-Writes, Writes-eq, pure-Writes, Writes-whole,
}
use xfire.Create.{strlen, xfire_add_att_name, xfire_add_header, add_strings, xfire_add_array_att}

pub add_att_name-Writes :
    (i : ℕ) (att : Bytes)
    → Writes (xfire_add_att_name i att) i (strlen att % 256 ∷ att) (i + 1 + strlen att)
unfolding xfire_add_att_name
add_att_name-Writes i att =
    then-Writes (put-Writes i _) refl (end-Writes (memcpy-Writes (i + 1) att _ refl) (refl))

pub add_header-Writes :
    (length type atts : ℕ)
    → Writes
        (xfire_add_header length type atts)
        0
        (length % 256 % 256 ∷ length / 256 % 256 ∷ type % 256 ∷ 0 ∷ atts % 256 ∷ [])
        tt
unfolding xfire_add_header
add_header-Writes length type atts = memcpy-Writes 0 _ 5 refl

-- Strings, each behind its length in one byte and a 0.
abbrev pub string_items : List Bytes → Bytes
string_items [] = []
string_items (s ∷ ss) = strlen s % 256 ∷ 0 ∷ (s ++ string_items ss)

pub add_strings-Writes :
    (i : ℕ) (atts : List Bytes)
    → Writes (add_strings i atts) i (string_items atts) (i + length (string_items atts))
unfolding add_strings
add_strings-Writes i [] = Writes-eq (pure-Writes i i) refl (omega arith)
add_strings-Writes i (att ∷ atts) =
    Writes-eq
      (then-Writes (memcpy-Writes i _ 2 refl) refl (
        then-Writes (memcpy-Writes (i + 2) att _ refl) refl
          (add_strings-Writes (i + 2 + strlen att) atts)))
      refl (omega (arith, length-append att (string_items atts)))

pub add_array_att-Writes :
    (i : ℕ) (atts : List Bytes)
    → Writes
        (xfire_add_array_att i atts)
        i
        (length atts % 256 ∷ string_items atts)
        (i + 1 + length (string_items atts))
unfolding xfire_add_array_att
add_array_att-Writes i atts = then-Writes (put-Writes i _) refl (add_strings-Writes (i + 1) atts)

-- A packet is its header and what is written behind that.
pub counting-Writes :
    (k : ℕ) (p : Packet) {m : Op ℕ} {n : ℕ} {bs : Bytes}
    → Writes m 5 bs n
    → n ≡ 5 + length bs
    → bs ≡ encode_attrs p.attrs
    → Writes
        (xfire_add_header n p.type k >> m)
        0
        (encode_counting k p)
        (length (encode_counting k p))
unfolding encode_counting
counting-Writes k p {m} {n} {bs} h total body =
    Writes-eq (then-Writes (add_header-Writes n p.type k) refl h)
      (rw (← body) (ground (arith, total))) (rw (← body) (omega arith))

pub packet-Writes :
    (p : Packet) {m : Op ℕ} {n : ℕ} {bs : Bytes}
    → Writes m 5 bs n
    → n ≡ 5 + length bs
    → bs ≡ encode_attrs p.attrs
    → Writes (xfire_add_header n p.type (count p.attrs) >> m) 0 (encode p) (length (encode p))
unfolding encode
packet-Writes p h total body = counting-Writes (count p.attrs) p h total body

abbrev header : ℕ → ℕ → ℕ → Bytes
header l t n = l % 256 % 256 ∷ l / 256 % 256 ∷ t % 256 ∷ 0 ∷ n % 256 ∷ []

header_again :
    (l t n : ℕ) (old rest : Bytes)
    → length old ≡ 5
    → xfire_add_header l t n (old ++ rest) ≡ some (tt, header l t n ++ rest)
header_again l t n old rest five =
    (add_header-Writes l t n).fills [] (old ++ rest) refl
    ∙ rw (behind) (ground (arith, five, length-append old rest))
  where
    behind : drop 5 (old ++ rest) ≡ rest
    behind = rw (drop-append_ge 5 old rest (omega (arith, five)), five) refl

-- A header that is stored over an older one, after the attributes behind that, before more follow.
pub reheaded-stored :
    {m : Op ℕ} (k : ℕ → Op ℕ) {a c : ℕ} (l t n : ℕ) (old bs : Bytes) {cs : Bytes}
    → length old ≡ 5
    → Writes m 0 (old ++ bs) a
    → Writes (k a) (5 + length bs) cs c
    → (b : Bytes)
    → (m >>= λ i. xfire_add_header l t n >> k i) b ≡ (
        if leb (5 + (length bs + length cs)) (length b)
        then some (c, (header l t n ++ (bs ++ cs)) ++ drop (5 + (length bs + length cs)) b)
        else none)
unfolding ◌>>=◌ ◌>>◌
reheaded-stored {m} k {a} {c} l t n old bs {cs} five hm hk b =
    elim (Bool-cases (leb (length (old ++ bs)) (length b))) [
      | inr full ↦ rw (Writes-whole hm b, full, ◌>>=◌) (ground (arith, length-append old bs))
      | inl fits ↦
          rw
            (
              Writes-whole hm b,
              fits,
              append_assoc old bs,
              header_again l t n old (bs ++ drop (length (old ++ bs)) b) five,
              ◌>>◌,
              ◌>>=◌,
            )
            (hk.fills (header l t n ++ bs) (drop (length (old ++ bs)) b) (omega arith)
              ∙ rw
                  (
                    drop-drop (length (old ++ bs)) (length cs) b,
                    append_assoc bs cs,
                    size,
                    add_assoc 5 (length bs) (length cs),
                  )
                  (ground (arith, size, length-drop (5 + length bs) b)))
    ]
  where
    size : length (old ++ bs) ≡ 5 + length bs
    size = omega (arith, length-append old bs, five)
