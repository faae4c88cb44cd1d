-- ===== src/Xfirelib/Reader/Frames.antt =====
-- The packets that are cut out of the bytes of a stream.
use xfire.Prelude.{
  ℕ, ◌+◌, ◌-◌, ◌*◌, ◌%◌, ◌/◌, ◌<◌, ◌≡◌, refl, ◌∙◌, ◌∷◌, ◌++◌, none, some, length, take, drop, ltb,
  false, ◌==◌, take-length_append, drop-append, drop_all, append-nil, arith,
}
use xfire.Buffer.{Bytes}
use xfire.Wire.{Packet, encode, encode_counting, encode_attrs, count}
use xfire.Xfirelib.Reader.{
  Reception, crashed, packet, get_packet_content_class, parse_content, recv_content, recv_packet,
}

-- The packet's type and its number of attributes are bytes, and its length fits two bytes and is more
-- than the header's.
pub record IsFramed (p : Packet) : Type 0 where
  pub type_small : p.type < 256
  pub count_small : count p.attrs < 256
  pub some_body : 0 < length (encode_attrs p.attrs)
  pub body_small : length (encode_attrs p.attrs) < 65531

-- What a packet of the protocol comes to: its attributes are read by the class for its type.
abbrev pub content_of : Packet → Bytes → Reception
content_of p rest = elim (get_packet_content_class p.type) [
  | none ↦ packet none rest
  | some c ↦
      elim (parse_content c (encode_attrs p.attrs) (length (encode_attrs p.attrs))
        (count p.attrs)) [ none ↦ crashed | some content ↦ packet (some content) rest ]
]

recv_content-body :
    (p : Packet) (len : ℕ) (rest : Bytes)
    → IsFramed p
    → len ≡ 5 + length (encode_attrs p.attrs)
    → recv_content len p.type
        (count p.attrs)
        (encode_attrs p.attrs)
        (length (encode_attrs p.attrs))
        rest
      ≡ content_of p rest
unfolding recv_content
recv_content-body p len rest h total =
    rw
      (
        total,
        long (length (encode_attrs p.attrs)),
        filled (length (encode_attrs p.attrs)) h.some_body,
      )
      refl
  where
    long : (n : ℕ) → ltb (5 + n) 5 ≡ false
    long n = ground arith

    filled : (n : ℕ) → 0 < n → (n == 0) ≡ false
    filled n h = ground arith

-- The two calls of `recv`, and the array for the second.
received_whole :
    (fresh : ℕ → Bytes) (body rest : Bytes) (n : ℕ)
    → ((n : ℕ) → length (fresh n) ≡ n)
    → n ≡ length body
    → (take n (body ++ rest) ≡ body)
      × (drop n (body ++ rest) ≡ rest)
      × (take n (body ++ rest) ++ drop (length (take n (body ++ rest))) (fresh n) ≡ body)
received_whole fresh body rest n sized e = rw e (
  take-length_append body rest,
  drop-append body rest,
  rw
      (
        take-length_append body rest,
        drop_all (fresh (length body)) (length body) (sized (length body)),
      )
      (append-nil body),
)

recv_packet-body :
    (fresh : ℕ → Bytes) (b0 b1 b2 b3 b4 : ℕ) (body rest : Bytes)
    → ((n : ℕ) → length (fresh n) ≡ n)
    → b0 + b1 * 256 - 5 ≡ length body
    → recv_packet fresh (b0 ∷ b1 ∷ b2 ∷ b3 ∷ b4 ∷ (body ++ rest))
      ≡ recv_content (b0 + b1 * 256) b2 b4 body (length body) rest
unfolding recv_packet
recv_packet-body fresh b0 b1 b2 b3 b4 body rest sized e =
    let (taken, dropped, whole) = received_whole fresh body rest (b0 + b1 * 256 - 5) sized e in
    rw (whole, taken, dropped) refl

-- For a packet of the protocol that has attributes, and fits a frame: `recvPacket` takes this packet from
-- the stream, and no byte behind it, gives its attributes to the class that is registered for its type,
-- and makes no content where there is none.
pub recv_packet-encode :
    (fresh : ℕ → Bytes) (p : Packet) (rest : Bytes)
    → ((n : ℕ) → length (fresh n) ≡ n)
    → IsFramed p
    → recv_packet fresh (encode p ++ rest) ≡ content_of p rest
unfolding encode encode_counting
recv_packet-encode fresh p rest sized h =
    recv_packet-body fresh _ _ _ _ _ (encode_attrs p.attrs) rest sized
      (size (length (encode_attrs p.attrs)) h.body_small)
    ∙ rw (byte p.type h.type_small, byte (count p.attrs) h.count_small)
        (recv_content-body p _ rest h (total (length (encode_attrs p.attrs)) h.body_small))
  where
    byte : (n : ℕ) → n < 256 → n % 256 ≡ n
    byte n h = omega arith

    total : (n : ℕ) → n < 65531 → (5 + n) % 256 + (5 + n) / 256 % 256 * 256 ≡ 5 + n
    total n h = omega arith

    size : (n : ℕ) → n < 65531 → (5 + n) % 256 + (5 + n) / 256 % 256 * 256 - 5 ≡ n
    size n h = omega arith
