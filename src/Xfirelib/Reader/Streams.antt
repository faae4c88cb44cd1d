-- ===== src/Xfirelib/Reader/Streams.antt =====
-- The loop of PacketReader::run over a whole stream.
use xfire.Prelude.{
  ℕ, zero, suc, ◌+◌, ◌-◌, ◌*◌, ◌<◌, ◌≡◌, refl, sym, ap, ◌∙◌, List, [], ◌∷◌, ◌++◌, Option, none,
  some, length, ltb, ◌==◌, All, length-drop, Bool-cases, Option-cases, inl, inr, arith,
}
use mathlib.Core.Path.{subst}
use xfire.Buffer.{Bytes}
use xfire.Wire.{Packet, encode, encode_attrs, count}
use xfire.Xfirelib.Reader.{
  Received, Reception, closed, crashed, packet, get_packet_content_class, parse_content,
  recv_content, recv_packet, run,
}
use xfire.Xfirelib.Reader.Frames.{IsFramed, content_of, recv_packet-encode}

-- A packet leaves less of the stream than there was.
abbrev Shorter : Bytes → Reception → Type 0
Shorter stream closed = Unit
Shorter stream crashed = Unit
Shorter stream (packet content rest) = length rest < length stream

recv_content-Shorter :
    (len id atts r2 : ℕ) (contentbuf rest stream : Bytes)
    → length rest < length stream
    → Shorter stream (recv_content len id atts contentbuf r2 rest)
unfolding recv_content
recv_content-Shorter len id atts r2 contentbuf rest stream h = elim (Bool-cases (ltb len 5)) [
  | inl small ↦ rw small tt
  | inr enough ↦ elim (Bool-cases (r2 == 0)) [
    | inl empty ↦ rw (enough, empty) h
    | inr filled ↦ elim (Option-cases (get_packet_content_class id)) [
      | inl unknown ↦ rw (enough, filled, unknown, recv_content) h
      | inr (c, known) ↦ elim (Option-cases (parse_content c contentbuf r2 atts)) [
        | inl fault ↦ rw (enough, filled, known, recv_content, fault, recv_content) tt
        | inr (content, read) ↦ rw (enough, filled, known, recv_content, read, recv_content) h
      ]
    ]
  ]
]

recv_packet-Shorter :
    (fresh : ℕ → Bytes) (stream : Bytes) → Shorter stream (recv_packet fresh stream)
unfolding recv_packet
recv_packet-Shorter fresh [] = tt
recv_packet-Shorter fresh (b0 ∷ []) = tt
recv_packet-Shorter fresh (b0 ∷ b1 ∷ []) = tt
recv_packet-Shorter fresh (b0 ∷ b1 ∷ b2 ∷ []) = tt
recv_packet-Shorter fresh (b0 ∷ b1 ∷ b2 ∷ b3 ∷ []) = tt
recv_packet-Shorter fresh (b0 ∷ b1 ∷ b2 ∷ b3 ∷ b4 ∷ stream) =
    recv_content-Shorter (b0 + b1 * 256) b2 b4 _ _ _ (b0 ∷ b1 ∷ b2 ∷ b3 ∷ b4 ∷ stream)
      (omega (arith, length-drop (b0 + b1 * 256 - 5) stream))

-- One round: the end of the loop, or the packets behind the first.
abbrev then_read :
    Option Received → Option (List Received × Reception) → Option (List Received × Reception)
then_read content none = none
then_read none (some (contents, end)) = some (contents, end)
then_read (some content) (some (contents, end)) = some (content ∷ contents, end)

abbrev round :
    Reception → (Bytes → Option (List Received × Reception)) → Option (List Received × Reception)
round closed more = some ([], closed)
round crashed more = some ([], crashed)
round (packet content rest) more = then_read content (more rest)

run-round :
    (bound : ℕ) (fresh : ℕ → Bytes) (stream : Bytes)
    → run (suc bound) fresh stream ≡ round (recv_packet fresh stream) (λ rest. run bound fresh rest)
unfolding run
run-round bound fresh stream = by_reception (recv_packet fresh stream)
  where
    joined :
        (content : Option Received) (r : Option (List Received × Reception))
        → (elim r [
          | none ↦ none
          | some (contents, end) ↦ elim content [
            | none ↦ some (contents, end)
            | some content ↦ some (content ∷ contents, end)
          ]
        ])
          ≡ then_read content r
    joined content none = refl
    joined none (some (contents, end)) = refl
    joined (some content) (some (contents, end)) = refl

    by_reception :
        (r : Reception)
        → (elim r [
          | closed ↦ some ([], closed)
          | crashed ↦ some ([], crashed)
          | packet content rest ↦ elim (run bound fresh rest) [
            | none ↦ none
            | some (contents, end) ↦ elim content [
              | none ↦ some (contents, end)
              | some content ↦ some (content ∷ contents, end)
            ]
          ]
        ])
          ≡ round r (λ rest. run bound fresh rest)
    by_reception closed = refl
    by_reception crashed = refl
    by_reception (packet content rest) = joined content (run bound fresh rest)

-- The loop ends on every stream, whatever stands in it: a bound above the number of its bytes is enough.
pub run-ends :
    (bound : ℕ) (fresh : ℕ → Bytes) (stream : Bytes)
    → length stream < bound
    → (r : List Received × Reception) × (run bound fresh stream ≡ some r)
run-ends zero fresh stream h = absurd (omega arith)
run-ends (suc bound) fresh stream h =
    subst (λ o. (r : List Received × Reception) × (o ≡ some r)) (sym (run-round bound fresh stream))
      (by_reception (recv_packet fresh stream) (recv_packet-Shorter fresh stream)
        (λ rest less. run-ends bound fresh rest (omega arith)))
  where
    by_reception :
        (r : Reception)
        → Shorter stream r
        → ((rest : Bytes)
            → length rest < length stream
            → (s : List Received × Reception) × (run bound fresh rest ≡ some s))
        → (s : List Received × Reception) × (round r (λ rest. run bound fresh rest) ≡ some s)
    by_reception closed less more = (([], closed), refl)
    by_reception crashed less more = (([], crashed), refl)
    by_reception (packet none rest) less more =
        let (s, e) = more rest less in (s, ap (then_read none) e)
    by_reception (packet (some content) rest) less more =
        let (s, e) = more rest less in ((content ∷ s.0, s.1), ap (then_read (some content)) e)

abbrev pub streamed : List Packet → Bytes
streamed [] = []
streamed (p ∷ ps) = encode p ++ streamed ps

-- What the packets come to, one after the other, until one faults.
abbrev joined : Reception → List Received × Reception → List Received × Reception
joined closed later = ([], closed)
joined crashed later = ([], crashed)
joined (packet none rest) later = later
joined (packet (some content) rest) later = (content ∷ later.0, later.1)

abbrev pub read_all : List Packet → List Received × Reception
read_all [] = ([], closed)
read_all (p ∷ ps) = joined (content_of p []) (read_all ps)

content_of-round :
    (p : Packet) (rest : Bytes) (more : Bytes → Option (List Received × Reception))
    (later : List Received × Reception)
    → more rest ≡ some later
    → round (content_of p rest) more ≡ some (joined (content_of p []) later)
content_of-round p rest more later e = elim (Option-cases (get_packet_content_class p.type)) [
  | inl unknown ↦ rw (unknown, content_of, e) refl
  | inr (c, known) ↦
      elim (Option-cases
        (parse_content c (encode_attrs p.attrs) (length (encode_attrs p.attrs)) (count p.attrs))) [
          | inl fault ↦ rw (known, content_of, fault, content_of) refl
          | inr (content, read) ↦ rw (known, content_of, read, content_of, e) refl
        ]
]

-- For packets of the protocol that fit a frame, sent one behind the other: `run` hands the listeners the
-- content of each packet with a registered type, in their order, up to the first whose content is not
-- read without a fault, and ends with the stream if there is none.
pub run-read_all :
    (bound : ℕ) (fresh : ℕ → Bytes) (ps : List Packet)
    → ((n : ℕ) → length (fresh n) ≡ n)
    → All IsFramed ps
    → length ps < bound
    → run bound fresh (streamed ps) ≡ some (read_all ps)
unfolding recv_packet
run-read_all zero fresh ps sized framed h = absurd (omega arith)
run-read_all (suc bound) fresh [] sized framed h = run-round bound fresh []
run-read_all (suc bound) fresh (p ∷ ps) sized (framed, later) h =
    run-round bound fresh (encode p ++ streamed ps)
    ∙ ap (λ r. round r (λ rest. run bound fresh rest))
        (recv_packet-encode fresh p (streamed ps) sized framed)
    ∙ content_of-round p (streamed ps) (λ rest. run bound fresh rest) (read_all ps)
        (run-read_all bound fresh ps sized later (omega arith))
