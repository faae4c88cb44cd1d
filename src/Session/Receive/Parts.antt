-- ===== src/Session/Receive/Parts.antt =====
-- A packet that arrives in parts, through any number of calls of the handler.
use xfire.Prelude.{
  ℕ, ◌+◌, ◌-◌, ◌%◌, ◌^◌, ◌≤◌, ◌<◌, ◌≡◌, refl, ap, ◌∙◌, true, not, ◌&&◌, List, [], ◌∷◌, ◌++◌, Option,
  none, some, length, drop, ltb, ◌==◌, length-append, length-drop, append_assoc, arith,
}
use mathlib.Core.Path.{subst}
use xfire.Buffer.{Bytes}
use xfire.Session.Receive.{
  Receiver, Outcome, waits, closed, complete, is_unread, copy_to, resume, header_length, read_rest,
  receive,
}
use xfire.Session.Receive.Reassembly.{
  holding, IsIdle, resume-waits, resume-complete, copy_to_behind, copy_to_first, read_into_front,
  wrapped_sub_small,
}

-- The calls that follow on one with the outcome `o`, one for each part, as long as the handler waits.
unfoldable pub go_on : Bytes → Bytes → List Bytes → Option Outcome → Option Outcome
go_on packet temp [] o = o
go_on packet temp (c ∷ cs) none = none
go_on packet temp (c ∷ cs) (some (waits r)) =
    go_on packet temp cs (receive packet temp r (some c) none)
go_on packet temp (c ∷ cs) (some (closed r)) = some (closed r)
go_on packet temp (c ∷ cs) (some (complete header p r)) = some (complete header p r)

-- The parts, put together.
abbrev pub whole : List Bytes → Bytes → Bytes
whole [] last = last
whole (c ∷ cs) last = c ++ whole cs last

is_unread-holding : (missing : ℕ) → 0 < missing → missing ≤ 65536 → is_unread missing ≡ true
is_unread-holding missing some_byte small = ground arith

receive-resume :
    (packet temp c : Bytes) (r : Receiver)
    → is_unread r.temp_length ≡ true
    → receive packet temp r (some c) none ≡ resume packet r (some c)
unfolding receive
receive-resume packet temp c r unread = rw (unread, receive) refl

receive-waits :
    (packet temp header got rest c : Bytes) (missing : ℕ)
    → length c < missing
    → missing ≤ length rest
    → length c ≤ length packet
    → length got + missing ≤ 65531
    → length header ≡ 5
    → receive packet temp (holding missing (header ++ got) rest) (some c) none
      ≡ some (waits (holding (missing - length c) (header ++ (got ++ c)) (drop (length c) rest)))
receive-waits packet temp header got rest c missing part fits room small hh =
    receive-resume packet temp c _ (is_unread-holding missing (omega arith) (omega arith))
    ∙ resume-waits packet (header ++ got) rest c missing part fits room
        (omega (arith, length-append header got))
    ∙ ap (λ d. some (waits (holding (missing - length c) d (drop (length c) rest))))
        (append_assoc header got c)

parts-complete :
    (packet temp header : Bytes) (middle : List Bytes) (last got rest : Bytes) (missing : ℕ)
    → length header ≡ 5
    → length packet ≡ 65536
    → length got + length rest ≡ 65531
    → missing ≤ length rest
    → length (whole middle last) ≡ missing
    → 0 < length last
    → (after : Bytes) × (r : Receiver) × (go_on packet temp
          (middle ++ last ∷ [])
          (some (waits (holding missing (header ++ got) rest)))
        ≡ some (complete header ((got ++ whole middle last) ++ after) r))
      × IsIdle r
unfolding go_on
parts-complete packet temp header [] last got rest missing hh hp room fits size some_byte =
    let end = resume-complete packet header got rest last hh room (omega arith) hp some_byte in
    (
      end.0,
      end.1,
      subst
          (λ m.
            receive packet temp (holding m (header ++ got) rest) (some last) none
            ≡ some (complete header ((got ++ last) ++ end.0) end.1))
          size
          (receive-resume packet temp last _
              (is_unread-holding (length last) some_byte (omega arith))
            ∙ end.2),
      end.3,
    )
parts-complete packet temp header (c ∷ middle) last got rest missing hh hp room fits size
      some_byte =
    let next =
      parts-complete packet temp header middle last (got ++ c) (drop (length c) rest)
        (missing - length c) hh hp
        (omega (
          arith,
          length-append got c,
          length-drop (length c) rest,
          length-append c (whole middle last),
          last_fits middle,
        ))
        (omega (arith, length-drop (length c) rest))
        (omega (arith, length-append c (whole middle last))) some_byte in
    (
      next.0,
      next.1,
      ap (go_on packet temp (middle ++ last ∷ [])) (
            receive-waits packet temp header got rest c missing below fits (omega (arith, below))
              (omega (arith, below)) hh)
          ∙ next.2
          ∙ ap (λ whole_body. some (complete header (whole_body ++ next.0) next.1))
              (append_assoc got c (whole middle last)),
      next.3,
    )
  where
    last_fits : (cs : List Bytes) → length last ≤ length (whole cs last)
    last_fits [] = omega arith
    last_fits (d ∷ cs) = omega (arith, last_fits cs, length-append d (whole cs last))

    below : length c < missing
    below = omega (arith, last_fits middle, length-append c (whole middle last))

pub receive-read_rest :
    (packet temp header : Bytes) (r : Receiver) (result : Option Bytes)
    → IsIdle r
    → length header ≡ 5
    → receive packet temp r (some header) result ≡ read_rest packet temp r header result
unfolding receive
receive-read_rest packet temp header r result idle hh = rw (idle.none_missing, hh, receive) refl

is_partial : (n len : ℕ) → n < len → (not (n == len) && ltb 0 len) ≡ true
is_partial n len h = ground arith

read_rest-waits :
    (packet temp header first : Bytes) (r : Receiver)
    → IsIdle r
    → length header ≡ 5
    → length packet ≡ 65536
    → length temp ≡ 65536
    → 5 + length first < header_length header
    → header_length header < 65536
    → read_rest packet temp r header (some first)
      ≡ some (
          waits (
            holding
              (header_length header - 5 - length first)
              (header ++ first)
              (drop (length first) (drop 5 temp))))
unfolding read_rest
read_rest-waits packet temp header first r idle hh hp ht part small =
    rw
      (
        read_into_front first packet (omega arith),
        wrapped_sub_small (header_length header) 5 (omega arith) (omega arith),
        is_partial (length first) (header_length header - 5) (omega arith),
        copy_to_first header temp 5 hh (omega arith),
        behind_header,
        wrapped_sub_small (header_length header) 5 (omega arith) (omega arith),
        wrapped_sub_small (header_length header - 5) (length first) (omega arith) (omega arith),
        index_is r.temp_buffer_index idle.at_start,
        read_rest,
      )
      refl
  where
    behind_header :
        copy_to (header ++ drop 5 temp) 5 (first ++ drop (length first) packet) (length first)
        ≡ some ((header ++ first) ++ drop (length first) (drop 5 temp))
    behind_header =
        subst
          (λ n.
            copy_to (header ++ drop 5 temp) n (first ++ drop (length first) packet) (length first)
            ≡ some ((header ++ first) ++ drop (length first) (drop 5 temp)))
          hh
          (copy_to_behind header (drop 5 temp) first (drop (length first) packet)
            (omega (arith, length-drop 5 temp)))

    index_is : (i : ℕ) → i ≡ 0 → (i + length first + 5) % 2 ^ 32 ≡ length (header ++ first)
    index_is i e = omega (arith, length-append header first)

-- For an idle handler, a header of five bytes and arrays of 65536 bytes: where the length in the
-- header, which is below 65536, counts the header and all parts of the rest, and the last part is
-- not empty, the calls go on until the last one, which goes on with the header and with the parts
-- put together at the front of the packet's array, and the handler is idle again.
pub receive-parts :
    (packet temp header first last : Bytes) (middle : List Bytes) (r : Receiver)
    → IsIdle r
    → length header ≡ 5
    → length packet ≡ 65536
    → length temp ≡ 65536
    → 0 < length last
    → header_length header ≡ 5 + length first + length (whole middle last)
    → header_length header < 65536
    → (after : Bytes) × (end : Receiver) × (go_on packet temp
          (middle ++ last ∷ [])
          (receive packet temp r (some header) (some first))
        ≡ some (complete header ((first ++ whole middle last) ++ after) end))
      × IsIdle end
receive-parts packet temp header first last middle r idle hh hp ht some_byte size small =
    let end =
      parts-complete packet temp header middle last first (drop (length first) (drop 5 temp))
        (header_length header - 5 - length first) hh hp
        (omega (arith, length-drop 5 temp, length-drop (length first) (drop 5 temp)))
        (omega (arith, length-drop 5 temp, length-drop (length first) (drop 5 temp))) (omega arith)
        some_byte in
    (
      end.0,
      end.1,
      ap (go_on packet temp (middle ++ last ∷ [])) (
            receive-read_rest packet temp header r (some first) idle hh
            ∙ read_rest-waits packet temp header first r idle hh hp ht
                (omega (arith, last_fits middle)) small)
          ∙ end.2,
      end.3,
    )
  where
    last_fits : (cs : List Bytes) → length last ≤ length (whole cs last)
    last_fits [] = omega arith
    last_fits (d ∷ cs) = omega (arith, last_fits cs, length-append d (whole cs last))
