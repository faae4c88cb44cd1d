-- ===== src/Session/Dispatch/Stream.antt =====
-- A stream of packets: the calls of `xfire_packet_handler` for one packet after the other, each of them
-- read at once or in parts, against the handling of the packets themselves.
use xfire.Prelude.{
  ℕ, ◌+◌, ◌-◌, ◌<◌, ◌≡◌, refl, ◌∙◌, not, ◌&&◌, false, List, [], ◌∷◌, ◌++◌, Option, none, some,
  length, drop, ltb, ◌==◌, All, length-append, Option-cases, inl, inr, arith,
}
use xfire.Buffer.{Bytes}
use xfire.Session.Buddy.{Buddy}
use xfire.Session.Receive.{
  Receiver, Outcome, waits, closed, complete, header_length, read_rest, receive,
}
use xfire.Session.Receive.Reassembly.{IsIdle, read_into_front, wrapped_sub_small}
use xfire.Session.Receive.Parts.{go_on, whole, receive-read_rest, receive-parts}
use xfire.Session.Dispatch.{Gaim, Arrays, Dispatched, dispatch}

-- How a packet comes: its header, and the rest at once or in parts, one for each call of `read`.
pub data Arrival : Type 0 where
  at_once : Bytes → Bytes → Arrival
  in_parts : Bytes → Bytes → List Bytes → Bytes → Arrival

abbrev pub header_of : Arrival → Bytes
header_of (at_once header body) = header
header_of (in_parts header first middle last) = header

abbrev pub body_of : Arrival → Bytes
body_of (at_once header body) = body
body_of (in_parts header first middle last) = first ++ whole middle last

abbrev pub EndsInBytes : Arrival → Type 0
EndsInBytes (at_once header body) = Unit
EndsInBytes (in_parts header first middle last) = 0 < length last

-- A packet whose header counts its bytes, and whose last part, if it has parts, is not empty.
pub record IsFramed (a : Arrival) : Type 0 where
  pub header_size : length (header_of a) ≡ 5
  pub counts : header_length (header_of a) ≡ 5 + length (body_of a)
  pub small : header_length (header_of a) < 65536
  pub ends : EndsInBytes a

-- The calls of the handler for one packet, up to the switch.
unfoldable pub arrive : Bytes → Bytes → Receiver → Arrival → Option Outcome
unfolding receive go_on
arrive packet temp r (at_once header body) = receive packet temp r (some header) (some body)
arrive packet temp r (in_parts header first middle last) =
    go_on packet temp (middle ++ (last ∷ [])) (receive packet temp r (some header) (some first))

read_whole :
    (packet temp header body : Bytes) (r : Receiver)
    → IsIdle r
    → length header ≡ 5
    → length packet ≡ 65536
    → header_length header ≡ 5 + length body
    → header_length header < 65536
    → receive packet temp r (some header) (some body)
      ≡ some (complete header (body ++ drop (length body) packet) r)
unfolding read_rest
read_whole packet temp header body r idle hh hp counts small =
    receive-read_rest packet temp header r (some body) idle hh
    ∙ rw
        (
          read_into_front body packet (omega arith),
          wrapped_sub_small (header_length header) 5 (omega arith) (omega arith),
          all_read (length body) (header_length header - 5) (omega arith),
          read_rest,
        )
        refl
  where
    all_read : (n len : ℕ) → n ≡ len → (not (n == len) && ltb 0 len) ≡ false
    all_read n len e = ground arith

module _ (packet temp : Bytes) (hp : length packet ≡ 65536) (ht : length temp ≡ 65536) where
  arrive-complete :
      (r : Receiver) (a : Arrival)
      → IsIdle r
      → IsFramed a
      → (after : Bytes) × (end : Receiver) × (arrive packet temp r a
          ≡ some (complete (header_of a) (body_of a ++ after) end))
        × IsIdle end
  unfolding arrive
  arrive-complete r (at_once header body) idle framed = (
    drop (length body) packet,
    r,
    read_whole packet temp header body r idle framed.header_size hp framed.counts framed.small,
    idle,
  )
  arrive-complete r (in_parts header first middle last) idle framed =
      receive-parts packet temp header first last middle r idle framed.header_size hp ht framed.ends
        (omega (arith, framed.counts, length-append first (whole middle last))) framed.small

abbrev pub Answers : Type 0
Answers = Option (List Dispatched × List Buddy)

abbrev pub prepend : Dispatched → Answers → Answers
prepend d none = none
prepend d (some (ds, buddies)) = some (d ∷ ds, buddies)

-- The calls for one packet after the other; after the connection was closed there are no more.
unfoldable pub run :
    Gaim → Arrays → Bytes → Bytes → Bytes → Receiver → List Arrival → List Buddy → Answers
unfolding arrive dispatch
run gaim arrays buffer packet temp r [] buddies = some ([], buddies)
run gaim arrays buffer packet temp r (a ∷ coming) buddies = elim (arrive packet temp r a) [
  | none ↦ none
  | some o ↦ elim o [
    | waits r ↦ run gaim arrays buffer packet temp r coming buddies
    | closed r ↦ some ([], buddies)
    | complete header body r ↦ elim (dispatch gaim arrays buffer header body buddies) [
      | none ↦ none
      | some d ↦ prepend d (run gaim arrays buffer packet temp r coming d.buddies)
    ]
  ]
]

-- The packets themselves, each with its header and what stands in the packet's array.
unfoldable pub deliver : Gaim → Arrays → Bytes → List (Bytes × Bytes) → List Buddy → Answers
unfolding dispatch
deliver gaim arrays buffer [] buddies = some ([], buddies)
deliver gaim arrays buffer ((header, body) ∷ ps) buddies =
    elim (dispatch gaim arrays buffer header body buddies) [
      | none ↦ none
      | some d ↦ prepend d (deliver gaim arrays buffer ps d.buddies)
    ]

-- These are the packets that come, each at the front of the array.
abbrev pub AreThose : List Arrival → List (Bytes × Bytes) → Type 0
AreThose [] [] = Unit
AreThose [] (p ∷ ps) = ⊥
AreThose (a ∷ coming) [] = ⊥
AreThose (a ∷ coming) ((header, body) ∷ ps) =
    (header ≡ header_of a) × ((after : Bytes) × (body ≡ body_of a ++ after)) × AreThose coming ps

module _ (gaim : Gaim) (arrays : Arrays) (buffer packet temp : Bytes) (hp : length packet ≡ 65536)
    (ht : length temp ≡ 65536) where
  -- The packets do not depend on the buddies.
  run-packets :
      (r : Receiver) (coming : List Arrival)
      → IsIdle r
      → All IsFramed coming
      → (ps : List (Bytes × Bytes)) × AreThose coming ps
        × ((buddies : List Buddy)
            → run gaim arrays buffer packet temp r coming buddies
              ≡ deliver gaim arrays buffer ps buddies)
  unfolding run deliver
  run-packets r [] idle framed = ([], tt, λ buddies. refl)
  run-packets r (a ∷ coming) idle (first, framed) =
      let (after, end, arrives, end_idle) = arrive-complete packet temp hp ht r a idle first in
      let (ps, those, rest) = run-packets end coming end_idle framed in
      (
        (header_of a, body_of a ++ after) ∷ ps,
        (refl, (after, refl), those),
        λ buddies. rw (arrives, run) (each end ps rest (body_of a ++ after) buddies),
      )
    where
      each :
          (end : Receiver) (ps : List (Bytes × Bytes))
          → ((buddies : List Buddy)
              → run gaim arrays buffer packet temp end coming buddies
                ≡ deliver gaim arrays buffer ps buddies)
          → (body : Bytes) (buddies : List Buddy)
          → (elim (dispatch gaim arrays buffer (header_of a) body buddies) [
            | none ↦ none
            | some d ↦ prepend d (run gaim arrays buffer packet temp end coming d.buddies)
          ])
            ≡ (elim (dispatch gaim arrays buffer (header_of a) body buddies) [
              | none ↦ none
              | some d ↦ prepend d (deliver gaim arrays buffer ps d.buddies)
            ])
      each end ps rest body buddies =
          elim (Option-cases (dispatch gaim arrays buffer (header_of a) body buddies)) [
            | inl fault ↦ rw fault refl
            | inr (d, e) ↦ rw e rw (rest d.buddies) refl
          ]

  -- A header of which `read` returns less ends the connection, and nothing behind it is read.
  run-short_header :
      (r : Receiver) (coming later : List Arrival) (short rest : Bytes) (buddies : List Buddy)
      → IsIdle r
      → All IsFramed coming
      → length short < 5
      → run gaim arrays buffer packet temp r (coming ++ (at_once short rest ∷ later)) buddies
        ≡ run gaim arrays buffer packet temp r coming buddies
  unfolding run arrive receive
  run-short_header r [] later short rest buddies idle framed few = rw (closes, run) refl
    where
      closes : arrive packet temp r (at_once short rest) ≡ some (closed r)
      closes = rw (idle.none_missing, arrive, receive) ground arith
  run-short_header r (a ∷ coming) later short rest buddies idle (first, framed) few =
      let (after, end, arrives, end_idle) = arrive-complete packet temp hp ht r a idle first in
      rw (arrives, run)
        (elim (Option-cases
          (dispatch gaim arrays buffer (header_of a) (body_of a ++ after) buddies)) [
            | inl fault ↦ rw fault refl
            | inr (d, e) ↦
                rw e rw (run-short_header end coming later short rest d.buddies end_idle framed few)
                  refl
          ])

-- With arrays of 65536 bytes, from an idle handler, for packets whose headers come whole and count
-- their bytes and whose last parts are not empty: however the rest of each packet is cut up between the
-- calls of `read`, the calls of `xfire_packet_handler` lead to what the packets lead to that stand,
-- whole and in their order, at the front of the packet's array: the same answers, buddies and notices,
-- and the same faults. Where `read` then returns less than five bytes of a header, the handler closes
-- the connection: nothing more is done, whatever comes behind.
pub run-deliver :
    (gaim : Gaim) (arrays : Arrays) (buffer packet temp : Bytes) (r : Receiver)
    (coming later : List Arrival) (short rest : Bytes) (buddies : List Buddy)
    → length packet ≡ 65536
    → length temp ≡ 65536
    → IsIdle r
    → All IsFramed coming
    → length short < 5
    → (ps : List (Bytes × Bytes)) × AreThose coming ps
      × (run gaim arrays buffer packet temp r coming buddies
          ≡ deliver gaim arrays buffer ps buddies)
      × (run gaim arrays buffer packet temp r (coming ++ (at_once short rest ∷ later)) buddies
          ≡ deliver gaim arrays buffer ps buddies)
run-deliver gaim arrays buffer packet temp r coming later short rest buddies hp ht idle framed few =
    let (ps, those, same) = run-packets gaim arrays buffer packet temp hp ht r coming idle framed in
    (
      ps,
      those,
      same buddies,
      run-short_header gaim arrays buffer packet temp hp ht r coming later short rest buddies idle
            framed few
          ∙ same buddies,
    )
