-- ===== src/Session/Receive.antt =====
-- How `xfire_packet_handler` (gfire/src/xfire.c) puts a packet together before it acts on it. The
-- results of `read` are arguments: the bytes that it delivered, or `none` for -1. `none` as the
-- result is an access outside an array.
pub mod Reassembly
pub mod Parts
use xfire.Prelude.{
  ℕ, ◌+◌, ◌-◌, ◌*◌, ◌%◌, ◌^◌, Bool, not, ◌&&◌, List, [], ◌∷◌, Option, none, some, length, take,
  drop, get_elem?, ltb, ◌==◌, if◌then◌else◌,
}
use xfire.Buffer.{Bytes, Op, ◌>>=◌, ◌>>◌, pure, write, read_at, given}
use xfire.Utils.{xfire_hex_to_int_c}

-- The variables that the handler keeps between its calls. The two numbers are C's 32-bit integers
-- by their bits.
pub record Receiver : Type 0 where
  pub temp_length : ℕ
  pub temp_buffer : Bytes
  pub temp_buffer_index : ℕ

-- The handler waits for the rest of a packet, closes the connection, or goes on with a packet.
pub data Outcome : Type 0 where
  waits : Receiver → Outcome
  closed : Receiver → Outcome
  complete : Bytes → Bytes → Receiver → Outcome

-- `temp_length > 0`, on a signed integer.
abbrev pub is_unread : ℕ → Bool
is_unread n = ltb 0 n && ltb n (2 ^ 31)

abbrev pub wrapped_sub : ℕ → ℕ → ℕ
wrapped_sub a b = (a + 2 ^ 32 - b) % 2 ^ 32

-- The result of `read` as an unsigned number.
abbrev pub read_size : Option Bytes → ℕ
read_size none = 2 ^ 32 - 1
read_size (some bs) = length bs

-- What `read` leaves in the array that it is given.
unfoldable pub read_into : Option Bytes → Bytes → Option Bytes
read_into none packet = some packet
read_into (some bs) packet = elim (write 0 bs packet) [
  | none ↦ none
  | some (_, packet') ↦ some packet'
]

-- `memcpy(temp_buffer+i, src, n)`
unfoldable pub copy_to : Bytes → ℕ → Bytes → ℕ → Option Bytes
copy_to temp_buffer i src n = elim (read_at src 0 n) [
  | none ↦ none
  | some bs ↦ elim (write i bs temp_buffer) [ none ↦ none | some (_, b) ↦ some b ]
]

-- What stands in `temp_buffer` as soon as nothing is missing.
unfoldable pub finish : Bytes → Bytes → ℕ → Option Outcome
finish packet temp_buffer temp_length = elim (read_at temp_buffer 0 5) [
  | none ↦ none
  | some header ↦ elim (copy_to packet 0 (drop 5 temp_buffer) 65531) [
    | none ↦ none
    | some packet' ↦ some (
        complete header packet'
          (record { temp_length = temp_length; temp_buffer = temp_buffer; temp_buffer_index = 0 }))
  ]
]

-- A call while a packet is not completely read; `packet` is the new array.
unfoldable pub resume : Bytes → Receiver → Option Bytes → Option Outcome
resume packet r result =
    let n = read_size result in
    let temp_length = wrapped_sub r.temp_length n in
    elim (read_into result packet) [
      | none ↦ none
      | some packet ↦ elim (copy_to r.temp_buffer r.temp_buffer_index packet n) [
        | none ↦ none
        | some temp_buffer ↦
            if temp_length == 0
            then finish packet temp_buffer temp_length
            else some (
                waits (record {
                  temp_length = temp_length;
                  temp_buffer = temp_buffer;
                  temp_buffer_index = (r.temp_buffer_index + n) % 2 ^ 32;
                }))
      ]
    ]

-- The length in a header.
unfoldable pub header_length : Bytes → ℕ
header_length (l ∷ h ∷ rest) = xfire_hex_to_int_c l + xfire_hex_to_int_c h * 256
header_length rest = 0

-- The rest of a packet whose header has been read, into the new array `packet`; `temp` is the array
-- that is allocated for a packet in parts.
unfoldable pub read_rest : Bytes → Bytes → Receiver → Bytes → Option Bytes → Option Outcome
read_rest packet temp r header result =
    let len = wrapped_sub (header_length header) 5 in
    let n = read_size result in
    elim (read_into result packet) [
      | none ↦ none
      | some packet ↦
          if not (n == len) && ltb 0 len
          then (elim (copy_to temp 0 header 5) [
            | none ↦ none
            | some temp ↦ elim (copy_to temp 5 packet n) [
              | none ↦ none
              | some temp ↦ some (
                  waits (record {
                    temp_length = wrapped_sub len n;
                    temp_buffer = temp;
                    temp_buffer_index = (r.temp_buffer_index + n + 5) % 2 ^ 32;
                  }))
            ]
          ])
          else some (complete header packet r)
    ]

-- The handler, with the results of its one or two calls of `read`.
unfoldable pub receive : Bytes → Bytes → Receiver → Option Bytes → Option Bytes → Option Outcome
receive packet temp r first second =
    if is_unread r.temp_length then resume packet r first else elim first [
      | none ↦ some (closed r)
      | some header ↦
          if length header == 5 then read_rest packet temp r header second else some (closed r)
    ]
