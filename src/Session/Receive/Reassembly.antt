-- ===== src/Session/Receive/Reassembly.antt =====
-- However a packet is cut up by the calls of `read`, the handler goes on with the whole packet, and
-- it goes on with it once.
use xfire.Prelude.{
  ℕ, ◌+◌, ◌-◌, ◌%◌, ◌^◌, ◌≤◌, ◌<◌, ◌≡◌, refl, sym, ap, ◌∙◌, [], ◌++◌, some, false, length, drop,
  ◌==◌, le→leb, length-append, length-drop, append_assoc, drop-length_append, arith,
}
use xfire.Buffer.{Bytes, write}
use mathlib.Core.Path.{subst}
use xfire.Buffer.Writes.{write-Writes, read_at-whole, read_at-append}
use xfire.Session.Receive.{
  Receiver, waits, complete, copy_to, finish, resume, read_into, wrapped_sub,
}

-- The bytes of `done` are there, and `missing` bytes are wanted over the bytes of `rest`.
abbrev pub holding : ℕ → Bytes → Bytes → Receiver
holding missing done rest = record {
  temp_length = missing;
  temp_buffer = done ++ rest;
  temp_buffer_index = length done;
}

-- No packet is incomplete.
pub record IsIdle (r : Receiver) : Type 0 where
  pub none_missing : r.temp_length ≡ 0
  pub at_start : r.temp_buffer_index ≡ 0

write_behind :
    (done rest bs : Bytes)
    → length bs ≤ length rest
    → write (length done) bs (done ++ rest) ≡ some (tt, done ++ (bs ++ drop (length bs) rest))
write_behind done rest bs h =
    (write-Writes (length done) bs).fills done rest refl ∙ rw (le→leb _ _ h) refl

pub copy_to_behind :
    (done rest bs more : Bytes)
    → length bs ≤ length rest
    → copy_to (done ++ rest) (length done) (bs ++ more) (length bs)
      ≡ some ((done ++ bs) ++ drop (length bs) rest)
unfolding copy_to
copy_to_behind done rest bs more h =
    rw (read_at-append bs more _ refl, write_behind done rest bs h, copy_to)
      (ap some (sym (append_assoc done bs _)))

pub read_into_front :
    (bs packet : Bytes)
    → length bs ≤ length packet
    → read_into (some bs) packet ≡ some (bs ++ drop (length bs) packet)
unfolding read_into
read_into_front bs packet h = rw (write_behind [] packet bs h, read_into) refl

pub wrapped_sub_small : (a b : ℕ) → b ≤ a → a ≤ 65536 → wrapped_sub a b ≡ a - b
wrapped_sub_small a b h small = omega arith

pub wrapped_index :
    (done c : Bytes)
    → length done + length c ≤ 65536
    → (length done + length c) % 2 ^ 32 ≡ length (done ++ c)
wrapped_index done c h = omega (arith, length-append done c)

==-false : (a : ℕ) → 0 < a → (a == 0) ≡ false
==-false a h = ground arith

-- A call that brings a part of what is missing.
pub resume-waits :
    (packet done rest c : Bytes) (missing : ℕ)
    → length c < missing
    → missing ≤ length rest
    → length c ≤ length packet
    → length done + missing ≤ 65536
    → resume packet (holding missing done rest) (some c)
      ≡ some (waits (holding (missing - length c) (done ++ c) (drop (length c) rest)))
unfolding resume
resume-waits packet done rest c missing part room fits small =
    rw
      (
        read_into_front c packet fits,
        copy_to_behind done rest c (drop (length c) packet) (omega arith),
        resume,
        wrapped_sub_small missing (length c) (omega arith) (omega arith),
        wrapped_index done c (omega arith),
        ==-false (missing - length c) (omega arith),
      )
      refl

drop_first : (bs more : Bytes) (n : ℕ) → length bs ≡ n → drop n (bs ++ more) ≡ more
drop_first bs more n e = ap (λ k. drop k (bs ++ more)) (omega arith) ∙ drop-length_append 0 bs more

pub copy_to_first :
    (bs packet : Bytes) (n : ℕ)
    → length bs ≡ n
    → n ≤ length packet
    → copy_to packet 0 bs n ≡ some (bs ++ drop n packet)
unfolding copy_to
copy_to_first bs packet n e h =
    subst (λ n. copy_to packet 0 bs n ≡ some (bs ++ drop n packet)) e
      (rw (read_at-whole bs (length bs) refl, write_behind [] packet bs (omega arith), copy_to)
        refl)

sub_self : (n : ℕ) → n - n ≡ 0
sub_self n = omega arith

-- What `finish` makes of an array whose first five bytes are a header.
finish_lem :
    (header body packet : Bytes)
    → length header ≡ 5
    → length body ≡ 65531
    → length packet ≡ 65536
    → finish packet (header ++ body) 0
      ≡ some (
          complete header
            (body ++ drop 65531 packet)
            (record { temp_length = 0; temp_buffer = header ++ body; temp_buffer_index = 0 }))
unfolding finish
finish_lem header body packet hh hb hp =
    rw
      (
        read_at-append header body 5 hh,
        drop_first header body 5 hh,
        copy_to_first body packet 65531 hb (omega arith),
        finish,
      )
      refl

-- The call that brings the last byte: what is missing is all there.
pub resume-complete :
    (packet header got rest c : Bytes)
    → length header ≡ 5
    → length got + length rest ≡ 65531
    → length c ≤ length rest
    → length packet ≡ 65536
    → 0 < length c
    → (after : Bytes) × (r : Receiver) × (resume packet
          (holding (length c) (header ++ got) rest)
          (some c)
        ≡ some (complete header ((got ++ c) ++ after) r))
      × IsIdle r
unfolding resume
resume-complete packet header got rest c hh room fits hp some_byte = (
  drop (length c) rest ++ drop 65531 (c ++ drop (length c) packet),
  record {
    temp_length = 0;
    temp_buffer = header ++ ((got ++ c) ++ drop (length c) rest);
    temp_buffer_index = 0;
  },
  rw
      (
        read_into_front c packet (omega arith),
        copy_to_behind (header ++ got) rest c (drop (length c) packet) fits,
        resume,
        wrapped_sub_small (length c) (length c) (omega arith) (omega arith),
        sub_self (length c),
        append_assoc header got c,
        append_assoc header (got ++ c) (drop (length c) rest),
      )
      (finish_lem header ((got ++ c) ++ drop (length c) rest) (c ++ drop (length c) packet) hh
          (rw (length-append (got ++ c), length-append got c, length-drop (length c) rest)
            (omega arith))
          (rw (length-append c, length-drop (length c) packet) (omega arith))
        ∙ rw (append_assoc (got ++ c) (drop (length c) rest)) refl),
  record { none_missing = refl; at_start = refl },
)
