-- ===== src/Buffer/Writes.antt =====
-- Operations that fill an array from left to right, with the rules that put them in sequence.
use xfire.Prelude.{
  ℕ, ◌+◌, ◌≡◌, refl, ◌∙◌, inl, inr, [], ◌∷◌, ◌++◌, Option, none, some, length, drop, leb,
  if◌then◌else◌, length-append, length-drop, append_assoc, append-nil, drop-drop,
  take-length_append, drop-length_append, Bool-cases, arith, take_all, drop_all,
}
use mathlib.Core.Path.{subst}
use xfire.Buffer.{Bytes, Op, ◌>>=◌, ◌>>◌, pure, write, put, puts, memcpy, read_at, on, given}

-- What `m` does to an array with `done` in front of `rest`: it puts `bs` behind `done`, over the
-- bytes of `rest`, and returns `a`; where `rest` is too short for `bs` it faults.
abbrev pub Fills : {A : Type 0} → Op A → Bytes → A → Bytes → Bytes → Type 0
Fills m bs a done rest = m (done ++ rest) ≡ (
    if leb (length bs) (length rest) then some (a, done ++ (bs ++ drop (length bs) rest)) else none)

-- `m` is started where the filled part ends, at place `i`.
pub record Writes {A : Type 0} (m : Op A) (i : ℕ) (bs : Bytes) (a : A) : Type 0 where
  pub fills : (done rest : Bytes) → length done ≡ i → Fills m bs a done rest

pub write-Writes : (i : ℕ) (bs : Bytes) → Writes (write i bs) i bs tt
unfolding write
write-Writes i bs = record {
  fills = λ done rest h.
      rw
        (
          ← h,
          length-append done rest,
          take-length_append done rest,
          drop-length_append (length bs) done rest,
        )
        (ground arith);
}

pub bind-Fills :
    {A B : Type 0} (m : Op A) (f : A → Op B) (bs cs done rest : Bytes) (a : A) (c : B)
    → Fills m bs a done rest
    → Fills (f a) cs c (done ++ bs) (drop (length bs) rest)
    → Fills (m >>= f) (bs ++ cs) c done rest
unfolding ◌>>=◌
bind-Fills m f bs cs done rest a c hm hf = elim (Bool-cases (leb (length bs) (length rest))) [
  | inr full ↦ rw (hm, full, ◌>>=◌) (ground (arith, length-append bs cs))
  | inl fits ↦
      rw (hm, fits, ← append_assoc done bs (drop (length bs) rest), ◌>>=◌)
        (hf
          ∙ rw (drop-drop (length bs) (length cs) rest, append_assoc done bs, append_assoc bs cs)
              (ground (arith, length-append bs cs, length-drop (length bs) rest)))
]

pub then-Fills :
    {B : Type 0} (m : Op (Unit {0})) (k : Op B) (bs cs done rest : Bytes) (c : B)
    → Fills m bs tt done rest
    → Fills k cs c (done ++ bs) (drop (length bs) rest)
    → Fills (m >> k) (bs ++ cs) c done rest
unfolding ◌>>◌
then-Fills m k bs cs done rest c hm hk = bind-Fills m (λ _. k) bs cs done rest tt c hm hk

-- Filling goes on where it stopped.
pub bind-Writes :
    {A B : Type 0} {m : Op A} (f : A → Op B) {i j : ℕ} {bs cs : Bytes} {a : A} {c : B}
    → Writes m i bs a
    → j ≡ i + length bs
    → Writes (f a) j cs c
    → Writes (m >>= f) i (bs ++ cs) c
bind-Writes {m} f {bs} {cs} {a} {c} hm hj hf = record {
  fills = λ done rest h.
      bind-Fills m f bs cs done rest a c (hm.fills done rest h)
        (hf.fills (done ++ bs) (drop (length bs) rest) (omega (arith, length-append done bs)));
}

pub then-Writes :
    {B : Type 0} {m : Op (Unit {0})} {k : Op B} {i j : ℕ} {bs cs : Bytes} {c : B}
    → Writes m i bs tt
    → j ≡ i + length bs
    → Writes k j cs c
    → Writes (m >> k) i (bs ++ cs) c
unfolding ◌>>◌
then-Writes {k} hm hj hk = bind-Writes (λ _. k) hm hj hk

pub pure-Writes : {A : Type 0} (i : ℕ) (a : A) → Writes (pure a) i [] a
unfolding pure
pure-Writes i a = record { fills = λ done rest h. ground arith }

-- A last step that returns the place reached.
pub end-Writes :
    {m : Op (Unit {0})} {i j : ℕ} {bs : Bytes}
    → Writes m i bs tt
    → j ≡ i + length bs
    → Writes (m >> pure j) i bs j
end-Writes {m} {i} {j} {bs} h e =
    subst (λ cs. Writes (m >> pure j) i cs j) (append-nil bs) (then-Writes h e (pure-Writes j j))

pub put-Writes : (i v : ℕ) → Writes (put i v) i (v ∷ []) tt
unfolding put
put-Writes i v = write-Writes i (v ∷ [])

pub puts-Writes : (i : ℕ) (vs : Bytes) → Writes (puts i vs) i vs tt
unfolding puts
puts-Writes i [] = pure-Writes i tt
puts-Writes i (v ∷ vs) = then-Writes (put-Writes i v) refl (puts-Writes (i + 1) vs)

pub read_at-whole : (src : Bytes) (n : ℕ) → length src ≡ n → read_at src 0 n ≡ some src
unfolding read_at
read_at-whole src n h = ground (arith, take_all n src h)

-- The front of an array.
pub read_at-append : (bs more : Bytes) (n : ℕ) → length bs ≡ n → read_at (bs ++ more) 0 n ≡ some bs
unfolding read_at
read_at-append bs more n e =
    rw (← e) (ground (arith, length-append bs more, take-length_append bs more))

memcpy_whole : (i : ℕ) (src : Bytes) (n : ℕ) → length src ≡ n → memcpy i src n ≡ write i src
unfolding memcpy
memcpy_whole i src n h = rw (read_at-whole src n h, memcpy)

-- Copying the `n` bytes of an array that has exactly that many.
pub memcpy-Writes :
    (i : ℕ) (src : Bytes) (n : ℕ) → length src ≡ n → Writes (memcpy i src n) i src tt
memcpy-Writes i src n h = rw (memcpy_whole i src n h) (write-Writes i src)

-- The same bytes under another description.
pub Writes-eq :
    {A : Type 0} {m : Op A} {i : ℕ} {bs cs : Bytes} {a c : A}
    → Writes m i bs a
    → bs ≡ cs
    → a ≡ c
    → Writes m i cs c
Writes-eq {m} {i} {a} {c} h e r = rw (← e, ← r) h

-- A routine that fills the array from its start: where its bytes fit it leaves them in front of what
-- the array held behind them, and where they do not it runs out of the array.
pub Writes-whole :
    {A : Type 0} {m : Op A} {bs : Bytes} {a : A}
    → Writes m 0 bs a
    → (b : Bytes)
    → m b ≡ (if leb (length bs) (length b) then some (a, bs ++ drop (length bs) b) else none)
Writes-whole h b = h.fills [] b refl

-- A whole array that is filled by another operation.
pub on_whole :
    {m : Op (Unit {0})} {bs : Bytes} (b : Bytes)
    → Writes m 0 bs tt
    → length b ≡ length bs
    → on b m ≡ pure bs
unfolding on
on_whole {m} {bs} b w h = rw (filled, on)
  where
    filled : m b ≡ some (tt, bs)
    filled = rw (Writes-whole w b) (ground (arith, drop_all b (length bs) h, append-nil bs))

pub given-Writes : {A : Type 0} (i : ℕ) (a : A) → Writes (given (some a)) i [] a
unfolding given
given-Writes i a = pure-Writes i a

-- The same place under another description.
pub Writes-at :
    {A : Type 0} {m : Op A} {i j : ℕ} {bs : Bytes} {a : A}
    → Writes m i bs a
    → i ≡ j
    → Writes m j bs a
Writes-at h e = rw (← e) h

-- Work on another array first, which it fills.
pub on-Writes :
    {B : Type 0} {m : Op (Unit {0})} (f : Bytes → Op B) {i : ℕ} {bs cs : Bytes} {c : B} (b : Bytes)
    → Writes m 0 bs tt
    → length b ≡ length bs
    → Writes (f bs) i cs c
    → Writes (on b m >>= f) i cs c
on-Writes f {i} {cs} {c} b w h hf =
    rw (on_whole b w h) (bind-Writes f (pure-Writes i _) (omega arith) hf)

-- A result that is known not to be a fault.
pub known-Writes :
    {A : Type 0} (i : ℕ) (o : Option A) (a : A) → o ≡ some a → Writes (given o) i [] a
known-Writes i o a h = rw h (given-Writes i a)

-- A step that stores nothing.
pub silent-Writes :
    {A B : Type 0} {m : Op A} (f : A → Op B) {i : ℕ} {cs : Bytes} {a : A} {c : B}
    → Writes m i [] a
    → Writes (f a) i cs c
    → Writes (m >>= f) i cs c
silent-Writes f h hf = bind-Writes f h (omega arith) hf
