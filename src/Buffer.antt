-- ===== src/Buffer.antt =====
-- C memory: a `char` array is a list of bytes, and code that fills one is an operation on that
-- list. `none` is an access outside the array, which C leaves undefined.
pub mod Writes
pub mod Overlap
pub mod Faults
pub mod Steps
use xfire.Prelude.{
  ℕ, ◌+◌, List, [], ◌∷◌, ◌++◌, Option, none, some, length, take, drop, replicate, leb,
  if◌then◌else◌,
}

abbrev pub Bytes : Type 0
Bytes = List ℕ

abbrev pub Op : Type 0 → Type 0
Op A = Bytes → Option (A × Bytes)

unfoldable pub pure : {A : Type 0} → A → Op A
pure a b = some (a, b)

-- What a null pointer that is followed, or a read outside an array, comes to.
unfoldable pub fault : {A : Type 0} → Op A
fault b = none

infixl 5 ◌>>=◌ ◌>>◌
unfoldable pub ◌>>=◌ : {A B : Type 0} → Op A → (A → Op B) → Op B
◌>>=◌ m f b = elim (m b) [ none ↦ none | some (a, b') ↦ f a b' ]

unfoldable pub ◌>>◌ : {B : Type 0} → Op (Unit {0}) → Op B → Op B
unfolding ◌>>=◌
m >> k = m >>= λ _. k

-- Stores `bs` from place `i` on.
unfoldable pub write : ℕ → Bytes → Op (Unit {0})
write i bs b =
    if leb (i + length bs) (length b)
    then some (tt, take i b ++ (bs ++ drop (i + length bs) b))
    else none

-- `packet[i] = v`
unfoldable pub put : ℕ → ℕ → Op (Unit {0})
unfolding write
put i v = write i (v ∷ [])

-- `packet[i] = v0; packet[i+1] = v1; …`
unfoldable pub puts : ℕ → Bytes → Op (Unit {0})
unfolding put pure ◌>>◌
puts i [] = pure tt
puts i (v ∷ vs) = put i v >> puts (i + 1) vs

-- The `n` bytes of the array `src` from place `i` on.
unfoldable pub read_at : Bytes → ℕ → ℕ → Option Bytes
read_at src i n = if leb (i + n) (length src) then some (take n (drop i src)) else none

-- `memcpy(packet+i, src, n)`
unfoldable pub memcpy : ℕ → Bytes → ℕ → Op (Unit {0})
unfolding write read_at fault
memcpy i src n = elim (read_at src 0 n) [ none ↦ fault | some bs ↦ write i bs ]

-- `memset(packet+i, v, n)`
unfoldable pub memset : ℕ → ℕ → ℕ → Op (Unit {0})
unfolding write
memset i v n = write i (replicate n v)

-- Works on another array, which holds `b`, and returns what it holds then.
unfoldable pub on : Bytes → Op (Unit {0}) → Op Bytes
unfolding fault pure
on b m = elim (m b) [ none ↦ fault | some (_, b') ↦ pure b' ]

-- A result that may be a fault, in code that fills an array.
unfoldable pub given : {A : Type 0} → Option A → Op A
unfolding fault pure
given none = fault
given (some a) = pure a
