-- ===== src/Xfirelib/Value/Places.antt =====
-- Reading an array whose bytes from a place on are known.
use xfire.Prelude.{
  ℕ, zero, suc, ◌≤◌, ◌+◌, ◌<◌, ◌≡◌, refl, sym, ap, ◌∙◌, [], ◌∷◌, ◌++◌, some, length, drop,
  get_elem?, le→leb, lt→leb, drop-drop, drop-append, length-drop, length-append, take-length_append,
  take_all, arith,
}
use xfire.Partial.{◌>>=◌}
use xfire.Buffer.{Bytes, read_at}
use xfire.Packets.Login.Format.{IsText, c_string-IsText}
use xfire.Xfirelib.Value.{
  VariableValue, set_value, get_value, get_value_as_long, long_of_bytes, read_name, read_value,
}

-- From place `i` on the array holds `xs`.
pub record At (buf : Bytes) (i : ℕ) (xs : Bytes) : Type 0 where
  pub holds : drop i buf ≡ xs
  pub inside : i ≤ length buf

At-size : {buf : Bytes} {i : ℕ} {xs : Bytes} → At buf i xs → i + length xs ≡ length buf
At-size {buf} {i} {xs} at = omega (arith, at.inside, length-drop i buf, ap length at.holds)

pub At-whole : (buf : Bytes) → At buf 0 buf
At-whole buf = record { holds = refl; inside = omega arith }

pub At-drop :
    {buf : Bytes} {i : ℕ} (bs : Bytes) {rest : Bytes} {j : ℕ}
    → At buf i (bs ++ rest)
    → i + length bs ≡ j
    → At buf j rest
At-drop {buf} {i} bs {rest} at e = rw (← e) (record {
  holds = sym (drop-drop i (length bs) buf) ∙ ap (drop (length bs)) at.holds ∙ drop-append bs rest;
  inside = omega (arith, At-size at, length-append bs rest);
})

get-drop : (buf : Bytes) (i x : ℕ) (rest : Bytes) → drop i buf ≡ x ∷ rest → get_elem? buf i ≡ some x
get-drop [] zero x rest at = absurd (omega (arith, ap length at))
get-drop [] (suc i) x rest at = absurd (omega (arith, ap length at))
get-drop (y ∷ buf) zero x rest at = ap (λ k. get_elem? k 0) at
get-drop (y ∷ buf) (suc i) x rest at = get-drop buf i x rest at

pub At-get : {buf : Bytes} {i x : ℕ} {rest : Bytes} → At buf i (x ∷ rest) → get_elem? buf i ≡ some x
At-get {buf} {i} {x} {rest} at = get-drop buf i x rest at.holds

pub At-read :
    {buf : Bytes} {i n : ℕ} (bs rest : Bytes)
    → At buf i (bs ++ rest)
    → length bs ≡ n
    → read_at buf i n ≡ some bs
unfolding read_at
At-read {buf} {i} {n} bs rest at size =
    rw
      (
        le→leb (i + n) (length buf) (omega (arith, At-size at, length-append bs rest)),
        at.holds,
        ← size,
      )
      (ap some (take-length_append bs rest))

-- A name of at most 127 bytes without a 0.
pub read_name-At :
    {buf : Bytes} {i : ℕ} (name rest : Bytes) (v : VariableValue)
    → At buf i (length name ∷ name ++ rest)
    → length name < 128
    → IsText name
    → read_name buf i v ≡ some (1 + length name, record v { name = name })
unfolding read_name ◌>>=◌
read_name-At {buf} {i} name rest v at short plain =
    rw (At-get at, read_name, lt→leb 128 (length name) short)
      (rw (At-read name rest (At-drop (length name ∷ []) at refl) refl, c_string-IsText name plain)
        refl)

pub read_value-At :
    {buf : Bytes} {i n : ℕ} (bs rest : Bytes) (v : VariableValue)
    → At buf i (bs ++ rest)
    → length bs ≡ n
    → read_value buf i n v ≡ some (n, set_value bs v)
unfolding read_value ◌>>=◌
read_value-At {buf} {i} {n} bs rest v at size =
    rw (ap (λ k. read_at buf k n) (the_place i), At-read bs rest at size)
      (ap (λ k. some (k, set_value bs v)) (the_place' n))
  where
    the_place : (i : ℕ) → i + 0 ≡ i
    the_place i = omega arith

    the_place' : (n : ℕ) → 0 + n ≡ n
    the_place' n = omega arith

pub get_value-set : (bs : Bytes) (v : VariableValue) → get_value (set_value bs v) ≡ some bs
unfolding get_value set_value read_at
get_value-set bs v =
    rw (le→leb (0 + length bs) (length bs) (omega arith), take_all (length bs) bs refl) refl

pub get_value_as_long-set :
    (bs : Bytes) (v : VariableValue)
    → get_value_as_long (set_value bs v) ≡ some (long_of_bytes 1 bs)
unfolding get_value_as_long
get_value_as_long-set bs v = rw (get_value-set bs v, get_value_as_long) refl
