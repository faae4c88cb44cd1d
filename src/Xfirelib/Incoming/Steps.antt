-- ===== src/Xfirelib/Incoming/Steps.antt =====
-- One step of a content that is read, where the bytes at its place are known.
use xfire.Prelude.{ℕ, ◌+◌, ◌<◌, ◌≡◌, refl, ap, ◌∷◌, ◌++◌, Option, some, length, get_elem?}
use xfire.Partial.{◌>>=◌}
use xfire.Buffer.{Bytes}
use xfire.Packets.Login.Format.{IsText}
use xfire.Xfirelib.Value.{
  VariableValue, set_value, get_value, get_value_as_long, long_of_bytes, read_name, read_value,
}
use xfire.Xfirelib.Value.Places.{
  At, At-get, read_name-At, read_value-At, get_value-set, get_value_as_long-set,
}
use xfire.Xfirelib.Incoming.{advance}

pub known_step :
    {A B : Type 0} (o : Option A) (f : A → Option B) (a : A) → o ≡ some a → (o >>= f) ≡ f a
unfolding ◌>>=◌
known_step o f a e = rw (e, ◌>>=◌) refl

module _ {B : Type 0} (f : ℕ × VariableValue → Option B) (v : VariableValue) {buf : Bytes}
    {i : ℕ} where
  pub name_step :
      (name rest : Bytes)
      → At buf i (length name ∷ name ++ rest)
      → length name < 128
      → IsText name
      → (advance i (read_name buf i v) >>= f) ≡ f (i + (1 + length name), record v { name = name })
  name_step name rest at short plain =
      known_step _ f _ (ap (advance i) (read_name-At name rest v at short plain))

  pub value_step :
      (n : ℕ) (bs rest : Bytes)
      → At buf i (bs ++ rest)
      → length bs ≡ n
      → (advance i (read_value buf i n v) >>= f) ≡ f (i + n, set_value bs v)
  value_step n bs rest at size = known_step _ f _ (ap (advance i) (read_value-At bs rest v at size))

pub long_step :
    {B : Type 0} (f : ℕ → Option B) (bs : Bytes) (v : VariableValue)
    → (get_value_as_long (set_value bs v) >>= f) ≡ f (long_of_bytes 1 bs)
long_step f bs v = known_step _ f _ (get_value_as_long-set bs v)

pub bytes_step :
    {B : Type 0} (f : Bytes → Option B) (bs : Bytes) (v : VariableValue)
    → (get_value (set_value bs v) >>= f) ≡ f bs
bytes_step f bs v = known_step _ f _ (get_value-set bs v)

pub get_step :
    {B : Type 0} (f : ℕ → Option B) {buf : Bytes} {i x : ℕ} (rest : Bytes)
    → At buf i (x ∷ rest)
    → (get_elem? buf i >>= f) ≡ f x
get_step f rest at = known_step _ f _ (At-get at)
