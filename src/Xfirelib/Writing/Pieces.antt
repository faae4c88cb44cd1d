-- ===== src/Xfirelib/Writing/Pieces.antt =====
-- What each piece of an attribute writes.
use xfire.Prelude.{ℕ, ◌+◌, ◌%◌, ◌≡◌, refl, ◌∷◌, some, length, append-nil, arith, sym}
use xfire.Prelude.Int.{pos, to_byte, div_256}
use xfire.Buffer.{Bytes}
use xfire.Buffer.Writes.{
  Writes, Writes-eq, put-Writes, memcpy-Writes, then-Writes, pure-Writes, end-Writes,
}
use xfire.Create.{strlen}
use xfire.Wire.{le32}
use xfire.Xfirelib.Value.{VariableValue, bytes_of_long}
use xfire.Xfirelib.Writing.{write_name, write_value, add_attribut_name}

pub write_name-Writes :
    (v : VariableValue) (i : ℕ)
    → Writes (write_name v i) i (strlen v.name % 256 ∷ v.name) (strlen v.name + 1)
unfolding write_name
write_name-Writes v i =
    Writes-eq
      (then-Writes (put-Writes i _) refl
        (then-Writes (memcpy-Writes (i + 1) v.name _ refl) refl (pure-Writes _ _)))
      (ap_cons (append-nil v.name)) refl
  where
    ap_cons : {x : ℕ} {a b : Bytes} → a ≡ b → (x ∷ a) ≡ (x ∷ b)
    ap_cons e = rw e

-- An object whose length is that of its array.
pub write_value-Writes :
    (v : VariableValue) (i : ℕ) (bytes : Bytes)
    → v.value ≡ some bytes
    → v.value_length ≡ length bytes
    → Writes (write_value v i) i bytes v.value_length
unfolding write_value
write_value-Writes v i bytes here size = rw here (
    Writes-eq (then-Writes (memcpy-Writes i bytes _ (sym size)) (refl) (pure-Writes _ _))
      (append-nil bytes) refl)

pub add_attribut_name-Writes :
    (i : ℕ) (att : Bytes)
    → Writes (add_attribut_name i att) i (strlen att % 256 ∷ att) (i + 1 + strlen att)
unfolding add_attribut_name
add_attribut_name-Writes i att =
    then-Writes (put-Writes i _) refl (end-Writes (memcpy-Writes (i + 1) att _ refl) refl)

pub bytes_of_long-le32 : (n : ℕ) → bytes_of_long (pos n) 4 ≡ le32 n
unfolding bytes_of_long to_byte div_256
bytes_of_long-le32 n = ground arith
