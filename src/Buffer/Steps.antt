-- ===== src/Buffer/Steps.antt =====
-- One step of code that fills an array, where its result is known.
use xfire.Prelude.{ℕ, ◌≤◌, ◌≡◌, refl, ◌∙◌, ◌++◌, Option, some, length, drop, le→leb}
use xfire.Buffer.{Bytes, Op, ◌>>=◌, ◌>>◌, pure, given}
use xfire.Buffer.Writes.{Writes}

pub bind_known :
    {A B : Type 0} (m : Op A) (f : A → Op B) (b b' : Bytes) (a : A)
    → m b ≡ some (a, b')
    → (m >>= f) b ≡ f a b'
unfolding ◌>>=◌
bind_known m f b b' a e = rw (e, ◌>>=◌) refl

pub then_known :
    {B : Type 0} (m : Op (Unit {0})) (k : Op B) (b b' : Bytes)
    → m b ≡ some (tt, b')
    → (m >> k) b ≡ k b'
unfolding ◌>>◌
then_known m k b b' e = bind_known m (λ _. k) b b' tt e

pub given_known :
    {A B : Type 0} (o : Option A) (f : A → Op B) (b : Bytes) (a : A)
    → o ≡ some a
    → (given o >>= f) b ≡ f a b
unfolding given pure
given_known o f b a e = bind_known (given o) f b b a (rw (e, given) refl)

pub store_known :
    {m : Op (Unit {0})} {i : ℕ} {bs : Bytes} (done rest : Bytes)
    → Writes m i bs tt
    → length done ≡ i
    → length bs ≤ length rest
    → m (done ++ rest) ≡ some (tt, done ++ (bs ++ drop (length bs) rest))
store_known {bs} done rest w e h =
    w.fills done rest e ∙ rw (le→leb (length bs) (length rest) h) refl
