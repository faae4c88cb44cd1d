-- ===== src/Buffer/Faults.antt =====
-- Operations that fault on every array.
use xfire.Prelude.{◌≡◌, none, inl, inr, some, Option}
use xfire.Prelude.Tests.{Option-cases}
use xfire.Buffer.{Bytes, Op, ◌>>=◌, ◌>>◌, given}

abbrev pub Faults : {A : Type 0} → Op A → Type 0
Faults m = (b : Bytes) → m b ≡ none

-- What faults faults behind any other step too.
pub bind-Faults :
    {A B : Type 0} (m : Op A) (f : A → Op B) → ((a : A) → Faults (f a)) → Faults (m >>= f)
unfolding ◌>>=◌
bind-Faults m f h b = elim (Option-cases (m b)) [
  | inl e ↦ rw (e, ◌>>=◌)
  | inr ((a, b'), e) ↦ rw (e, ◌>>=◌) (h a b')
]

pub then-Faults : {B : Type 0} (m : Op (Unit {0})) (k : Op B) → Faults k → Faults (m >> k)
unfolding ◌>>◌
then-Faults m k h = bind-Faults m (λ _. k) (λ _. h)

pub given-Faults : {A B : Type 0} (o : Option A) (f : A → Op B) → o ≡ none → Faults (given o >>= f)
unfolding ◌>>=◌ given
given-Faults o f h b = rw h

pub known-Faults :
    {A B : Type 0} (o : Option A) (a : A) (f : A → Op B)
    → o ≡ some a
    → Faults (f a)
    → Faults (given o >>= f)
unfolding ◌>>=◌ given
known-Faults o a f h hf b = rw h (hf b)
