-- ===== src/Buffer/Overlap.antt =====
-- Stores that do not come in order: over bytes that were filled before, ahead of what is filled
-- next, or the second byte before the first.
use xfire.Prelude.{
  ℕ, ◌+◌, ◌-◌, ◌≤◌, ◌≡◌, ◌∙◌, inl, inr, [], ◌∷◌, ◌++◌, none, some, length, drop, leb, length-append,
  length-drop, append_assoc, drop-drop, drop-append_le, drop-append_ge, Bool-cases, arith,
}
use xfire.Buffer.{Bytes, Op, ◌>>=◌, ◌>>◌, write, put}
use xfire.Buffer.Writes.{Writes, Fills, write-Writes, put-Writes}

-- Bytes that are filled and then overwritten do not count.
pub overwrite-Writes :
    {A : Type 0} {m : Op A} {i : ℕ} (xs : Bytes) {bs : Bytes} {a : A}
    → length xs ≤ length bs
    → Writes m i bs a
    → Writes (write i xs >> m) i bs a
unfolding ◌>>◌
overwrite-Writes {m} {i} xs {bs} {a} h hm = record { fills = fills }
  where
    fills : (done rest : Bytes) → length done ≡ i → Fills (write i xs >> m) bs a done rest
    fills done rest e = elim (Bool-cases (leb (length xs) (length rest))) [
      | inr full ↦ rw ((write-Writes i xs).fills done rest e, full, ◌>>=◌) (ground arith)
      | inl fits ↦
          rw ((write-Writes i xs).fills done rest e, fits, ◌>>=◌)
            (hm.fills done (xs ++ drop (length xs) rest) e
              ∙ rw
                  (
                    drop-append_ge (length bs) xs (drop (length xs) rest) h,
                    drop-drop (length xs) (length bs - length xs) rest,
                  )
                  (ground (
                    arith,
                    length-append xs (drop (length xs) rest),
                    length-drop (length xs) rest,
                  )))
    ]

-- Of bytes `xs ++ ys` that are filled ahead, those stay that `m`, which begins behind `xs`, does not
-- overwrite.
pub ahead-Writes :
    {A : Type 0} {m : Op A} {i j : ℕ} (xs ys : Bytes) {bs : Bytes} {a : A}
    → j ≡ i + length xs
    → length bs ≤ length ys
    → Writes m j bs a
    → Writes (write i (xs ++ ys) >> m) i (xs ++ (bs ++ drop (length bs) ys)) a
unfolding ◌>>◌
ahead-Writes {m} {i} xs ys {bs} {a} ej h hm = record { fills = fills }
  where
    fills :
        (done rest : Bytes)
        → length done ≡ i
        → Fills (write i (xs ++ ys) >> m) (xs ++ (bs ++ drop (length bs) ys)) a done rest
    fills done rest e = elim (Bool-cases (leb (length (xs ++ ys)) (length rest))) [
      | inr full ↦
          rw ((write-Writes i (xs ++ ys)).fills done rest e, full, ◌>>=◌) (ground (arith, sizes))
      | inl fits ↦
          rw
            (
              (write-Writes i (xs ++ ys)).fills done rest e,
              fits,
              ◌>>=◌,
              append_assoc xs ys,
              ← append_assoc done xs,
            )
            (hm.fills (done ++ xs) (ys ++ drop (length (xs ++ ys)) rest)
                (omega (arith, length-append done xs))
              ∙ rw
                  (
                    drop-append_le (length bs) ys (drop (length (xs ++ ys)) rest) h,
                    append_assoc done xs,
                    sizes,
                    append_assoc xs,
                    append_assoc bs,
                  )
                  (ground (
                    arith,
                    length-append ys (drop (length (xs ++ ys)) rest),
                    length-append xs ys,
                    length-drop (length (xs ++ ys)) rest,
                  )))
    ]
      where
        sizes : length (xs ++ (bs ++ drop (length bs) ys)) ≡ length (xs ++ ys)
        sizes = omega (
          arith,
          length-append xs (bs ++ drop (length bs) ys),
          length-append bs (drop (length bs) ys),
          length-drop (length bs) ys,
          length-append xs ys,
        )

pub put_inside :
    (done : Bytes) (i x v : ℕ) (rest : Bytes)
    → length done ≡ i
    → put i v (done ++ (x ∷ rest)) ≡ some (tt, done ++ (v ∷ rest))
put_inside done i x v rest e = (put-Writes i v).fills done (x ∷ rest) e ∙ ground arith

pub put_outside : (b : Bytes) (i v : ℕ) → length b ≤ i → put i v b ≡ none
unfolding put
put_outside b i v h = ground arith

-- Two bytes that are stored the second one first.
pub swapped-Writes :
    {A : Type 0} {m : Op A} {i : ℕ} (lo hi : ℕ) {bs : Bytes} {a : A}
    → Writes m (i + 2) bs a
    → Writes (put (i + 1) hi >> (put i lo >> m)) i (lo ∷ hi ∷ bs) a
unfolding ◌>>◌
swapped-Writes {m} {i} lo hi {bs} {a} hm = record { fills = fills }
  where
    second :
        (done : Bytes) (x y : ℕ) (rest : Bytes)
        → length done ≡ i
        → put (i + 1) hi (done ++ (x ∷ y ∷ rest)) ≡ some (tt, done ++ (x ∷ hi ∷ rest))
    second done x y rest e =
        rw (append_assoc done (x ∷ []) (y ∷ rest), append_assoc done (x ∷ []) (hi ∷ rest)) at
          (put_inside (done ++ (x ∷ [])) (i + 1) y hi rest
            (omega (arith, length-append done (x ∷ []))))

    fills :
        (done rest : Bytes)
        → length done ≡ i
        → Fills (put (i + 1) hi >> (put i lo >> m)) (lo ∷ hi ∷ bs) a done rest
    fills done [] e =
        rw (put_outside (done ++ []) (i + 1) hi (omega (arith, length-append done [])), ◌>>=◌)
          (ground arith)
    fills done (x ∷ []) e =
        rw
          (
            put_outside (done ++ (x ∷ [])) (i + 1) hi (omega (arith, length-append done (x ∷ []))),
            ◌>>=◌,
          )
          (ground arith)
    fills done (x ∷ y ∷ rest) e =
        rw (second done x y rest e, put_inside done i x lo (hi ∷ rest) e, ◌>>=◌)
          (ground (
            arith,
            append_assoc done (lo ∷ hi ∷ []) rest,
            append_assoc done (lo ∷ hi ∷ []) (bs ++ drop (length bs) rest),
            hm.fills (done ++ (lo ∷ hi ∷ [])) rest
                (omega (arith, length-append done (lo ∷ hi ∷ []))),
          ))

-- A store a little behind the place where the filled part ends.
pub put_later :
    (done before : Bytes) (i x v : ℕ) (rest : Bytes)
    → length done + length before ≡ i
    → put i v (done ++ (before ++ (x ∷ rest))) ≡ some (tt, done ++ (before ++ (v ∷ rest)))
put_later done before i x v rest e =
    rw (append_assoc done before (x ∷ rest), append_assoc done before (v ∷ rest)) at
      (put_inside (done ++ before) i x v rest (omega (arith, length-append done before)))
