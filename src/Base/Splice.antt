-- ===== src/Base/Splice.antt =====
-- A range of a list read, and written over.
use openflash_controller_lab.Base.Lists.{
  length, take, drop, replicate, length-append, length-take, length-drop,
}
use Prim.Native.Nat.{ℕ, zero, suc, ◌+◌, ◌-◌, ◌≤◌}
use mathlib.Core.Path.{◌≡◌, refl, ap, sym, ◌∙◌}
use mathlib.Core.Logic.{◌⊎◌, inl, inr}
use mathlib.Core.List.{List, [], ◌∷◌, ◌++◌, append_assoc}
use native.Mathlib.Omega.{arith}
use native.Mathlib.Nat.{zero-add, suc-add, sub-zero, zero-sub, suc-sub-suc}

module _ {ℓ} {A : Type ℓ} where
  -- The `n` elements from index `pos` on.
  abbrev pub range : List A → ℕ → ℕ → List A
  range xs pos n = take n (drop pos xs)

  -- The list with `bs` written over the elements from index `pos` on.
  abbrev pub splice : List A → ℕ → List A → List A
  splice xs pos bs = take pos xs ++ (bs ++ drop (pos + length bs) xs)

  pub length-splice :
      (xs : List A) (pos : ℕ) (bs : List A)
      → pos + length bs ≤ length xs
      → length (splice xs pos bs) ≡ length xs
  length-splice xs pos bs h = omega (
    arith,
    length-append (take pos xs) (bs ++ drop (pos + length bs) xs),
    length-append bs (drop (pos + length bs) xs),
    length-take pos xs,
    length-drop (pos + length bs) xs,
  )

  pub take-length : (xs : List A) → take (length xs) xs ≡ xs
  take-length [] = refl
  take-length (x ∷ xs) = ap (◌∷◌ x) (take-length xs)

  take-append_self : (xs ys : List A) → take (length xs) (xs ++ ys) ≡ xs
  take-append_self [] ys = refl
  take-append_self (x ∷ xs) ys = ap (◌∷◌ x) (take-append_self xs ys)

  drop-append_self : (xs ys : List A) → drop (length xs) (xs ++ ys) ≡ ys
  drop-append_self [] ys = refl
  drop-append_self (x ∷ xs) ys = drop-append_self xs ys

  drop-nil : (k : ℕ) → drop {A = A} k [] ≡ []
  drop-nil zero = refl
  drop-nil (suc k) = refl

  drop-drop : (m n : ℕ) (xs : List A) → drop m (drop n xs) ≡ drop (n + m) xs
  drop-drop m zero xs = rw zero-add
  drop-drop m (suc n) [] = rw suc-add (drop-nil m)
  drop-drop m (suc n) (x ∷ xs) = rw suc-add (drop-drop m n xs)

  drop-append : (m : ℕ) (xs ys : List A) → drop (length xs + m) (xs ++ ys) ≡ drop m ys
  drop-append m xs ys =
      sym (drop-drop m (length xs) (xs ++ ys)) ∙ ap (drop m) (drop-append_self xs ys)

  -- What was written is read back.
  pub range-splice_self :
      (xs : List A) (pos : ℕ) (bs : List A)
      → pos + length bs ≤ length xs
      → range (splice xs pos bs) pos (length bs) ≡ bs
  range-splice_self xs zero bs h = take-append_self bs (drop (0 + length bs) xs)
  range-splice_self [] (suc pos) bs h = absurd (omega arith)
  range-splice_self (x ∷ xs) (suc pos) bs h = rw suc-add (range-splice_self xs pos bs (omega arith))

  drop-splice_above :
      (xs : List A) (pos : ℕ) (bs : List A) (i : ℕ)
      → pos + length bs ≤ length xs
      → pos + length bs ≤ i
      → drop i (splice xs pos bs) ≡ drop i xs
  drop-splice_above xs zero bs i h k =
      let e : i ≡ length bs + (i - length bs) = omega arith in
      rw (e, zero-add)
        (drop-append (i - length bs) bs (drop (length bs) xs)
          ∙ drop-drop (i - length bs) (length bs) xs)
  drop-splice_above [] (suc pos) bs i h k = absurd (omega arith)
  drop-splice_above (x ∷ xs) (suc pos) bs zero h k = absurd (omega arith)
  drop-splice_above (x ∷ xs) (suc pos) bs (suc i) h k =
      rw suc-add (drop-splice_above xs pos bs i (omega arith) (omega arith))

  range-splice_below :
      (xs : List A) (pos : ℕ) (bs : List A) (i n : ℕ)
      → pos + length bs ≤ length xs
      → i + n ≤ pos
      → range (splice xs pos bs) i n ≡ range xs i n
  range-splice_below xs pos bs i zero h k = refl
  range-splice_below xs zero bs i (suc n) h k = absurd (omega arith)
  range-splice_below [] (suc pos) bs i (suc n) h k = absurd (omega arith)
  range-splice_below (x ∷ xs) (suc pos) bs zero (suc n) h k =
      rw suc-add (ap (◌∷◌ x) (range-splice_below xs pos bs zero n (omega arith) (omega arith)))
  range-splice_below (x ∷ xs) (suc pos) bs (suc i) (suc n) h k =
      rw suc-add (range-splice_below xs pos bs i (suc n) (omega arith) (omega arith))

  -- A range past the write, and one before it, is as it was.
  pub range-splice_ne :
      (xs : List A) (pos : ℕ) (bs : List A) (i n : ℕ)
      → pos + length bs ≤ length xs
      → (pos + length bs ≤ i) ⊎ (i + n ≤ pos)
      → range (splice xs pos bs) i n ≡ range xs i n
  range-splice_ne xs pos bs i n h (inl k) = ap (take n) (drop-splice_above xs pos bs i h k)
  range-splice_ne xs pos bs i n h (inr k) = range-splice_below xs pos bs i n h k

  -- Two writes side by side are one.
  pub splice-splice :
      (xs : List A) (pos : ℕ) (bs cs : List A)
      → pos + length bs + length cs ≤ length xs
      → splice (splice xs pos bs) (pos + length bs) cs ≡ splice xs pos (bs ++ cs)
  splice-splice xs zero bs cs h =
      rw (zero-add, length-append, zero-add, take-append_self, append_assoc, drop-append)
        (rw (drop-drop) refl)
  splice-splice [] (suc pos) bs cs h = absurd (omega arith)
  splice-splice (x ∷ xs) (suc pos) bs cs h =
      simp suc-add (ap (◌∷◌ x) (splice-splice xs pos bs cs (omega arith)))

  take-append_le : (n : ℕ) (xs ys : List A) → n ≤ length xs → take n (xs ++ ys) ≡ take n xs
  take-append_le zero xs ys h = refl
  take-append_le (suc n) [] ys h = absurd (omega arith)
  take-append_le (suc n) (x ∷ xs) ys h = ap (◌∷◌ x) (take-append_le n xs ys (omega arith))

  drop-append_le : (k : ℕ) (xs ys : List A) → k ≤ length xs → drop k (xs ++ ys) ≡ drop k xs ++ ys
  drop-append_le zero xs ys h = refl
  drop-append_le (suc k) [] ys h = absurd (omega arith)
  drop-append_le (suc k) (x ∷ xs) ys h = drop-append_le k xs ys (omega arith)

  drop-splice_in :
      (xs : List A) (pos k : ℕ) (bs : List A)
      → pos + length bs ≤ length xs
      → k ≤ length bs
      → drop (pos + k) (splice xs pos bs) ≡ drop k bs ++ drop (pos + length bs) xs
  drop-splice_in xs zero k bs h i = simp zero-add (drop-append_le k bs (drop (length bs) xs) i)
  drop-splice_in [] (suc pos) k bs h i = absurd (omega arith)
  drop-splice_in (x ∷ xs) (suc pos) k bs h i =
      simp suc-add (drop-splice_in xs pos k bs (omega arith) i)

  -- A range inside the write is that part of what was written.
  pub range-splice_in :
      (xs : List A) (pos k n : ℕ) (bs : List A)
      → pos + length bs ≤ length xs
      → k + n ≤ length bs
      → range (splice xs pos bs) (pos + k) n ≡ range bs k n
  range-splice_in xs pos k n bs h i =
      ap (take n) (drop-splice_in xs pos k bs h (omega arith))
      ∙ take-append_le n (drop k bs) (drop (pos + length bs) xs) (omega (arith, length-drop k bs))

  drop-replicate : (k n : ℕ) (a : A) → drop k (replicate n a) ≡ replicate (n - k) a
  drop-replicate zero n a = rw sub-zero
  drop-replicate (suc k) zero a = rw zero-sub
  drop-replicate (suc k) (suc n) a = rw suc-sub-suc (drop-replicate k n a)

  take-replicate : (m n : ℕ) (a : A) → m ≤ n → take m (replicate n a) ≡ replicate m a
  take-replicate zero n a h = refl
  take-replicate (suc m) zero a h = absurd (omega arith)
  take-replicate (suc m) (suc n) a h = ap (◌∷◌ a) (take-replicate m n a (omega arith))

  pub range-replicate : (n k m : ℕ) (a : A) → k + m ≤ n → range (replicate n a) k m ≡ replicate m a
  range-replicate n k m a h = rw drop-replicate (take-replicate m (n - k) a (omega arith))
