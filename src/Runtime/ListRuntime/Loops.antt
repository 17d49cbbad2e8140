-- ===== src/Runtime/ListRuntime/Loops.antt =====
-- What the loops of the dynamic array do to the cells.
use uhcr.Prelude.{
  ℕ, zero, suc, ◌≤◌, ◌≡◌, refl, ◌∙◌, List, [], ◌∷◌, ◌++◌, arith, length, ap, length-append, ok, err,
  ◌>>=◌,
}
use uhcr.Runtime.ListRuntime.Defs.{Result, read, write, copy, shift_right, shift_left}

module _ {ℓ} {A : Type ℓ} where
  abbrev pub head_or : A → List A → A
  head_or d [] = d
  head_or d (x ∷ xs) = x

  abbrev pub last_or : A → List A → A
  last_or d [] = d
  last_or d (x ∷ xs) = last_or x xs

  -- The cells after a first cell that the loop does not reach.
  abbrev pub under : A → Result (List A) → Result (List A)
  under d (ok xs) = ok (d ∷ xs)
  under d (err e) = err e

  pub read-append : (xs : List A) (x : A) (ys : List A) → read (xs ++ x ∷ ys) (length xs) ≡ ok x
  unfolding read
  read-append [] x ys = refl
  read-append (z ∷ xs) x ys = read-append xs x ys

  pub write-cons :
      (d : A) (xs : List A) (i : ℕ) (v : A) → write (d ∷ xs) (suc i) v ≡ under d (write xs i v)
  unfolding write
  write-cons d xs i v = ground arith

  pub write-append :
      (xs : List A) (x v : A) (ys : List A) → write (xs ++ x ∷ ys) (length xs) v ≡ ok (xs ++ v ∷ ys)
  unfolding write
  write-append [] x v ys = ground arith
  write-append (z ∷ xs) x v ys = rw (write-cons, write-append xs x v ys)

  bind-under :
      (d : A) (r : Result (List A)) (f g : List A → Result (List A))
      → ((xs : List A) → f (d ∷ xs) ≡ under d (g xs))
      → (under d r >>= f) ≡ under d (r >>= g)
  bind-under d (ok xs) f g h = h xs
  bind-under d (err e) f g h = refl

  bind-each :
      {B : Type ℓ} (d : A) (r : Result B) (f g : B → Result (List A))
      → ((v : B) → f v ≡ under d (g v))
      → (r >>= f) ≡ under d (r >>= g)
  bind-each d (ok v) f g h = h v
  bind-each d (err e) f g h = refl

  -- One write, and the rest of a loop that does not reach the first cell.
  write-under :
      (d : A) (xs : List A) (i : ℕ) (v : A) (f g : List A → Result (List A))
      → ((ys : List A) → f (d ∷ ys) ≡ under d (g ys))
      → (write (d ∷ xs) (suc i) v >>= f) ≡ under d (write xs i v >>= g)
  write-under d xs i v f g h = rw (write-cons d xs i v) (bind-under d (write xs i v) f g h)

  pub copy-cons :
      (c d : A) (cells new : List A) (i n : ℕ)
      → copy (c ∷ cells) (d ∷ new) (suc i) n ≡ under d (copy cells new i n)
  unfolding copy read
  copy-cons c d cells new i zero = refl
  copy-cons c d cells new i (suc n) =
      bind-each d (read cells i) _ _
        (λ v. write-under d new i v _ _ (λ ys. copy-cons c d cells ys (suc i) n))

  pub shift_left-cons :
      (d : A) (cells : List A) (i n : ℕ)
      → shift_left (d ∷ cells) (suc i) n ≡ under d (shift_left cells i n)
  unfolding shift_left read
  shift_left-cons d cells i zero = refl
  shift_left-cons d cells i (suc n) =
      bind-each d (read cells (suc i)) _ _
        (λ v. write-under d cells i v _ _ (λ ys. shift_left-cons d ys (suc i) n))

  pub shift_right-cons :
      (d : A) (cells : List A) (j n : ℕ)
      → n ≤ j
      → shift_right (d ∷ cells) (suc j) n ≡ under d (shift_right cells j n)
  unfolding shift_right read
  shift_right-cons d cells j zero h = refl
  shift_right-cons d cells zero (suc n) h = absurd (omega arith)
  shift_right-cons d cells (suc j) (suc n) h =
      bind-each d (read cells j) _ _
        (λ v. write-under d cells (suc j) v _ _ (λ ys. shift_right-cons d ys j n (omega arith)))

  -- A list seen from its end.
  data Snoc : List A → Type ℓ where
    empty : Snoc []
    more : {zs : List A} (z : A) → Snoc zs → Snoc (zs ++ z ∷ [])

  Snoc-cons : (x : A) {xs : List A} → Snoc xs → Snoc (x ∷ xs)
  Snoc-cons x empty = more x empty
  Snoc-cons x (more z s) = more z (Snoc-cons x s)

  Snoc-all : (xs : List A) → Snoc xs
  Snoc-all [] = empty
  Snoc-all (x ∷ xs) = Snoc-cons x (Snoc-all xs)

  pub append-cons : (xs : List A) (z : A) (ys : List A) → (xs ++ z ∷ []) ++ ys ≡ xs ++ z ∷ ys
  append-cons [] z ys = refl
  append-cons (x ∷ xs) z ys = ap (λ l. x ∷ l) (append-cons xs z ys)

  pub length-snoc : (xs : List A) (z : A) → length (xs ++ z ∷ []) ≡ suc (length xs)
  length-snoc [] z = refl
  length-snoc (x ∷ xs) z = ap suc (length-snoc xs z)

  head_or-snoc : (xs : List A) (d z : A) → head_or d (xs ++ z ∷ []) ≡ head_or z xs
  head_or-snoc [] d z = refl
  head_or-snoc (x ∷ xs) d z = refl

  write-append_next :
      (xs : List A) (x y v : A) (ys : List A)
      → write (xs ++ x ∷ y ∷ ys) (suc (length xs)) v ≡ ok (xs ++ x ∷ v ∷ ys)
  write-append_next xs x y v ys =
      let at_end = write-append (xs ++ x ∷ []) y v ys in
      rw (append-cons, append-cons, length-snoc) at at_end

  shift_right-start :
      {ys : List A}
      → Snoc ys
      → (s : A) (rest : List A)
      → shift_right (ys ++ s ∷ rest) (length ys) (length ys) ≡ ok (head_or s ys ∷ ys ++ rest)
  unfolding shift_right
  shift_right-start empty s rest = refl
  shift_right-start (more {zs} z r) s rest =
      rw (append-cons, append-cons, length-snoc, head_or-snoc, read-append, write-append_next)
        (shift_right-start r z (z ∷ rest))

  -- The cells from the place on move up by one, into a free cell.
  pub shift_right-append :
      (xs ys : List A) (s : A) (rest : List A)
      → shift_right (xs ++ ys ++ s ∷ rest) (length (xs ++ ys)) (length ys)
        ≡ ok (xs ++ head_or s ys ∷ ys ++ rest)
  shift_right-append [] ys s rest = shift_right-start (Snoc-all ys) s rest
  shift_right-append (x ∷ xs) ys s rest =
      let fits : length ys ≤ length (xs ++ ys) = omega (arith, length-append xs ys) in
      rw (
        shift_right-cons x (xs ++ ys ++ s ∷ rest) (length (xs ++ ys)) (length ys) fits,
        shift_right-append xs ys s rest,
      )

  shift_left-step :
      (v y : A) (cells : List A) (n : ℕ)
      → shift_left (v ∷ y ∷ cells) 0 (suc n) ≡ under y (shift_left (y ∷ cells) 0 n)
  unfolding shift_left read
  shift_left-step v y cells n =
      ap (λ r. r >>= λ c. shift_left c 1 n) (write-append [] v y (y ∷ cells))
      ∙ shift_left-cons y (y ∷ cells) 0 n

  -- The cells after the place move down by one, and the last of them stays as well.
  pub shift_left-append :
      (xs : List A) (v : A) (ys rest : List A)
      → shift_left (xs ++ v ∷ ys ++ rest) (length xs) (length ys)
        ≡ ok (xs ++ ys ++ last_or v ys ∷ rest)
  unfolding shift_left
  shift_left-append [] v [] rest = refl
  shift_left-append [] v (y ∷ ys) rest =
      rw (shift_left-step v y (ys ++ rest) (length ys), shift_left-append [] y ys rest)
  shift_left-append (x ∷ xs) v ys rest = rw (shift_left-cons, shift_left-append xs v ys rest)

  copy-step :
      (x r : A) (cells new : List A) (n : ℕ)
      → copy (x ∷ cells) (r ∷ new) 0 (suc n) ≡ under x (copy cells new 0 n)
  unfolding copy read
  copy-step x r cells new n =
      ap (λ w. w >>= λ c. copy (x ∷ cells) c 1 n) (write-append [] r x new)
      ∙ copy-cons x x cells new 0 n

  -- The copy of the first cells.
  pub copy-append :
      (xs ss rs ts : List A)
      → length rs ≡ length xs
      → copy (xs ++ ss) (rs ++ ts) 0 (length xs) ≡ ok (xs ++ ts)
  unfolding copy
  copy-append [] ss [] ts h = refl
  copy-append [] ss (r ∷ rs) ts h = absurd (omega arith)
  copy-append (x ∷ xs) ss [] ts h = absurd (omega arith)
  copy-append (x ∷ xs) ss (r ∷ rs) ts h =
      rw (copy-step x r (xs ++ ss) (rs ++ ts) (length xs), copy-append xs ss rs ts (omega arith))
