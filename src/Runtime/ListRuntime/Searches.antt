-- ===== src/Runtime/ListRuntime/Searches.antt =====
-- The loops of the dynamic array that look for a value, and the reads of a slice.
use uhcr.Runtime.ListRuntime.Defs.{PyEq, equal}
use uhcr.Prelude.{
  ℕ, zero, suc, ◌-◌, ◌<◌, ◌≡◌, refl, ap, ◌∙◌, Bool, true, false, List, [], ◌∷◌, ◌++◌, arith, length,
  length-append, lt→ltb, ltb, set, drop, Bool-cases, inl, inr, ok, err, ◌>>=◌, if◌then◌else◌,
}
use uhcr.Runtime.ListRuntime.Defs.{Result, read, write, find_from, shift_left, value_error}
use uhcr.Runtime.ListRuntime.Loops.{under, last_or, shift_left-append, shift_left-cons}

abbrev raise_index : Result ℕ → Result ℕ
raise_index (ok i) = ok (suc i)
raise_index (err e) = err e

raise_if :
    (b : Bool) (i : ℕ) (r s : Result ℕ)
    → s ≡ raise_index r
    → (if b then ok (suc i) else s) ≡ raise_index (if b then ok i else r)
raise_if true i r s h = refl
raise_if false i r s h = h

module _ {ℓ} {A : Type ℓ} where
  raise_bind :
      (r : Result A) (f g : A → Result ℕ)
      → ((v : A) → f v ≡ raise_index (g v))
      → (r >>= f) ≡ raise_index (r >>= g)
  raise_bind (ok v) f g h = h v
  raise_bind (err e) f g h = refl

  under-bind_ok :
      (x z : A) (rest : List A) (r : Result (List A))
      → under x (r >>= λ ys. ok (ys ++ z ∷ rest)) ≡ (under x r >>= λ ys. ok (ys ++ z ∷ rest))
  under-bind_ok x z rest (ok ys) = refl
  under-bind_ok x z rest (err e) = refl

  pub read-inside : (xs ys : List A) (i : ℕ) → i < length xs → read (xs ++ ys) i ≡ read xs i
  unfolding read
  read-inside [] ys i h = absurd (omega arith)
  read-inside (x ∷ xs) ys zero h = refl
  read-inside (x ∷ xs) ys (suc i) h = read-inside xs ys i (omega arith)

  pub set-inside :
      (xs ys : List A) (i : ℕ) (v : A) → i < length xs → set (xs ++ ys) i v ≡ set xs i v ++ ys
  set-inside [] ys i v h = absurd (omega arith)
  set-inside (x ∷ xs) ys zero v h = refl
  set-inside (x ∷ xs) ys (suc i) v h = ap (λ l. x ∷ l) (set-inside xs ys i v (omega arith))

  pub write-inside :
      (xs ys : List A) (i : ℕ) (v : A)
      → i < length xs
      → write (xs ++ ys) i v ≡ ok (set xs i v ++ ys)
  unfolding write
  write-inside xs ys i v h =
      let fits : ltb i (length (xs ++ ys)) ≡ true =
        lt→ltb _ _ (omega (arith, length-append xs ys)) in
      rw (fits, set-inside xs ys i v h) refl

  pub read-drop :
      (xs : List A) (i : ℕ)
      → i < length xs
      → (x : A) × (drop i xs ≡ x ∷ drop (suc i) xs) × (read xs i ≡ ok x)
  unfolding read
  read-drop [] i h = absurd (omega arith)
  read-drop (x ∷ xs) zero h = (x, refl, refl)
  read-drop (x ∷ xs) (suc i) h = read-drop xs i (omega arith)

module _ {ℓ} {A : Type ℓ} ⦃e : PyEq A⦄ where
  -- `list.remove` on a plain list.
  unfoldable pub remove_first : A → List A → Result (List A)
  remove_first v [] = err value_error
  remove_first v (x ∷ xs) =
      let rest = remove_first v xs in if equal x v then ok xs else under x rest

  find_from-cons :
      (d : A) (cells : List A) (v : A) (i n : ℕ)
      → find_from (d ∷ cells) v (suc i) n ≡ raise_index (find_from cells v i n)
  unfolding find_from read
  find_from-cons d cells v i zero = refl
  find_from-cons d cells v i (suc n) =
      raise_bind (read cells i) _ _
        (λ w. raise_if (equal w v) i _ _ (find_from-cons d cells v (suc i) n))

  shift_under :
      (x : A) (cells : List A) (n : ℕ) (r : Result ℕ)
      → (raise_index r >>= λ i. shift_left (x ∷ cells) i (suc n - 1 - i))
        ≡ under x (r >>= λ i. shift_left cells i (n - 1 - i))
  shift_under x cells n (err c) = refl
  shift_under x cells n (ok i) =
      let same : suc n - 1 - suc i ≡ n - 1 - i = omega arith in rw (same, shift_left-cons) refl

  -- The search and the shift of `remove`, where every cell of the list is followed by spare ones.
  pub remove-cells :
      (d : A) (xs rest : List A) (v : A)
      → (find_from (xs ++ rest) v 0 (length xs) >>= λ i.
          shift_left (xs ++ rest) i (length xs - 1 - i))
        ≡ (remove_first v xs >>= λ ys. ok (ys ++ last_or d xs ∷ rest))
  unfolding find_from remove_first
  remove-cells d [] rest v = refl
  remove-cells d (x ∷ xs) rest v = elim (Bool-cases (equal x v)) [
    | inl h ↦
        let count : suc (length xs) - 1 - 0 ≡ length xs = omega arith in
        rw (h, count) (shift_left-append [] x xs rest)
    | inr h ↦
        rw
          (
            h,
            find_from-cons x (xs ++ rest) v 0 (length xs),
            shift_under x (xs ++ rest) (length xs) (find_from (xs ++ rest) v 0 (length xs)),
          )
          (ap (under x) (remove-cells x xs rest v)
            ∙ under-bind_ok x (last_or x xs) rest (remove_first v xs))
  ]

  under-eq-ok :
      (x : A) (r : Result (List A)) {ys : List A}
      → under x r ≡ ok ys
      → (zs : List A) × (r ≡ ok zs) × (ys ≡ x ∷ zs)
  under-eq-ok x (ok zs) h = (zs, refl, cc)
  under-eq-ok x (err e) h = absurd cc

  pub length-remove_first :
      (v : A) (xs : List A) {ys : List A} → remove_first v xs ≡ ok ys → suc (length ys) ≡ length xs
  unfolding remove_first
  length-remove_first v [] h = absurd cc
  length-remove_first v (x ∷ xs) {ys} h = elim (Bool-cases (equal x v)) [
    | inl b ↦ let same : ok xs ≡ ok ys = rw b at h in ground (arith, same)
    | inr b ↦
        let (zs, e, s) = under-eq-ok x (remove_first v xs) (rw b at h) in
        ap suc (ap length s ∙ length-remove_first v xs e)
  ]
