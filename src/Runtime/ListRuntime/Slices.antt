-- ===== src/Runtime/ListRuntime/Slices.antt =====
-- Slices of a dynamic array, and the comparison of two of them.
use uhcr.Prelude.{
  ℕ, zero, suc, ◌+◌, ◌-◌, ◌≤◌, ◌<◌, ◌≡◌, refl, sym, ap, subst, Bool, true, false, List, [], ◌∷◌,
  ◌++◌, arith, length, take, drop, max, ok, ℤ, pos, negsuc, ◌==◌, nat_eq, ◌↔◌, Bool-cases, inl, inr,
  ==→≡, ==→≢,
}
use mathlib.Core.List.{append-nil}
use uhcr.Runtime.ListRuntime.Defs.{
  PyEq, equal, RuntimeList, create_list, append_range, slice, clamp, read, equals, same_from,
}
use uhcr.Runtime.ListRuntime.Loops.{append-cons}
use uhcr.Runtime.ListRuntime.Layout.{Represents, create_list-Represents, append-Represents}
use uhcr.Runtime.ListRuntime.Searches.{read-inside, read-drop}

clamp-le : (i : ℤ) (n : ℕ) → clamp i n ≤ n
unfolding clamp
clamp-le (pos i) n = omega arith
clamp-le (negsuc i) n = omega arith

-- The place that a bound of a slice stands for in a list of `n` elements: the bound itself, or the
-- place counted from the end for a bound below 0, and the nearest end of the list outside it.
abbrev pub IsBound : ℤ → ℕ → ℕ → Type 0
IsBound (pos i) n k = (i ≤ n → k ≡ i) × (n ≤ i → k ≡ n)
IsBound (negsuc i) n k = (suc i ≤ n → k + suc i ≡ n) × (n ≤ suc i → k ≡ 0)

clamp-IsBound : (i : ℤ) (n : ℕ) → IsBound i n (clamp i n)
unfolding clamp
clamp-IsBound (pos i) n = (λ h. omega arith, λ h. omega arith)
clamp-IsBound (negsuc i) n = (λ h. omega arith, λ h. omega arith)

module _ {ℓ} {A : Type ℓ} where
  append_range-Represents :
      (d : A) (xs ss : List A) (n i : ℕ) (l : RuntimeList A) (zs : List A)
      → i + n ≤ length xs
      → Represents l zs
      → (l' : RuntimeList A) × (append_range d (xs ++ ss) i n l ≡ ok l')
        × Represents l' (zs ++ take n (drop i xs))
  unfolding append_range
  append_range-Represents d xs ss zero i l zs h r =
      (l, refl, subst (Represents l) (sym (append-nil zs)) r)
  append_range-Represents d xs ss (suc n) i l zs h r =
      let inside : i < length xs = omega arith in
      let (x, next, here) = read-drop xs i inside in
      let (l1, e1, r1) = append-Represents d l x r in
      let (l2, e2, r2) =
        append_range-Represents d xs ss n (suc i) l1 (zs ++ x ∷ []) (omega arith) r1 in
      let shape : (zs ++ x ∷ []) ++ take n (drop (suc i) xs) ≡ zs ++ take (suc n) (drop i xs) =
        rw (next, append-cons) refl in
      (l2, rw (read-inside xs ss i inside, here) (rw e1 e2), subst (Represents l2) shape r2)

  -- A slice never raises. Its array holds the elements from the place of its first bound up to the
  -- place of its last, where a bound below 0 counts from the end and a bound outside the list stands
  -- for the nearest end; it is empty when the places are the wrong way round.
  pub slice-Represents :
      (d : A) (l : RuntimeList A) (xs : List A) (start end : ℤ)
      → Represents l xs
      → (first : ℕ) × (last : ℕ) × IsBound start (length xs) first
        × IsBound end (length xs) last
        × (l' : RuntimeList A) × (slice d l start end ≡ ok l')
        × Represents l' (take (last - first) (drop first xs))
  unfolding slice
  slice-Represents d l xs start end r =
      let first = clamp start (length xs) in
      let last = clamp end (length xs) in
      let new = create_list d l.element_type (max 16 (last - first)) in
      let within : first + (last - first) ≤ length xs =
        omega (arith, clamp-le start (length xs), clamp-le end (length xs)) in
      let made = create_list-Represents d l.element_type (max 16 (last - first)) (omega arith) in
      let (l', e, r') =
        append_range-Represents d xs r.spare (last - first) first new [] within made in
      (
        first,
        last,
        clamp-IsBound start (length xs),
        clamp-IsBound end (length xs),
        l',
        rw (r.sized, r.layout) e,
        r',
      )

module _ {ℓ} {A : Type ℓ} ⦃e : PyEq A⦄ where
  -- Lists of one length whose elements are equal place by place, as `==` finds them.
  abbrev pub Alike : List A → List A → Type 0
  Alike [] [] = Unit
  Alike [] (y ∷ ys) = ⊥
  Alike (x ∷ xs) [] = ⊥
  Alike (x ∷ xs) (y ∷ ys) = (equal x y ≡ true) × Alike xs ys

  Alike-length : (xs ys : List A) → Alike xs ys → length xs ≡ length ys
  Alike-length [] [] h = refl
  Alike-length [] (y ∷ ys) h = absurd h
  Alike-length (x ∷ xs) [] h = absurd h
  Alike-length (x ∷ xs) (y ∷ ys) h = ap suc (Alike-length xs ys h.1)

  same_from-cons :
      (x y : A) (xs ys : List A) (i n : ℕ)
      → same_from (x ∷ xs) (y ∷ ys) (suc i) n ≡ same_from xs ys i n
  unfolding same_from read
  same_from-cons x y xs ys i zero = refl
  same_from-cons x y xs ys i (suc n) = rw (same_from-cons x y xs ys (suc i) n) refl

  same_from-lists :
      (xs ys ss ts : List A)
      → length xs ≡ length ys
      → (b : Bool) × (same_from (xs ++ ss) (ys ++ ts) 0 (length xs) ≡ ok b)
        × ((b ≡ true) ↔ Alike xs ys)
  unfolding same_from read
  same_from-lists [] [] ss ts h = (true, refl, (λ _. tt, λ _. refl))
  same_from-lists [] (y ∷ ys) ss ts h = absurd (omega arith)
  same_from-lists (x ∷ xs) [] ss ts h = absurd (omega arith)
  same_from-lists (x ∷ xs) (y ∷ ys) ss ts h =
      let (b, e1, same) = same_from-lists xs ys ss ts (omega arith) in
      elim (Bool-cases (equal x y)) [
        | inl k ↦ (
          b,
          rw (k, same_from-cons x y (xs ++ ss) (ys ++ ts) 0 (length xs)) e1,
          (λ t. (k, same.0 t), λ t. same.1 t.1),
        )
        | inr k ↦ (false, rw k refl, (λ t. absurd cc, λ t. absurd (different k t.0)))
      ]
    where
      different : {c : Bool} → c ≡ false → c ≡ true → ⊥
      different f t = cc

  -- The comparison of two arrays never raises, and says that they are equal exactly when their lists
  -- have one length and `==` holds at every place, whatever `==` is on the elements.
  pub equals-Represents :
      (l m : RuntimeList A) (xs ys : List A)
      → Represents l xs
      → Represents m ys
      → (b : Bool) × (equals l m ≡ ok b) × ((b ≡ true) ↔ Alike xs ys)
  unfolding equals
  equals-Represents l m xs ys r q = elim (Bool-cases (length xs == length ys)) [
    | inl k ↦
        let (b, e1, same) = same_from-lists xs ys r.spare q.spare (==→≡ _ _ k) in
        (b, rw (r.sized, q.sized, k, r.layout, q.layout) e1, same)
    | inr k ↦ (
      false,
      rw (r.sized, q.sized, k) refl,
      (λ t. absurd cc, λ t. absurd (==→≢ _ _ k (Alike-length xs ys t))),
    )
  ]
