-- ===== src/Runtime/ListRuntime/Agreement.antt =====
-- Each call on a dynamic array agrees with the call on the list that it represents.
use uhcr.Runtime.ListRuntime.Defs.{PyEq}
use uhcr.Prelude.{
  ℕ, ◌-◌, ◌≤◌, ◌<◌, ◌≡◌, refl, sym, ap, subst, ◌∙◌, true, false, List, ◌∷◌, ◌++◌, none, some, arith,
  tests, length, set, take, drop, take-append-drop, length-take, length-drop, length-append,
  length-set, Bool-cases, inl, inr, ltb, leb, ltb→lt, leb→le, ok, err, ◌>>=◌, bind_assoc, ℤ, pos,
  negsuc,
}
use mathlib.Core.List.{append_assoc}
use uhcr.Runtime.ListRuntime.Defs.{
  RuntimeList, Result, index_error, get_item, set_item, pop, insert, remove, read, find_from,
  in_range, may_insert,
}
use uhcr.Runtime.ListRuntime.Loops.{last_or}
use uhcr.Runtime.ListRuntime.Layout.{
  Represents, clear-Represents, append-Represents, insert-Represents,
}
use uhcr.Runtime.ListRuntime.Searches.{
  read-inside, write-inside, read-drop, remove_first, remove-cells, length-remove_first,
}
use uhcr.Runtime.ListRuntime.Calls.{
  ListCall, item, assign, push, take_last, put, delete, empty, Agree, returns, raises, perform,
  respond,
}

module _ {ℓ} {A : Type ℓ} ⦃e : PyEq A⦄ where
  -- A shorter array over the same cells.
  abbrev shorter : RuntimeList A → List A → RuntimeList A
  shorter l cells = record l { data_cells = cells; length = l.length - 1 }

  module _ (d : A) (l : RuntimeList A) (xs : List A) (r : Represents l xs) where
    get_item-within : (i : ℕ) → ltb i (length xs) ≡ true → get_item l (pos i) ≡ read xs i
    unfolding get_item
    get_item-within i h = rw (r.sized, h, r.layout, read-inside xs r.spare i (ltb→lt _ _ h)) refl

    get_item-refused : (i : ℤ) → in_range i (length xs) ≡ false → get_item l i ≡ err index_error
    unfolding get_item
    get_item-refused i h = rw (r.sized, h) refl

    item-Agree : (i : ℤ) → Agree (perform d l (item i)) (respond xs (item i))
    unfolding perform respond
    item-Agree (negsuc i) = rw (get_item-refused (negsuc i) refl) (raises index_error)
    item-Agree (pos i) = elim (Bool-cases (ltb i (length xs))) [
      | inl h ↦
          let (v, _, here) = read-drop xs i (ltb→lt _ _ h) in
          rw (get_item-within i h, h, here) (returns (some v) r)
      | inr h ↦ rw (get_item-refused (pos i) h, h) (raises index_error)
    ]

    push-Agree : (v : A) → Agree (perform d l (push v)) (respond xs (push v))
    unfolding perform respond
    push-Agree v = let (l', e, r') = append-Represents d l v r in rw e (returns none r')

    insert-refused :
        (i : ℤ) (v : A) → may_insert i (length xs) ≡ false → insert d l i v ≡ err index_error
    unfolding insert
    insert-refused i v h = rw (r.sized, h) refl

    put_within :
        (i : ℕ) (v : A)
        → i ≤ length xs
        → (l' : RuntimeList A) × (insert d l (pos i) v ≡ ok l')
          × Represents l' (take i xs ++ v ∷ drop i xs)
    put_within i v h =
        let r' = subst (Represents l) (sym (take-append-drop i xs)) r in
        let (l', e, held) = insert-Represents d l (take i xs) (drop i xs) v r' in
        let place : length (take i xs) ≡ i = omega (arith, length-take i xs) in
        (l', subst (λ k. insert d l (pos k) v ≡ ok l') place e, held)

    put-Agree : (i : ℤ) (v : A) → Agree (perform d l (put i v)) (respond xs (put i v))
    unfolding perform respond
    put-Agree (negsuc i) v = rw (insert-refused (negsuc i) v refl) (raises index_error)
    put-Agree (pos i) v = elim (Bool-cases (leb i (length xs))) [
      | inl h ↦ let (l', e, held) = put_within i v (leb→le _ _ h) in rw (e, h) (returns none held)
      | inr h ↦ rw (insert-refused (pos i) v h, h) (raises index_error)
    ]

    pop-last :
        (v : A)
        → ltb 0 (length xs) ≡ true
        → read xs (length xs - 1) ≡ ok v
        → pop l ≡ ok (record l { length = l.length - 1 }, v)
    unfolding pop
    pop-last v h here =
        let inside : length xs - 1 < length xs = omega (tests, h) in
        rw (r.sized, h, r.layout, read-inside xs r.spare (length xs - 1) inside, here) refl

    pop-refused : ltb 0 (length xs) ≡ false → pop l ≡ err index_error
    unfolding pop
    pop-refused h = rw (r.sized, h) refl

    pop-Represents :
        ltb 0 (length xs) ≡ true
        → Represents (record l { length = l.length - 1 }) (take (length xs - 1) xs)
    pop-Represents h = record {
      spare = drop (length xs - 1) xs ++ r.spare;
      layout =
          r.layout
          ∙ ap (λ c. c ++ r.spare) (sym (take-append-drop (length xs - 1) xs))
          ∙ append_assoc (take (length xs - 1) xs) (drop (length xs - 1) xs) r.spare;
      sized = omega (arith, r.sized, length-take (length xs - 1) xs);
      room = omega (
        tests,
        h,
        r.room,
        length-take (length xs - 1) xs,
        length-drop (length xs - 1) xs,
        length-append (drop (length xs - 1) xs) r.spare,
      );
      growable = r.growable;
    }

    take_last-Agree : Agree (perform d l take_last) (respond xs take_last)
    unfolding perform respond
    take_last-Agree = elim (Bool-cases (ltb 0 (length xs))) [
      | inl h ↦
          let (v, _, here) = read-drop xs (length xs - 1) (omega (tests, h)) in
          rw (pop-last v h here, h, here) (returns (some v) (pop-Represents h))
      | inr h ↦ rw (pop-refused h, h) (raises index_error)
    ]

    set_item-within :
        (i : ℕ) (v : A)
        → ltb i (length xs) ≡ true
        → set_item l (pos i) v ≡ ok (record l { data_cells = set xs i v ++ r.spare })
    unfolding set_item
    set_item-within i v h =
        rw (r.sized, h, r.layout, write-inside xs r.spare i v (ltb→lt _ _ h)) refl

    set_item-refused :
        (i : ℤ) (v : A) → in_range i (length xs) ≡ false → set_item l i v ≡ err index_error
    unfolding set_item
    set_item-refused i v h = rw (r.sized, h) refl

    set-Represents :
        (i : ℕ) (v : A) → Represents (record l { data_cells = set xs i v ++ r.spare }) (set xs i v)
    set-Represents i v = record {
      spare = r.spare;
      layout = refl;
      sized = omega (arith, r.sized, length-set xs i v);
      room = omega (arith, r.room, length-set xs i v);
      growable = r.growable;
    }

    assign-Agree : (i : ℤ) (v : A) → Agree (perform d l (assign i v)) (respond xs (assign i v))
    unfolding perform respond
    assign-Agree (negsuc i) v = rw (set_item-refused (negsuc i) v refl) (raises index_error)
    assign-Agree (pos i) v = elim (Bool-cases (ltb i (length xs))) [
      | inl h ↦ rw (set_item-within i v h, h) (returns none (set-Represents i v))
      | inr h ↦ rw (set_item-refused (pos i) v h, h) (raises index_error)
    ]

    remove-eq :
        (v : A)
        → remove l v ≡ (remove_first v xs >>= λ ys. ok (shorter l (ys ++ last_or d xs ∷ r.spare)))
    unfolding remove
    remove-eq v =
        let after : List A → Result (RuntimeList A) =
          λ cells. ok (record l { data_cells = cells; length = length xs - 1 }) in
        let found = remove-cells d xs r.spare v in
        rw (r.layout, r.sized)
          (bind_assoc (find_from (xs ++ r.spare) v 0 (length xs)) _ after
            ∙ ap (λ c. c >>= after) found
            ∙ sym (bind_assoc (remove_first v xs) _ after))

    shorter-Represents :
        (v : A) (ys : List A)
        → remove_first v xs ≡ ok ys
        → Represents (shorter l (ys ++ last_or d xs ∷ r.spare)) ys
    shorter-Represents v ys h =
        let one = length-remove_first v xs h in
        record {
          spare = last_or d xs ∷ r.spare;
          layout = refl;
          sized = omega (arith, r.sized, one);
          room = omega (arith, r.room, one);
          growable = r.growable;
        }

    removed-Agree :
        (v : A) (o : Result (List A))
        → remove_first v xs ≡ o
        → Agree
            ((o >>= λ ys. ok (shorter l (ys ++ last_or d xs ∷ r.spare))) >>= λ l'. ok (l', none))
            (o >>= λ ys. ok (ys, none))
    removed-Agree v (ok ys) h = returns none (shorter-Represents v ys h)
    removed-Agree v (err c) h = raises c

    delete-Agree : (v : A) → Agree (perform d l (delete v)) (respond xs (delete v))
    unfolding perform respond
    delete-Agree v = rw (remove-eq v) (removed-Agree v _ refl)

    empty-Agree : Agree (perform d l empty) (respond xs empty)
    unfolding perform respond
    empty-Agree = returns none (clear-Represents d l r)

    pub perform-Agree : (c : ListCall A) → Agree (perform d l c) (respond xs c)
    perform-Agree (item i) = item-Agree i
    perform-Agree (assign i v) = assign-Agree i v
    perform-Agree (push v) = push-Agree v
    perform-Agree take_last = take_last-Agree
    perform-Agree (put i v) = put-Agree i v
    perform-Agree (delete v) = delete-Agree v
    perform-Agree empty = empty-Agree
