-- ===== src/Runtime/ListRuntime/Layout.antt =====
-- The layout of a dynamic array that holds a given list, and what each method makes of it.
use uhcr.Prelude.{
  ℕ, zero, suc, ◌+◌, ◌-◌, ◌*◌, ◌≤◌, ◌<◌, ◌≡◌, refl, sym, ap, ◌∙◌, true, false, List, [], ◌∷◌, ◌++◌,
  arith, length, length-append, length-replicate, replicate, leb, Bool-cases, ◌≢◌, inl, inr, String,
  ok, pos,
}
use mathlib.Core.List.{append_assoc}
use uhcr.Runtime.ListRuntime.Defs.{
  RuntimeList, create_list, copy, grow, ensure_room, append, insert, clear,
}
use uhcr.Runtime.ListRuntime.Loops.{
  copy-append, write-append, shift_right-append, head_or, append-cons, length-snoc,
}

le→leb : (a b : ℕ) → a ≤ b → leb a b ≢ false
le→leb a b h e = ground arith

le→leb_true : (a b : ℕ) → a ≤ b → leb a b ≡ true
le→leb_true a b h = ground arith

module _ {ℓ} {A : Type ℓ} where
  -- The first cells hold the list, and at least one cell is there.
  pub record Represents (l : RuntimeList A) (xs : List A) : Type ℓ where
    pub spare : List A
    pub layout : l.data_cells ≡ xs ++ spare
    pub sized : l.length ≡ length xs
    pub room : l.capacity ≡ length xs + length spare
    pub growable : 0 < l.capacity

  -- The same, with a free cell.
  pub record Roomy (l : RuntimeList A) (xs : List A) : Type ℓ where
    pub free : A
    pub rest : List A
    pub layout : l.data_cells ≡ xs ++ free ∷ rest
    pub sized : l.length ≡ length xs
    pub room : l.capacity ≡ length xs + suc (length rest)

  replicate-split : (a k : ℕ) (d : A) → a ≤ k → replicate k d ≡ replicate a d ++ replicate (k - a) d
  replicate-split zero k d h = ap (λ n. replicate n d) (omega arith)
  replicate-split (suc a) zero d h = absurd (omega arith)
  replicate-split (suc a) (suc k) d h =
      ap (λ l. d ∷ l)
        (replicate-split a k d (omega arith)
          ∙ ap (λ n. replicate a d ++ replicate n d) (omega arith))

  copy-replicate :
      (xs ss : List A) (k : ℕ) (d : A)
      → length xs ≤ k
      → copy (xs ++ ss) (replicate k d) 0 (length xs) ≡ ok (xs ++ replicate (k - length xs) d)
  copy-replicate xs ss k d h =
      ap (λ r. copy (xs ++ ss) r 0 (length xs)) (replicate-split (length xs) k d h)
      ∙ copy-append xs ss (replicate (length xs) d) (replicate (k - length xs) d)
          (length-replicate _ d)

  pub create_list-Represents :
      (d : A) (t : String) (c : ℕ) → 0 < c → Represents (create_list d t c) []
  unfolding create_list
  create_list-Represents d t c h = record {
    spare = replicate c d;
    layout = refl;
    sized = refl;
    room = omega (arith, length-replicate c d);
    growable = h;
  }

  pub clear-Represents :
      (d : A) (l : RuntimeList A) {xs : List A} → Represents l xs → Represents (clear d l) []
  unfolding clear
  clear-Represents d l r = record {
    spare = replicate l.capacity d;
    layout = refl;
    sized = refl;
    room = omega (arith, length-replicate l.capacity d);
    growable = r.growable;
  }

  -- The array after `_grow`.
  abbrev pub grown : A → RuntimeList A → List A → RuntimeList A
  grown d l xs = record l {
    capacity = l.capacity * 2;
    data_cells = xs ++ replicate (l.capacity * 2 - length xs) d;
  }

  grow-Represents :
      (d : A) (l : RuntimeList A) {xs : List A} → Represents l xs → grow d l ≡ ok (grown d l xs)
  unfolding grow
  grow-Represents d l {xs} r =
      let done = copy-replicate xs r.spare (l.capacity * 2) d (omega (arith, r.room)) in
      rw (r.layout, r.sized, done)

  grown-Roomy :
      (d : A) (l : RuntimeList A) {xs : List A} → Represents l xs → Roomy (grown d l xs) xs
  grown-Roomy d l {xs} r =
      let left : l.capacity * 2 - length xs ≡ suc (l.capacity * 2 - length xs - 1) =
        omega (arith, r.room, r.growable) in
      record {
        free = d;
        rest = replicate (l.capacity * 2 - length xs - 1) d;
        layout = ap (λ n. xs ++ replicate n d) left;
        sized = r.sized;
        room =
            omega (arith, r.room, r.growable, length-replicate (l.capacity * 2 - length xs - 1) d);
      }

  roomy :
      (l : RuntimeList A) {xs : List A} (r : Represents l xs)
      → leb l.capacity l.length ≡ false
      → (s : List A) → r.spare ≡ s
      → Roomy l xs
  roomy l {xs} r h [] e =
      let all : l.capacity ≡ length xs + 0 = rw e at r.room in
      absurd (le→leb l.capacity l.length (omega (arith, r.sized, all)) h)
  roomy l {xs} r h (s ∷ ss) e = record {
    free = s;
    rest = ss;
    layout = rw e at r.layout;
    sized = r.sized;
    room = rw e at r.room;
  }

  pub ensure_room-Roomy :
      (d : A) (l : RuntimeList A) {xs : List A}
      → Represents l xs
      → (l' : RuntimeList A) × (ensure_room d l ≡ ok l') × Roomy l' xs
  unfolding ensure_room
  ensure_room-Roomy d l {xs} r = elim (Bool-cases (leb l.capacity l.length)) [
    | inl full ↦ (grown d l xs, rw (full, grow-Represents d l r), grown-Roomy d l r)
    | inr fits ↦ (l, rw fits, roomy l r fits r.spare refl)
  ]

  -- A new first part of the cells, one longer than the list before.
  abbrev refilled : (l : RuntimeList A) → List A → ℕ → RuntimeList A
  refilled l cells n = record l { data_cells = cells; length = n }

  filled-Represents :
      (l : RuntimeList A) {xs : List A} (r : Roomy l xs) (ys : List A)
      → length ys ≡ suc (length xs)
      → Represents (refilled l (ys ++ r.rest) (l.length + 1)) ys
  filled-Represents l r ys h = record {
    spare = r.rest;
    layout = refl;
    sized = omega (arith, r.sized);
    room = omega (arith, r.room);
    growable = omega (arith, r.room);
  }

  pub append-Represents :
      (d : A) (l : RuntimeList A) {xs : List A} (v : A)
      → Represents l xs
      → (l' : RuntimeList A) × (append d l v ≡ ok l') × Represents l' (xs ++ v ∷ [])
  unfolding append
  append-Represents d l {xs} v r =
      let (l', e, room) = ensure_room-Roomy d l r in
      (
        refilled l' ((xs ++ v ∷ []) ++ room.rest) (l'.length + 1),
        rw (e, room.layout, room.sized, write-append, append-cons),
        filled-Represents l' room (xs ++ v ∷ []) (length-snoc xs v),
      )

  -- An insertion between two parts of the list.
  pub insert-Represents :
      (d : A) (l : RuntimeList A) (xs ys : List A) (v : A)
      → Represents l (xs ++ ys)
      → (l' : RuntimeList A) × (insert d l (pos (length xs)) v ≡ ok l')
        × Represents l' (xs ++ v ∷ ys)
  unfolding insert
  insert-Represents d l xs ys v r =
      let (l', e, room) = ensure_room-Roomy d l r in
      let moved = shift_right-append xs ys room.free room.rest in
      let written = write-append xs (head_or room.free ys) v (ys ++ room.rest) in
      let fits : leb (length xs) l.length ≡ true =
        le→leb_true _ _ (omega (arith, r.sized, length-append xs ys)) in
      let count : length (xs ++ ys) - length xs ≡ length ys = omega (arith, length-append xs ys) in
      (
        refilled l' ((xs ++ v ∷ ys) ++ room.rest) (l'.length + 1),
        rw (fits, e, room.layout, room.sized, count, moved)
            (rw (append_assoc xs (head_or room.free ys ∷ ys) room.rest, written)
              (sym (
                ap (λ c. ok (refilled l' c (length (xs ++ ys) + 1)))
                  (append_assoc xs (v ∷ ys) room.rest)))),
        filled-Represents l' room (xs ++ v ∷ ys)
            (omega (arith, length-append xs (v ∷ ys), length-append xs ys)),
      )
