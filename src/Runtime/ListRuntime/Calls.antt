-- ===== src/Runtime/ListRuntime/Calls.antt =====
-- The calls on a dynamic array, and the same calls on a plain list.
use uhcr.Runtime.ListRuntime.Defs.{PyEq}
use uhcr.Prelude.{
  ◌-◌, List, [], ◌∷◌, ◌++◌, Option, none, some, length, set, take, drop, ltb, ok, err, ◌>>=◌, ◌>>◌,
  guard, ℤ,
}
use uhcr.Runtime.ListRuntime.Defs.{
  RuntimeList, Result, ListError, index_error, get_item, set_item, append, pop, insert, remove,
  clear, read, in_range, may_insert, position,
}
use uhcr.Runtime.ListRuntime.Layout.{Represents}
use uhcr.Runtime.ListRuntime.Searches.{remove_first}

pub data ListCall {ℓ} (A : Type ℓ) : Type ℓ where
  item : ℤ → ListCall A
  assign : ℤ → A → ListCall A
  push : A → ListCall A
  take_last : ListCall A
  put : ℤ → A → ListCall A
  delete : A → ListCall A
  empty : ListCall A

module _ {ℓ} {A : Type ℓ} where
  -- The answers to calls, where an exception leaves the object as it was.
  unfoldable pub answers :
      {S : Type ℓ}
      → (S → ListCall A → Result (S × Option A))
      → S
      → List (ListCall A)
      → List (Result (Option A))
  answers step s [] = []
  answers step s (c ∷ cs) = elim (step s c) [
    | ok out ↦ ok out.1 ∷ answers step out.0 cs
    | err e ↦ err e ∷ answers step s cs
  ]

  -- Same answer, and the array holds the list.
  pub data Agree : Result (RuntimeList A × Option A) → Result (List A × Option A) → Type ℓ where
    returns :
        {l : RuntimeList A} {xs : List A} (a : Option A)
        → Represents l xs
        → Agree (ok (l, a)) (ok (xs, a))
    raises : (e : ListError) → Agree (err e) (err e)

module _ {ℓ} {A : Type ℓ} ⦃e : PyEq A⦄ where
  -- The calls on the array.
  unfoldable pub perform : A → RuntimeList A → ListCall A → Result (RuntimeList A × Option A)
  perform none_value l (item i) = do v ← get_item l i; ok (l, some v)
  perform none_value l (assign i v) = do l' ← set_item l i v; ok (l', none)
  perform none_value l (push v) = do l' ← append none_value l v; ok (l', none)
  perform none_value l take_last = do out ← pop l; ok (out.0, some out.1)
  perform none_value l (put i v) = do l' ← insert none_value l i v; ok (l', none)
  perform none_value l (delete v) = do l' ← remove l v; ok (l', none)
  perform none_value l empty = ok (clear none_value l, none)

  -- The same calls on a plain list.
  unfoldable pub respond : List A → ListCall A → Result (List A × Option A)
  unfolding read remove_first
  respond xs (item i) = do
    guard (in_range i (length xs)) index_error
    v ← read xs (position i)
    ok (xs, some v)
  respond xs (assign i v) = do
    guard (in_range i (length xs)) index_error
    ok (set xs (position i) v, none)
  respond xs (push v) = ok (xs ++ v ∷ [], none)
  respond xs take_last = do
    guard (ltb 0 (length xs)) index_error
    v ← read xs (length xs - 1)
    ok (take (length xs - 1) xs, some v)
  respond xs (put i v) = do
    guard (may_insert i (length xs)) index_error
    ok (take (position i) xs ++ v ∷ drop (position i) xs, none)
  respond xs (delete v) = do ys ← remove_first v xs; ok (ys, none)
  respond xs empty = ok ([], none)
