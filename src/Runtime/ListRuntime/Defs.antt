-- ===== src/Runtime/ListRuntime/Defs.antt =====
-- The class `List` of uhcr/runtime/list_runtime.py. A value is of any type `A`, and `py_none` is the
-- value with which the class fills free cells.
use uhcr.Prelude.{
  ℕ, zero, suc, ◌+◌, ◌-◌, ◌*◌, max, min, Bool, true, false, List, none, some, String, ℤ, pos,
  negsuc, ◌==◌, nat_eq, ltb, leb, if◌then◌else◌, get_elem?, set, replicate, length, Outcome, ok,
  err, ◌>>=◌, ◌>>◌, guard,
}

pub data ListError : Type 0 where
  index_error : ListError
  value_error : ListError

-- Python's `==` on the elements, of which nothing is assumed: a NaN does not equal itself. `!=` is
-- its negation.
pub record PyEq {ℓ} (A : Type ℓ) : Type ℓ where
  pub eq : A → A → Bool

abbrev pub equal {ℓ} : {A : Type ℓ} ⦃e : PyEq A⦄ → A → A → Bool
equal ⦃e⦄ x y = e.eq x y

pub record RuntimeList {ℓ} (A : Type ℓ) : Type ℓ where
  pub element_type : String
  pub capacity : ℕ
  pub length : ℕ
  pub data_cells : List A

abbrev pub Result {ℓ} : Type ℓ → Type ℓ
Result A = Outcome ListError A

-- `0 <= index < length` and `0 <= index <= length`
abbrev pub in_range : ℤ → ℕ → Bool
in_range (pos i) n = ltb i n
in_range (negsuc i) n = false

abbrev pub may_insert : ℤ → ℕ → Bool
may_insert (pos i) n = leb i n
may_insert (negsuc i) n = false

abbrev pub position : ℤ → ℕ
position (pos i) = i
position (negsuc i) = 0

-- A slice's bound: from the end when it is negative, then clamped to the list.
unfoldable pub clamp : ℤ → ℕ → ℕ
clamp (pos i) n = max 0 (min i n)
clamp (negsuc i) n = max 0 (min (n - suc i) n)

module _ {ℓ} {A : Type ℓ} where
  -- `data[i]` and `data[i] = v` on the cells: an index past the end raises.
  unfoldable pub read : List A → ℕ → Result A
  read cells i = elim (get_elem? cells i) [ none ↦ err index_error | some v ↦ ok v ]

  unfoldable pub write : List A → ℕ → A → Result (List A)
  write cells i v = if ltb i (length cells) then ok (set cells i v) else err index_error

  unfoldable pub create_list : A → String → ℕ → RuntimeList A
  create_list py_none element_type initial_capacity = record {
    element_type = element_type;
    capacity = initial_capacity;
    length = 0;
    data_cells = replicate initial_capacity py_none;
  }

  unfoldable pub get_item : RuntimeList A → ℤ → Result A
  unfolding read
  get_item l index = do
    guard (in_range index l.length) index_error
    read l.data_cells (position index)

  unfoldable pub set_item : RuntimeList A → ℤ → A → Result (RuntimeList A)
  unfolding write
  set_item l index value = do
    guard (in_range index l.length) index_error
    cells ← write l.data_cells (position index) value
    ok (record l { data_cells = cells })

  -- `new_data[j] = data[j]` for the `n` indices from `i`.
  unfoldable pub copy : List A → List A → ℕ → ℕ → Result (List A)
  unfolding read write
  copy cells new i zero = ok new
  copy cells new i (suc n) = do v ← read cells i; new' ← write new i v; copy cells new' (suc i) n

  unfoldable pub grow : A → RuntimeList A → Result (RuntimeList A)
  unfolding copy
  grow py_none l = do
    cells ← copy l.data_cells (replicate (l.capacity * 2) py_none) 0 l.length
    ok (record l { capacity = l.capacity * 2; data_cells = cells })

  unfoldable pub ensure_room : A → RuntimeList A → Result (RuntimeList A)
  unfolding grow
  ensure_room py_none l = if leb l.capacity l.length then grow py_none l else ok l

  unfoldable pub append : A → RuntimeList A → A → Result (RuntimeList A)
  unfolding ensure_room write
  append py_none l value = do
    l' ← ensure_room py_none l
    cells ← write l'.data_cells l'.length value
    ok (record l' { data_cells = cells; length = l'.length + 1 })

  unfoldable pub pop : RuntimeList A → Result (RuntimeList A × A)
  unfolding read
  pop l = do
    guard (ltb 0 l.length) index_error
    v ← read l.data_cells (l.length - 1)
    ok (record l { length = l.length - 1 }, v)

  -- `data[j] = data[j - 1]` for the `n` indices down from `j`.
  unfoldable pub shift_right : List A → ℕ → ℕ → Result (List A)
  unfolding read write
  shift_right cells j zero = ok cells
  shift_right cells zero (suc n) = ok cells
  shift_right cells (suc j) (suc n) = do
    v ← read cells j
    cells' ← write cells (suc j) v
    shift_right cells' j n

  unfoldable pub insert : A → RuntimeList A → ℤ → A → Result (RuntimeList A)
  unfolding ensure_room shift_right write
  insert py_none l index value = do
    guard (may_insert index l.length) index_error
    l' ← ensure_room py_none l
    cells ← shift_right l'.data_cells l'.length (l'.length - position index)
    cells' ← write cells (position index) value
    ok (record l' { data_cells = cells'; length = l'.length + 1 })

  -- `data[j] = data[j + 1]` for the `n` indices from `i`.
  unfoldable pub shift_left : List A → ℕ → ℕ → Result (List A)
  unfolding read write
  shift_left cells i zero = ok cells
  shift_left cells i (suc n) = do
    v ← read cells (suc i)
    cells' ← write cells i v
    shift_left cells' (suc i) n

  unfoldable pub clear : A → RuntimeList A → RuntimeList A
  clear py_none l = record l { length = 0; data_cells = replicate l.capacity py_none }

  -- `new_list.append(data[j])` for the `n` indices from `i`.
  unfoldable pub append_range : A → List A → ℕ → ℕ → RuntimeList A → Result (RuntimeList A)
  unfolding read append
  append_range py_none cells i zero new = ok new
  append_range py_none cells i (suc n) new = do
    v ← read cells i
    new' ← append py_none new v
    append_range py_none cells (suc i) n new'

  unfoldable pub slice : A → RuntimeList A → ℤ → ℤ → Result (RuntimeList A)
  unfolding clamp append_range create_list
  slice py_none l start end =
      let first = clamp start l.length in
      let last = clamp end l.length in
      append_range py_none l.data_cells first (last - first)
        (create_list py_none l.element_type (max 16 (last - first)))

module _ {ℓ} {A : Type ℓ} where
  -- The functions that call the methods.
  unfoldable pub list_len : RuntimeList A → ℕ
  list_len l = l.length

  unfoldable pub list_index : RuntimeList A → ℤ → Result A
  list_index l index = get_item l index

  unfoldable pub list_append : A → RuntimeList A → A → Result (RuntimeList A)
  list_append py_none l value = append py_none l value

  unfoldable pub list_pop : RuntimeList A → Result (RuntimeList A × A)
  list_pop l = pop l

  unfoldable pub list_insert : A → RuntimeList A → ℤ → A → Result (RuntimeList A)
  list_insert py_none l index value = insert py_none l index value

  unfoldable pub list_slice : A → RuntimeList A → ℤ → ℤ → Result (RuntimeList A)
  list_slice py_none l start end = slice py_none l start end

module _ {ℓ} {A : Type ℓ} ⦃e : PyEq A⦄ where
  -- The first of the `n` indices from `i` whose cell holds `value`.
  unfoldable pub find_from : List A → A → ℕ → ℕ → Result ℕ
  unfolding read
  find_from cells value i zero = err value_error
  find_from cells value i (suc n) = do
    v ← read cells i
    let rest = find_from cells value (suc i) n
    if equal v value then ok i else rest

  unfoldable pub remove : RuntimeList A → A → Result (RuntimeList A)
  unfolding find_from shift_left
  remove l value = do
    index ← find_from l.data_cells value 0 l.length
    cells ← shift_left l.data_cells index (l.length - 1 - index)
    ok (record l { data_cells = cells; length = l.length - 1 })

  -- Do the `n` cells from `i` agree?
  unfoldable pub same_from : List A → List A → ℕ → ℕ → Result Bool
  unfolding read
  same_from xs ys i zero = ok true
  same_from xs ys i (suc n) = do
    x ← read xs i
    y ← read ys i
    let rest = same_from xs ys (suc i) n
    if equal x y then rest else ok false

  unfoldable pub equals : RuntimeList A → RuntimeList A → Result Bool
  unfolding same_from
  equals l m =
      if l.length == m.length then same_from l.data_cells m.data_cells 0 l.length else ok false

  unfoldable pub list_remove : RuntimeList A → A → Result (RuntimeList A)
  list_remove l value = remove l value
