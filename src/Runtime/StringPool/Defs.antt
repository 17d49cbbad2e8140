-- ===== src/Runtime/StringPool/Defs.antt =====
-- `InternedString` and `StringPool` of uhcr/runtime/string_pool.py. The objects live on a heap, where
-- callers keep their addresses; the pool's dictionary holds addresses too. A text is one that has
-- a UTF-8 encoding, so that the validation passes.
use uhcr.Prelude.{
  ℕ, ◌+◌, ◌-◌, Bool, true, false, List, [], ◌∷◌, ◌++◌, Option, none, some, String, ℤ, pos, ◌+ℤ◌,
  ◌-ℤ◌, ltb_ℤ, leb, length, get_elem?, set, string_eq, if◌then◌else◌,
}
use uhcr.Prelude.Dict.{lookup, insert}

pub record InternedString : Type 0 where
  pub content : String
  pub string_id : ℕ
  pub ref_count : ℤ

-- `_pool`, `_next_id`, and the heap.
pub record StringPool : Type 0 where
  pub pool : List (String × ℕ)
  pub next_id : ℕ
  pub heap : List InternedString

abbrev pub gc_threshold : ℕ
gc_threshold = 1000

unfoldable pub init : StringPool
init = record { pool = []; next_id = 0; heap = [] }

unfoldable pub increment_ref : InternedString → InternedString
increment_ref s = record s { ref_count = s.ref_count +ℤ pos 1 }

unfoldable pub decrement_ref : InternedString → InternedString
decrement_ref s = record s { ref_count = s.ref_count -ℤ pos 1 }

-- A method applied to the object at an address. Every address that a caller has is on the heap.
abbrev pub update :
    (InternedString → InternedString)
    → Option InternedString
    → List InternedString
    → ℕ
    → List InternedString
update f none heap a = heap
update f (some s) heap a = set heap a (f s)

unfoldable pub modify :
    (InternedString → InternedString) → List InternedString → ℕ → List InternedString
modify f heap a = update f (get_elem? heap a) heap a

abbrev pub is_zero : ℤ → Bool
is_zero (pos ℕ.zero) = true
is_zero _ = false

abbrev pub unreferenced : Option InternedString → Bool
unreferenced none = false
unreferenced (some s) = is_zero s.ref_count

-- `_garbage_collect`: the entries whose object has no references are removed.
unfoldable pub collect : List InternedString → List (String × ℕ) → List (String × ℕ)
collect heap [] = []
collect heap ((c, a) ∷ m) =
    let rest = collect heap m in if unreferenced (get_elem? heap a) then rest else (c, a) ∷ rest

abbrev pub collected : StringPool → StringPool
collected p = record p { pool = collect p.heap p.pool }

-- The pool with a new object for a text, at the end of the heap.
abbrev pub extended : StringPool → String → StringPool
extended p content = record {
  pool = insert content (length p.heap) p.pool;
  next_id = p.next_id + 1;
  heap = p.heap ++ record { content = content; string_id = p.next_id; ref_count = pos 1 } ∷ [];
}

abbrev pub intern_at : StringPool → String → Option ℕ → StringPool × ℕ
intern_at p content (some a) = (record p { heap = modify increment_ref p.heap a }, a)
intern_at p content none = (
  if leb gc_threshold (length (extended p content).pool)
      then collected (extended p content)
      else extended p content,
  length p.heap,
)

unfoldable pub intern : StringPool → String → StringPool × ℕ
intern p content = intern_at p content (lookup content p.pool)

abbrev pub underflows : Option InternedString → Bool
underflows none = false
underflows (some s) = ltb_ℤ s.ref_count (pos 0)

-- The pool after `release`, and whether it raised RuntimeError: the count stays reduced.
unfoldable pub release : StringPool → ℕ → StringPool × Bool
release p a =
    let heap = modify decrement_ref p.heap a in
    (record p { heap = heap }, underflows (get_elem? heap a))

unfoldable pub garbage_collect : StringPool → StringPool × ℕ
garbage_collect p = (collected p, length p.pool - length (collected p).pool)

unfoldable pub clear : StringPool → StringPool
clear p = record p { pool = []; next_id = 0 }
