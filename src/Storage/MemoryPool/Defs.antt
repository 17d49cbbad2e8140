-- ===== src/Storage/MemoryPool/Defs.antt =====
-- `AlignedBuffer` and `MemoryPool` of uhcr/storage/memory_pool.py. The buffer objects live on a heap,
-- and the free lists and the callers hold their places in it. What the platform's allocator
-- answers is an argument: an address and the bytes found there, or nothing.
use uhcr.Prelude.{
  ℕ, zero, suc, ◌+◌, ◌-◌, Bool, true, false, List, [], ◌∷◌, ◌++◌, Option, none, some, ltb, leb,
  nat_beq, nat_eq, length, get_elem?, set, take, drop, if◌then◌else◌, Outcome, ok, err, ◌>>◌, guard,
}
use uhcr.Prelude.Dict.{lookup, insert}

abbrev pub size_classes : List ℕ
size_classes = 64 ∷ 256 ∷ 1024 ∷ 4096 ∷ 65536 ∷ 1048576 ∷ 16777216 ∷ []

pub data PoolError : Type 0 where
  value_error : PoolError
  memory_error : PoolError
  runtime_error : PoolError

pub record AlignedBuffer : Type 0 where
  pub size : ℕ
  pub alignment : ℕ
  pub address : Option ℕ
  pub contents : List ℕ

-- `_free_lists` (the right end of a deque first), the counters, and the heap.
pub record MemoryPool : Type 0 where
  pub max_pool_bytes : ℕ
  pub alignment : ℕ
  pub free_lists : List (ℕ × List ℕ)
  pub pooled_bytes : ℕ
  pub pool_hits : ℕ
  pub pool_misses : ℕ
  pub heap : List AlignedBuffer

-- `AlignedBuffer._allocate`
abbrev pub Answer : Type 0
Answer = Option (ℕ × List ℕ)

unfoldable pub new_buffer : ℕ → ℕ → Answer → Outcome PoolError AlignedBuffer
new_buffer size alignment none = err memory_error
new_buffer size alignment (some (place, bytes)) =
    ok (record { size = size; alignment = alignment; address = some place; contents = bytes })

-- `AlignedBuffer.free`
unfoldable pub free : AlignedBuffer → AlignedBuffer
free b = record b { address = none }

abbrev pub is_live : Option ℕ → Bool
is_live none = false
is_live (some place) = true

unfoldable pub copy_from : AlignedBuffer → List ℕ → Outcome PoolError AlignedBuffer
copy_from b src = do
  guard (is_live b.address) runtime_error
  guard (leb (length src) b.size) value_error
  ok (record b { contents = src ++ drop (length src) b.contents })

unfoldable pub copy_to : AlignedBuffer → Outcome PoolError (List ℕ)
copy_to b = do guard (is_live b.address) runtime_error; ok (take b.size b.contents)

abbrev pub no_buffers : List ℕ → List (ℕ × List ℕ)
no_buffers [] = []
no_buffers (c ∷ cs) = (c, []) ∷ no_buffers cs

unfoldable pub init : ℕ → ℕ → MemoryPool
init max_pool_bytes alignment = record {
  max_pool_bytes = max_pool_bytes;
  alignment = alignment;
  free_lists = no_buffers size_classes;
  pooled_bytes = 0;
  pool_hits = 0;
  pool_misses = 0;
  heap = [];
}

abbrev pub first_fit : ℕ → List ℕ → Option ℕ
first_fit size [] = none
first_fit size (c ∷ cs) = if leb size c then some c else first_fit size cs

unfoldable pub find_size_class : ℕ → Option ℕ
find_size_class size = first_fit size size_classes

-- A fresh buffer, at the end of the heap; the miss is counted before the allocator is called.
abbrev pub missed : MemoryPool → MemoryPool
missed p = record p { pool_misses = p.pool_misses + 1 }

abbrev pub placed : MemoryPool → Outcome PoolError AlignedBuffer → MemoryPool × Outcome PoolError ℕ
placed p (ok b) = (record p { heap = p.heap ++ b ∷ [] }, ok (length p.heap))
placed p (err e) = (p, err e)

abbrev pub fresh : MemoryPool → ℕ → Answer → MemoryPool × Outcome PoolError ℕ
fresh p size answer = placed (missed p) (new_buffer size p.alignment answer)

-- The free list of a class, which is a key of the dictionary from the start.
abbrev pub list_of : Option (List ℕ) → List ℕ
list_of none = []
list_of (some bs) = bs

abbrev pub free_list : MemoryPool → ℕ → List ℕ
free_list p c = list_of (lookup c p.free_lists)

abbrev pub from_list : MemoryPool → ℕ → List ℕ → Answer → MemoryPool × Outcome PoolError ℕ
from_list p c [] answer = fresh p c answer
from_list p c (b ∷ bs) answer = (
  record p {
    free_lists = insert c bs p.free_lists;
    pooled_bytes = p.pooled_bytes - c;
    pool_hits = p.pool_hits + 1;
  },
  ok b,
)

abbrev pub from_class : MemoryPool → ℕ → Option ℕ → Answer → MemoryPool × Outcome PoolError ℕ
from_class p size none answer = fresh p size answer
from_class p size (some c) answer = from_list p c (free_list p c) answer

-- The pool and the buffer, or the exception. A size is not negative here.
unfoldable pub allocate : MemoryPool → ℕ → Answer → MemoryPool × Outcome PoolError ℕ
unfolding find_size_class new_buffer
allocate p zero answer = (p, err value_error)
allocate p (suc n) answer = from_class p (suc n) (find_size_class (suc n)) answer

abbrev pub freed : MemoryPool → ℕ → AlignedBuffer → MemoryPool
freed p i b = record p { heap = set p.heap i (free b) }

-- The class that a size is exactly, if there is one.
abbrev pub exact : ℕ → Option ℕ → Option ℕ
exact size none = none
exact size (some c) = if nat_beq size c then some c else none

abbrev pub put_back : MemoryPool → ℕ → AlignedBuffer → Option ℕ → MemoryPool
put_back p i b none = freed p i b
put_back p i b (some c) =
    if ltb p.max_pool_bytes (p.pooled_bytes + c) then freed p i b else record p {
      free_lists = insert c (i ∷ free_list p c) p.free_lists;
      pooled_bytes = p.pooled_bytes + c;
    }

abbrev pub release_live : MemoryPool → ℕ → AlignedBuffer → Option ℕ → MemoryPool
release_live p i b none = p
release_live p i b (some place) = put_back p i b (exact b.size (find_size_class b.size))

-- Every buffer that a caller has is on the heap.
abbrev pub release_object : MemoryPool → ℕ → Option AlignedBuffer → MemoryPool
release_object p i none = p
release_object p i (some b) = release_live p i b b.address

unfoldable pub release : MemoryPool → ℕ → MemoryPool
unfolding find_size_class free
release p i = release_object p i (get_elem? p.heap i)

abbrev pub free_object : List AlignedBuffer → ℕ → Option AlignedBuffer → List AlignedBuffer
free_object heap i none = heap
free_object heap i (some b) = set heap i (free b)

unfoldable pub free_each : List AlignedBuffer → List ℕ → List AlignedBuffer
unfolding free
free_each heap [] = heap
free_each heap (i ∷ is) = free_each (free_object heap i (get_elem? heap i)) is

abbrev pub all_pooled : List (ℕ × List ℕ) → List ℕ
all_pooled [] = []
all_pooled ((c, bs) ∷ m) = bs ++ all_pooled m

abbrev pub emptied : List (ℕ × List ℕ) → List (ℕ × List ℕ)
emptied [] = []
emptied ((c, bs) ∷ m) = (c, []) ∷ emptied m

unfoldable pub release_all : MemoryPool → MemoryPool
unfolding free_each
release_all p = record p {
  heap = free_each p.heap (all_pooled p.free_lists);
  free_lists = emptied p.free_lists;
  pooled_bytes = 0;
}

abbrev pub counts : List (ℕ × List ℕ) → List (ℕ × ℕ)
counts [] = []
counts ((c, bs) ∷ m) = (c, length bs) ∷ counts m

pub record Stats : Type 0 where
  pub max_pool_bytes : ℕ
  pub pooled_bytes : ℕ
  pub pool_hits : ℕ
  pub pool_misses : ℕ
  pub alignment : ℕ
  pub class_counts : List (ℕ × ℕ)

unfoldable pub stats : MemoryPool → Stats
stats p = record {
  max_pool_bytes = p.max_pool_bytes;
  pooled_bytes = p.pooled_bytes;
  pool_hits = p.pool_hits;
  pool_misses = p.pool_misses;
  alignment = p.alignment;
  class_counts = counts p.free_lists;
}
