-- ===== src/Tests/Buffers.antt =====
-- A pool from which one buffer is taken and given back, and taken again.
use uhcr.Prelude.{
  ℕ, ◌≡◌, ◌≤◌, ◌<◌, refl, true, [], ◌∷◌, ◌++◌, none, some, arith, contains, nat_eq, drop, get_elem?,
  ok, err,
}
use uhcr.Prelude.Dict.{lookup, insert}
use uhcr.Storage.MemoryPool.Defs.{
  AlignedBuffer, MemoryPool, value_error, Answer, allocate, release, init, is_live, find_size_class,
  size_classes, copy_from, copy_to,
}
use uhcr.Storage.MemoryPool.Classes.{find_size_class-least, copy_to-copy_from}
use uhcr.Storage.MemoryPool.Counts.{count}
use uhcr.Storage.MemoryPool.World.{World, Step, takes, gives, Reach, here, next, start, IsValid}
use uhcr.Storage.MemoryPool.Reach.{Reach-IsValid, allocate-fits}
use uhcr.Storage.MemoryPool.Twice.{release-release-allocate}

abbrev answer : Answer
answer = some (4096, 1 ∷ 2 ∷ [])

abbrev taken : MemoryPool
taken = (allocate (init 100000 64) 100 answer).0

abbrev one : World
one = record { pool = taken; held = 0 ∷ [] }

abbrev two : World
two = record { pool = release taken 0; held = [] }

first-Step : Step (start 100000 64) one
unfolding allocate init lookup
first-Step = takes 100 answer taken 0 refl refl

second-Step : Step one two
unfolding allocate init release insert
second-Step = gives 0 (omega arith) refl

reached : Reach (start 100000 64) two
reached = next (next here first-Step) second-Step

Reach-IsValid_example : IsValid two
Reach-IsValid_example = Reach-IsValid 100000 64 two reached

again : allocate two.pool 200 none ≡ ((allocate two.pool 200 none).0, ok 0)
unfolding allocate init release insert lookup
again = refl

allocate-fits_example :
    (b : AlignedBuffer) × (get_elem? (allocate two.pool 200 none).0.heap 0 ≡ some b)
    × (200 ≤ b.size)
    × (is_live b.address ≡ true)
    × (count 0 two.held ≡ 0)
allocate-fits_example =
    allocate-fits 100000 64 two 200 none (allocate two.pool 200 none).0 0 reached again

find_size_class-least_example :
    (contains 256 size_classes ≡ true)
    × (100 ≤ 256)
    × ((d : ℕ) → contains d size_classes ≡ true → 100 ≤ d → 256 ≤ d)
unfolding find_size_class
find_size_class-least_example = find_size_class-least 100 256 found
  where
    found : find_size_class 100 ≡ some 256
    found = refl

abbrev small : AlignedBuffer
small = record { size = 3; alignment = 64; address = some 64; contents = 7 ∷ 8 ∷ 9 ∷ [] }

copy_to-copy_from_example :
    (3 < 1 → copy_from small (5 ∷ []) ≡ err value_error)
    × (1 ≤ 3
        → (b' : AlignedBuffer) × (copy_from small (5 ∷ []) ≡ ok b')
          × (copy_to b' ≡ ok ((5 ∷ []) ++ drop 1 (7 ∷ 8 ∷ 9 ∷ []))))
copy_to-copy_from_example = copy_to-copy_from small (5 ∷ []) refl refl

abbrev buffer : AlignedBuffer
buffer = record { size = 256; alignment = 64; address = some 4096; contents = 1 ∷ 2 ∷ [] }

abbrev one_buffer : MemoryPool
one_buffer = record {
  max_pool_bytes = 100000;
  alignment = 64;
  free_lists = [];
  pooled_bytes = 0;
  pool_hits = 0;
  pool_misses = 1;
  heap = buffer ∷ [];
}

release-release-allocate_example :
    ((allocate (release (release one_buffer 0) 0) 200 none).1 ≡ ok 0)
    × ((allocate (allocate (release (release one_buffer 0) 0) 200 none).0 200 none).1 ≡ ok 0)
unfolding find_size_class
release-release-allocate_example =
    release-release-allocate one_buffer 0 buffer 199 none none refl refl refl refl (omega arith)
