-- ===== src/Storage/MemoryPool/World.antt =====
-- A pool with its callers (uhcr/storage/memory_pool.py): what they hold, the steps they take, and the
-- invariant.
use uhcr.Prelude.{
  ℕ, ◌+◌, ◌≤◌, ◌<◌, ◌≡◌, true, List, [], ◌∷◌, Option, none, some, nat_beq, nat_eq, if◌then◌else◌,
  length, get_elem?, ok, err,
}
use uhcr.Storage.MemoryPool.Defs.{
  AlignedBuffer, MemoryPool, PoolError, Answer, allocate, release, release_all, is_live, init,
}
use uhcr.Storage.MemoryPool.Counts.{count, pooled_count, bytes}

pub record World : Type 0 where
  pub pool : MemoryPool
  pub held : List ℕ

abbrev pub drop_one : ℕ → List ℕ → List ℕ
drop_one i [] = []
drop_one i (j ∷ js) = let rest = drop_one i js in if nat_beq j i then js else j ∷ rest

-- Callers give back only what they hold.
pub data Step (w : World) (v : World) : Type 0 where
  takes :
      (n : ℕ) (a : Answer) (p : MemoryPool) (i : ℕ)
      → allocate w.pool n a ≡ (p, ok i)
      → v ≡ record { pool = p; held = i ∷ w.held }
      → Step w v
  fails :
      (n : ℕ) (a : Answer) (p : MemoryPool) (e : PoolError)
      → allocate w.pool n a ≡ (p, err e)
      → v ≡ record w { pool = p }
      → Step w v
  gives :
      (i : ℕ)
      → 0 < count i w.held
      → v ≡ record { pool = release w.pool i; held = drop_one i w.held }
      → Step w v
  resets : v ≡ record w { pool = release_all w.pool } → Step w v

pub data Reach (w : World) : World → Type 0 where
  here : Reach w w
  next : {u v : World} → Reach w u → Step u v → Reach w v

abbrev pub start : ℕ → ℕ → World
start most alignment = record { pool = init most alignment; held = [] }

-- The buffer at a place of the heap has the size of its class and its memory.
abbrev pub UsableAt : ℕ → Option AlignedBuffer → Type 0
UsableAt c none = ⊥
UsableAt c (some b) = (b.size ≡ c) × (is_live b.address ≡ true)

abbrev pub AllUsable : List AlignedBuffer → ℕ → List ℕ → Type 0
AllUsable heap c [] = Unit
AllUsable heap c (i ∷ is) = UsableAt c (get_elem? heap i) × AllUsable heap c is

abbrev pub Usable : List AlignedBuffer → List (ℕ × List ℕ) → Type 0
Usable heap [] = Unit
Usable heap ((c, bs) ∷ m) = AllUsable heap c bs × Usable heap m

abbrev pub LiveAt : Option AlignedBuffer → Type 0
LiveAt none = ⊥
LiveAt (some b) = is_live b.address ≡ true

abbrev pub AllLive : List AlignedBuffer → List ℕ → Type 0
AllLive heap [] = Unit
AllLive heap (i ∷ is) = LiveAt (get_elem? heap i) × AllLive heap is

-- The number of places at which a buffer stands: the callers' hands and the free lists.
abbrev pub owners : World → ℕ → ℕ
owners w j = count j w.held + pooled_count j w.pool.free_lists

pub record IsValid (w : World) : Type 0 where
  pub counted : w.pool.pooled_bytes ≡ bytes w.pool.free_lists
  pub within : w.pool.pooled_bytes ≤ w.pool.max_pool_bytes
  pub once : (j : ℕ) → owners w j ≤ 1
  pub known : (j : ℕ) → length w.pool.heap ≤ j → owners w j ≡ 0
  pub usable : Usable w.pool.heap w.pool.free_lists
  pub live : AllLive w.pool.heap w.held
