-- ===== src/Runtime/Scheduler.antt =====
-- `Scheduler` of uhcr/runtime/scheduler.py: how `parallel_for` divides a range among threads. The calls
-- of the callback are listed in the order in which their threads start; a thread's core is left out.
use uhcr.Prelude.{
  append_nil, ℕ, zero, suc, ◌+◌, ◌-◌, ◌*◌, ◌/◌, ◌≤◌, ◌<◌, ◌≡◌, ◌∙◌, refl, sym, ap, ap₂, subst, ◌||◌,
  List, [], ◌∷◌, ◌++◌, Option, none, some, leb, leb→le, min, max, length, if◌then◌else◌, arith,
  Bool-cases, inl, inr,
}
use native.Mathlib.Nat.{div-add-mod, mod-lt, suc-mul}

-- `num_threads or os.cpu_count() or 1`
abbrev pub or_else : Option ℕ → ℕ → ℕ
or_else none n = n
or_else (some zero) n = n
or_else (some (suc k)) n = suc k

unfoldable pub num_threads : Option ℕ → Option ℕ → ℕ
num_threads given cpu_count = or_else given (or_else cpu_count 1)

-- The loop over the threads that are left, from thread `i` on.
unfoldable pub spawn : ℕ → ℕ → ℕ → ℕ → List (ℕ × ℕ)
spawn zero i chunk_size total = []
spawn (suc left) i chunk_size total =
    let rest = spawn left (suc i) chunk_size total in
    if leb total (i * chunk_size)
    then []
    else (i * chunk_size, min (i * chunk_size + chunk_size) total) ∷ rest

unfoldable pub parallel_for : ℕ → ℕ → List (ℕ × ℕ)
unfolding spawn
parallel_for threads total =
    if leb threads 1 || leb total threads
    then (0, total) ∷ []
    else spawn threads 0 ((total + threads - 1) / threads) total

-- The numbers from a start, and those of a call's range.
abbrev pub interval : ℕ → ℕ → List ℕ
interval start zero = []
interval start (suc n) = start ∷ interval (suc start) n

abbrev pub iterations : List (ℕ × ℕ) → List ℕ
iterations [] = []
iterations ((start, end) ∷ calls) = interval start (end - start) ++ iterations calls

interval_at : {s t n m : ℕ} → s ≡ t → n ≡ m → interval s n ≡ interval t m
interval_at e f = ap₂ interval e f

interval-append :
    (start a b : ℕ) → interval start (a + b) ≡ interval start a ++ interval (start + a) b
interval-append start zero b = interval_at (omega arith) (omega arith)
interval-append start (suc a) b =
    interval_at {m = suc (a + b)} refl (omega arith)
    ∙ ap (λ l. start ∷ l)
        (interval-append (suc start) a b
          ∙ ap (λ l. interval (suc start) a ++ l)
              (interval_at {t = start + suc a} (omega arith) refl))

-- A chunk of at most `c` numbers, and what is left of the range after it.
chunk_first :
    (p c total : ℕ)
    → p < total
    → interval p (min (p + c) total - p) ++ interval (p + c) (total - (p + c))
      ≡ interval p (total - p)
chunk_first p c total h = elim (Bool-cases (leb (p + c) total)) [
  | inl y ↦
      let within = leb→le (p + c) total y in
      ap (λ l. l ++ interval (p + c) (total - (p + c))) (interval_at refl (omega (arith, within)))
      ∙ sym (interval-append p c (total - (p + c)))
      ∙ interval_at refl (omega (arith, within))
  | inr n ↦
      let beyond : total < p + c = ground arith in
      let none_left : total - (p + c) ≡ 0 = omega arith in
      rw none_left (sym (append_nil _) ∙ interval_at refl (omega arith))
]

spawn-iterations :
    (left i c total : ℕ)
    → total ≤ (i + left) * c
    → iterations (spawn left i c total) ≡ interval (i * c) (total - i * c)
unfolding spawn
spawn-iterations zero i c total h =
    let same : i + 0 ≡ i = omega arith in
    let all : total ≤ i * c = subst (λ k. total ≤ k * c) same h in
    interval_at {s = i * c} {t = i * c} {n = 0} refl (omega arith)
spawn-iterations (suc left) i c total h = elim (Bool-cases (leb total (i * c))) [
  | inl y ↦
      let all = leb→le total (i * c) y in
      rw y (interval_at {s = i * c} {t = i * c} {n = 0} refl (omega arith))
  | inr more ↦
      let below : i * c < total = ground arith in
      let same : i + suc left ≡ suc i + left = omega arith in
      let next = spawn-iterations left (suc i) c total (subst (λ k. total ≤ k * c) same h) in
      let step = suc-mul i c in
      rw more (
        ap (λ l. interval (i * c) (min (i * c + c) total - i * c) ++ l)
          (next ∙ interval_at step (ap (λ k. total - k) step))
        ∙ chunk_first (i * c) c total below)
]

-- The chunks are large enough for all iterations.
enough_chunks :
    (threads total : ℕ) → 0 < threads → total ≤ threads * ((total + threads - 1) / threads)
enough_chunks threads total h =
    let parts = div-add-mod (total + threads - 1) threads in
    let small = mod-lt (total + threads - 1) h in omega (arith, parts, small)

covers_range : (threads total : ℕ) → iterations (parallel_for threads total) ≡ interval 0 total
unfolding parallel_for
covers_range threads total = elim (Bool-cases (leb threads 1 || leb total threads)) [
  | inl y ↦ rw y (sym (append_nil (interval 0 (total - 0))) ∙ interval_at refl (omega arith))
  | inr n ↦
      let some_thread : 0 < threads = ground arith in
      let chunk = (total + threads - 1) / threads in
      let enough : total ≤ (0 + threads) * chunk =
        subst (λ k. total ≤ k * chunk) (omega arith) (enough_chunks threads total some_thread) in
      rw n (spawn-iterations threads 0 chunk total enough ∙ interval_at (omega arith) (omega arith))
]

spawn-length : (left i c total : ℕ) → length (spawn left i c total) ≤ left
unfolding spawn
spawn-length zero i c total = omega arith
spawn-length (suc left) i c total = elim (Bool-cases (leb total (i * c))) [
  | inl y ↦ rw y (omega arith)
  | inr n ↦ rw n (omega (arith, spawn-length left (suc i) c total))
]

few_calls : (threads total : ℕ) → length (parallel_for threads total) ≤ max threads 1
unfolding parallel_for
few_calls threads total = elim (Bool-cases (leb threads 1 || leb total threads)) [
  | inl y ↦ rw y (omega arith)
  | inr n ↦
      let bound = spawn-length threads 0 ((total + threads - 1) / threads) total in
      rw n (omega (arith, bound))
]

-- `parallel_for` calls back for every iteration exactly once: the ranges of its calls, one after another,
-- are the numbers from 0 up to the total; and it makes no more calls than there are threads, or one where
-- there is no thread.
pub parallel_for-iterations :
    (threads total : ℕ)
    → (iterations (parallel_for threads total) ≡ interval 0 total)
      × (length (parallel_for threads total) ≤ max threads 1)
parallel_for-iterations threads total = (covers_range threads total, few_calls threads total)
