-- ===== src/Tests/Threads.antt =====
-- Ten iterations on four threads.
use uhcr.Prelude.{◌≤◌, ◌≡◌, refl, max, length, [], ◌∷◌}
use uhcr.Runtime.Scheduler.{parallel_for, spawn, iterations, interval, parallel_for-iterations}

four_calls : parallel_for 4 10 ≡ (0, 3) ∷ (3, 6) ∷ (6, 9) ∷ (9, 10) ∷ []
unfolding parallel_for spawn
four_calls = refl

parallel_for-iterations_example :
    (iterations (parallel_for 4 10) ≡ interval 0 10) × (length (parallel_for 4 10) ≤ max 4 1)
parallel_for-iterations_example = parallel_for-iterations 4 10
