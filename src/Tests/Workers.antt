-- ===== src/Tests/Workers.antt =====
-- A coordinator with two workers.
use uhcr.Prelude.{ℕ, ◌≡◌, ◌<◌, arith, ◌≢◌, refl, true, List, [], ◌∷◌, String, ◌≤◌, nat_eq}
use uhcr.Network.Coordinator.Defs.{
  WorkerInfo, CoordinatorNode, Registered, hardware_affinity, init, arch_prefix,
  assign_least_loaded, hint, parts,
}
use uhcr.Network.Coordinator.Assign.{IsRegistry, All}
use uhcr.Network.Coordinator.Choice.{assign_least_loaded-le, arch_hint-≢}
use uhcr.Network.Coordinator.Turns.{turn, round_robin-turn}
use uhcr.Network.Coordinator.Registry.{
  WorkerCall, register, deregister, heartbeat, check_health, assign, run, run-init-IsRegistry,
}

abbrev x86_64 : List ℕ
x86_64 = b'x' ∷ b'8' ∷ b'6' ∷ b'_' ∷ b'6' ∷ b'4' ∷ []

abbrev worker : String → ℕ → WorkerInfo
worker name jobs = record {
  id = name;
  address = "host:1";
  architecture = x86_64;
  simd_capabilities = [];
  available_memory_mb = 1024;
  last_heartbeat = 5;
  active_jobs = jobs;
  healthy = true;
}

abbrev calls : List WorkerCall
calls =
    register (worker "a" 2) "u"
    ∷ register (worker "" 1) "b"
    ∷ heartbeat "b" 9
    ∷ check_health 3 9
    ∷ assign x86_64 hardware_affinity
    ∷ deregister "c"
    ∷ []

run-init-IsRegistry_example : IsRegistry (run init calls).workers
run-init-IsRegistry_example = run-init-IsRegistry calls

abbrev pool : CoordinatorNode
pool = record { workers = ("a", worker "a" 2) ∷ ("b", worker "b" 1) ∷ []; rr_index = 0 }

assign_least_loaded-le_example :
    All {A = Registered}
      (λ y.
        ((assign_least_loaded ("a", worker "a" 2) (("b", worker "b" 1) ∷ [])).1).active_jobs
        ≤ (y.1).active_jobs)
      (("a", worker "a" 2) ∷ ("b", worker "b" 1) ∷ [])
assign_least_loaded-le_example =
    assign_least_loaded-le ("a", worker "a" 2) (("b", worker "b" 1) ∷ [])

-- The identifier `arch:x86_64`.
arch_hint-≢_example :
    hint arch_prefix (parts (b'a' ∷ b'r' ∷ b'c' ∷ b'h' ∷ b':' ∷ x86_64)) [] ≢ x86_64
arch_hint-≢_example = arch_hint-≢ (b'a' ∷ b'r' ∷ b'c' ∷ b'h' ∷ b':' ∷ x86_64) x86_64 refl

round_robin-turn_example :
    (k : ℕ) × (k < 3)
    × (turn ("a", worker "a" 2) (("b", worker "b" 1) ∷ ("c", worker "c" 0) ∷ []) k 5
        ≡ ("b", worker "b" 1))
round_robin-turn_example =
    round_robin-turn ("a", worker "a" 2) (("b", worker "b" 1) ∷ ("c", worker "c" 0) ∷ []) 5 1
      (omega arith)
