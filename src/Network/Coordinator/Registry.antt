-- ===== src/Network/Coordinator/Registry.antt =====
-- The registry of workers stays a dictionary by their identifiers.
use uhcr.Prelude.{
  ℕ, ◌≡◌, refl, sym, subst, ◌∙◌, true, false, List, [], ◌∷◌, Option, none, some, String, arith,
  ◌==◌, string_eq, Bool-cases, inl, inr, Outcome, ok, err, ==→≡,
}
use uhcr.Prelude.Dict.{lookup, insert, remove, lookup-insert, lookup-remove}
use uhcr.Network.Coordinator.Defs.{
  WorkerInfo, CoordinatorNode, Strategy, Registered, init, register_worker, deregister_worker,
  update_heartbeat, beat, mark_late, is_late, check_worker_health, assign_job, busier, with_id,
}
use uhcr.Network.Coordinator.Assign.{IsRegistry, Assigned, assign_job-Assigned}

==_flip : (j k : String) → (j == k) ≡ false → (k == j) ≡ false
==_flip j k b = ground (arith, string_eq.beq_iff j k, string_eq.beq_iff k j)

insert-IsRegistry :
    (k : String) (v : WorkerInfo) (m : List Registered)
    → v.id ≡ k
    → IsRegistry m
    → IsRegistry (insert k v m)
unfolding insert lookup
insert-IsRegistry k v [] e r = (e, refl, tt)
insert-IsRegistry k v ((j, w) ∷ m) e (i, h, r) = elim (Bool-cases (j == k)) [
  | inl b ↦ rw b ((subst (λ z. v.id ≡ z) (sym (==→≡ j k b)) e, h, r))
  | inr b ↦ rw b ((i, apart j k v m b h, insert-IsRegistry k v m e r))
]
  where
    apart :
        (j k : String) (v : WorkerInfo) (m : List Registered)
        → (j == k) ≡ false
        → lookup j m ≡ none
        → lookup j (insert k v m) ≡ none
    apart j k v m b h = rw (lookup-insert, ==_flip j k b) h

remove-IsRegistry : (k : String) (m : List Registered) → IsRegistry m → IsRegistry (remove k m)
unfolding remove
remove-IsRegistry k [] r = tt
remove-IsRegistry k ((j, w) ∷ m) (i, h, r) = elim (Bool-cases (j == k)) [
  | inl b ↦ rw b (remove-IsRegistry k m r)
  | inr b ↦ rw b ((i, gone j k m h, remove-IsRegistry k m r))
]
  where
    gone : (j k : String) (m : List Registered) → lookup j m ≡ none → lookup j (remove k m) ≡ none
    gone j k m h = rw lookup-remove (ground (arith, h))

mark_late-absent :
    (t now : ℕ) (k : String) (m : List Registered)
    → lookup k m ≡ none
    → lookup k (mark_late t now m).0 ≡ none
unfolding mark_late lookup
mark_late-absent t now k [] h = refl
mark_late-absent t now k ((j, w) ∷ m) h = elim (Bool-cases (j == k)) [
  | inl b ↦ absurd (some≢none (rw b at h))
  | inr b ↦
      let rest = mark_late-absent t now k m (rw b at h) in
      elim (Bool-cases (is_late t now w)) [ inl c ↦ rw (c, b) rest | inr c ↦ rw (c, b) rest ]
]
  where
    some≢none : {v : WorkerInfo} → some v ≡ none → ⊥
    some≢none q = cc

mark_late-IsRegistry :
    (t now : ℕ) (m : List Registered) → IsRegistry m → IsRegistry (mark_late t now m).0
unfolding mark_late
mark_late-IsRegistry t now [] r = tt
mark_late-IsRegistry t now ((k, w) ∷ m) (i, h, r) = elim (Bool-cases (is_late t now w)) [
  | inl b ↦ rw b ((i, mark_late-absent t now k m h, mark_late-IsRegistry t now m r))
  | inr b ↦ rw b ((i, mark_late-absent t now k m h, mark_late-IsRegistry t now m r))
]

Found-id :
    (k : String) (w : WorkerInfo) (m : List Registered)
    → IsRegistry m
    → lookup k m ≡ some w
    → w.id ≡ k
unfolding lookup
Found-id k w [] r h = absurd cc
Found-id k w ((j, u) ∷ m) (i, _, r) h = elim (Bool-cases (j == k)) [
  | inl b ↦
      let here : some u ≡ some w = rw b at h in
      let same : u ≡ w = cc in subst (λ v. v.id ≡ k) same (i ∙ ==→≡ j k b)
  | inr b ↦ Found-id k w m r (rw b at h)
]

-- The calls that change the registry; a heartbeat of an unknown worker leaves it as it was.
pub data WorkerCall : Type 0 where
  register : WorkerInfo → String → WorkerCall
  deregister : String → WorkerCall
  heartbeat : String → ℕ → WorkerCall
  check_health : ℕ → ℕ → WorkerCall
  assign : List ℕ → Strategy → WorkerCall

abbrev pub settled : CoordinatorNode → Outcome String CoordinatorNode → CoordinatorNode
settled n (ok n') = n'
settled n (err e) = n

unfoldable pub perform : CoordinatorNode → WorkerCall → CoordinatorNode
perform n (register w fresh) = (register_worker n w fresh).0
perform n (deregister k) = deregister_worker n k
perform n (heartbeat k now) = settled n (update_heartbeat n k now)
perform n (check_health t now) = (check_worker_health n t now).0
perform n (assign job_id s) = (assign_job n job_id s).0

unfoldable pub run : CoordinatorNode → List WorkerCall → CoordinatorNode
run n [] = n
run n (c ∷ cs) = run (perform n c) cs

beat-IsRegistry :
    (n : CoordinatorNode) (k : String) (now : ℕ)
    → IsRegistry n.workers
    → (o : Option WorkerInfo) → lookup k n.workers ≡ o
    → IsRegistry (settled n (beat n k now o)).workers
beat-IsRegistry n k now r none h = r
beat-IsRegistry n k now r (some w) h =
    insert-IsRegistry k (record w { last_heartbeat = now; healthy = true }) n.workers
      (Found-id k w n.workers r h) r

Assigned-IsRegistry :
    (n : CoordinatorNode) (out : CoordinatorNode × Option String)
    → IsRegistry n.workers
    → Assigned n out
    → IsRegistry out.0.workers
Assigned-IsRegistry n (n', none) r (same, _) = subst (λ z. IsRegistry z.workers) (sym same) r
Assigned-IsRegistry n (n', some k) r (w, found, _, same) =
    subst IsRegistry (sym same)
      (insert-IsRegistry k (busier w) n.workers (Found-id k w n.workers r found) r)

perform-IsRegistry :
    (n : CoordinatorNode) (c : WorkerCall) → IsRegistry n.workers → IsRegistry (perform n c).workers
unfolding perform update_heartbeat register_worker deregister_worker check_worker_health
perform-IsRegistry n (register w fresh) r =
    insert-IsRegistry (with_id w fresh).id (with_id w fresh) n.workers refl r
perform-IsRegistry n (deregister k) r = remove-IsRegistry k n.workers r
perform-IsRegistry n (heartbeat k now) r = beat-IsRegistry n k now r _ refl
perform-IsRegistry n (check_health t now) r = mark_late-IsRegistry t now n.workers r
perform-IsRegistry n (assign job_id s) r =
    Assigned-IsRegistry n (assign_job n job_id s) r (assign_job-Assigned n job_id s r)

run-IsRegistry :
    (n : CoordinatorNode) (cs : List WorkerCall)
    → IsRegistry n.workers
    → IsRegistry (run n cs).workers
unfolding run
run-IsRegistry n [] r = r
run-IsRegistry n (c ∷ cs) r = run-IsRegistry (perform n c) cs (perform-IsRegistry n c r)

-- After any calls on an empty coordinator the keys of the registry are distinct, and each is the
-- identifier of its worker.
pub run-init-IsRegistry : (cs : List WorkerCall) → IsRegistry (run init cs).workers
unfolding init
run-init-IsRegistry cs = run-IsRegistry init cs tt
