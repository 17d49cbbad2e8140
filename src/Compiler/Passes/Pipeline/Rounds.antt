-- ===== src/Compiler/Passes/Pipeline/Rounds.antt =====
-- The rounds of `OptimizationPipeline.run` (uhcr/compiler/passes/pipeline.py), against whole rounds
-- over the passes written down apart from it.
use uhcr.Prelude.{
  ℕ, zero, suc, ◌+◌, ◌≤◌, ◌<◌, ◌≡◌, ◌∙◌, refl, sym, ap, true, false, List, [], ◌∷◌, ◌++◌, arith,
  Bool-cases, inl, inr, nat_beq, reassociate, append_nil, subst,
}
use uhcr.Compiler.Ir.Function.{Function, count}
use uhcr.Compiler.Passes.Pipeline.Defs.{
  Pass, PassStat, Progress, apply_pass, apply_passes, iterate, run,
}

module _ {F : Type 0} where
  -- A function after each of the passes once.
  abbrev pub after_round : List (Pass F) → Function F → Function F
  after_round [] f = f
  after_round (p ∷ ps) f = after_round ps (p.run f)

  abbrev pub after_rounds : ℕ → List (Pass F) → Function F → Function F
  after_rounds zero ps f = f
  after_rounds (suc k) ps f = after_rounds k ps (after_round ps f)

  -- Every pass in its turn leaves the number of instructions.
  abbrev pub IsQuiet : List (Pass F) → Function F → Type 0
  IsQuiet [] f = Unit
  IsQuiet (p ∷ ps) f = (count f.blocks ≡ count (p.run f).blocks) × IsQuiet ps (p.run f)

  -- The statistics of the round with a number, and of some rounds from a number on.
  abbrev pub round_stats : ℕ → List (Pass F) → Function F → List PassStat
  round_stats n [] f = []
  round_stats n (p ∷ ps) f =
      record {
        pass = p.name;
        iteration = n;
        before = count f.blocks;
        after = count (p.run f).blocks;
      }
      ∷ round_stats n ps (p.run f)

  abbrev pub all_stats : ℕ → ℕ → List (Pass F) → Function F → List PassStat
  all_stats zero n ps f = []
  all_stats (suc k) n ps f = round_stats n ps f ++ all_stats k (n + 1) ps (after_round ps f)

  -- What a loop of at most `left` rounds from a function does: `k` rounds, each but the last not quiet,
  -- and the last quiet where the loop breaks early.
  pub record Rounds (left : ℕ) (k : ℕ) (ps : List (Pass F)) (f : Function F) : Type 0 where
    pub within : k ≤ left
    pub goes_on : (j : ℕ) → suc j < k → IsQuiet ps (after_rounds j ps f) → ⊥
    pub breaks : k < left → (j : ℕ) × (k ≡ suc j) × IsQuiet ps (after_rounds j ps f)

  apply_passes-func :
      (n : ℕ) (s : Progress F) (ps : List (Pass F))
      → (apply_passes n s ps).func ≡ after_round ps s.func
  unfolding apply_passes apply_pass
  apply_passes-func n s [] = refl
  apply_passes-func n s (p ∷ ps) = apply_passes-func n (apply_pass n s p) ps

  apply_passes-stats :
      (n : ℕ) (s : Progress F) (ps : List (Pass F))
      → (apply_passes n s ps).stats ≡ s.stats ++ round_stats n ps s.func
  unfolding apply_passes apply_pass
  apply_passes-stats n s [] = append_nil s.stats
  apply_passes-stats n s (p ∷ ps) =
      apply_passes-stats n (apply_pass n s p) ps ∙ sym (reassociate s.stats (_ ∷ []) _)

  changed-stays :
      (n : ℕ) (s : Progress F) (ps : List (Pass F))
      → s.changed ≡ true
      → (apply_passes n s ps).changed ≡ true
  unfolding apply_passes apply_pass
  changed-stays n s [] h = h
  changed-stays n s (p ∷ ps) h = changed-stays n (apply_pass n s p) ps (rw h refl)

  -- The flag of a round says whether the round is quiet.
  unchanged-IsQuiet :
      (n : ℕ) (s : Progress F) (ps : List (Pass F))
      → (apply_passes n s ps).changed ≡ false
      → IsQuiet ps s.func
  unfolding apply_passes apply_pass
  unchanged-IsQuiet n s [] h = tt
  unchanged-IsQuiet n s (p ∷ ps) h =
      elim (Bool-cases (nat_beq (count s.func.blocks) (count (p.run s.func).blocks))) [
        | inl y ↦ (ground arith, unchanged-IsQuiet n (apply_pass n s p) ps h)
        | inr e ↦
            let moved : (apply_pass n s p).changed ≡ true = ground (arith, e) in
            let on = changed-stays n (apply_pass n s p) ps moved in absurd cc
      ]

  changed-IsQuiet :
      (n : ℕ) (s : Progress F) (ps : List (Pass F))
      → s.changed ≡ false
      → IsQuiet ps s.func
      → (apply_passes n s ps).changed ≡ false
  unfolding apply_passes apply_pass
  changed-IsQuiet n s [] c q = c
  changed-IsQuiet n s (p ∷ ps) c (e, q) =
      let still : (apply_pass n s p).changed ≡ false = ground (arith, c, e) in
      changed-IsQuiet n (apply_pass n s p) ps still q

  not_before :
      (k : ℕ) (ps : List (Pass F)) (f : Function F)
      → (IsQuiet ps f → ⊥)
      → ((j : ℕ) → suc j < k → IsQuiet ps (after_rounds j ps (after_round ps f)) → ⊥)
      → (j : ℕ) → suc j < suc k
      → IsQuiet ps (after_rounds j ps f)
      → ⊥
  not_before k ps f moved later zero h q = moved q
  not_before k ps f moved later (suc j) h q = later j (omega (arith, h)) q

  one_more :
      (left k : ℕ) (ps : List (Pass F)) (f : Function F)
      → (IsQuiet ps f → ⊥)
      → Rounds left k ps (after_round ps f)
      → Rounds (suc left) (suc k) ps f
  one_more left k ps f moved r = record {
    within = omega (arith, r.within);
    goes_on = not_before k ps f moved r.goes_on;
    breaks = λ h. let (j, e, q) = r.breaks (omega (arith, h)) in (suc j, ap suc e, q);
  }

  iterate-Rounds :
      (left n : ℕ) (s : Progress F) (ps : List (Pass F))
      → (k : ℕ) × Rounds left k ps s.func
        × ((iterate left n s ps).func ≡ after_rounds k ps s.func)
        × ((iterate left n s ps).stats ≡ s.stats ++ all_stats k n ps s.func)
  unfolding iterate apply_passes
  iterate-Rounds zero n s ps = (
    0,
    record {
      within = omega arith;
      goes_on = λ j h _. omega (arith, h);
      breaks = λ h. absurd (omega (arith, h));
    },
    refl,
    append_nil s.stats,
  )
  iterate-Rounds (suc left) n s ps =
      let s0 = record s { changed = false } in
      let s' = apply_passes n s0 ps in
      let func : s'.func ≡ after_round ps s.func = apply_passes-func n s0 ps in
      let stats : s'.stats ≡ s.stats ++ round_stats n ps s.func = apply_passes-stats n s0 ps in
      elim (Bool-cases s'.changed) [
        | inl e ↦
            let (k, r, fs, ss) = iterate-Rounds left (n + 1) s' ps in
            let moved : IsQuiet ps s.func → ⊥ =
              λ q. (let c = changed-IsQuiet n s0 ps refl q in absurd cc) in
            (
              suc k,
              one_more left k ps s.func moved (subst (λ h. Rounds left k ps h) func r),
              rw e (fs ∙ ap (after_rounds k ps) func),
              rw e (
                  ss
                  ∙ ap (λ l. l ++ all_stats k (n + 1) ps s'.func) stats
                  ∙ sym (reassociate s.stats _ _)
                  ∙ ap (λ h. s.stats ++ (round_stats n ps s.func ++ all_stats k (n + 1) ps h))
                      func),
            )
        | inr e ↦ (
          1,
          record {
            within = omega arith;
            goes_on = λ j h _. omega (arith, h);
            breaks = λ _. (0, refl, unchanged-IsQuiet n s0 ps e);
          },
          rw e func,
          rw e (stats ∙ ap (λ l. s.stats ++ l) (append_nil (round_stats n ps s.func))),
        )
      ]

  -- `OptimizationPipeline.run` gives what some number of whole rounds gives, each of which applies the
  -- passes in their order, and the statistics of those rounds: for each pass its name, the round's
  -- number and the instruction counts before and after. The number of rounds is within
  -- `max_iterations`; below it, the last round is one where no pass changed the instruction count; and
  -- in no earlier round is that so.
  pub run_passes-Rounds :
      (ps : List (Pass F)) (f : Function F) (max_iterations : ℕ)
      → (k : ℕ) × Rounds max_iterations k ps f
        × ((run ps f max_iterations).func ≡ after_rounds k ps f)
        × ((run ps f max_iterations).stats ≡ all_stats k 0 ps f)
  unfolding run
  run_passes-Rounds ps f n =
      iterate-Rounds n 0 (record { func = f; changed = false; stats = [] }) ps
