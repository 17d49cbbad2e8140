-- ===== src/Compiler/Passes/Substitution.antt =====
-- What the rewriting passes of uhcr/compiler/passes share: an instruction is dropped, and the
-- operands that name it are replaced by a value. A substitution gives the replacements.
use uhcr.Prelude.{
  ℕ, ◌≡◌, ◌≢◌, refl, List, [], ◌∷◌, Option, none, some, if◌then◌else◌, nat_beq, nat_beq_iff,
  Bool-cases, ap, ap₂, arith, sym, ◌∙◌, map, subst, inl, inr,
}
use uhcr.Compiler.Ir.Function.{Value, constant, label, argument, result_of, Instruction}
use uhcr.Compiler.Ir.Machine.{
  Machine, State, value_of, values_of, update, outcome, step, Avoids, AvoidsAll,
}

abbrev pub Substitution : Type 0 → Type 0
Substitution F = ℕ → Option (Value F)

module _ {F : Type 0} where
  abbrev pub replace : Option (Value F) → Value F → Value F
  replace none v = v
  replace (some w) v = w

  abbrev pub apply : Substitution F → Value F → Value F
  apply σ (result_of k t) = replace (σ k) (result_of k t)
  apply σ (constant t c) = constant t c
  apply σ (label t l) = label t l
  apply σ (argument t a) = argument t a

  abbrev pub extend : Substitution F → ℕ → Value F → Substitution F
  extend σ k w j = if nat_beq k j then some w else σ j

  -- No replacement names the instruction `k`.
  abbrev pub Clean : Substitution F → ℕ → Type 0
  Clean σ k = (j : ℕ) (w : Value F) → σ j ≡ some w → Avoids k w

module _ {F : Type 0} (M : Machine F) where
  abbrev pub through : Option (Value F) → State M → ℕ → M.V
  through none s k = s.env k
  through (some w) s k = value_of M s.env w

  -- A run of the code before the rewriting, and one of the code after it.
  pub record Related (σ : Substitution F) (s s' : State M) : Type 0 where
    pub same_mem : s.mem ≡ s'.mem
    pub same_env : (k : ℕ) → s.env k ≡ through (σ k) s' k

  pub Related-refl : (s : State M) → Related (λ _. none) s s
  Related-refl s = record { same_mem = refl; same_env = λ k. refl }

  pub value_of-apply :
      {σ : Substitution F} {s s' : State M} (v : Value F)
      → Related σ s s'
      → value_of M s.env v ≡ value_of M s'.env (apply σ v)
  value_of-apply (constant t c) r = refl
  value_of-apply (label t l) r = refl
  value_of-apply (argument t a) r = refl
  value_of-apply {σ} {s} {s'} (result_of k t) r = go (σ k) (r.same_env k)
    where
      go :
          (o : Option (Value F))
          → s.env k ≡ through o s' k
          → s.env k ≡ value_of M s'.env (replace o (result_of k t))
      go none h = h
      go (some w) h = h

  -- A write to `k` is not seen by a value that does not name `k`.
  pub value_of-update :
      (env : ℕ → M.V) (k : ℕ) (x : M.V) (v : Value F)
      → Avoids k v
      → value_of M (update M env k x) v ≡ value_of M env v
  value_of-update env k x (constant t c) h = refl
  value_of-update env k x (label t l) h = refl
  value_of-update env k x (argument t a) h = refl
  value_of-update env k x (result_of j t) h = ground arith

  values_of-apply :
      {σ : Substitution F} {s s' : State M} (vs : List (Value F))
      → Related σ s s'
      → values_of M s.env vs ≡ values_of M s'.env (map (apply σ) vs)
  values_of-apply [] r = refl
  values_of-apply (v ∷ vs) r = ap₂ ◌∷◌ (value_of-apply v r) (values_of-apply vs r)

  abbrev pub rewrite : Substitution F → Instruction F → Instruction F
  rewrite σ i = record i { args = map (apply σ) i.args }

  pub outcome-rewrite :
      {σ : Substitution F} {s s' : State M} (i : Instruction F)
      → Related σ s s'
      → outcome M s i ≡ outcome M s' (rewrite σ i)
  outcome-rewrite i r = ap₂ (M.exec i.opcode i.type) (values_of-apply i.args r) r.same_mem

  through-update :
      (o : Option (Value F)) (env : ℕ → M.V) (mem mem' : M.Mem) (k j : ℕ) (x : M.V)
      → ((w : Value F) → o ≡ some w → Avoids k w)
      → j ≢ k
      → through o (record { env = env; mem = mem }) j
        ≡ through o (record { env = update M env k x; mem = mem' }) j
  through-update none env mem mem' k j x clean h = ground arith
  through-update (some w) env mem mem' k j x clean h =
      sym (value_of-update env k x w (clean w refl))

  -- An instruction that stays runs on the same values, and leaves the runs related.
  pub Related-step :
      {σ : Substitution F} {s s' : State M} (i : Instruction F)
      → Related σ s s'
      → σ i.key ≡ none
      → Clean σ i.key
      → Related σ (step M s i) (step M s' (rewrite σ i))
  unfolding step
  Related-step {σ} {s} {s'} i r fresh clean =
      let same = outcome-rewrite i r in
      record {
        same_mem = ap (λ o. o.1) same;
        same_env = λ k. elim (Bool-cases (nat_beq i.key k)) [
          | inl e ↦
              let here : σ k ≡ none = subst (λ x. σ x ≡ none) ((nat_beq_iff _ _).0 e) fresh in
              rw (here, through, e) (ap (λ o. o.0) same)
          | inr e ↦ rw e (
              r.same_env k
              ∙ through-update (σ k) s'.env s'.mem _ i.key k _ (clean k) (ground arith))
        ];
      }

  -- An instruction with the value of `w` and no effect is dropped, and its key stands for `w`.
  pub Related-drop :
      {σ : Substitution F} {s s' : State M} (i : Instruction F) (w : Value F)
      → Related σ s s'
      → outcome M s i ≡ (value_of M s'.env w, s.mem)
      → Related (extend σ i.key w) (step M s i) s'
  unfolding step
  Related-drop {σ} {s} {s'} i w r pure = record {
    same_mem = ap (λ o. o.1) pure ∙ r.same_mem;
    same_env = λ k. elim (Bool-cases (nat_beq i.key k)) [
      | inl e ↦ rw (e, through) (ap (λ o. o.0) pure)
      | inr e ↦ rw e (r.same_env k)
    ];
  }

  pub Related-cong :
      {σ τ : Substitution F} {s s' : State M}
      → ((k : ℕ) → σ k ≡ τ k)
      → Related σ s s'
      → Related τ s s'
  Related-cong h r = record { same_mem = r.same_mem; same_env = λ k. rw (← h k) (r.same_env k) }

  pub values_of-update :
      (env : ℕ → M.V) (k : ℕ) (x : M.V) (vs : List (Value F))
      → AvoidsAll k vs
      → values_of M (update M env k x) vs ≡ values_of M env vs
  values_of-update env k x [] h = refl
  values_of-update env k x (v ∷ vs) h =
      ap₂ ◌∷◌ (value_of-update env k x v h.0) (values_of-update env k x vs h.1)
