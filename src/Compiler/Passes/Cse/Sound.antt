-- ===== src/Compiler/Passes/Cse/Sound.antt =====
-- A replaced instruction has the value of the one that it repeats (uhcr/compiler/passes/cse.py).
use uhcr.Prelude.{
  ℕ, ◌≡◌, refl, true, false, List, [], ◌∷◌, some, nat_eq, string_eq, nat_beq_iff, ==→≡, Bool-cases,
  inl, inr, ap, ap₂, ◌∙◌, arith, subst, ◌==◌, and_left, and_right,
}
use uhcr.Compiler.Ir.Types.{Ty, type_eq, void, Opcode, opcode_eq}
use uhcr.Compiler.Ir.Function.{Number, Value, constant, label, argument, result_of, Instruction}
use uhcr.Compiler.Ir.Machine.{Machine, State, value_of, values_of, outcome}
use uhcr.Compiler.Passes.Numbers.{FloatOps, number_eq}
use uhcr.Compiler.Passes.Cse.Defs.{no_cse, Entry, same_key, same_keys, matches, find}

-- What the pass relies on: an instruction with a result and none of the opcodes that the pass
-- excludes computes its value from its operands alone and leaves the memory; and numbers that
-- Python finds equal are one value.
pub record IsPure {F : Type 0} (fl : FloatOps F) (M : Machine F) : Type 0 where
  pub pure :
      (op : Opcode) (t : Ty) (vs : List M.V) (m m' : M.Mem)
      → no_cse op ≡ false
      → (t == void) ≡ false
      → M.exec op t vs m ≡ ((M.exec op t vs m').0, m)
  pub equal_numbers : (t : Ty) (a b : Number F) → number_eq fl a b ≡ true → M.load t a ≡ M.load t b

module _ {F : Type 0} (fl : FloatOps F) (M : Machine F) (law : IsPure fl M) where
  same_key-value :
      (env : ℕ → M.V) (v w : Value F) → same_key fl v w ≡ true → value_of M env v ≡ value_of M env w
  unfolding same_key
  same_key-value env (constant t a) (constant u b) h =
      ap (λ x. M.load x a) (==→≡ t u (ground arith)) ∙ law.equal_numbers u a b (ground arith)
  same_key-value env (label t a) (label u b) h =
      ap₂ M.load_label (==→≡ t u (ground arith)) (==→≡ a b (ground arith))
  same_key-value env (argument t a) (argument u b) h = ap M.load_argument (==→≡ a b h)
  same_key-value env (result_of j t) (result_of k u) h = ap env ((nat_beq_iff j k).0 h)
  same_key-value env (constant _ _) _ h = absurd (cc)
  same_key-value env (label _ _) _ h = absurd (cc)
  same_key-value env (argument _ _) _ h = absurd (cc)
  same_key-value env (result_of _ _) _ h = absurd (cc)

  same_keys-values :
      (env : ℕ → M.V) (vs ws : List (Value F))
      → same_keys fl vs ws ≡ true
      → values_of M env vs ≡ values_of M env ws
  unfolding same_keys
  same_keys-values env [] [] h = refl
  same_keys-values env (v ∷ vs) (w ∷ ws) h =
      ap₂ ◌∷◌ (same_key-value env v w (ground arith)) (same_keys-values env vs ws (ground arith))
  same_keys-values env [] (w ∷ ws) h = absurd (cc)
  same_keys-values env (v ∷ vs) [] h = absurd (cc)

  -- An entry tells the truth in a state: the instruction that it names has the value of the key.
  pub record IsTrue (s : State M) (e : Entry F) : Type 0 where
    pub excluded : no_cse e.opcode ≡ false
    pub valued : (e.type == void) ≡ false
    pub holds :
        (m : M.Mem) → M.exec e.opcode e.type (values_of M s.env e.operands) m ≡ (s.env e.first, m)

  abbrev pub AllTrue : State M → List (Entry F) → Type 0
  AllTrue s [] = Unit
  AllTrue s (e ∷ es) = IsTrue s e × AllTrue s es

  matches-holds :
      (s : State M) (e : Entry F) (i : Instruction F)
      → IsTrue s e
      → matches fl e i ≡ true
      → outcome M s i ≡ (s.env e.first, s.mem)
  matches-holds s e i h same =
      let head = and_left _ _ same in
      let op = ==→≡ e.opcode i.opcode (and_left _ _ head) in
      let ty = ==→≡ e.type i.type (and_right _ _ head) in
      let vs = same_keys-values s.env e.operands i.args (and_right _ _ same) in
      subst (λ o. M.exec o i.type (values_of M s.env i.args) s.mem ≡ (s.env e.first, s.mem)) op
        (subst (λ t. M.exec e.opcode t (values_of M s.env i.args) s.mem ≡ (s.env e.first, s.mem)) ty
          (subst (λ x. M.exec e.opcode e.type x s.mem ≡ (s.env e.first, s.mem)) vs (h.holds s.mem)))

  -- What `expr_map` answers for an instruction is the instruction's outcome.
  pub find-holds :
      (s : State M) (es : List (Entry F)) (i : Instruction F) {first : ℕ}
      → AllTrue s es
      → find fl es i ≡ some first
      → outcome M s i ≡ (s.env first, s.mem)
  unfolding find
  find-holds s [] i t h = absurd (cc)
  find-holds s (e ∷ es) i {first} t h = elim (Bool-cases (matches fl e i)) [
    | inl hit ↦
        let same : e.first ≡ first = ground arith in
        matches-holds s e i t.0 hit ∙ ap (λ k. (s.env k, s.mem)) same
    | inr miss ↦ find-holds s es i t.1 (ground arith)
  ]
