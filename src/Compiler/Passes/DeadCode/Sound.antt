-- ===== src/Compiler/Passes/DeadCode/Sound.antt =====
-- Removing dead code keeps the meaning of any code that is run, loops included
-- (uhcr/compiler/passes/dead_code.py).
use uhcr.Prelude.{
  ℕ, ◌≡◌, refl, true, false, List, [], ◌∷◌, ◌++◌, nat_eq, nat_beq, nat_beq_iff, ==_refl, ◌==◌,
  contains, arith, Bool-cases, inl, inr, ap, ap₂, sym, ◌∙◌, subst,
}
use mathlib.Core.List.{append_assoc}
use uhcr.Compiler.Ir.Types.{Ty, type_eq, void, Opcode}
use uhcr.Compiler.Ir.Function.{Value, constant, label, argument, result_of, Instruction}
use uhcr.Compiler.Ir.Machine.{Machine, State, values_of, outcome, step, exec_all}
use uhcr.Compiler.Passes.Sweep.{sweep, sweep_rule, step_emitted}
use uhcr.Compiler.Passes.DeadCode.Defs.{has_side_effects, references, collect_uses, is_dead, visit}

-- An instruction with a result and none of the opcodes that the pass lists leaves the memory alone.
abbrev pub IsQuiet : {F : Type 0} → Machine F → Type 0
IsQuiet M =
    (op : Opcode) (t : Ty) (vs : List M.V) (m : M.Mem)
    → has_side_effects op ≡ false
    → (t == void) ≡ false
    → (M.exec op t vs m).1 ≡ m

-- Every member of the first list is in the second.
abbrev pub Within : List ℕ → List ℕ → Type 0
Within [] used = Unit
Within (k ∷ ks) used = (contains k used ≡ true) × Within ks used

pub Within-append : (ks ls used : List ℕ) → Within ks used → Within ls used → Within (ks ++ ls) used
Within-append [] ls used a b = b
Within-append (k ∷ ks) ls used a b = (a.0, Within-append ks ls used a.1 b)

pub Within-append_left : (ks ls used : List ℕ) → Within (ks ++ ls) used → Within ks used
Within-append_left [] ls used a = tt
Within-append_left (k ∷ ks) ls used a = (a.0, Within-append_left ks ls used a.1)

pub Within-append_right : (ks ls used : List ℕ) → Within (ks ++ ls) used → Within ls used
Within-append_right [] ls used a = a
Within-append_right (k ∷ ks) ls used a = Within-append_right ks ls used a.1

pub Within-cons : (ks used : List ℕ) (k : ℕ) → Within ks used → Within ks (k ∷ used)
Within-cons [] used k a = tt
Within-cons (j ∷ ks) used k a = (ground arith, Within-cons ks used k a.1)

pub Within-refl : (ks : List ℕ) → Within ks ks
Within-refl [] = tt
Within-refl (k ∷ ks) = (ground (arith, ==_refl k), Within-cons ks ks k (Within-refl ks))

module _ {F : Type 0} where
  pub collect_uses-append :
      (is js : List (Instruction F)) → collect_uses (is ++ js) ≡ collect_uses is ++ collect_uses js
  collect_uses-append [] js = refl
  collect_uses-append (i ∷ is) js =
      rw (collect_uses-append is js)
        (sym (append_assoc (references i.args) (collect_uses is) (collect_uses js)))

-- A list of instructions that the pass keeps in place of `is`.
abbrev pub kept : {F : Type 0} → List ℕ → List (Instruction F) → List (Instruction F)
kept used is = (sweep (visit used) 0 is).1

module _ {F : Type 0} (M : Machine F) (used : List ℕ) where
  -- The two runs agree on the memory and on every result that is used.
  pub record Agree (s s' : State M) : Type 0 where
    pub same_mem : s.mem ≡ s'.mem
    pub same_env : (k : ℕ) → contains k used ≡ true → s.env k ≡ s'.env k

  values_of-Agree :
      {s s' : State M} (vs : List (Value F))
      → Agree s s'
      → Within (references vs) used
      → values_of M s.env vs ≡ values_of M s'.env vs
  values_of-Agree [] a w = refl
  values_of-Agree (constant t c ∷ vs) a w = ap (◌∷◌ (M.load t c)) (values_of-Agree vs a w)
  values_of-Agree (label t l ∷ vs) a w = ap (◌∷◌ (M.load_label t l)) (values_of-Agree vs a w)
  values_of-Agree (argument t x ∷ vs) a w = ap (◌∷◌ (M.load_argument x)) (values_of-Agree vs a w)
  values_of-Agree (result_of k t ∷ vs) a w = ap₂ ◌∷◌ (a.same_env k w.0) (values_of-Agree vs a w.1)

  Agree-step :
      {s s' : State M} (i : Instruction F)
      → Agree s s'
      → Within (references i.args) used
      → Agree (step M s i) (step M s' i)
  unfolding step
  Agree-step {s} {s'} i a w =
      let same : outcome M s i ≡ outcome M s' i =
        ap₂ (M.exec i.opcode i.type) (values_of-Agree i.args a w) a.same_mem in
      record {
        same_mem = ap (λ o. o.1) same;
        same_env = λ k h. elim (Bool-cases (nat_beq i.key k)) [
          | inl e ↦ rw e (ap (λ o. o.0) same)
          | inr e ↦ rw e (a.same_env k h)
        ];
      }

  Agree-drop :
      {s s' : State M} (i : Instruction F)
      → IsQuiet M
      → Agree s s'
      → is_dead used i ≡ true
      → Agree (step M s i) s'
  unfolding step is_dead
  Agree-drop {s} {s'} i quiet a h = record {
    same_mem =
        quiet i.opcode i.type (values_of M s.env i.args) s.mem (ground arith) (ground arith)
        ∙ a.same_mem;
    same_env = λ k hk. elim (Bool-cases (nat_beq i.key k)) [
      | inl e ↦
          let here : contains i.key used ≡ true =
            subst (λ x. contains x used ≡ true) (sym ((nat_beq_iff i.key k).0 e)) hk in
          absurd (ground arith)
      | inr e ↦ rw e (a.same_env k hk)
    ];
  }

  abbrev Inv : ℕ → State M → State M → List (Instruction F) → Type 0
  Inv n s s' is = Agree s s' × Within (collect_uses is) used

  visit-Inv :
      IsQuiet M
      → (n : ℕ) (s s' : State M) (i : Instruction F) (is : List (Instruction F))
      → Inv n s s' (i ∷ is)
      → Inv (visit used n i).0 (step M s i) (step_emitted (visit used) M s' (visit used n i).1) is
  unfolding visit
  visit-Inv quiet n s s' i is (a, w) =
      let rest = Within-append_right (references i.args) (collect_uses is) used w in
      elim (Bool-cases (is_dead used i)) [
        | inl e ↦ rw e (Agree-drop i quiet a e, rest)
        | inr e ↦
            rw e (
              Agree-step i a (Within-append_left (references i.args) (collect_uses is) used w),
              rest,
            )
      ]

  -- Code whose operands are all in `used` leaves the same memory without its dead instructions.
  pub exec-kept :
      IsQuiet M
      → (s : State M) (is : List (Instruction F)) → Within (collect_uses is) used
      → (exec_all M s (kept used is)).mem ≡ (exec_all M s is).mem
  exec-kept quiet s is w =
      sym
        (sweep_rule (visit used) M Inv (visit-Inv quiet) 0 s s is
          (record { same_mem = refl; same_env = λ k h. refl }, w)).0.same_mem
