-- ===== src/Compiler/Passes/ConstantFolding/Sound.antt =====
-- Constant folding keeps the meaning of straight-line code
-- (uhcr/compiler/passes/constant_folding.py).
use uhcr.Prelude.{
  ℕ, ◌≡◌, refl, List, [], ◌∷◌, Option, none, some, map, nat_eq, nat_beq, nat_beq_iff, Bool-cases,
  inl, inr, ap, ap₂, ◌∙◌, arith, subst,
}
use uhcr.Prelude.Dict.{lookup, insert, lookup-insert}
use uhcr.Compiler.Ir.Types.{Ty, Opcode}
use uhcr.Compiler.Ir.Function.{Number, Value, constant, label, argument, result_of, Instruction}
use uhcr.Compiler.Ir.Machine.{
  Machine, State, value_of, values_of, outcome, step, TypedIn, IsSsa, Avoids,
}
use uhcr.Compiler.Passes.Numbers.{FloatOps, compute}
use uhcr.Compiler.Passes.Substitution.{
  Substitution, apply, replace, extend, Clean, Related, Related-step, Related-drop, Related-cong,
  through,
}
use uhcr.Compiler.Passes.Sweep.{step_emitted, FreshIn, FreshIn-insert}
use uhcr.Compiler.Passes.ConstantFolding.Defs.{
  Folding, get_constant_value, resolve, resolve_to, try_fold, try_args, try_operands, visit,
  visit_with,
}

-- The machine computes scalar arithmetic on constants as Python does, and leaves the memory alone.
abbrev pub Evaluates : {F : Type 0} → FloatOps F → Machine F → Type 0
Evaluates {F} fl M =
    (op : Opcode) (t t₁ t₂ : Ty) (a b c : Number F) (m : M.Mem)
    → compute fl op a b ≡ some c
    → M.exec op t (M.load t₁ a ∷ M.load t₂ b ∷ []) m ≡ (M.load t c, m)

module _ {F : Type 0} (g : ℕ → Ty) where
  -- The table of the pass, as a substitution.
  abbrev as_value : ℕ → Option (Number F) → Option (Value F)
  as_value k none = none
  as_value k (some c) = some (constant (g k) c)

  abbrev pub substitution : List (ℕ × Number F) → Substitution F
  substitution d k = as_value k (lookup k d)

  resolve-apply :
      (d : List (ℕ × Number F)) (vs : List (Value F))
      → TypedIn g vs
      → map (resolve d) vs ≡ map (apply (substitution d)) vs
  unfolding resolve
  resolve-apply d [] h = refl
  resolve-apply d (constant t c ∷ vs) h = ap (◌∷◌ (constant t c)) (resolve-apply d vs h.1)
  resolve-apply d (label t c ∷ vs) h = ap (◌∷◌ (label t c)) (resolve-apply d vs h.1)
  resolve-apply d (argument t c ∷ vs) h = ap (◌∷◌ (argument t c)) (resolve-apply d vs h.1)
  resolve-apply d (result_of k t ∷ vs) h = ap₂ ◌∷◌ (go (lookup k d)) (resolve-apply d vs h.1)
    where
      go :
          (o : Option (Number F))
          → resolve_to (result_of k t) o ≡ replace (as_value k o) (result_of k t)
      go none = refl
      go (some c) = ap (λ x. constant x c) h.0

  as_value-Avoids : (d : List (ℕ × Number F)) (k : ℕ) → Clean (substitution d) k
  as_value-Avoids d k j w e = go (lookup j d) e
    where
      go : (o : Option (Number F)) → as_value j o ≡ some w → Avoids k w
      go none h = absurd (cc)
      go (some c) h = let e : constant (g j) c ≡ w = cc in subst (Avoids k) e tt

  module _ (M : Machine F) where
    get_constant_value_lem :
        (d : List (ℕ × Number F)) {s s' : State M} (v : Value F) (c : Number F)
        → Related M (substitution d) s s'
        → get_constant_value d v ≡ some c
        → (t : Ty) × (value_of M s.env v ≡ M.load t c)
    unfolding get_constant_value
    get_constant_value_lem d (constant t c') c r h = (t, ap (M.load t) (cc))
    get_constant_value_lem d (label t c') c r h = absurd (cc)
    get_constant_value_lem d (argument t c') c r h = absurd (cc)
    get_constant_value_lem d {s} {s'} (result_of k t) c r h =
        (g k, r.same_env k ∙ ap (λ o. through M (as_value k o) s' k) h)

    module _ (fl : FloatOps F) (law : Evaluates fl M) where
      try_args_lem :
          (d : List (ℕ × Number F)) {s s' : State M} (op : Opcode) (vs : List (Value F))
          {c : Number F} (t : Ty) (m : M.Mem)
          → Related M (substitution d) s s'
          → try_args fl d op vs ≡ some c
          → M.exec op t (values_of M s.env vs) m ≡ (M.load t c, m)
      try_args_lem d op [] t m r h = absurd (cc)
      try_args_lem d op (a ∷ []) t m r h = absurd (cc)
      try_args_lem d op (a ∷ b ∷ x ∷ vs) t m r h = absurd (cc)
      try_args_lem d {s} op (a ∷ b ∷ []) {c} t m r h =
          go (get_constant_value d a) refl (get_constant_value d b) refl h
        where
          go :
              (o : Option (Number F))
              → get_constant_value d a ≡ o
              → (p : Option (Number F)) → get_constant_value d b ≡ p
              → try_operands fl op o p ≡ some c
              → M.exec op t (values_of M s.env (a ∷ b ∷ [])) m ≡ (M.load t c, m)
          go none ea p eb h' = absurd (cc)
          go (some x) ea none eb h' = absurd (cc)
          go (some x) ea (some y) eb h' =
              let (tx, px) = get_constant_value_lem d a x r ea in
              let (ty, py) = get_constant_value_lem d b y r eb in
              rw (px, py) (law op t tx ty x y c m h')

      try_fold_lem :
          (d : List (ℕ × Number F)) {s s' : State M} (i : Instruction F) {c : Number F}
          → Related M (substitution d) s s'
          → try_fold fl d i ≡ some c
          → outcome M s i ≡ (M.load i.type c, s.mem)
      unfolding try_fold
      try_fold_lem d {s} i {c} r h = try_args_lem d i.opcode i.args i.type s.mem r (ground arith)

      -- The two runs, with the part of the code that is still to come.
      abbrev pub Inv : Folding F → State M → State M → List (Instruction F) → Type 0
      Inv d s s' is = Related M (substitution d.folded) s s' × FreshIn d.folded is × IsSsa g is

      substitution-insert :
          (d : List (ℕ × Number F)) (i : ℕ) (c : Number F) (k : ℕ)
          → extend (substitution d) i (constant (g i) c) k ≡ substitution (insert i c d) k
      substitution-insert d i c k = elim (Bool-cases (nat_beq i k)) [
        | inl e ↦ rw (lookup-insert, e) (ap (λ t. some (constant (g t) c)) ((nat_beq_iff i k).0 e))
        | inr e ↦ rw (lookup-insert, e)
      ]

      pub visit-Inv :
          (d : Folding F) (s s' : State M) (i : Instruction F) (is : List (Instruction F))
          → Inv d s s' (i ∷ is)
          → Inv (visit fl d i).0 (step M s i) (step_emitted (visit fl) M s' (visit fl d i).1) is
      unfolding visit
      visit-Inv d s s' i is (r, f, (t, typed, absent, settled, ssa)) =
          go (try_fold fl d.folded i) refl
        where
          go :
              (o : Option (Number F))
              → try_fold fl d.folded i ≡ o
              → Inv
                  (visit_with fl d i o).0
                  (step M s i)
                  (step_emitted (visit fl) M s' (visit_with fl d i o).1)
                  is
          go none e = (
            rw (resolve-apply d.folded i.args typed)
                (Related-step M i r (ap (as_value i.key) f.0) (as_value-Avoids d.folded i.key)),
            f.1,
            ssa,
          )
          go (some c) e = (
            Related-cong M (substitution-insert d.folded i.key c) (
                Related-drop M i (constant (g i.key) c) r
                  (try_fold_lem d.folded i r e ∙ ap (λ x. (M.load x c, s.mem)) t)),
            FreshIn-insert d.folded i.key c is f.1 absent,
            ssa,
          )
