-- ===== src/Compiler/Passes/StrengthReduction/Sound.antt =====
-- A reduced instruction has the value of what replaces it
-- (uhcr/compiler/passes/strength_reduction.py).
use uhcr.Prelude.{
  ℕ, ◌≡◌, refl, Bool, true, false, [], ◌∷◌, Option, none, some, nat_eq, string_eq, nat_beq_iff,
  if◌then◌else◌, ==→≡, ap, sym, subst, pos,
}
use uhcr.Compiler.Ir.Types.{Ty, Opcode}
use uhcr.Compiler.Ir.Function.{Number, int, Value, constant, label, argument, result_of}
use uhcr.Compiler.Ir.Machine.{Machine, value_of}
use uhcr.Compiler.Passes.Numbers.{FloatOps, is_number}
use uhcr.Compiler.Passes.StrengthReduction.Defs.{
  Family, zero_of, family, multiplication, addition, subtraction, division, other, same_object,
  is_const, reduce,
}

-- The algebraic laws of a machine that the pass relies on, at every value of the machine.
pub record Identities {F : Type 0} (fl : FloatOps F) (M : Machine F) : Type 0 where
  pub mul_zero :
      (op : Opcode) (t t' : Ty) (x : M.V) (c : Number F) (m : M.Mem)
      → family op ≡ multiplication
      → is_number fl c 0 ≡ true
      → M.exec op t (x ∷ M.load t' c ∷ []) m ≡ (M.load t (int (pos 0)), m)
  pub zero_mul :
      (op : Opcode) (t t' : Ty) (x : M.V) (c : Number F) (m : M.Mem)
      → family op ≡ multiplication
      → is_number fl c 0 ≡ true
      → M.exec op t (M.load t' c ∷ x ∷ []) m ≡ (M.load t (int (pos 0)), m)
  pub mul_one :
      (op : Opcode) (t t' : Ty) (x : M.V) (c : Number F) (m : M.Mem)
      → family op ≡ multiplication
      → is_number fl c 1 ≡ true
      → M.exec op t (x ∷ M.load t' c ∷ []) m ≡ (x, m)
  pub one_mul :
      (op : Opcode) (t t' : Ty) (x : M.V) (c : Number F) (m : M.Mem)
      → family op ≡ multiplication
      → is_number fl c 1 ≡ true
      → M.exec op t (M.load t' c ∷ x ∷ []) m ≡ (x, m)
  pub add_zero :
      (op : Opcode) (t t' : Ty) (x : M.V) (c : Number F) (m : M.Mem)
      → family op ≡ addition
      → is_number fl c 0 ≡ true
      → M.exec op t (x ∷ M.load t' c ∷ []) m ≡ (x, m)
  pub zero_add :
      (op : Opcode) (t t' : Ty) (x : M.V) (c : Number F) (m : M.Mem)
      → family op ≡ addition
      → is_number fl c 0 ≡ true
      → M.exec op t (M.load t' c ∷ x ∷ []) m ≡ (x, m)
  pub sub_zero :
      (op : Opcode) (t t' : Ty) (x : M.V) (c : Number F) (m : M.Mem)
      → family op ≡ subtraction
      → is_number fl c 0 ≡ true
      → M.exec op t (x ∷ M.load t' c ∷ []) m ≡ (x, m)
  pub sub_self :
      (op : Opcode) (t : Ty) (x : M.V) (m : M.Mem)
      → family op ≡ subtraction
      → M.exec op t (x ∷ x ∷ []) m ≡ (M.load t (int (pos 0)), m)
  pub div_one :
      (op : Opcode) (t t' : Ty) (x : M.V) (c : Number F) (m : M.Mem)
      → family op ≡ division
      → is_number fl c 1 ≡ true
      → M.exec op t (x ∷ M.load t' c ∷ []) m ≡ (x, m)

-- A ladder of tests that answered `w`: by the first test that passed.
choose :
    {A : Type 0} (P : A → Type 0) (test : Bool) (x : A) (rest : Option A) (w : A)
    → (if test then some x else rest) ≡ some w
    → (test ≡ true → P x)
    → (rest ≡ some w → P w)
    → P w
choose P true x rest w h hit miss = let e : x ≡ w = cc in subst P e (hit refl)
choose P false x rest w h hit miss = miss h

module _ {F : Type 0} (fl : FloatOps F) where
  -- An operand that tests as the constant `n` is a constant with that number.
  is_const-constant :
      (v : Value F) (n : ℕ)
      → is_const fl v n ≡ true
      → (t : Ty) × (c : Number F) × (v ≡ constant t c) × (is_number fl c n ≡ true)
  is_const-constant (constant t c) n h = (t, c, refl, h)
  is_const-constant (label t l) n h = absurd (cc)
  is_const-constant (argument t a) n h = absurd (cc)
  is_const-constant (result_of k t) n h = absurd (cc)

  module _ (M : Machine F) (law : Identities fl M) where
    same_object-value :
        (env : ℕ → M.V) (a b : Value F)
        → same_object a b ≡ true
        → value_of M env a ≡ value_of M env b
    same_object-value env (result_of j t) (result_of k u) h = ap env ((nat_beq_iff j k).0 h)
    same_object-value env (argument t a) (argument u b) h = ap M.load_argument (==→≡ a b h)
    same_object-value env (constant t c) b h = absurd (cc)
    same_object-value env (label t c) b h = absurd (cc)
    same_object-value env (result_of j t) _ h = absurd (cc)
    same_object-value env (argument j t) _ h = absurd (cc)

    -- What a test found, the law that it calls for, at the operands' values.
    by_const :
        (env : ℕ → M.V) (v : Value F) (n : ℕ) (P : M.V → Type 0)
        → is_const fl v n ≡ true
        → ((t : Ty) (c : Number F) → is_number fl c n ≡ true → P (M.load t c))
        → P (value_of M env v)
    by_const env v n P h k =
        let (t, c, e, test) = is_const-constant v n h in
        subst (λ x. P (value_of M env x)) (sym e) (k t c test)

    -- The replacement has the value that the instruction computes, and the memory stays.
    pub reduce-exec :
        (env : ℕ → M.V) (op : Opcode) (fam : Family) (t : Ty) (a b : Value F) (m : M.Mem)
        {w : Value F}
        → family op ≡ fam
        → reduce fl fam t a b ≡ some w
        → M.exec op t (value_of M env a ∷ value_of M env b ∷ []) m ≡ (value_of M env w, m)
    unfolding reduce
    reduce-exec env op other t a b m e h = absurd (cc)
    reduce-exec env op division t a b m {w} e h =
        let law_at = λ (x : Value F).
          M.exec op t (value_of M env a ∷ value_of M env b ∷ []) m ≡ (value_of M env x, m) in
        choose law_at (is_const fl b 1) a none w h
          (λ y.
            by_const env b 1
              (λ x. M.exec op t (value_of M env a ∷ x ∷ []) m ≡ (value_of M env a, m)) y
              (λ t' c. law.div_one op t t' _ c m e))
          (λ n. absurd (cc))
    reduce-exec env op subtraction t a b m {w} e h =
        let law_at = λ (x : Value F).
          M.exec op t (value_of M env a ∷ value_of M env b ∷ []) m ≡ (value_of M env x, m) in
        choose law_at (is_const fl b 0) a _ w h
          (λ y.
            by_const env b 0
              (λ x. M.exec op t (value_of M env a ∷ x ∷ []) m ≡ (value_of M env a, m)) y
              (λ t' c. law.sub_zero op t t' _ c m e))
          (λ h'.
            choose law_at (same_object a b) (zero_of t) none w h'
              (λ y. rw (same_object-value env a b y) (law.sub_self op t _ m e)) (λ n. absurd (cc)))
    reduce-exec env op addition t a b m {w} e h =
        let law_at = λ (x : Value F).
          M.exec op t (value_of M env a ∷ value_of M env b ∷ []) m ≡ (value_of M env x, m) in
        choose law_at (is_const fl b 0) a _ w h
          (λ y.
            by_const env b 0
              (λ x. M.exec op t (value_of M env a ∷ x ∷ []) m ≡ (value_of M env a, m)) y
              (λ t' c. law.add_zero op t t' _ c m e))
          (λ h'.
            choose law_at (is_const fl a 0) b none w h'
              (λ y.
                by_const env a 0
                  (λ x. M.exec op t (x ∷ value_of M env b ∷ []) m ≡ (value_of M env b, m)) y
                  (λ t' c. law.zero_add op t t' _ c m e))
              (λ n. absurd (cc)))
    reduce-exec env op multiplication t a b m {w} e h =
        let law_at = λ (x : Value F).
          M.exec op t (value_of M env a ∷ value_of M env b ∷ []) m ≡ (value_of M env x, m) in
        choose law_at (is_const fl b 0) (zero_of t) _ w h
          (λ y.
            by_const env b 0
              (λ x. M.exec op t (value_of M env a ∷ x ∷ []) m ≡ (M.load t (int (pos 0)), m)) y
              (λ t' c. law.mul_zero op t t' _ c m e))
          (λ h₁.
            choose law_at (is_const fl a 0) (zero_of t) _ w h₁
              (λ y.
                by_const env a 0
                  (λ x. M.exec op t (x ∷ value_of M env b ∷ []) m ≡ (M.load t (int (pos 0)), m)) y
                  (λ t' c. law.zero_mul op t t' _ c m e))
              (λ h₂.
                choose law_at (is_const fl b 1) a _ w h₂
                  (λ y.
                    by_const env b 1
                      (λ x. M.exec op t (value_of M env a ∷ x ∷ []) m ≡ (value_of M env a, m)) y
                      (λ t' c. law.mul_one op t t' _ c m e))
                  (λ h₃.
                    choose law_at (is_const fl a 1) b none w h₃
                      (λ y.
                        by_const env a 1
                          (λ x. M.exec op t (x ∷ value_of M env b ∷ []) m ≡ (value_of M env b, m)) y
                          (λ t' c. law.one_mul op t t' _ c m e))
                      (λ n. absurd (cc)))))
