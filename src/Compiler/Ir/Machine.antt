-- ===== src/Compiler/Ir/Machine.antt =====
-- A reference semantics of the intermediate representation: what the instructions of
-- uhcr/compiler/ir.py do when they run one after the other on a machine. The machine (the code
-- generators' targets) is a parameter: its values, its memory, which stands for everything that can
-- be observed, taken branches included, and the effect of each opcode.
use uhcr.Prelude.{ℕ, ◌≡◌, ◌≢◌, refl, List, [], ◌∷◌, ◌++◌, String, if◌then◌else◌, nat_beq, map}
use uhcr.Compiler.Ir.Types.{Ty, Opcode}
use uhcr.Compiler.Ir.Function.{Number, Value, constant, label, argument, result_of, Instruction}

pub record Machine (F : Type 0) : Type 1 where
  pub V : Type 0
  pub Mem : Type 0
  pub load : Ty → Number F → V
  pub load_label : Ty → String → V
  pub load_argument : String → V
  pub exec : Opcode → Ty → List V → Mem → V × Mem

module _ {F : Type 0} (M : Machine F) where
  abbrev pub Env : Type 0
  Env = ℕ → M.V

  -- The values of the instructions that have run, and the memory.
  pub record State : Type 0 where
    pub env : Env
    pub mem : M.Mem

  abbrev pub value_of : Env → Value F → M.V
  value_of env (constant t c) = M.load t c
  value_of env (label t l) = M.load_label t l
  value_of env (argument t a) = M.load_argument a
  value_of env (result_of k t) = env k

  abbrev pub values_of : Env → List (Value F) → List M.V
  values_of env [] = []
  values_of env (v ∷ vs) = value_of env v ∷ values_of env vs

  abbrev pub update : Env → ℕ → M.V → Env
  update env k v j = if nat_beq k j then v else env j

  abbrev pub outcome : State → Instruction F → M.V × M.Mem
  outcome s i = M.exec i.opcode i.type (values_of s.env i.args) s.mem

  unfoldable pub step : State → Instruction F → State
  step s i = record { env = update s.env i.key (outcome s i).0; mem = (outcome s i).1 }

  unfoldable pub exec_all : State → List (Instruction F) → State
  exec_all s [] = s
  exec_all s (i ∷ is) = exec_all (step s i) is

  pub exec_all-append :
      (s : State) (is js : List (Instruction F))
      → exec_all s (is ++ js) ≡ exec_all (exec_all s is) js
  unfolding exec_all
  exec_all-append s [] js = refl
  exec_all-append s (i ∷ is) js = exec_all-append (step s i) is js

module _ {F : Type 0} where
  -- The operand is not the result of the instruction `k`.
  abbrev pub Avoids : ℕ → Value F → Type 0
  Avoids k (result_of j t) = j ≢ k
  Avoids k _ = Unit

  abbrev pub AvoidsAll : ℕ → List (Value F) → Type 0
  AvoidsAll k [] = Unit
  AvoidsAll k (v ∷ vs) = Avoids k v × AvoidsAll k vs

  -- An operand that names an instruction carries that instruction's type.
  abbrev pub Typed : (ℕ → Ty) → Value F → Type 0
  Typed g (result_of k t) = t ≡ g k
  Typed g _ = Unit

  abbrev pub TypedIn : (ℕ → Ty) → List (Value F) → Type 0
  TypedIn g [] = Unit
  TypedIn g (v ∷ vs) = Typed g v × TypedIn g vs

  -- `k` is no instruction of the list, and none of the operands names one of the list.
  abbrev pub Absent : ℕ → List (Instruction F) → Type 0
  Absent k [] = Unit
  Absent k (i ∷ is) = (i.key ≢ k) × Absent k is

  abbrev pub Settled : List (Value F) → List (Instruction F) → Type 0
  Settled vs [] = Unit
  Settled vs (i ∷ is) = AvoidsAll i.key vs × Settled vs is

  -- Straight-line code in single assignment: each instruction has its own key and the type that
  -- `g` gives it, and uses no result that is computed at it or after it.
  abbrev pub IsSsa : (ℕ → Ty) → List (Instruction F) → Type 0
  IsSsa g [] = Unit
  IsSsa g (i ∷ is) =
      (i.type ≡ g i.key) × TypedIn g i.args × Absent i.key is × Settled i.args (i ∷ is) × IsSsa g is

  pub TypedIn-map :
      (g : ℕ → Ty) (h : Value F → Value F) (vs : List (Value F))
      → ((v : Value F) → Typed g v → Typed g (h v))
      → TypedIn g vs
      → TypedIn g (map h vs)
  TypedIn-map g h [] keep t = tt
  TypedIn-map g h (v ∷ vs) keep t = (keep v t.0, TypedIn-map g h vs keep t.1)

  AvoidsAll-map :
      (k : ℕ) (h : Value F → Value F) (vs : List (Value F))
      → ((v : Value F) → Avoids k v → Avoids k (h v))
      → AvoidsAll k vs
      → AvoidsAll k (map h vs)
  AvoidsAll-map k h [] keep a = tt
  AvoidsAll-map k h (v ∷ vs) keep a = (keep v a.0, AvoidsAll-map k h vs keep a.1)

  pub Settled-map :
      (h : Value F → Value F) (vs : List (Value F)) (is : List (Instruction F))
      → ((k : ℕ) (v : Value F) → Avoids k v → Avoids k (h v))
      → Settled vs is
      → Settled (map h vs) is
  Settled-map h vs [] keep s = tt
  Settled-map h vs (i ∷ is) keep s =
      (AvoidsAll-map i.key h vs (keep i.key) s.0, Settled-map h vs is keep s.1)
