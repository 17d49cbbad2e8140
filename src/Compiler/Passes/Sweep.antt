-- ===== src/Compiler/Passes/Sweep.antt =====
-- The loop that the passes of uhcr/compiler/passes share: the instructions of all blocks are visited
-- in order, with a table that grows; a visit drops the instruction or emits one in its place.
use uhcr.Prelude.{
  ℕ, ◌≤◌, ◌≡◌, ◌≢◌, refl, List, [], ◌∷◌, ◌++◌, Option, none, some, ap, sym, ◌∙◌, arith, length,
}
use uhcr.Prelude.{nat_eq, ≢→==}
use uhcr.Prelude.Dict.{lookup, insert, lookup-insert}
use uhcr.Compiler.Ir.Types.{Ty}
use uhcr.Compiler.Ir.Function.{Value, Instruction, BasicBlock, flatten}
use uhcr.Compiler.Ir.Machine.{
  Machine, State, step, exec_all, TypedIn, Absent, Settled, IsSsa, AvoidsAll,
}

module _ {F : Type 0} where
  abbrev pub emit : Option (Instruction F) → List (Instruction F) → List (Instruction F)
  emit none out = out
  emit (some i) out = i ∷ out

-- No instruction to come stands in a table keyed by identity.
abbrev pub FreshIn : {F W : Type 0} → List (ℕ × W) → List (Instruction F) → Type 0
FreshIn d [] = Unit
FreshIn d (i ∷ is) = (lookup i.key d ≡ none) × FreshIn d is

module _ {F D : Type 0} (visit : D → Instruction F → D × Option (Instruction F)) where
  unfoldable pub sweep : D → List (Instruction F) → D × List (Instruction F)
  sweep d [] = (d, [])
  sweep d (i ∷ is) = let (d', out) = sweep (visit d i).0 is in (d', emit (visit d i).1 out)

  unfoldable pub sweep_blocks : D → List (BasicBlock F) → D × List (BasicBlock F)
  sweep_blocks d [] = (d, [])
  sweep_blocks d (b ∷ bs) =
      let (d', out) = sweep d b.instructions in
      let (d'', rest) = sweep_blocks d' bs in (d'', record b { instructions = out } ∷ rest)

  emit-append :
      (o : Option (Instruction F)) (is js : List (Instruction F))
      → emit o is ++ js ≡ emit o (is ++ js)
  emit-append none is js = refl
  emit-append (some i) is js = refl

  sweep-append :
      (d : D) (is js : List (Instruction F))
      → sweep d (is ++ js)
        ≡ ((sweep (sweep d is).0 js).0, (sweep d is).1 ++ (sweep (sweep d is).0 js).1)
  unfolding sweep
  sweep-append d [] js = refl
  sweep-append d (i ∷ is) js = rw (sweep-append (visit d i).0 is js, emit-append)

  -- The blocks of the result, joined, are the sweep of the blocks joined.
  pub flatten-sweep_blocks :
      (d : D) (bs : List (BasicBlock F))
      → sweep d (flatten bs) ≡ ((sweep_blocks d bs).0, flatten (sweep_blocks d bs).1)
  unfolding sweep_blocks sweep
  flatten-sweep_blocks d [] = refl
  flatten-sweep_blocks d (b ∷ bs) =
      sweep-append d b.instructions (flatten bs)
      ∙ rw (flatten-sweep_blocks (sweep d b.instructions).0 bs)

  pub length-sweep-le : (d : D) (is : List (Instruction F)) → length (sweep d is).1 ≤ length is
  unfolding sweep
  length-sweep-le d [] = omega arith
  length-sweep-le d (i ∷ is) = ground (arith, length-sweep-le (visit d i).0 is)

  module _ (M : Machine F) where
    abbrev pub step_emitted : State M → Option (Instruction F) → State M
    step_emitted s none = s
    step_emitted s (some i) = step M s i

    -- A relation of the two runs that each visit keeps holds at the end.
    pub sweep_rule :
        (Inv : D → State M → State M → List (Instruction F) → Type 0)
        → ((d : D) (s s' : State M) (i : Instruction F) (is : List (Instruction F))
            → Inv d s s' (i ∷ is)
            → Inv (visit d i).0 (step M s i) (step_emitted s' (visit d i).1) is)
        → (d : D) (s s' : State M) (is : List (Instruction F)) → Inv d s s' is
        → Inv (sweep d is).0 (exec_all M s is) (exec_all M s' (sweep d is).1) []
    unfolding sweep exec_all
    sweep_rule Inv keep d s s' [] h = h
    sweep_rule Inv keep d s s' (i ∷ is) h =
        go (visit d i).1 (sweep_rule Inv keep (visit d i).0 _ _ is (keep d s s' i is h))
      where
        go :
            (o : Option (Instruction F))
            → Inv
                (sweep (visit d i).0 is).0
                (exec_all M (step M s i) is)
                (exec_all M (step_emitted s' o) (sweep (visit d i).0 is).1)
                []
            → Inv
                (sweep (visit d i).0 is).0
                (exec_all M (step M s i) is)
                (exec_all M s' (emit o (sweep (visit d i).0 is).1))
                []
        go none r = r
        go (some j) r = r

  -- What a visit emits in place of `i`, where `is` is still to come.
  abbrev pub Emits :
      (ℕ → Ty) → Instruction F → List (Instruction F) → Option (Instruction F) → Type 0
  Emits g i is none = Unit
  Emits g i is (some j) =
      (j.key ≡ i.key) × (j.type ≡ i.type) × TypedIn g j.args × Settled j.args (i ∷ is)

  module _ (g : ℕ → Ty) (Keep : D → List (Instruction F) → Type 0)
      (keeps : (d : D) (i : Instruction F) (is : List (Instruction F))
        → Keep d (i ∷ is)
        → Emits g i is (visit d i).1 × Keep (visit d i).0 is) where
    Absent-emit :
        (k : ℕ) (i : Instruction F) (is : List (Instruction F)) (o : Option (Instruction F))
        (out : List (Instruction F))
        → Emits g i is o
        → i.key ≢ k
        → Absent k out
        → Absent k (emit o out)
    Absent-emit k i is none out e h a = a
    Absent-emit k i is (some j) out e h a = (rw e.0 h, a)

    Absent-sweep :
        (k : ℕ) (d : D) (is : List (Instruction F))
        → Keep d is
        → Absent k is
        → Absent k (sweep d is).1
    unfolding sweep
    Absent-sweep k d [] h a = tt
    Absent-sweep k d (i ∷ is) h a =
        let (e, h') = keeps d i is h in
        Absent-emit k i is (visit d i).1 _ e a.0 (Absent-sweep k (visit d i).0 is h' a.1)

    Settled-emit :
        (vs : List (Value F)) (i : Instruction F) (is : List (Instruction F))
        (o : Option (Instruction F)) (out : List (Instruction F))
        → Emits g i is o
        → AvoidsAll i.key vs
        → Settled vs out
        → Settled vs (emit o out)
    Settled-emit vs i is none out e h a = a
    Settled-emit vs i is (some j) out e h a = (rw e.0 h, a)

    Settled-sweep :
        (vs : List (Value F)) (d : D) (is : List (Instruction F))
        → Keep d is
        → Settled vs is
        → Settled vs (sweep d is).1
    unfolding sweep
    Settled-sweep vs d [] h a = tt
    Settled-sweep vs d (i ∷ is) h a =
        let (e, h') = keeps d i is h in
        Settled-emit vs i is (visit d i).1 _ e a.0 (Settled-sweep vs (visit d i).0 is h' a.1)

    IsSsa-emit :
        (i : Instruction F) (is : List (Instruction F)) (o : Option (Instruction F))
        (out : List (Instruction F))
        → Emits g i is o
        → i.type ≡ g i.key
        → Absent i.key out
        → ((vs : List (Value F)) → Settled vs is → Settled vs out)
        → IsSsa g out
        → IsSsa g (emit o out)
    IsSsa-emit i is none out e t a later s = s
    IsSsa-emit i is (some j) out (same_key, same_type, typed, settled) t a later s = (
      same_type ∙ t ∙ ap g (sym same_key),
      typed,
      rw same_key a,
      (rw same_key settled.0, later j.args settled.1),
      s,
    )

    -- A sweep leaves straight-line code in single assignment, if each visit emits such code.
    pub sweep-IsSsa :
        (d : D) (is : List (Instruction F)) → Keep d is → IsSsa g is → IsSsa g (sweep d is).1
    unfolding sweep
    sweep-IsSsa d [] h s = tt
    sweep-IsSsa d (i ∷ is) h (t, typed, absent, settled, s) =
        let (e, h') = keeps d i is h in
        IsSsa-emit i is (visit d i).1 _ e t (Absent-sweep i.key (visit d i).0 is h' absent)
          (λ vs. Settled-sweep vs (visit d i).0 is h') (sweep-IsSsa (visit d i).0 is h' s)

pub FreshIn-nil : {F : Type 0} (W : Type 0) (is : List (Instruction F)) → FreshIn {W = W} [] is
unfolding lookup
FreshIn-nil W [] = tt
FreshIn-nil W (i ∷ is) = (refl, FreshIn-nil W is)

pub FreshIn-insert :
    {F W : Type 0} (d : List (ℕ × W)) (k : ℕ) (c : W) (is : List (Instruction F))
    → FreshIn d is
    → Absent k is
    → FreshIn (insert k c d) is
FreshIn-insert d k c [] f a = tt
FreshIn-insert d k c (i ∷ is) f a =
    (rw (lookup-insert, ≢→== k i.key (λ e. a.0 (sym e))) f.0, FreshIn-insert d k c is f.1 a.1)
