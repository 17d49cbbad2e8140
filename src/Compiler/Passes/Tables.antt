-- ===== src/Compiler/Passes/Tables.antt =====
-- Tables of replacements, which the passes of uhcr/compiler/passes build while they rewrite.
use uhcr.Prelude.{
  ℕ, ◌≡◌, refl, List, [], ◌∷◌, Option, none, some, map, subst, nat_eq, nat_beq, Bool-cases, inl,
  inr,
}
use uhcr.Prelude.Dict.{lookup, insert, lookup-insert}
use uhcr.Compiler.Ir.Types.{Ty}
use uhcr.Compiler.Ir.Function.{Number, Value, constant, label, argument, result_of, Instruction}
use uhcr.Compiler.Ir.Machine.{Typed, TypedIn, Settled}
use uhcr.Compiler.Passes.Substitution.{apply, replace}

module _ {F : Type 0} where
  -- `replacements[val]` for an instruction that has been replaced, and else the operand itself.
  abbrev pub resolve : List (ℕ × Value F) → Value F → Value F
  resolve replacements = apply (λ k. lookup k replacements)

  -- What a table of replacements holds may be used by all the code to come.
  abbrev pub TableSettled : List (ℕ × Value F) → List (Instruction F) → Type 0
  TableSettled d is = (k : ℕ) (w : Value F) → lookup k d ≡ some w → Settled (w ∷ []) is

  abbrev pub TableTyped : (ℕ → Ty) → List (ℕ × Value F) → Type 0
  TableTyped g d = (k : ℕ) (w : Value F) → lookup k d ≡ some w → Typed g w

  pub Settled-tail :
      (vs : List (Value F)) (v : Value F) (is : List (Instruction F))
      → Settled (v ∷ vs) is
      → Settled vs is
  Settled-tail vs v [] h = tt
  Settled-tail vs v (i ∷ is) h = (h.0.1, Settled-tail vs v is h.1)

  pub Settled-head :
      (vs : List (Value F)) (v : Value F) (is : List (Instruction F))
      → Settled (v ∷ vs) is
      → Settled (v ∷ []) is
  Settled-head vs v [] h = tt
  Settled-head vs v (i ∷ is) h = ((h.0.0, tt), Settled-head vs v is h.1)

  Settled-cons :
      (vs : List (Value F)) (v : Value F) (is : List (Instruction F))
      → Settled (v ∷ []) is
      → Settled vs is
      → Settled (v ∷ vs) is
  Settled-cons vs v [] h k = tt
  Settled-cons vs v (i ∷ is) h k = ((h.0.0, k.0), Settled-cons vs v is h.1 k.1)

  -- A property of values that the table's values have passes to what an operand resolves to.
  pub resolve-elim :
      (P : Value F → Type 0) (d : List (ℕ × Value F)) (v : Value F)
      → ((k : ℕ) (w : Value F) → lookup k d ≡ some w → P w)
      → P v
      → P (resolve d v)
  resolve-elim P d (constant t c) table own = own
  resolve-elim P d (label t c) table own = own
  resolve-elim P d (argument t c) table own = own
  resolve-elim P d (result_of k t) table own = go (lookup k d) refl
    where
      go : (o : Option (Value F)) → lookup k d ≡ o → P (replace o (result_of k t))
      go none e = own
      go (some w) e = table k w e

  Settled-nil : (is : List (Instruction F)) → Settled [] is
  Settled-nil [] = tt
  Settled-nil (i ∷ is) = (tt, Settled-nil is)

  pub resolve-Settled :
      (d : List (ℕ × Value F)) (vs : List (Value F)) (is : List (Instruction F))
      → TableSettled d is
      → Settled vs is
      → Settled (map (resolve d) vs) is
  resolve-Settled d [] is t s = Settled-nil is
  resolve-Settled d (v ∷ vs) is t s =
      Settled-cons _ _ is (resolve-elim (λ w. Settled (w ∷ []) is) d v t (Settled-head vs v is s))
        (resolve-Settled d vs is t (Settled-tail vs v is s))

  pub TableSettled-tail :
      (d : List (ℕ × Value F)) (i : Instruction F) (is : List (Instruction F))
      → TableSettled d (i ∷ is)
      → TableSettled d is
  TableSettled-tail d i is t k w e = (t k w e).1

  -- A table stays fit for use when it gets one more value that is.
  pub table-insert :
      (P : Value F → Type 0) (d : List (ℕ × Value F)) (i : ℕ) (v : Value F)
      → ((k : ℕ) (w : Value F) → lookup k d ≡ some w → P w)
      → P v
      → (k : ℕ) (w : Value F) → lookup k (insert i v d) ≡ some w
      → P w
  table-insert P d i v table new k w h = elim (Bool-cases (nat_beq i k)) [
    | inl e ↦
        let found : some v ≡ some w = rw (lookup-insert, e) at h in
        let same : v ≡ w = cc in subst P same new
    | inr e ↦ table k w (rw (lookup-insert, e) at h)
  ]

  abbrev pub AllHold : (Value F → Type 0) → List (Value F) → Type 0
  AllHold P [] = Unit
  AllHold P (v ∷ vs) = P v × AllHold P vs

  pub AllHold-Settled :
      (d : List (ℕ × Value F)) (vs : List (Value F)) (is : List (Instruction F))
      → TableSettled d is
      → Settled vs is
      → AllHold (λ v. Settled (resolve d v ∷ []) is) vs
  AllHold-Settled d [] is t s = tt
  AllHold-Settled d (v ∷ vs) is t s = (
    resolve-elim (λ w. Settled (w ∷ []) is) d v t (Settled-head vs v is s),
    AllHold-Settled d vs is t (Settled-tail vs v is s),
  )

  pub AllHold-Typed :
      (g : ℕ → Ty) (d : List (ℕ × Value F)) (vs : List (Value F))
      → TableTyped g d
      → TypedIn g vs
      → AllHold (λ v. Typed g (resolve d v)) vs
  AllHold-Typed g d [] t s = tt
  AllHold-Typed g d (v ∷ vs) t s = (resolve-elim (Typed g) d v t s.0, AllHold-Typed g d vs t s.1)

  pub constant-Settled :
      (t : Ty) (c : Number F) (is : List (Instruction F)) → Settled (constant t c ∷ []) is
  constant-Settled t c [] = tt
  constant-Settled t c (i ∷ is) = ((tt, tt), constant-Settled t c is)

  pub resolve-TypedIn :
      (g : ℕ → Ty) (d : List (ℕ × Value F)) (vs : List (Value F))
      → TableTyped g d
      → TypedIn g vs
      → TypedIn g (map (resolve d) vs)
  resolve-TypedIn g d [] t s = tt
  resolve-TypedIn g d (v ∷ vs) t s =
      (resolve-elim (Typed g) d v t s.0, resolve-TypedIn g d vs t s.1)
