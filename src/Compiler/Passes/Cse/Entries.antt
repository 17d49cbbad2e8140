-- ===== src/Compiler/Passes/Cse/Entries.antt =====
-- The entries of `expr_map` while the code runs (uhcr/compiler/passes/cse.py).
use uhcr.Prelude.{
  ℕ, ◌≡◌, List, [], ◌∷◌, some, ap, sym, ◌∙◌, subst, nat_eq, ==→≡, Bool-cases, inl, inr, and_left,
  and_right,
}
use uhcr.Compiler.Ir.Types.{Ty, type_eq}
use uhcr.Compiler.Ir.Function.{Value, result_of, Instruction}
use uhcr.Compiler.Ir.Machine.{Machine, State, outcome, step, Absent, Settled}
use uhcr.Compiler.Passes.Numbers.{FloatOps}
use uhcr.Compiler.Passes.Substitution.{value_of-update, values_of-update}
use uhcr.Compiler.Passes.Tables.{Settled-head}
use uhcr.Compiler.Passes.Cse.Defs.{Entry, matches, find}
use uhcr.Compiler.Passes.Cse.Sound.{IsPure, AllTrue}

module _ {F : Type 0} where
  -- The entries name no instruction that is still to come.
  abbrev pub EntriesSettled : List (Entry F) → List (Instruction F) → Type 0
  EntriesSettled [] is = Unit
  EntriesSettled (e ∷ es) is =
      Settled (result_of e.first e.type ∷ e.operands) is × EntriesSettled es is

  abbrev pub EntriesTyped : (ℕ → Ty) → List (Entry F) → Type 0
  EntriesTyped g [] = Unit
  EntriesTyped g (e ∷ es) = (e.type ≡ g e.first) × EntriesTyped g es

  pub EntriesSettled-tail :
      (es : List (Entry F)) (i : Instruction F) (is : List (Instruction F))
      → EntriesSettled es (i ∷ is)
      → EntriesSettled es is
  EntriesSettled-tail [] i is h = tt
  EntriesSettled-tail (e ∷ es) i is h = (h.0.1, EntriesSettled-tail es i is h.1)

  Settled-retype :
      (k : ℕ) (t u : Ty) (is : List (Instruction F))
      → Settled (result_of k t ∷ []) is
      → Settled (result_of k u ∷ []) is
  Settled-retype k t u [] h = tt
  Settled-retype k t u (i ∷ is) h = (h.0, Settled-retype k t u is h.1)

  pub Absent-Settled :
      (k : ℕ) (t : Ty) (vs : List (Value F)) (is : List (Instruction F))
      → Absent k is
      → Settled vs is
      → Settled (result_of k t ∷ vs) is
  Absent-Settled k t vs [] a h = tt
  Absent-Settled k t vs (i ∷ is) a h = (((λ e. a.0 (sym e)), h.0), Absent-Settled k t vs is a.1 h.1)

module _ {F : Type 0} (fl : FloatOps F) where
  pub find-Settled :
      (es : List (Entry F)) (i : Instruction F) (t : Ty) (is : List (Instruction F)) {first : ℕ}
      → EntriesSettled es is
      → find fl es i ≡ some first
      → Settled (result_of first t ∷ []) is
  unfolding find
  find-Settled [] i t is s h = absurd (cc)
  find-Settled (e ∷ es) i t is {first} s h = elim (Bool-cases (matches fl e i)) [
    | inl hit ↦
        let found : some e.first ≡ some first = rw hit at h in
        let same : e.first ≡ first = cc in
        subst (λ k. Settled (result_of k t ∷ []) is) same
          (Settled-retype e.first e.type t is
            (Settled-head e.operands (result_of e.first e.type) is s.0))
    | inr miss ↦ find-Settled es i t is s.1 (rw miss at h)
  ]

  pub find-Typed :
      (g : ℕ → Ty) (es : List (Entry F)) (i : Instruction F) {first : ℕ}
      → EntriesTyped g es
      → find fl es i ≡ some first
      → i.type ≡ g first
  unfolding find
  find-Typed g [] i s h = absurd (cc)
  find-Typed g (e ∷ es) i {first} s h = elim (Bool-cases (matches fl e i)) [
    | inl hit ↦
        let found : some e.first ≡ some first = rw hit at h in
        let same : e.first ≡ first = cc in
        sym (==→≡ e.type i.type (and_right _ _ (and_left _ _ hit))) ∙ s.0 ∙ ap g same
    | inr miss ↦ find-Typed g es i s.1 (rw miss at h)
  ]

  module _ (M : Machine F) (law : IsPure fl M) where
    -- A step of another instruction leaves the entries true.
    pub AllTrue-step :
        (s : State M) (i : Instruction F) (vs : List (Value F)) (es : List (Entry F))
        (is : List (Instruction F))
        → EntriesSettled es (i ∷ is)
        → AllTrue fl M law s es
        → AllTrue fl M law (step M s (record i { args = vs })) es
    unfolding step
    AllTrue-step s i vs [] is h t = tt
    AllTrue-step s i vs (e ∷ es) is h t = (
      record {
        excluded = t.0.excluded;
        valued = t.0.valued;
        holds = λ m.
            rw
              (values_of-update M s.env i.key (outcome M s (record i { args = vs })).0 e.operands
                h.0.0.1)
              (t.0.holds m
                ∙ ap (λ x. (x, m))
                    (sym (value_of-update M s.env i.key _ (result_of e.first e.type) h.0.0.0)));
      },
      AllTrue-step s i vs es is h.1 t.1,
    )
