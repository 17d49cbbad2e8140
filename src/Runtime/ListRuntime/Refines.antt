-- ===== src/Runtime/ListRuntime/Refines.antt =====
-- The dynamic array answers every sequence of calls as a plain list does.
use uhcr.Runtime.ListRuntime.Defs.{PyEq}
use uhcr.Prelude.{ℕ, ◌<◌, ◌≡◌, refl, ap, List, [], ◌∷◌, Option, ok, err, String}
use uhcr.Runtime.ListRuntime.Defs.{RuntimeList, Result, create_list}
use uhcr.Runtime.ListRuntime.Layout.{Represents, create_list-Represents}
use uhcr.Runtime.ListRuntime.Calls.{ListCall, answers, Agree, returns, raises, perform, respond}
use uhcr.Runtime.ListRuntime.Agreement.{perform-Agree}

module _ {ℓ} {A : Type ℓ} ⦃e : PyEq A⦄ where
  answered :
      (d : A) (cs : List (ListCall A))
      → ((l : RuntimeList A) (xs : List A)
          → Represents l xs
          → answers (perform d) l cs ≡ answers respond xs cs)
      → (l : RuntimeList A) (xs : List A) → Represents l xs
      → {p : Result (RuntimeList A × Option A)} {q : Result (List A × Option A)} → Agree p q
      → (elim p [
        | ok out ↦ ok out.1 ∷ answers (perform d) out.0 cs
        | err c ↦ err c ∷ answers (perform d) l cs
      ])
        ≡ (elim q [
          | ok out ↦ ok out.1 ∷ answers respond out.0 cs
          | err c ↦ err c ∷ answers respond xs cs
        ])
  answered d cs next l xs r (returns a r') = ap (λ rest. ok a ∷ rest) (next _ _ r')
  answered d cs next l xs r (raises c) = ap (λ rest. err c ∷ rest) (next l xs r)

  answers-Represents :
      (d : A) (cs : List (ListCall A)) (l : RuntimeList A) (xs : List A)
      → Represents l xs
      → answers (perform d) l cs ≡ answers respond xs cs
  unfolding answers
  answers-Represents d [] l xs r = refl
  answers-Represents d (c ∷ cs) l xs r =
      answered d cs (answers-Represents d cs) l xs r (perform-Agree d l xs r c)

  -- A dynamic array made with a positive capacity gives to every sequence of calls (index, assign,
  -- append, pop, insert, remove, clear) the values and the exceptions that a plain list gives.
  pub answers-create_list :
      (d : A) (t : String) (c : ℕ) (cs : List (ListCall A))
      → 0 < c
      → answers (perform d) (create_list d t c) cs ≡ answers respond [] cs
  answers-create_list d t c cs h =
      answers-Represents d cs (create_list d t c) [] (create_list-Represents d t c h)
