-- ===== src/Compiler/X86/Running.antt =====
-- What a program for the assembler (uhcr/compiler/x86_64/assembler.py) leaves: its pieces as the code,
-- the patches for their open places, and each label at its position.
use uhcr.Prelude.{
  reassociate, append_nil, ℕ, ◌+◌, ◌-◌, ◌≡◌, ◌∙◌, refl, sym, ap, subst, if◌then◌else◌, List, [],
  ◌∷◌, ◌++◌, Option, none, some, String, string_eq, ◌==◌, ==→≡, Bool-cases, inl, inr, length,
  length-append, arith, Outcome, ok,
}
use uhcr.Prelude.Dict.{lookup, insert, lookup-insert}
use uhcr.Compiler.X86.Assembler
use uhcr.Compiler.X86.Assembler.{Assembler, Patch, AsmError, init, and_then, place_label}
use uhcr.Compiler.X86.Patching.{Piece, raw, hole, flatten, holes}
use uhcr.Compiler.X86.Program.{
  AsmCall, plain, branch, label, write, branch_to, perform, run, AllBounded, Bounded, Plain, Branch,
  size, position,
}
use uhcr.Compiler.X86.Calls.{write-EncodesAll}
use uhcr.Compiler.X86.Branches.{branch_code, opened, branch_to-opened}

abbrev pub written_by : Plain → List ℕ
written_by c = (write c init).0.code

-- The pieces that a program writes.
abbrev pub pieces : List AsmCall → List Piece
pieces [] = []
pieces (plain c ∷ cs) = raw (written_by c) ∷ pieces cs
pieces (branch b l ∷ cs) = raw (branch_code b) ∷ hole (length (branch_code b)) l ∷ pieces cs
pieces (label l ∷ cs) = pieces cs

pub written_by-bytes : (c : Plain) (h : Bounded c) → written_by c ≡ (write-EncodesAll c h).bytes
unfolding init
written_by-bytes c h = ap (λ out. out.0.code) ((write-EncodesAll c h).written init)

pub write-plain :
    (c : Plain) (s : Assembler)
    → Bounded c
    → write c s ≡ (record s { code = s.code ++ written_by c }, ok tt)
write-plain c s h =
    (write-EncodesAll c h).written s
    ∙ ap (λ bs. (record s { code = s.code ++ bs }, ok tt)) (sym (written_by-bytes c h))

pub size-branch : (b : Branch) (l : String) → size (branch b l) ≡ length (branch_code b) + 4
unfolding perform init
size-branch b l =
    ap (λ out. length out.0.code) (branch_to-opened b l init) ∙ length-append (branch_code b) _

-- The first of two options.
abbrev pub or_else : Option ℕ → Option ℕ → Option ℕ
or_else none o = o
or_else (some x) o = some x

pub record Ran (s t : Assembler) (n : ℕ) (cs : List AsmCall) : Type 0 where
  pub code_ran : t.code ≡ s.code ++ flatten (pieces cs)
  pub patches_ran : t.patches ≡ s.patches ++ holes n (pieces cs)
  pub labels_ran :
      (name : String) → lookup name t.labels ≡ or_else (lookup name s.labels) (position name n cs)

or_else-none : (o : Option ℕ) → o ≡ or_else o none
or_else-none none = refl
or_else-none (some x) = refl

-- The rest of a program after a call.
rest_of :
    {t u : Assembler} (out : Assembler × Outcome AsmError (Unit {0})) (cs : List AsmCall)
    → out ≡ (u, ok tt)
    → and_then out (run cs) ≡ (t, ok tt)
    → run cs u ≡ (t, ok tt)
rest_of out cs e h = sym (ap (λ o. and_then o (run cs)) e) ∙ h

Ran-plain :
    (c : Plain) (cs : List AsmCall) (s t : Assembler) (n : ℕ)
    → Ran (record s { code = s.code ++ written_by c }) t (n + length (written_by c)) cs
    → Ran s t n (plain c ∷ cs)
unfolding perform
Ran-plain c cs s t n r = record {
  code_ran = r.code_ran ∙ sym (reassociate s.code (written_by c) (flatten (pieces cs)));
  patches_ran = r.patches_ran;
  labels_ran = r.labels_ran;
}

Ran-branch :
    (b : Branch) (l : String) (cs : List AsmCall) (s t : Assembler) (n : ℕ)
    → length s.code ≡ n
    → Ran (opened (branch_code b) l s) t (n + length (branch_code b) + 4) cs
    → Ran s t n (branch b l ∷ cs)
Ran-branch b l cs s t n at r =
    let ops = branch_code b in
    let open_place : List ℕ = 0 ∷ 0 ∷ 0 ∷ 0 ∷ [] in
    let end : n + (length ops + 4) ≡ n + length ops + 4 = omega arith in
    record {
      code_ran =
          r.code_ran
          ∙ sym (reassociate s.code (ops ++ open_place) (flatten (pieces cs)))
          ∙ ap (λ c. s.code ++ c) (sym (reassociate ops open_place (flatten (pieces cs))));
      patches_ran =
          r.patches_ran
          ∙ sym (reassociate s.patches _ (holes (n + length ops + 4) (pieces cs)))
          ∙ ap
              (λ m.
                s.patches
                ++ record {
                  label = l;
                  inst_pos = m + length ops - length ops;
                  patch_pos = m + length ops;
                }
                  ∷ holes (n + length ops + 4) (pieces cs))
              at;
      labels_ran = λ name.
          r.labels_ran name
          ∙ ap (λ m. or_else (lookup name s.labels) (position name m cs))
              (sym (ap (λ k. n + k) (size-branch b l) ∙ end));
    }

declared :
    (l name : String) (s : Assembler) (n : ℕ) (o : Option ℕ)
    → lookup l s.labels ≡ none
    → or_else (if l == name then some n else lookup name s.labels) o
      ≡ or_else (lookup name s.labels) (if l == name then some n else o)
declared l name s n o fresh = elim (Bool-cases (l == name)) [
  | inl y ↦
      let new : lookup name s.labels ≡ none =
        subst (λ x. lookup x s.labels ≡ none) (==→≡ l name y) fresh in
      rw (y, new) refl
  | inr apart ↦ rw apart refl
]

Ran-label :
    (l : String) (cs : List AsmCall) (s t : Assembler) (n : ℕ)
    → lookup l s.labels ≡ none
    → Ran (record s { labels = insert l n s.labels }) t n cs
    → Ran s t n (label l ∷ cs)
Ran-label l cs s t n fresh r = record {
  code_ran = r.code_ran;
  patches_ran = r.patches_ran;
  labels_ran = λ name.
      r.labels_ran name
      ∙ ap (λ o. or_else o (position name n cs)) (lookup-insert l name n s.labels)
      ∙ declared l name s n (position name n cs) fresh;
}

-- What `label` needs in order to return.
label-fresh :
    (l : String) (s t : Assembler) (cs : List AsmCall) (o : Option ℕ)
    → and_then (place_label l s o) (run cs) ≡ (t, ok tt)
    → (o ≡ none) × (run cs (record s { labels = insert l (length s.code) s.labels }) ≡ (t, ok tt))
label-fresh l s t cs none e = (refl, e)
label-fresh l s t cs (some x) e = absurd cc

pub run-Ran :
    (cs : List AsmCall) (s t : Assembler) (n : ℕ)
    → AllBounded cs
    → length s.code ≡ n
    → run cs s ≡ (t, ok tt)
    → Ran s t n cs
unfolding run perform Assembler.label
run-Ran [] s t n h at e =
    let same : s ≡ t = ap (λ out. out.0) e in
    record {
      code_ran = ap (λ x. x.code) (sym same) ∙ append_nil s.code;
      patches_ran = ap (λ x. x.patches) (sym same) ∙ append_nil s.patches;
      labels_ran =
          λ name. ap (λ x. lookup name x.labels) (sym same) ∙ or_else-none (lookup name s.labels);
    }
run-Ran (plain c ∷ cs) s t n (h, hs) at e = Ran-plain c cs s t n (
    run-Ran cs (record s { code = s.code ++ written_by c }) t (n + length (written_by c)) hs
      (omega (arith, length-append s.code (written_by c)))
      (rest_of (write c s) cs (write-plain c s h) e))
run-Ran (branch b l ∷ cs) s t n hs at e = Ran-branch b l cs s t n at (
    run-Ran cs (opened (branch_code b) l s) t (n + length (branch_code b) + 4) hs
      (omega (
        arith,
        length-append s.code (branch_code b ++ 0 ∷ 0 ∷ 0 ∷ 0 ∷ []),
        length-append (branch_code b) (0 ∷ 0 ∷ 0 ∷ 0 ∷ []),
      ))
      (rest_of (branch_to b l s) cs (branch_to-opened b l s) e))
run-Ran (label l ∷ cs) s t n hs at e =
    let (fresh, rest) = label-fresh l s t cs (lookup l s.labels) e in
    Ran-label l cs s t n fresh (
      run-Ran cs (record s { labels = insert l n s.labels }) t n hs at
        (subst (λ m. run cs (record s { labels = insert l m s.labels }) ≡ (t, ok tt)) at rest))
