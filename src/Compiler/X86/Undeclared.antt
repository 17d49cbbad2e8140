-- ===== src/Compiler/X86/Undeclared.antt =====
-- What uhcr/compiler/x86_64/assembler.py does with a jump to a label that is declared nowhere.
use uhcr.Prelude.{
  ℕ, ◌+◌, ◌≡◌, ◌≢◌, ◌∙◌, refl, ap, Bool, true, false, ◌||◌, List, [], ◌∷◌, none, String, string_eq,
  ◌==◌, ==→≡, or_left, or_right, Bool-cases, inl, inr, length, Outcome, ok, err, arith,
}
use uhcr.Prelude.Dict.{lookup}
use uhcr.Compiler.X86.Assembler.{Assembler, AsmError, init, get_bytes}
use uhcr.Compiler.X86.Patching.{filled, prepend, joined, offset_to, get_bytes-filled}
use uhcr.Compiler.X86.Program.{AsmCall, plain, branch, label, run, AllBounded, size, position}
use uhcr.Compiler.X86.Branches.{branch_code}
use uhcr.Compiler.X86.Running.{written_by, pieces, run-Ran}
use uhcr.Compiler.X86.Completeness.{declares}

-- Does a program jump to a label?
abbrev pub jumps_to : String → List AsmCall → Bool
jumps_to name [] = false
jumps_to name (branch b l ∷ cs) = l == name || jumps_to name cs
jumps_to name (_ ∷ cs) = jumps_to name cs

position-undeclared :
    (name : String) (n : ℕ) (cs : List AsmCall)
    → declares name cs ≡ false
    → position name n cs ≡ none
position-undeclared name n [] h = refl
position-undeclared name n (label l ∷ cs) h =
    rw (or_left (l == name) (declares name cs) h)
      (position-undeclared name n cs (or_right (l == name) (declares name cs) h))
position-undeclared name n (plain c ∷ cs) h = position-undeclared name (n + size (plain c)) cs h
position-undeclared name n (branch b l ∷ cs) h =
    position-undeclared name (n + size (branch b l)) cs h

prepend-fails :
    (bs : List ℕ) (o : Outcome AsmError (List ℕ))
    → ((code : List ℕ) → o ≢ ok code)
    → (code : List ℕ) → prepend bs o ≢ ok code
prepend-fails bs (ok rest) h code e = h rest refl
prepend-fails bs (err x) h code e = absurd cc

joined-fails :
    (p o : Outcome AsmError (List ℕ))
    → ((code : List ℕ) → o ≢ ok code)
    → (code : List ℕ) → joined p o ≢ ok code
joined-fails (ok bytes) o h code e = prepend-fails bytes o h code e
joined-fails (err x) o h code e = absurd cc

-- A place whose label is not found is not filled, and nor is a program with one.
filled-undeclared :
    (name : String) (cs : List AsmCall) (labels : List (String × ℕ)) (n : ℕ)
    → lookup name labels ≡ none
    → jumps_to name cs ≡ true
    → (code : List ℕ) → filled labels n (pieces cs) ≢ ok code
filled-undeclared name [] labels n h j = absurd cc
filled-undeclared name (plain c ∷ cs) labels n h j =
    prepend-fails (written_by c) _
      (filled-undeclared name cs labels (n + length (written_by c)) h j)
filled-undeclared name (label l ∷ cs) labels n h j = filled-undeclared name cs labels n h j
filled-undeclared name (branch b l ∷ cs) labels n h j = elim (Bool-cases (l == name)) [
  | inl y ↦
      let lost : lookup l labels ≡ none = ap (λ m. lookup m labels) (==→≡ l name y) ∙ h in
      prepend-fails (branch_code b) _ (rw lost (λ code. λ e. absurd cc))
  | inr apart ↦
      let later : jumps_to name cs ≡ true = ground (arith, j, apart) in
      prepend-fails (branch_code b) _ (
        joined-fails (offset_to (n + length (branch_code b)) (lookup l labels)) _
          (filled-undeclared name cs labels (n + length (branch_code b) + 4) h later))
]

raised :
    (out : Assembler × Outcome AsmError (List ℕ))
    → ((t : Assembler) (code : List ℕ) → out ≢ (t, ok code))
    → (e : AsmError) × (out.1 ≡ err e)
raised (t, ok code) h = absurd (h t code refl)
raised (t, err e) h = (e, refl)

-- Where a program that ran jumps to a label that it declares nowhere, `get_bytes` raises an exception.
pub get_bytes-undeclared :
    (cs : List AsmCall) (s : Assembler) (name : String)
    → AllBounded cs
    → run cs init ≡ (s, ok tt)
    → jumps_to name cs ≡ true
    → declares name cs ≡ false
    → (e : AsmError) × ((get_bytes s).1 ≡ err e)
unfolding init lookup
get_bytes-undeclared cs s name h ran j d =
    let r = run-Ran cs init s 0 h refl ran in
    let lost = r.labels_ran name ∙ position-undeclared name 0 cs d in
    raised (get_bytes s) (λ t. λ code. λ got.
      filled-undeclared name cs s.labels 0 lost j code
        (get_bytes-filled (pieces cs) s t code r.code_ran r.patches_ran got))
