-- ===== src/Compiler/X86/Completeness.antt =====
-- When assembling with uhcr/compiler/x86_64/assembler.py succeeds.
use uhcr.Prelude.{
  ℕ, suc, ◌+◌, ◌-◌, ◌<◌, ◌≤◌, ◌≡◌, ◌∙◌, ◌/◌, ◌^◌, refl, ap, subst, Bool, true, false, ◌||◌,
  if◌then◌else◌, List, [], ◌∷◌, ◌++◌, none, some, String, string_eq, ◌==◌, ==→≡, ==_refl,
  Bool-cases, inl, inr, sub_ℕ, ltb, leb, length, arith, ok,
}
use uhcr.Prelude.Dict.{lookup, insert, lookup-insert}
use uhcr.Compiler.X86.Assembler
use uhcr.Compiler.X86.Assembler.{
  Assembler, AsmError, init, and_then, place_label, to_signed_bytes, little_endian, get_bytes,
}
use uhcr.Compiler.X86.Patching.{filled, get_bytes-ok}
use uhcr.Compiler.X86.Program.{
  AsmCall, plain, branch, label, perform, run, AllBounded, size, position,
}
use uhcr.Compiler.X86.Branches.{branch_code, branch_to-opened}
use uhcr.Compiler.X86.Running.{written_by, write-plain, pieces, size-branch, run-Ran}

-- Does a program declare a label?
abbrev pub declares : String → List AsmCall → Bool
declares name [] = false
declares name (label l ∷ cs) = l == name || declares name cs
declares name (_ ∷ cs) = declares name cs

-- No label is declared twice.
abbrev pub Distinct : List AsmCall → Type 0
Distinct [] = Unit
Distinct (label l ∷ cs) = (declares l cs ≡ false) × Distinct cs
Distinct (_ ∷ cs) = Distinct cs

-- Every jump goes to a label that the whole program declares.
abbrev pub Closed : List AsmCall → List AsmCall → Type 0
Closed whole [] = Unit
Closed whole (branch b l ∷ cs) = (declares l whole ≡ true) × Closed whole cs
Closed whole (_ ∷ cs) = Closed whole cs

-- The bytes of a program.
abbrev pub total_size : List AsmCall → ℕ
total_size [] = 0
total_size (label l ∷ cs) = total_size cs
total_size (c ∷ cs) = size c + total_size cs

-- The labels that a program declares are new to the assembler.
abbrev Fresh : List AsmCall → Assembler → Type 0
Fresh cs s = (l : String) → declares l cs ≡ true → lookup l s.labels ≡ none

Runs : List AsmCall → Assembler → Type 0
Runs cs s = (t : Assembler) × (run cs s ≡ (t, ok tt))

still-Fresh :
    (l : String) (cs : List AsmCall) (s : Assembler)
    → declares l cs ≡ false
    → Fresh (label l ∷ cs) s
    → Fresh cs (record s { labels = insert l (length s.code) s.labels })
still-Fresh l cs s new f name e =
    lookup-insert l name (length s.code) s.labels ∙ elim (Bool-cases (l == name)) [
      | inl y ↦
          let same : declares l cs ≡ declares name cs = ap (λ x. declares x cs) (==→≡ l name y) in
          absurd (ground (arith, same, new, e))
      | inr apart ↦ rw apart (f name (rw (apart, e) refl))
    ]

run-Runs :
    (cs : List AsmCall) (s : Assembler) → AllBounded cs → Distinct cs → Fresh cs s → Runs cs s
unfolding run perform Assembler.label Runs
run-Runs [] s h d f = (s, refl)
run-Runs (plain c ∷ cs) s (h, hs) d f = rw (write-plain c s h) (run-Runs cs _ hs d f)
run-Runs (branch b l ∷ cs) s hs d f = rw (branch_to-opened b l s) (run-Runs cs _ hs d f)
run-Runs (label l ∷ cs) s hs (new, d) f =
    let free = f l (ap (λ b. b || declares l cs) (==_refl l)) in
    rw free (run-Runs cs _ hs d (still-Fresh l cs s new f))

position-declared :
    (name : String) (n : ℕ) (cs : List AsmCall)
    → declares name cs ≡ true
    → (p : ℕ) × (position name n cs ≡ some p) × (p ≤ n + total_size cs)
position-declared name n [] h = absurd cc
position-declared name n (label l ∷ cs) h = elim (Bool-cases (l == name)) [
  | inl y ↦ (n, rw y refl, omega arith)
  | inr apart ↦
      let further : declares name cs ≡ true = subst (λ b. (b || declares name cs) ≡ true) apart h in
      let (p, e, k) = position-declared name n cs further in
      (p, ap (λ t. if t then some n else position name n cs) apart ∙ e, k)
]
position-declared name n (plain c ∷ cs) h =
    let (p, e, l) = position-declared name (n + size (plain c)) cs h in (p, e, omega arith)
position-declared name n (branch b m ∷ cs) h =
    let (p, e, l) = position-declared name (n + size (branch b m)) cs h in (p, e, omega arith)

offset-fits :
    (a b : ℕ)
    → a < 2 ^ 31
    → b < 2 ^ 31
    → (bytes : List ℕ) × (to_signed_bytes 4 (sub_ℕ a b) ≡ some bytes)
offset-fits a b l k = elim (Bool-cases (leb b a)) [
  | inl y ↦
      let small : ltb (a - b) (256 ^ 4 / 2) ≡ true = ground arith in
      (little_endian 4 (a - b), rw (y, small) refl)
  | inr n ↦
      let small : ltb (b - a - 1) (256 ^ 4 / 2) ≡ true = ground arith in
      (little_endian 4 (256 ^ 4 - suc (b - a - 1)), rw (n, small) refl)
]

-- Every place is filled, when its label is known and nothing lies beyond 31 bits.
filled-ok :
    (whole cs : List AsmCall) (labels : List (String × ℕ)) (n : ℕ)
    → Closed whole cs
    → ((l : String) → declares l whole ≡ true → (p : ℕ) × (lookup l labels ≡ some p) × (p < 2 ^ 31))
    → n + total_size cs < 2 ^ 31
    → (code : List ℕ) × (filled labels n (pieces cs) ≡ ok code)
unfolding perform
filled-ok whole [] labels n c known small = ([], refl)
filled-ok whole (plain c ∷ cs) labels n cl known small =
    let (code, e) = filled-ok whole cs labels (n + length (written_by c)) cl known (omega arith) in
    (written_by c ++ code, rw e refl)
filled-ok whole (branch b l ∷ cs) labels n (there, cl) known small =
    let ops = length (branch_code b) in
    let (p, found, near) = known l there in
    let end : n + ops + 4 + total_size cs < 2 ^ 31 = omega (arith, size-branch b l) in
    let (bytes, put) = offset-fits p (n + ops + 4) near (omega arith) in
    let (code, e) = filled-ok whole cs labels (n + ops + 4) cl known end in
    (branch_code b ++ (bytes ++ code), rw (found, put, e) refl)
filled-ok whole (label l ∷ cs) labels n cl known small = filled-ok whole cs labels n cl known small

-- Assembling succeeds: a program whose registers are below sixteen and whose numbers fit their fields,
-- that declares no label twice and jumps only to labels it declares, and that has less than 2^31 bytes,
-- runs without an exception, and `get_bytes` then returns the code, with no patch left.
pub get_bytes-total :
    (cs : List AsmCall)
    → AllBounded cs
    → Distinct cs
    → Closed cs cs
    → total_size cs < 2 ^ 31
    → (s : Assembler) × (t : Assembler) × (code : List ℕ) × (run cs init ≡ (s, ok tt))
      × (get_bytes s ≡ (t, ok code))
      × (t.patches ≡ [])
unfolding init lookup Runs
get_bytes-total cs h d cl small =
    let (s, ran) = run-Runs cs init h d (λ l. λ e. refl) in
    let r = run-Ran cs init s 0 h refl ran in
    let (code, full) =
      filled-ok cs cs s.labels 0 cl
        (λ l. λ e.
          let (p, at, near) = position-declared l 0 cs e in (p, r.labels_ran l ∙ at, omega arith))
        (omega arith) in
    (s, _, code, ran, get_bytes-ok (pieces cs) s code r.code_ran r.patches_ran full, refl)
