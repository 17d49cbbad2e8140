-- ===== src/Compiler/X86/Assembly.antt =====
-- Assembling a program with uhcr/compiler/x86_64/assembler.py and reading the bytes back.
use uhcr.Prelude.{
  ℕ, zero, suc, ◌+◌, ◌≤◌, ◌≡◌, ◌∙◌, refl, sym, ap, subst, List, [], ◌∷◌, ◌++◌, Option, none, some,
  String, string_eq, sub_ℕ, length, arith, Outcome, ok, err,
}
use uhcr.Prelude.Dict.{lookup}
use uhcr.Compiler.X86.Assembler.{Assembler, AsmError, init, get_bytes}
use uhcr.Compiler.X86.Decoder.{Instr, decode, signed, disassemble}
use uhcr.Compiler.X86.Patching.{filled, prepend, joined, offset_to, in_range, get_bytes-filled}
use uhcr.Compiler.X86.Program.{
  AsmCall, plain, branch, label, perform, run, AllBounded, Bounded, Plain, size, position, meaning,
  branch_meaning, distance, listing,
}
use uhcr.Compiler.X86.Calls.{Reads, Reads-append, write-EncodesAll}
use uhcr.Compiler.X86.Branches.{branch_code, decode-branch, signed-to_signed_bytes}
use uhcr.Compiler.X86.Running.{written_by, written_by-bytes, pieces, size-branch, run-Ran}

prepend_inv :
    (bs code : List ℕ) (o : Outcome AsmError (List ℕ))
    → prepend bs o ≡ ok code
    → (rest : List ℕ) × (o ≡ ok rest) × (bs ++ rest ≡ code)
prepend_inv bs code (ok rest) e = (rest, refl, cc)
prepend_inv bs code (err x) e = absurd cc

joined_inv :
    (p o : Outcome AsmError (List ℕ)) (code : List ℕ)
    → joined p o ≡ ok code
    → (bytes : List ℕ) × (rest : List ℕ) × (p ≡ ok bytes) × (o ≡ ok rest) × (bytes ++ rest ≡ code)
joined_inv (ok bytes) o code e =
    let (rest, found, whole) = prepend_inv bytes code o e in (bytes, rest, refl, found, whole)
joined_inv (err x) o code e = absurd cc

in_range_inv : (o : Option (List ℕ)) (bytes : List ℕ) → in_range o ≡ ok bytes → o ≡ some bytes
in_range_inv none bytes e = absurd cc
in_range_inv (some b) bytes e = cc

-- An offset that is in place reads back as the distance to the label.
offset_read :
    (n : ℕ) (o : Option ℕ) (bytes rest : List ℕ)
    → offset_to n o ≡ ok bytes
    → signed 4 (bytes ++ rest) ≡ some (distance (n + 4) o, rest)
offset_read n none bytes rest e = absurd cc
offset_read n (some target) bytes rest e =
    signed-to_signed_bytes (sub_ℕ target (n + 4)) bytes rest (in_range_inv _ bytes e)

plain-Reads :
    (c : Plain) (rest : List ℕ) → Bounded c → Reads (meaning c) (written_by c ++ rest) rest
plain-Reads c rest h =
    subst (λ bs. Reads (meaning c) (bs ++ rest) rest) (sym (written_by-bytes c h))
      ((write-EncodesAll c h).read rest)

filled-Reads :
    (cs : List AsmCall) (labels : List (String × ℕ)) (n : ℕ) (code : List ℕ)
    → AllBounded cs
    → filled labels n (pieces cs) ≡ ok code
    → Reads (listing (λ l. lookup l labels) n cs) code []
unfolding perform
filled-Reads [] labels n code h e = cc
filled-Reads (plain c ∷ cs) labels n code (h, hs) e =
    let (rest, found, whole) = prepend_inv (written_by c) code _ e in
    subst (λ x. Reads (listing (λ l. lookup l labels) n (plain c ∷ cs)) x []) whole
      (Reads-append (meaning c) _ _ rest [] (plain-Reads c rest h)
        (filled-Reads cs labels (n + length (written_by c)) rest hs found))
filled-Reads (branch b l ∷ cs) labels n code hs e =
    let ops = branch_code b in
    let (after, found, whole) = prepend_inv ops code _ e in
    let (bytes, rest, put, more, parts) =
      joined_inv (offset_to (n + length ops) (lookup l labels)) _ after found in
    let end : n + length ops + 4 ≡ n + size (branch b l) = omega (arith, size-branch b l) in
    let first =
      decode-branch b (bytes ++ rest)
        (offset_read (n + length ops) (lookup l labels) bytes rest put) in
    subst (λ x. Reads (listing (λ l. lookup l labels) n (branch b l ∷ cs)) x [])
      (ap (λ x. ops ++ x) parts ∙ whole)
      (subst
        (λ m.
          Reads
            (branch_meaning b (distance m (lookup l labels)) ∷ listing (λ l. lookup l labels) m cs)
            (ops ++ (bytes ++ rest)) [])
        end (rest, first, filled-Reads cs labels (n + length ops + 4) rest hs more))
filled-Reads (label l ∷ cs) labels n code hs e = filled-Reads cs labels n code hs e

Reads-disassemble :
    (is : List Instr) (bs : List ℕ) (fuel : ℕ)
    → length is ≤ fuel
    → Reads is bs []
    → disassemble fuel bs ≡ some is
unfolding disassemble decode
Reads-disassemble [] bs zero l e = rw e refl
Reads-disassemble [] bs (suc fuel) l e = rw e refl
Reads-disassemble (i ∷ is) bs zero l r = absurd (omega arith)
Reads-disassemble (i ∷ is) [] (suc fuel) l (mid, e, r) = absurd cc
Reads-disassemble (i ∷ is) (b ∷ bs) (suc fuel) l (mid, e, r) =
    rw (e, Reads-disassemble is mid fuel (omega arith) r) refl

listing-same :
    (f g : String → Option ℕ)
    → ((l : String) → f l ≡ g l)
    → (n : ℕ) (cs : List AsmCall) → listing f n cs ≡ listing g n cs
listing-same f g h n [] = refl
listing-same f g h n (plain c ∷ cs) = rw (listing-same f g h (n + size (plain c)) cs) refl
listing-same f g h n (branch b l ∷ cs) =
    rw (h l, listing-same f g h (n + size (branch b l)) cs) refl
listing-same f g h n (label l ∷ cs) = listing-same f g h n cs

-- Where a program runs on an empty assembler and `get_bytes` then returns code, disassembling the code
-- with fuel for each instruction gives the program's instructions, one for one, each jump with the
-- distance from its end to the place where the program declares its label. The registers of the program
-- are below sixteen and its numbers fit their fields.
pub get_bytes-disassemble :
    (cs : List AsmCall) (s t : Assembler) (code : List ℕ) (fuel : ℕ)
    → AllBounded cs
    → run cs init ≡ (s, ok tt)
    → get_bytes s ≡ (t, ok code)
    → length (listing (λ l. position l 0 cs) 0 cs) ≤ fuel
    → disassemble fuel code ≡ some (listing (λ l. position l 0 cs) 0 cs)
unfolding init lookup
get_bytes-disassemble cs s t code fuel h ran got enough =
    let r = run-Ran cs init s 0 h refl ran in
    let full = get_bytes-filled (pieces cs) s t code r.code_ran r.patches_ran got in
    let same = listing-same (λ l. lookup l s.labels) (λ l. position l 0 cs) r.labels_ran 0 cs in
    Reads-disassemble _ code fuel enough
      (subst (λ is. Reads is code []) same (filled-Reads cs s.labels 0 code h full))
