-- ===== src/Compiler/X86/Branches.antt =====
-- The jumps of the assembler (uhcr/compiler/x86_64/assembler.py): what they write and ask to be patched,
-- and what the decoder reads once the offset is in place.
use uhcr.Prelude.{
  reassociate, ℕ, ◌+◌, ◌-◌, ◌≡◌, ◌/◌, ◌^◌, refl, sym, subst, true, ltb, ltb→lt, suc, List, [], ◌∷◌,
  ◌++◌, some, String, ℤ, pos, negsuc, length, length-append, ok,
}
use uhcr.Compiler.X86.Assembler.{Assembler, write_byte, write_bytes, to_signed_bytes, little_endian}
use uhcr.Compiler.X86.Methods
use uhcr.Compiler.X86.Methods.{write_target}
use uhcr.Compiler.X86.Decoder.{decode, signed}
use uhcr.Compiler.X86.Writes.{chosen, signed-signed_bytes}
use uhcr.Compiler.X86.Program.{Branch, jmp, je, jne, jlt, jle, jgt, jge, branch_to, branch_meaning}

-- The opcode of a jump.
abbrev pub branch_code : Branch → List ℕ
branch_code jmp = 233 ∷ []
branch_code je = 15 ∷ 132 ∷ []
branch_code jne = 15 ∷ 133 ∷ []
branch_code jlt = 15 ∷ 140 ∷ []
branch_code jle = 15 ∷ 142 ∷ []
branch_code jgt = 15 ∷ 143 ∷ []
branch_code jge = 15 ∷ 141 ∷ []

-- The state after an opcode and an open place.
abbrev pub opened : List ℕ → String → Assembler → Assembler
opened ops name s = record s {
  code = s.code ++ (ops ++ 0 ∷ 0 ∷ 0 ∷ 0 ∷ []);
  patches =
      s.patches
      ++ record {
        label = name;
        inst_pos = length s.code + length ops - length ops;
        patch_pos = length s.code + length ops;
      }
        ∷ [];
}

write_target-opened :
    (ops : List ℕ) (name : String) (s : Assembler)
    → write_target (length ops) name (record s { code = s.code ++ ops })
      ≡ (opened ops name s, ok tt)
unfolding write_target write_bytes
write_target-opened ops name s =
    rw (length-append s.code ops, reassociate s.code ops (0 ∷ 0 ∷ 0 ∷ 0 ∷ [])) refl

conditional-opened :
    (op : ℕ) (name : String) (s : Assembler)
    → ltb op 256 ≡ true
    → Methods.conditional op name s ≡ (opened (15 ∷ op ∷ []) name s, ok tt)
unfolding write_byte
conditional-opened op name s small =
    rw (small, sym (reassociate s.code (15 ∷ []) (op ∷ [])))
      (write_target-opened (15 ∷ op ∷ []) name s)

pub branch_to-opened :
    (b : Branch) (name : String) (s : Assembler)
    → branch_to b name s ≡ (opened (branch_code b) name s, ok tt)
unfolding branch_to Methods.jmp Methods.je Methods.jne Methods.jlt Methods.jle Methods.jgt
    Methods.jge write_byte
branch_to-opened jmp name s = write_target-opened (233 ∷ []) name s
branch_to-opened je name s = conditional-opened 132 name s refl
branch_to-opened jne name s = conditional-opened 133 name s refl
branch_to-opened jlt name s = conditional-opened 140 name s refl
branch_to-opened jle name s = conditional-opened 142 name s refl
branch_to-opened jgt name s = conditional-opened 143 name s refl
branch_to-opened jge name s = conditional-opened 141 name s refl

pub decode-branch :
    (b : Branch) (bs : List ℕ) {rest : List ℕ} {z : ℤ}
    → signed 4 bs ≡ some (z, rest)
    → decode (branch_code b ++ bs) ≡ some (branch_meaning b z, rest)
unfolding decode
decode-branch jmp bs e = rw e refl
decode-branch je bs e = rw e refl
decode-branch jne bs e = rw e refl
decode-branch jlt bs e = rw e refl
decode-branch jle bs e = rw e refl
decode-branch jgt bs e = rw e refl
decode-branch jge bs e = rw e refl

pub signed-to_signed_bytes :
    (z : ℤ) (bytes rest : List ℕ)
    → to_signed_bytes 4 z ≡ some bytes
    → signed 4 (bytes ++ rest) ≡ some (z, rest)
signed-to_signed_bytes (pos m) bytes rest e =
    let (fits, same) = chosen (ltb m (256 ^ 4 / 2)) (little_endian 4 m) bytes e in
    subst (λ x. signed 4 (x ++ rest) ≡ some (pos m, rest)) same
      (signed-signed_bytes 4 (pos m) rest (ltb→lt m (256 ^ 4 / 2) fits))
signed-to_signed_bytes (negsuc m) bytes rest e =
    let (fits, same) = chosen (ltb m (256 ^ 4 / 2)) (little_endian 4 (256 ^ 4 - suc m)) bytes e in
    subst (λ x. signed 4 (x ++ rest) ≡ some (negsuc m, rest)) same
      (signed-signed_bytes 4 (negsuc m) rest (ltb→lt m (256 ^ 4 / 2) fits))
