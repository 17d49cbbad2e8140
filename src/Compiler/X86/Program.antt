-- ===== src/Compiler/X86/Program.antt =====
-- Programs for the assembler (uhcr/compiler/x86_64/assembler.py): the calls of its methods, and the
-- instructions that they stand for.
use uhcr.Prelude.{
  ℕ, ◌+◌, ◌<◌, List, [], ◌∷◌, ◌++◌, Option, none, some, String, ℤ, pos, sub_ℕ, string_eq, ◌==◌,
  if◌then◌else◌, length, ok,
}
use uhcr.Compiler.X86.Assembler
use uhcr.Compiler.X86.Assembler.{Asm, Assembler, init, ◌>>◌}
use uhcr.Compiler.X86.Methods
use uhcr.Compiler.X86.Decoder.{Instr, register, memory}
use uhcr.Compiler.X86.Writes.{InRange}

-- The methods that write whole instructions.
pub data Plain : Type 0 where
  push : ℕ → Plain
  pop : ℕ → Plain
  ret : Plain
  mov_reg_reg : ℕ → ℕ → Plain
  mov_reg_imm : ℕ → ℤ → Plain
  mov_reg_mem : ℕ → ℕ → ℤ → Plain
  mov_mem_reg : ℕ → ℤ → ℕ → Plain
  add_reg_reg : ℕ → ℕ → Plain
  sub_reg_reg : ℕ → ℕ → Plain
  imul_reg_reg : ℕ → ℕ → Plain
  vmovups_load : ℕ → ℕ → ℤ → Plain
  vmovups_store : ℕ → ℤ → ℕ → Plain
  vaddps_ymm : ℕ → ℕ → ℕ → Plain
  vsubps_ymm : ℕ → ℕ → ℕ → Plain
  vmulps_ymm : ℕ → ℕ → ℕ → Plain
  vdivps_ymm : ℕ → ℕ → ℕ → Plain
  vfmadd213ps_ymm : ℕ → ℕ → ℕ → Plain
  cmp_reg_reg : ℕ → ℕ → Plain
  cmp_reg_imm : ℕ → ℤ → Plain
  write_prologue : Plain
  write_epilogue : Plain

-- The methods that jump to a label.
pub data Branch : Type 0 where
  jmp je jne jlt jle jgt jge : Branch

pub data AsmCall : Type 0 where
  plain : Plain → AsmCall
  branch : Branch → String → AsmCall
  label : String → AsmCall

unfoldable pub write : Plain → Asm
write (push a) = Methods.push a
write (pop a) = Methods.pop a
write ret = Methods.ret
write (mov_reg_reg a b) = Methods.mov_reg_reg a b
write (mov_reg_imm a b) = Methods.mov_reg_imm a b
write (mov_reg_mem a b c) = Methods.mov_reg_mem a b c
write (mov_mem_reg a b c) = Methods.mov_mem_reg a b c
write (add_reg_reg a b) = Methods.add_reg_reg a b
write (sub_reg_reg a b) = Methods.sub_reg_reg a b
write (imul_reg_reg a b) = Methods.imul_reg_reg a b
write (vmovups_load a b c) = Methods.vmovups_load a b c
write (vmovups_store a b c) = Methods.vmovups_store a b c
write (vaddps_ymm a b c) = Methods.vaddps_ymm a b c
write (vsubps_ymm a b c) = Methods.vsubps_ymm a b c
write (vmulps_ymm a b c) = Methods.vmulps_ymm a b c
write (vdivps_ymm a b c) = Methods.vdivps_ymm a b c
write (vfmadd213ps_ymm a b c) = Methods.vfmadd213ps_ymm a b c
write (cmp_reg_reg a b) = Methods.cmp_reg_reg a b
write (cmp_reg_imm a b) = Methods.cmp_reg_imm a b
write write_prologue = Methods.write_prologue
write write_epilogue = Methods.write_epilogue

unfoldable pub branch_to : Branch → String → Asm
branch_to jmp = Methods.jmp
branch_to je = Methods.je
branch_to jne = Methods.jne
branch_to jlt = Methods.jlt
branch_to jle = Methods.jle
branch_to jgt = Methods.jgt
branch_to jge = Methods.jge

unfoldable pub perform : AsmCall → Asm
perform (plain c) = write c
perform (branch b name) = branch_to b name
perform (label name) = Assembler.label name

unfoldable pub run : List AsmCall → Asm
run [] s = (s, ok tt)
run (c ∷ cs) s = Assembler.and_then (perform c s) (run cs)

-- Registers below sixteen, and numbers that fit their fields.
abbrev pub Bounded : Plain → Type 0
Bounded (push a) = a < 16
Bounded (pop a) = a < 16
Bounded ret = Unit
Bounded (mov_reg_reg a b) = (a < 16) × (b < 16)
Bounded (mov_reg_imm a b) = (a < 16) × InRange 8 b
Bounded (mov_reg_mem a b c) = (a < 16) × (b < 16) × InRange 4 c
Bounded (mov_mem_reg a b c) = (a < 16) × InRange 4 b × (c < 16)
Bounded (add_reg_reg a b) = (a < 16) × (b < 16)
Bounded (sub_reg_reg a b) = (a < 16) × (b < 16)
Bounded (imul_reg_reg a b) = (a < 16) × (b < 16)
Bounded (vmovups_load a b c) = (a < 16) × (b < 16) × InRange 4 c
Bounded (vmovups_store a b c) = (a < 16) × InRange 4 b × (c < 16)
Bounded (vaddps_ymm a b c) = (a < 16) × (b < 16) × (c < 16)
Bounded (vsubps_ymm a b c) = (a < 16) × (b < 16) × (c < 16)
Bounded (vmulps_ymm a b c) = (a < 16) × (b < 16) × (c < 16)
Bounded (vdivps_ymm a b c) = (a < 16) × (b < 16) × (c < 16)
Bounded (vfmadd213ps_ymm a b c) = (a < 16) × (b < 16) × (c < 16)
Bounded (cmp_reg_reg a b) = (a < 16) × (b < 16)
Bounded (cmp_reg_imm a b) = (a < 16) × InRange 4 b
Bounded write_prologue = Unit
Bounded write_epilogue = Unit

abbrev pub AllBounded : List AsmCall → Type 0
AllBounded [] = Unit
AllBounded (plain c ∷ cs) = Bounded c × AllBounded cs
AllBounded (_ ∷ cs) = AllBounded cs

-- The instructions that a method stands for.
abbrev pub meaning : Plain → List Instr
meaning (push a) = Instr.push a ∷ []
meaning (pop a) = Instr.pop a ∷ []
meaning ret = Instr.ret ∷ []
meaning (mov_reg_reg a b) = Instr.mov_to (register a) b ∷ []
meaning (mov_reg_imm a b) = Instr.mov_imm a b ∷ []
meaning (mov_reg_mem a b c) = Instr.mov_from a (memory b c) ∷ []
meaning (mov_mem_reg a b c) = Instr.mov_to (memory a b) c ∷ []
meaning (add_reg_reg a b) = Instr.add_to (register a) b ∷ []
meaning (sub_reg_reg a b) = Instr.sub_to (register a) b ∷ []
meaning (imul_reg_reg a b) = Instr.imul a (register b) ∷ []
meaning (vmovups_load a b c) = Instr.vmovups_from a (memory b c) ∷ []
meaning (vmovups_store a b c) = Instr.vmovups_to (memory a b) c ∷ []
meaning (vaddps_ymm a b c) = Instr.vaddps a b (register c) ∷ []
meaning (vsubps_ymm a b c) = Instr.vsubps a b (register c) ∷ []
meaning (vmulps_ymm a b c) = Instr.vmulps a b (register c) ∷ []
meaning (vdivps_ymm a b c) = Instr.vdivps a b (register c) ∷ []
meaning (vfmadd213ps_ymm a b c) = Instr.vfmadd213pd a b (register c) ∷ []
meaning (cmp_reg_reg a b) = Instr.cmp_to (register a) b ∷ []
meaning (cmp_reg_imm a b) = Instr.cmp_imm (register a) b ∷ []
meaning write_prologue =
    Instr.push 3
    ∷ Instr.push 5
    ∷ Instr.push 6
    ∷ Instr.push 7
    ∷ Instr.sub_to (register 4) 0
    ∷ Instr.sub_imm (register 4) (pos 40)
    ∷ []
meaning write_epilogue =
    Instr.add_imm (register 4) (pos 40)
    ∷ Instr.pop 7
    ∷ Instr.pop 6
    ∷ Instr.pop 5
    ∷ Instr.pop 3
    ∷ Instr.ret
    ∷ []

abbrev pub branch_meaning : Branch → ℤ → Instr
branch_meaning jmp z = Instr.jump z
branch_meaning je z = Instr.jump_if 4 z
branch_meaning jne z = Instr.jump_if 5 z
branch_meaning jlt z = Instr.jump_if 12 z
branch_meaning jle z = Instr.jump_if 14 z
branch_meaning jgt z = Instr.jump_if 15 z
branch_meaning jge z = Instr.jump_if 13 z

-- The bytes that a call adds to the code.
abbrev pub size : AsmCall → ℕ
size c = length (perform c init).0.code

-- Where a program that starts at a position declares a label.
abbrev pub position : String → ℕ → List AsmCall → Option ℕ
position name n [] = none
position name n (label l ∷ cs) = if l == name then some n else position name n cs
position name n (c ∷ cs) = position name (n + size c) cs

abbrev pub distance : ℕ → Option ℕ → ℤ
distance end none = pos 0
distance end (some target) = sub_ℕ target end

-- The instructions of a program that starts at a position, where a jump goes from its end to the place
-- that the labels are at.
abbrev pub listing : (String → Option ℕ) → ℕ → List AsmCall → List Instr
listing at n [] = []
listing at n (plain c ∷ cs) = meaning c ++ listing at (n + size (plain c)) cs
listing at n (branch b name ∷ cs) =
    let end = n + size (branch b name) in
    branch_meaning b (distance end (at name)) ∷ listing at end cs
listing at n (label l ∷ cs) = listing at n cs
