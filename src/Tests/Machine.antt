-- ===== src/Tests/Machine.antt =====
-- A loop assembled for x86-64, and read back.
use uhcr.Prelude.{
  ℕ, ◌^◌, ◌<◌, ◌≡◌, refl, sym, subst, List, [], ◌∷◌, some, pos, negsuc, arith, ok, err,
}
use uhcr.Prelude.Dict.{lookup, insert}
use uhcr.Compiler.X86.Assembler
use uhcr.Compiler.X86.Methods
use uhcr.Compiler.X86.Assembler.{
  AsmError, Assembler, init, get_bytes, resolve_labels, rex, encode_modrm, encode_sib, write_byte,
  write_bytes,
}
use uhcr.Compiler.X86.Decoder.{Instr, register, memory, disassemble}
use uhcr.Compiler.X86.Program.{
  AsmCall, plain, branch, label, Plain, jmp, jge, run, perform, write, branch_to, AllBounded,
  listing, position,
}
use uhcr.Compiler.X86.Assembly.{get_bytes-disassemble}
use uhcr.Compiler.X86.Completeness.{get_bytes-total, total_size}
use uhcr.Compiler.X86.Undeclared.{get_bytes-undeclared}
use uhcr.Compiler.X86.Stack.{prologue-epilogue_rsp, rsp_of, frame_code}

abbrev counting : List AsmCall
counting =
    plain (Plain.mov_reg_imm 12 (pos 7))
    ∷ label "head"
    ∷ plain (Plain.cmp_reg_imm 12 (negsuc 0))
    ∷ branch jge "exit"
    ∷ plain (Plain.mov_mem_reg 12 (pos 8) 9)
    ∷ branch jmp "head"
    ∷ label "exit"
    ∷ plain Plain.ret
    ∷ []

counting-AllBounded : AllBounded counting
counting-AllBounded = (
  (omega arith, omega arith),
  ((omega arith, omega arith), ((omega arith, omega arith, omega arith), (tt, tt))),
)

abbrev assembled : Assembler
assembled = (run counting init).0

assembled-ok : run counting init ≡ (assembled, ok tt)
unfolding run perform write branch_to init lookup insert Assembler.label get_bytes resolve_labels
    rex encode_modrm encode_sib write_byte write_bytes Methods.write_target Methods.mov_reg_imm
    Methods.cmp_reg_imm Methods.mov_mem_reg Methods.memory_operand Methods.ret Methods.jmp
    Methods.jge
assembled-ok = refl

-- The code: `jge` goes 9 bytes ahead, and `jmp` 22 bytes back.
abbrev machine_code : List ℕ
machine_code =
    73 ∷ 188 ∷ 7 ∷ 0 ∷ 0 ∷ 0 ∷ 0 ∷ 0 ∷ 0 ∷ 0 ∷ 73 ∷ 129 ∷ 252 ∷ 255 ∷ 255 ∷ 255 ∷ 255 ∷ 15 ∷ 141
    ∷ 10 ∷ 0 ∷ 0 ∷ 0 ∷ 77 ∷ 137 ∷ 76 ∷ 36 ∷ 8 ∷ 233 ∷ 233 ∷ 255 ∷ 255 ∷ 255 ∷ 195 ∷ []

got : get_bytes assembled ≡ ((get_bytes assembled).0, ok machine_code)
unfolding run perform write branch_to init lookup insert Assembler.label get_bytes resolve_labels
    rex encode_modrm encode_sib write_byte write_bytes Methods.write_target Methods.mov_reg_imm
    Methods.cmp_reg_imm Methods.mov_mem_reg Methods.memory_operand Methods.ret Methods.jmp
    Methods.jge
got = refl

abbrev instructions : List Instr
instructions =
    Instr.mov_imm 12 (pos 7)
    ∷ Instr.cmp_imm (register 12) (negsuc 0)
    ∷ Instr.jump_if 13 (pos 10)
    ∷ Instr.mov_to (memory 12 (pos 8)) 9
    ∷ Instr.jump (negsuc 22)
    ∷ Instr.ret
    ∷ []

listed : listing (λ l. position l 0 counting) 0 counting ≡ instructions
unfolding run perform write branch_to init lookup insert Assembler.label get_bytes resolve_labels
    rex encode_modrm encode_sib write_byte write_bytes Methods.write_target Methods.mov_reg_imm
    Methods.cmp_reg_imm Methods.mov_mem_reg Methods.memory_operand Methods.ret Methods.jmp
    Methods.jge
listed = refl

get_bytes-disassemble_example :
    disassemble 6 machine_code ≡ some (listing (λ l. position l 0 counting) 0 counting)
get_bytes-disassemble_example =
    get_bytes-disassemble counting assembled (get_bytes assembled).0 machine_code 6
      counting-AllBounded assembled-ok got (omega arith)

counting_size : total_size counting ≡ 34
unfolding run perform write branch_to init lookup insert Assembler.label get_bytes resolve_labels
    rex encode_modrm encode_sib write_byte write_bytes Methods.write_target Methods.mov_reg_imm
    Methods.cmp_reg_imm Methods.mov_mem_reg Methods.memory_operand Methods.ret Methods.jmp
    Methods.jge
counting_size = refl

get_bytes-total_example :
    (s : Assembler) × (t : Assembler) × (code : List ℕ) × (run counting init ≡ (s, ok tt))
    × (get_bytes s ≡ (t, ok code))
    × (t.patches ≡ [])
get_bytes-total_example =
    get_bytes-total counting counting-AllBounded (refl, (refl, tt)) (refl, (refl, tt))
      (subst (λ n. n < 2 ^ 31) (sym counting_size) (omega arith))

prologue-epilogue_rsp_example : rsp_of 16 1024 (disassemble 12 frame_code) ≡ some 1016
prologue-epilogue_rsp_example = prologue-epilogue_rsp 16 1024 (omega arith)

-- A jump to nowhere.
abbrev lost : List AsmCall
lost = branch jmp "nowhere" ∷ plain Plain.ret ∷ []

lost-ok : run lost init ≡ ((run lost init).0, ok tt)
unfolding run perform write branch_to init lookup insert Assembler.label get_bytes resolve_labels
    rex encode_modrm encode_sib write_byte write_bytes Methods.write_target Methods.mov_reg_imm
    Methods.cmp_reg_imm Methods.mov_mem_reg Methods.memory_operand Methods.ret Methods.jmp
    Methods.jge
lost-ok = refl

get_bytes-undeclared_example : (e : AsmError) × ((get_bytes (run lost init).0).1 ≡ err e)
get_bytes-undeclared_example =
    get_bytes-undeclared lost (run lost init).0 "nowhere" (tt, tt) lost-ok refl refl
