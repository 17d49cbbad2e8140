-- ===== src/Compiler/X86/Stack.antt =====
-- What `write_prologue` and `write_epilogue` (uhcr/compiler/x86_64/assembler.py) do to the stack pointer.
use uhcr.Prelude.{
  ℕ, ◌+◌, ◌-◌, ◌≤◌, ◌≡◌, ap, List, [], ◌∷◌, Option, none, some, pos, arith, nat_beq, if◌then◌else◌,
  ◌&&◌,
}
use uhcr.Compiler.X86.Assembler.{init, ◌>>◌, write_byte, encode_modrm, rex}
use uhcr.Compiler.X86.Methods.{write_prologue, write_epilogue, push, pop, ret, sub_reg_reg}
use uhcr.Compiler.X86.Decoder.{Instr, register, decode, disassemble}

-- The stack pointer after an instruction, when rax holds a number.
abbrev pub rsp_step : ℕ → ℕ → Instr → ℕ
rsp_step rax rsp (Instr.push r) = rsp - 8
rsp_step rax rsp (Instr.pop r) = rsp + 8
rsp_step rax rsp Instr.ret = rsp + 8
rsp_step rax rsp (Instr.sub_to (register r) s) =
    if nat_beq r 4 && nat_beq s 0 then rsp - rax else rsp
rsp_step rax rsp (Instr.sub_imm (register r) (pos n)) = if nat_beq r 4 then rsp - n else rsp
rsp_step rax rsp (Instr.add_imm (register r) (pos n)) = if nat_beq r 4 then rsp + n else rsp
rsp_step rax rsp _ = rsp

abbrev pub rsp_after : ℕ → ℕ → List Instr → ℕ
rsp_after rax rsp [] = rsp
rsp_after rax rsp (i ∷ is) = rsp_after rax (rsp_step rax rsp i) is

-- The bytes of a function with an empty body.
abbrev pub frame_code : List ℕ
frame_code = ((write_prologue >> write_epilogue) init).0.code

abbrev pub rsp_of : ℕ → ℕ → Option (List Instr) → Option ℕ
rsp_of rax rsp none = none
rsp_of rax rsp (some is) = some (rsp_after rax rsp is)

-- The prologue and the epilogue, assembled and read back, leave the stack pointer 8 higher, for the
-- return, less the value of rax, which the prologue subtracts and the epilogue does not add back: for a
-- stack pointer high enough that nothing falls below 0.
pub prologue-epilogue_rsp :
    (rax rsp : ℕ)
    → 72 + rax ≤ rsp
    → rsp_of rax rsp (disassemble 12 frame_code) ≡ some (rsp + 8 - rax)
unfolding write_prologue write_epilogue push pop ret sub_reg_reg write_byte encode_modrm rex init
    decode disassemble
prologue-epilogue_rsp rax rsp h = ap some (omega arith)
