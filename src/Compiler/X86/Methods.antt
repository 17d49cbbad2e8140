-- ===== src/Compiler/X86/Methods.antt =====
-- The instructions of `X86_64Assembler` (uhcr/compiler/x86_64/assembler.py).
use uhcr.Prelude.{
  ℕ, ◌+◌, ◌-◌, ◌%◌, Bool, true, false, List, [], ◌∷◌, ◌++◌, String, ℤ, pos, negsuc, length, leb,
  nat_beq, if◌then◌else◌, ok, ◌&&◌, not,
}
use uhcr.Compiler.X86.Assembler.{
  Asm, ◌>>◌, write_byte, write_bytes, write_some, write_rex, to_signed_bytes, encode_modrm,
  encode_sib, rex, vex3,
}
use Prim.Native.Nat.{bit_and}

abbrev pub rax : ℕ
rax = 0

abbrev pub rbx : ℕ
rbx = 3

abbrev pub rsp : ℕ
rsp = 4

abbrev pub rbp : ℕ
rbp = 5

abbrev pub rsi : ℕ
rsi = 6

abbrev pub rdi : ℕ
rdi = 7

unfoldable pub push : ℕ → Asm
push reg = write_rex (rex false 0 reg 0) >> write_byte (80 + bit_and reg 7)

unfoldable pub pop : ℕ → Asm
pop reg = write_rex (rex false 0 reg 0) >> write_byte (88 + bit_and reg 7)

unfoldable pub ret : Asm
ret = write_byte 195

-- `-128 <= offset <= 127`
abbrev pub is_short : ℤ → Bool
is_short (pos n) = leb n 127
is_short (negsuc n) = leb n 127

-- Python's `offset & 0xFF`
abbrev pub low_byte : ℤ → ℕ
low_byte (pos n) = n % 256
low_byte (negsuc n) = 255 - n % 256

abbrev pub is_zero : ℤ → Bool
is_zero (pos n) = nat_beq n 0
is_zero (negsuc n) = false

abbrev pub write_sib : Bool → ℕ → Asm
write_sib true base = write_byte (encode_sib 0 rsp base)
write_sib false base = λ s. (s, ok tt)

-- The operand `[base + offset]`, after the opcode of each instruction that has one.
unfoldable pub memory_operand : ℕ → ℕ → ℤ → Asm
memory_operand reg base offset =
    let use_sib = nat_beq (bit_and base 7) rsp in
    if is_zero offset && (not use_sib && not (nat_beq (bit_and base 7) rbp))
    then write_byte (encode_modrm 0 reg base)
    else if is_short offset
    then write_byte (encode_modrm 1 reg base)
      >> write_sib use_sib base
      >> write_byte (low_byte offset)
    else write_byte (encode_modrm 2 reg base)
      >> write_sib use_sib base
      >> write_some (to_signed_bytes 4 offset)

-- An instruction with REX.W, one opcode byte and two registers.
abbrev pub register_form : ℕ → ℕ → ℕ → Asm
register_form op reg rm =
    write_rex (rex true reg rm 0) >> write_byte op >> write_byte (encode_modrm 3 reg rm)

unfoldable pub mov_reg_reg : ℕ → ℕ → Asm
mov_reg_reg dst src = register_form 137 src dst

unfoldable pub mov_reg_imm : ℕ → ℤ → Asm
mov_reg_imm dst imm =
    write_rex (rex true 0 dst 0)
    >> write_byte (184 + bit_and dst 7)
    >> write_some (to_signed_bytes 8 imm)

unfoldable pub mov_reg_mem : ℕ → ℕ → ℤ → Asm
unfolding memory_operand
mov_reg_mem dst base offset =
    write_rex (rex true dst base 0) >> write_byte 139 >> memory_operand dst base offset

unfoldable pub mov_mem_reg : ℕ → ℤ → ℕ → Asm
unfolding memory_operand
mov_mem_reg base offset src =
    write_rex (rex true src base 0) >> write_byte 137 >> memory_operand src base offset

unfoldable pub add_reg_reg : ℕ → ℕ → Asm
add_reg_reg dst src = register_form 1 src dst

unfoldable pub sub_reg_reg : ℕ → ℕ → Asm
sub_reg_reg dst src = register_form 41 src dst

unfoldable pub imul_reg_reg : ℕ → ℕ → Asm
imul_reg_reg dst src =
    write_rex (rex true dst src 0)
    >> write_byte 15
    >> write_byte 175
    >> write_byte (encode_modrm 3 dst src)

unfoldable pub vmovups_load : ℕ → ℕ → ℤ → Asm
unfolding memory_operand
vmovups_load dst base offset =
    write_bytes (vex3 0 dst 0 1 0 1 base) >> write_byte 16 >> memory_operand dst base offset

unfoldable pub vmovups_store : ℕ → ℤ → ℕ → Asm
unfolding memory_operand
vmovups_store base offset src =
    write_bytes (vex3 0 src 0 1 0 1 base) >> write_byte 17 >> memory_operand src base offset

-- A vector instruction on three registers.
abbrev pub vector_form : List ℕ → ℕ → ℕ → ℕ → Asm
vector_form vex op dst src2 =
    write_bytes vex >> write_byte op >> write_byte (encode_modrm 3 dst src2)

unfoldable pub vaddps_ymm : ℕ → ℕ → ℕ → Asm
vaddps_ymm dst src1 src2 = vector_form (vex3 0 dst src1 1 0 1 src2) 88 dst src2

unfoldable pub vsubps_ymm : ℕ → ℕ → ℕ → Asm
vsubps_ymm dst src1 src2 = vector_form (vex3 0 dst src1 1 0 1 src2) 92 dst src2

unfoldable pub vmulps_ymm : ℕ → ℕ → ℕ → Asm
vmulps_ymm dst src1 src2 = vector_form (vex3 0 dst src1 1 0 1 src2) 89 dst src2

unfoldable pub vdivps_ymm : ℕ → ℕ → ℕ → Asm
vdivps_ymm dst src1 src2 = vector_form (vex3 0 dst src1 1 0 1 src2) 94 dst src2

unfoldable pub vfmadd213ps_ymm : ℕ → ℕ → ℕ → Asm
vfmadd213ps_ymm dst src1 src2 = vector_form (vex3 1 dst src1 1 1 2 src2) 168 dst src2

unfoldable pub cmp_reg_reg : ℕ → ℕ → Asm
cmp_reg_reg reg1 reg2 = register_form 57 reg2 reg1

unfoldable pub cmp_reg_imm : ℕ → ℤ → Asm
cmp_reg_imm reg imm =
    write_rex (rex true 0 reg 0)
    >> write_byte 129
    >> write_byte (encode_modrm 3 7 reg)
    >> write_some (to_signed_bytes 4 imm)

-- The placeholder of a jump's offset, and its patch: the instruction starts `n` bytes before it.
unfoldable pub write_target : ℕ → String → Asm
unfolding write_bytes
write_target n name s = write_bytes (0 ∷ 0 ∷ 0 ∷ 0 ∷ []) (record s {
  patches =
      s.patches
      ++ record { label = name; inst_pos = length s.code - n; patch_pos = length s.code } ∷ [];
})

unfoldable pub jmp : String → Asm
jmp name = write_byte 233 >> write_target 1 name

abbrev pub conditional : ℕ → String → Asm
conditional op name = write_byte 15 >> write_byte op >> write_target 2 name

unfoldable pub je : String → Asm
je name = conditional 132 name

unfoldable pub jne : String → Asm
jne name = conditional 133 name

unfoldable pub jlt : String → Asm
jlt name = conditional 140 name

unfoldable pub jle : String → Asm
jle name = conditional 142 name

unfoldable pub jgt : String → Asm
jgt name = conditional 143 name

unfoldable pub jge : String → Asm
jge name = conditional 141 name

unfoldable pub write_prologue : Asm
unfolding push sub_reg_reg
write_prologue =
    push rbx
    >> push rbp
    >> push rsi
    >> push rdi
    >> sub_reg_reg rsp rax
    >> write_byte 72
    >> write_byte 131
    >> write_byte (encode_modrm 3 5 rsp)
    >> write_byte 40

unfoldable pub write_epilogue : Asm
unfolding pop ret
write_epilogue =
    write_byte 72
    >> write_byte 131
    >> write_byte (encode_modrm 3 0 rsp)
    >> write_byte 40
    >> pop rdi
    >> pop rsi
    >> pop rbp
    >> pop rbx
    >> ret
