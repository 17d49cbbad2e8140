-- ===== src/Compiler/X86/Encodings.antt =====
-- Every method of the assembler (uhcr/compiler/x86_64/assembler.py) that makes an instruction, on the
-- sixteen registers, and the instruction that the decoder reads for it.
use uhcr.Prelude.{
  ℕ, ◌+◌, ◌*◌, ◌/◌, ◌%◌, ◌<◌, ◌≡◌, ◌∙◌, refl, ap, false, List, [], ◌∷◌, ◌++◌, some, ℤ, nat_beq,
  arith,
}
use uhcr.Compiler.X86.Assembler.{encode_modrm}
use uhcr.Compiler.X86.Methods
use uhcr.Compiler.X86.Fields.{low-modulus}
use uhcr.Compiler.X86.Decoder.{Instr, register, memory, decode, opcode, on_place, immediate, signed}
use uhcr.Compiler.X86.Writes.{
  >>-Writes, write_byte-Writes, InRange, signed_bytes, write_signed-Writes, signed-signed_bytes,
}
use uhcr.Compiler.X86.Operands.{modrm-parts, modrm-registers}
use uhcr.Compiler.X86.Instructions.{
  Encodes, wide_prefix, write_wide-Writes, register_form-Encodes, memory_form-Encodes,
  vector_form-Encodes, vector_memory-Encodes, short_form-Encodes,
}

tens : (x : ℕ) → x < 8 → ((80 + x) / 8 ≡ 10) × ((80 + x) % 8 ≡ x)
tens x h = (omega arith, omega arith)

elevens : (x : ℕ) → x < 8 → ((88 + x) / 8 ≡ 11) × ((88 + x) % 8 ≡ x)
elevens x h = (omega arith, omega arith)

pub push-Encodes : {r : ℕ} → r < 16 → Encodes (Methods.push r) (Instr.push r)
unfolding Methods.push
push-Encodes h =
    short_form-Encodes 80 Instr.push h (omega arith) (omega arith)
      (λ y. λ x. λ bs. λ l. let (q, m) = tens x l in rw (q, m) refl)

pub pop-Encodes : {r : ℕ} → r < 16 → Encodes (Methods.pop r) (Instr.pop r)
unfolding Methods.pop
pop-Encodes h =
    short_form-Encodes 88 Instr.pop h (omega arith) (omega arith)
      (λ y. λ x. λ bs. λ l. let (q, m) = elevens x l in rw (q, m) refl)

pub ret-Encodes : Encodes Methods.ret Instr.ret
unfolding Methods.ret decode
ret-Encodes = (195 ∷ [], write_byte-Writes (omega arith), λ rest. refl)

pub mov_reg_reg-Encodes :
    {d s : ℕ} → d < 16 → s < 16 → Encodes (Methods.mov_reg_reg d s) (Instr.mov_to (register d) s)
unfolding Methods.mov_reg_reg
mov_reg_reg-Encodes hd hs =
    register_form-Encodes 137 (λ r. λ p. Instr.mov_to p r) hs hd (omega arith)
      (λ x. λ y. λ bs. refl)

pub add_reg_reg-Encodes :
    {d s : ℕ} → d < 16 → s < 16 → Encodes (Methods.add_reg_reg d s) (Instr.add_to (register d) s)
unfolding Methods.add_reg_reg
add_reg_reg-Encodes hd hs =
    register_form-Encodes 1 (λ r. λ p. Instr.add_to p r) hs hd (omega arith) (λ x. λ y. λ bs. refl)

pub sub_reg_reg-Encodes :
    {d s : ℕ} → d < 16 → s < 16 → Encodes (Methods.sub_reg_reg d s) (Instr.sub_to (register d) s)
unfolding Methods.sub_reg_reg
sub_reg_reg-Encodes hd hs =
    register_form-Encodes 41 (λ r. λ p. Instr.sub_to p r) hs hd (omega arith) (λ x. λ y. λ bs. refl)

pub cmp_reg_reg-Encodes :
    {a b : ℕ} → a < 16 → b < 16 → Encodes (Methods.cmp_reg_reg a b) (Instr.cmp_to (register a) b)
unfolding Methods.cmp_reg_reg
cmp_reg_reg-Encodes ha hb =
    register_form-Encodes 57 (λ r. λ p. Instr.cmp_to p r) hb ha (omega arith) (λ x. λ y. λ bs. refl)

pub imul_reg_reg-Encodes :
    {d s : ℕ} → d < 16 → s < 16 → Encodes (Methods.imul_reg_reg d s) (Instr.imul d (register s))
unfolding Methods.imul_reg_reg
imul_reg_reg-Encodes {d} {s} hd hs =
    let (_, _, _, small) = modrm-parts {k = 3} (omega arith) hd hs in
    (
      _,
      >>-Writes
          (>>-Writes (>>-Writes (write_wide-Writes hd hs) (write_byte-Writes (omega arith)))
            (write_byte-Writes (omega arith)))
          (write_byte-Writes small),
      λ rest.
          wide_prefix 15 (175 ∷ encode_modrm 3 d s ∷ rest) hd hs
          ∙ ap (on_place Instr.imul) (modrm-registers rest hd hs),
    )

pub mov_reg_mem-Encodes :
    {d b : ℕ} (z : ℤ)
    → d < 16
    → b < 16
    → InRange 4 z
    → Encodes (Methods.mov_reg_mem d b z) (Instr.mov_from d (memory b z))
unfolding Methods.mov_reg_mem
mov_reg_mem-Encodes z hd hb h =
    memory_form-Encodes 139 Instr.mov_from z hd hb (omega arith) h (λ x. λ y. λ bs. refl)

pub mov_mem_reg-Encodes :
    {s b : ℕ} (z : ℤ)
    → b < 16
    → s < 16
    → InRange 4 z
    → Encodes (Methods.mov_mem_reg b z s) (Instr.mov_to (memory b z) s)
unfolding Methods.mov_mem_reg
mov_mem_reg-Encodes z hb hs h =
    memory_form-Encodes 137 (λ r. λ p. Instr.mov_to p r) z hs hb (omega arith) h
      (λ x. λ y. λ bs. refl)

pub vmovups_load-Encodes :
    {d b : ℕ} (z : ℤ)
    → d < 16
    → b < 16
    → InRange 4 z
    → Encodes (Methods.vmovups_load d b z) (Instr.vmovups_from d (memory b z))
unfolding Methods.vmovups_load
vmovups_load-Encodes z hd hb h =
    vector_memory-Encodes 16 Instr.vmovups_from z hd hb (omega arith) h (λ o. refl)

pub vmovups_store-Encodes :
    {s b : ℕ} (z : ℤ)
    → b < 16
    → s < 16
    → InRange 4 z
    → Encodes (Methods.vmovups_store b z s) (Instr.vmovups_to (memory b z) s)
unfolding Methods.vmovups_store
vmovups_store-Encodes z hb hs h =
    vector_memory-Encodes 17 (λ r. λ p. Instr.vmovups_to p r) z hs hb (omega arith) h (λ o. refl)

pub vaddps_ymm-Encodes :
    {d a b : ℕ}
    → d < 16
    → a < 16
    → b < 16
    → Encodes (Methods.vaddps_ymm d a b) (Instr.vaddps d a (register b))
unfolding Methods.vaddps_ymm
vaddps_ymm-Encodes hd ha hb =
    vector_form-Encodes 0 0 1 88 Instr.vaddps (omega arith) (omega arith) (omega arith)
      (omega arith) hd ha hb (λ v. λ o. refl)

pub vsubps_ymm-Encodes :
    {d a b : ℕ}
    → d < 16
    → a < 16
    → b < 16
    → Encodes (Methods.vsubps_ymm d a b) (Instr.vsubps d a (register b))
unfolding Methods.vsubps_ymm
vsubps_ymm-Encodes hd ha hb =
    vector_form-Encodes 0 0 1 92 Instr.vsubps (omega arith) (omega arith) (omega arith)
      (omega arith) hd ha hb (λ v. λ o. refl)

pub vmulps_ymm-Encodes :
    {d a b : ℕ}
    → d < 16
    → a < 16
    → b < 16
    → Encodes (Methods.vmulps_ymm d a b) (Instr.vmulps d a (register b))
unfolding Methods.vmulps_ymm
vmulps_ymm-Encodes hd ha hb =
    vector_form-Encodes 0 0 1 89 Instr.vmulps (omega arith) (omega arith) (omega arith)
      (omega arith) hd ha hb (λ v. λ o. refl)

pub vdivps_ymm-Encodes :
    {d a b : ℕ}
    → d < 16
    → a < 16
    → b < 16
    → Encodes (Methods.vdivps_ymm d a b) (Instr.vdivps d a (register b))
unfolding Methods.vdivps_ymm
vdivps_ymm-Encodes hd ha hb =
    vector_form-Encodes 0 0 1 94 Instr.vdivps (omega arith) (omega arith) (omega arith)
      (omega arith) hd ha hb (λ v. λ o. refl)

-- With VEX.W set, the instruction is the one on doubles.
pub vfmadd213ps_ymm-Encodes :
    {d a b : ℕ}
    → d < 16
    → a < 16
    → b < 16
    → Encodes (Methods.vfmadd213ps_ymm d a b) (Instr.vfmadd213pd d a (register b))
unfolding Methods.vfmadd213ps_ymm
vfmadd213ps_ymm-Encodes hd ha hb =
    vector_form-Encodes 1 1 2 168 Instr.vfmadd213pd (omega arith) (omega arith) (omega arith)
      (omega arith) hd ha hb (λ v. λ o. refl)

mov_imm_opcode :
    (d : ℕ) (rest : List ℕ) (z : ℤ) (bs : List ℕ)
    → d < 16
    → signed 8 bs ≡ some (z, rest)
    → opcode 1 0 (d / 8) (184 + d % 8) bs ≡ some (Instr.mov_imm d z, rest)
mov_imm_opcode d rest z bs hd e =
    let group : (184 + d % 8) / 8 ≡ 23 = omega arith in
    let digit : (184 + d % 8) % 8 ≡ d % 8 = omega arith in
    let no_ret : nat_beq (184 + d % 8) 195 ≡ false = ground arith in
    let no_jump : nat_beq (184 + d % 8) 233 ≡ false = ground arith in
    let one_byte : nat_beq (184 + d % 8) 15 ≡ false = ground arith in
    let whole : d / 8 * 8 + d % 8 ≡ d = omega arith in
    rw (group, no_ret, no_jump, one_byte, digit, e, whole) refl

pub mov_reg_imm-Encodes :
    {d : ℕ} (z : ℤ) → d < 16 → InRange 8 z → Encodes (Methods.mov_reg_imm d z) (Instr.mov_imm d z)
unfolding Methods.mov_reg_imm
mov_reg_imm-Encodes {d} z hd h =
    let low = low-modulus hd in
    (
      _,
      >>-Writes
          (>>-Writes (write_wide-Writes (omega arith) hd) (write_byte-Writes (omega (arith, low))))
          (write_signed-Writes 8 z h),
      λ rest. rw low (
          wide_prefix {r = 0} (184 + d % 8) (signed_bytes 8 z ++ rest) (omega arith) hd
          ∙ mov_imm_opcode d rest z (signed_bytes 8 z ++ rest) hd (signed-signed_bytes 8 z rest h)),
    )

pub cmp_reg_imm-Encodes :
    {r : ℕ} (z : ℤ)
    → r < 16
    → InRange 4 z
    → Encodes (Methods.cmp_reg_imm r z) (Instr.cmp_imm (register r) z)
unfolding Methods.cmp_reg_imm
cmp_reg_imm-Encodes {r} z hr h =
    let (_, _, _, small) = modrm-parts {k = 3} {r = 7} (omega arith) (omega arith) hr in
    (
      _,
      >>-Writes
          (>>-Writes
            (>>-Writes (write_wide-Writes (omega arith) hr) (write_byte-Writes (omega arith)))
            (write_byte-Writes small))
          (write_signed-Writes 4 z h),
      λ rest.
          wide_prefix {r = 0} 129 (encode_modrm 3 7 r ∷ signed_bytes 4 z ++ rest) (omega arith) hr
          ∙ ap (immediate 4) (modrm-registers {r = 7} (signed_bytes 4 z ++ rest) (omega arith) hr)
          ∙ rw (signed-signed_bytes 4 z rest h) refl,
    )
