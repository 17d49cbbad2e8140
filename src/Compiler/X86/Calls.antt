-- ===== src/Compiler/X86/Calls.antt =====
-- What one call of the assembler (uhcr/compiler/x86_64/assembler.py) writes, and what the decoder reads
-- for it.
use uhcr.Prelude.{reassociate, ℕ, ◌≡◌, refl, sym, ap, subst, List, [], ◌∷◌, ◌++◌, some, pos, arith}
use uhcr.Compiler.X86.Assembler.{Asm, ◌>>◌, write_byte, encode_modrm}
use uhcr.Compiler.X86.Methods
use uhcr.Compiler.X86.Decoder.{Instr, register, decode}
use uhcr.Compiler.X86.Writes.{Writes, >>-Writes, write_byte-Writes}
use uhcr.Compiler.X86.Instructions.{Encodes}
use uhcr.Compiler.X86.Encodings
use uhcr.Compiler.X86.Program.{Plain, write, meaning, Bounded}

-- The decoder reads these instructions one after another, up to the rest.
abbrev pub Reads : List Instr → List ℕ → List ℕ → Type 0
Reads [] bs rest = bs ≡ rest
Reads (i ∷ is) bs rest = (mid : List ℕ) × (decode bs ≡ some (i, mid)) × Reads is mid rest

pub Reads-append :
    (is js : List Instr) (bs mid rest : List ℕ)
    → Reads is bs mid
    → Reads js mid rest
    → Reads (is ++ js) bs rest
Reads-append [] js bs mid rest h k = subst (λ x. Reads js x rest) (sym h) k
Reads-append (i ∷ is) js bs mid rest (next, e, h) k =
    (next, e, Reads-append is js next mid rest h k)

-- A method that writes these instructions.
pub record EncodesAll (m : Asm) (is : List Instr) : Type 0 where
  pub bytes : List ℕ
  pub written : Writes m bytes
  pub read : (rest : List ℕ) → Reads is (bytes ++ rest) rest

one : {m : Asm} {i : Instr} → Encodes m i → EncodesAll m (i ∷ [])
one (bs, w, r) = record { bytes = bs; written = w; read = λ rest. (rest, r rest, refl) }

both :
    {m n : Asm} {is js : List Instr}
    → EncodesAll m is
    → EncodesAll n js
    → EncodesAll (m >> n) (is ++ js)
both {is = is} {js = js} first next = record {
  bytes = first.bytes ++ next.bytes;
  written = >>-Writes first.written next.written;
  read = λ rest.
      Reads-append is js ((first.bytes ++ next.bytes) ++ rest) (next.bytes ++ rest) rest
        (subst (λ x. Reads is x (next.bytes ++ rest)) (reassociate first.bytes next.bytes rest)
          (first.read (next.bytes ++ rest)))
        (next.read rest);
}

four_more :
    (bs : List ℕ) (a b c d : ℕ) (rest : List ℕ)
    → bs ++ a ∷ b ∷ c ∷ d ∷ rest ≡ ((((bs ++ a ∷ []) ++ b ∷ []) ++ c ∷ []) ++ d ∷ []) ++ rest
four_more [] a b c d rest = refl
four_more (x ∷ xs) a b c d rest = ap (λ l. x ∷ l) (four_more xs a b c d rest)

-- Four bytes written one by one that make an instruction.
and_four :
    {m : Asm} {is : List Instr} (a b c d : ℕ) (i : Instr)
    → EncodesAll m is
    → Writes (write_byte a) (a ∷ [])
    → Writes (write_byte b) (b ∷ [])
    → Writes (write_byte c) (c ∷ [])
    → Writes (write_byte d) (d ∷ [])
    → ((rest : List ℕ) → decode (a ∷ b ∷ c ∷ d ∷ rest) ≡ some (i, rest))
    → EncodesAll (m >> write_byte a >> write_byte b >> write_byte c >> write_byte d) (is ++ i ∷ [])
and_four {is = is} a b c d i first ha hb hc hd e = record {
  bytes = (((first.bytes ++ a ∷ []) ++ b ∷ []) ++ c ∷ []) ++ d ∷ [];
  written = >>-Writes (>>-Writes (>>-Writes (>>-Writes first.written ha) hb) hc) hd;
  read = λ rest.
      Reads-append is (i ∷ []) _ (a ∷ b ∷ c ∷ d ∷ rest) rest
        (subst (λ x. Reads is x (a ∷ b ∷ c ∷ d ∷ rest)) (four_more first.bytes a b c d rest)
          (first.read (a ∷ b ∷ c ∷ d ∷ rest)))
        (rest, e rest, refl);
}

prologue-EncodesAll : EncodesAll Methods.write_prologue (meaning Plain.write_prologue)
unfolding Methods.write_prologue encode_modrm decode
prologue-EncodesAll =
    and_four 72 131 236 40 (Instr.sub_imm (register 4) (pos 40))
      (both
        (both
          (both
            (both (one (Encodings.push-Encodes (omega arith)))
              (one (Encodings.push-Encodes (omega arith))))
            (one (Encodings.push-Encodes (omega arith))))
          (one (Encodings.push-Encodes (omega arith))))
        (one (Encodings.sub_reg_reg-Encodes (omega arith) (omega arith))))
      (write_byte-Writes (omega arith)) (write_byte-Writes (omega arith))
      (write_byte-Writes (omega arith)) (write_byte-Writes (omega arith)) (λ rest. refl)

-- `add rsp, 40`
raise_stack :
    EncodesAll
      (write_byte 72 >> write_byte 131 >> write_byte 196 >> write_byte 40)
      (Instr.add_imm (register 4) (pos 40) ∷ [])
unfolding decode
raise_stack = record {
  bytes = 72 ∷ 131 ∷ 196 ∷ 40 ∷ [];
  written =
      >>-Writes
        (>>-Writes (>>-Writes (write_byte-Writes (omega arith)) (write_byte-Writes (omega arith)))
          (write_byte-Writes (omega arith)))
        (write_byte-Writes (omega arith));
  read = λ rest. (rest, refl, refl);
}

epilogue-EncodesAll : EncodesAll Methods.write_epilogue (meaning Plain.write_epilogue)
unfolding Methods.write_epilogue encode_modrm
epilogue-EncodesAll =
    both
      (both
        (both
          (both (both raise_stack (one (Encodings.pop-Encodes (omega arith))))
            (one (Encodings.pop-Encodes (omega arith))))
          (one (Encodings.pop-Encodes (omega arith))))
        (one (Encodings.pop-Encodes (omega arith))))
      (one Encodings.ret-Encodes)

-- Every method that writes instructions writes those that it stands for.
pub write-EncodesAll : (c : Plain) → Bounded c → EncodesAll (write c) (meaning c)
unfolding write
write-EncodesAll (Plain.push a) ha = one (Encodings.push-Encodes ha)
write-EncodesAll (Plain.pop a) ha = one (Encodings.pop-Encodes ha)
write-EncodesAll Plain.ret h = one Encodings.ret-Encodes
write-EncodesAll (Plain.mov_reg_reg a b) (ha, hb) = one (Encodings.mov_reg_reg-Encodes ha hb)
write-EncodesAll (Plain.mov_reg_imm a b) (ha, hb) = one (Encodings.mov_reg_imm-Encodes b ha hb)
write-EncodesAll (Plain.mov_reg_mem a b c) (ha, hb, hc) =
    one (Encodings.mov_reg_mem-Encodes c ha hb hc)
write-EncodesAll (Plain.mov_mem_reg a b c) (ha, hb, hc) =
    one (Encodings.mov_mem_reg-Encodes b ha hc hb)
write-EncodesAll (Plain.add_reg_reg a b) (ha, hb) = one (Encodings.add_reg_reg-Encodes ha hb)
write-EncodesAll (Plain.sub_reg_reg a b) (ha, hb) = one (Encodings.sub_reg_reg-Encodes ha hb)
write-EncodesAll (Plain.imul_reg_reg a b) (ha, hb) = one (Encodings.imul_reg_reg-Encodes ha hb)
write-EncodesAll (Plain.vmovups_load a b c) (ha, hb, hc) =
    one (Encodings.vmovups_load-Encodes c ha hb hc)
write-EncodesAll (Plain.vmovups_store a b c) (ha, hb, hc) =
    one (Encodings.vmovups_store-Encodes b ha hc hb)
write-EncodesAll (Plain.vaddps_ymm a b c) (ha, hb, hc) = one (Encodings.vaddps_ymm-Encodes ha hb hc)
write-EncodesAll (Plain.vsubps_ymm a b c) (ha, hb, hc) = one (Encodings.vsubps_ymm-Encodes ha hb hc)
write-EncodesAll (Plain.vmulps_ymm a b c) (ha, hb, hc) = one (Encodings.vmulps_ymm-Encodes ha hb hc)
write-EncodesAll (Plain.vdivps_ymm a b c) (ha, hb, hc) = one (Encodings.vdivps_ymm-Encodes ha hb hc)
write-EncodesAll (Plain.vfmadd213ps_ymm a b c) (ha, hb, hc) =
    one (Encodings.vfmadd213ps_ymm-Encodes ha hb hc)
write-EncodesAll (Plain.cmp_reg_reg a b) (ha, hb) = one (Encodings.cmp_reg_reg-Encodes ha hb)
write-EncodesAll (Plain.cmp_reg_imm a b) (ha, hb) = one (Encodings.cmp_reg_imm-Encodes b ha hb)
write-EncodesAll Plain.write_prologue h = prologue-EncodesAll
write-EncodesAll Plain.write_epilogue h = epilogue-EncodesAll
