-- ===== src/Compiler/IrBuilder/Program.antt =====
-- A program that drives the builder: any sequence of calls of the methods of `IRBuilder` and of
-- `Function.create_block`, with any operands. A call that raises leaves the state that it reached.
use uhcr.Prelude.{ℕ, ◌≡◌, Bool, true, ◌&&◌, List, [], ◌∷◌, Option, String, and_left, and_right}
use uhcr.Compiler.Ir.Types.{Ty}
use uhcr.Compiler.IrBuilder.State
use uhcr.Compiler.IrBuilder.State.{IrBuilder, BlockRef, Operand}
use uhcr.Compiler.IrBuilder.Methods
use uhcr.Compiler.IrBuilder.Structured
use uhcr.Compiler.IrBuilder.Rules
use uhcr.Compiler.IrBuilder.Rules.{TypedHeap, operand_type}
use uhcr.Compiler.IrBuilder.Typing.{number_pair, integer_type}
use uhcr.Compiler.IrBuilder.Fits
use uhcr.Compiler.IrBuilder.Fits.{
  fits1, fits2, fits3, load_fits, vload_fits, cmp_fits, ret_fits, pointers, pointers3,
}
use uhcr.Compiler.IrBuilder.EmissionPhi
use uhcr.Compiler.IrBuilder.EmissionPhi.{phi_fits}
use uhcr.Compiler.IrBuilder.Emission
use uhcr.Compiler.IrBuilder.EmissionStructured

pub data BuilderCall (F : Type 0) : Type 0 where
  new_module : BuilderCall F
  new_function : String → List Ty → Ty → BuilderCall F
  create_block : ℕ → String → BuilderCall F
  set_block : BlockRef → BuilderCall F
  add : Operand F → Operand F → BuilderCall F
  sub : Operand F → Operand F → BuilderCall F
  mul : Operand F → Operand F → BuilderCall F
  div : Operand F → Operand F → BuilderCall F
  load : Operand F → Operand F → Ty → BuilderCall F
  store : Operand F → Operand F → Operand F → BuilderCall F
  vload : Operand F → Operand F → Ty → BuilderCall F
  vstore : Operand F → Operand F → Operand F → BuilderCall F
  vadd : Operand F → Operand F → BuilderCall F
  vsub : Operand F → Operand F → BuilderCall F
  vmul : Operand F → Operand F → BuilderCall F
  vdiv : Operand F → Operand F → BuilderCall F
  vfmadd : Operand F → Operand F → Operand F → BuilderCall F
  cmp : String → Operand F → Operand F → BuilderCall F
  br : Operand F → BlockRef → BlockRef → BuilderCall F
  jmp : BlockRef → BuilderCall F
  ret : Option (Operand F) → BuilderCall F
  matmul : Operand F → Operand F → Operand F → BuilderCall F
  relu : Operand F → Operand F → BuilderCall F
  strlen : Operand F → BuilderCall F
  strcat : Operand F → Operand F → BuilderCall F
  strindex : Operand F → Operand F → BuilderCall F
  strslice : Operand F → Operand F → Operand F → BuilderCall F
  streq : Operand F → Operand F → BuilderCall F
  strhash : Operand F → BuilderCall F
  loop : BuilderCall F
  loop_with_cond : Operand F → BlockRef → BlockRef → BuilderCall F
  break_loop : BlockRef → BuilderCall F
  continue_loop : BlockRef → BuilderCall F
  phi : List (Operand F) → List BlockRef → Ty → BuilderCall F
  listlen : Operand F → BuilderCall F
  listindex : Operand F → Operand F → BuilderCall F
  listslice : Operand F → Operand F → Operand F → BuilderCall F
  listappend : Operand F → Operand F → BuilderCall F
  listpop : Operand F → BuilderCall F
  listinsert : Operand F → Operand F → Operand F → BuilderCall F
  listremove : Operand F → Operand F → BuilderCall F

module _ {F : Type 0} where
  unfoldable pub perform : BuilderCall F → IrBuilder F → IrBuilder F
  perform new_module s = (State.new_module s).0
  perform (new_function a b c) s = (State.new_function_in a b c s).0
  perform (create_block a b) s = (State.create_block_in a b s).0
  perform (set_block a) s = (State.set_block a s).0
  perform (add a b) s = (Methods.add a b s).0
  perform (sub a b) s = (Methods.sub a b s).0
  perform (mul a b) s = (Methods.mul a b s).0
  perform (div a b) s = (Methods.div a b s).0
  perform (load a b c) s = (Methods.load a b c s).0
  perform (store a b c) s = (Methods.store a b c s).0
  perform (vload a b c) s = (Methods.vload a b c s).0
  perform (vstore a b c) s = (Methods.vstore a b c s).0
  perform (vadd a b) s = (Methods.vadd a b s).0
  perform (vsub a b) s = (Methods.vsub a b s).0
  perform (vmul a b) s = (Methods.vmul a b s).0
  perform (vdiv a b) s = (Methods.vdiv a b s).0
  perform (vfmadd a b c) s = (Methods.vfmadd a b c s).0
  perform (cmp a b c) s = (Methods.cmp a b c s).0
  perform (br a b c) s = (Methods.br a b c s).0
  perform (jmp a) s = (Methods.jmp a s).0
  perform (ret a) s = (Methods.ret a s).0
  perform (matmul a b c) s = (Methods.matmul a b c s).0
  perform (relu a b) s = (Methods.relu a b s).0
  perform (strlen a) s = (Structured.strlen a s).0
  perform (strcat a b) s = (Structured.strcat a b s).0
  perform (strindex a b) s = (Structured.strindex a b s).0
  perform (strslice a b c) s = (Structured.strslice a b c s).0
  perform (streq a b) s = (Structured.streq a b s).0
  perform (strhash a) s = (Structured.strhash a s).0
  perform loop s = (Structured.loop s).0
  perform (loop_with_cond a b c) s = (Structured.loop_with_cond a b c s).0
  perform (break_loop a) s = (Structured.break_loop a s).0
  perform (continue_loop a) s = (Structured.continue_loop a s).0
  perform (phi a b c) s = (Structured.phi a b c s).0
  perform (listlen a) s = (Structured.listlen a s).0
  perform (listindex a b) s = (Structured.listindex a b s).0
  perform (listslice a b c) s = (Structured.listslice a b c s).0
  perform (listappend a b) s = (Structured.listappend a b s).0
  perform (listpop a) s = (Structured.listpop a s).0
  perform (listinsert a b c) s = (Structured.listinsert a b c s).0
  perform (listremove a b) s = (Structured.listremove a b s).0

  unfoldable pub run : List (BuilderCall F) → IrBuilder F → IrBuilder F
  run [] s = s
  run (c ∷ cs) s = run cs (perform c s)

  -- Do the operands fit that a call passes to a method that does not check them?
  abbrev pub fits : BuilderCall F → Bool
  fits (add a b) = fits2 number_pair (operand_type a) (operand_type b)
  fits (sub a b) = fits2 number_pair (operand_type a) (operand_type b)
  fits (mul a b) = fits2 number_pair (operand_type a) (operand_type b)
  fits (div a b) = fits2 number_pair (operand_type a) (operand_type b)
  fits (load a b c) = fits2 (load_fits c) (operand_type a) (operand_type b)
  fits (vload a b c) = fits2 (vload_fits c) (operand_type a) (operand_type b)
  fits (store a b c) = fits3 load_fits (operand_type a) (operand_type b) (operand_type c)
  fits (vstore a b c) = fits3 vload_fits (operand_type a) (operand_type b) (operand_type c)
  fits (cmp a b c) = fits2 (cmp_fits a) (operand_type b) (operand_type c)
  fits (br a b c) = fits1 integer_type (operand_type a)
  fits (ret a) = ret_fits a
  fits (matmul a b c) = fits3 pointers3 (operand_type a) (operand_type b) (operand_type c)
  fits (relu a b) = fits2 pointers (operand_type a) (operand_type b)
  fits (phi a b c) = phi_fits c a
  fits _ = true

  perform-TypedHeap :
      (strict : Bool) (c : BuilderCall F) (s : IrBuilder F)
      → (strict ≡ true → fits c ≡ true)
      → TypedHeap strict s.heap
      → TypedHeap strict (perform c s).heap
  unfolding perform
  perform-TypedHeap strict new_module s h = Rules.new_module-Emits strict s
  perform-TypedHeap strict (new_function a b c) s h = Rules.new_function_in-Emits strict a b c s
  perform-TypedHeap strict (create_block a b) s h = Rules.create_block_in-Emits strict a b s
  perform-TypedHeap strict (set_block a) s h = Rules.set_block-Emits strict a s
  perform-TypedHeap strict (add a b) s h = Fits.add-Emits strict a b h s
  perform-TypedHeap strict (sub a b) s h = Fits.sub-Emits strict a b h s
  perform-TypedHeap strict (mul a b) s h = Fits.mul-Emits strict a b h s
  perform-TypedHeap strict (div a b) s h = Fits.div-Emits strict a b h s
  perform-TypedHeap strict (load a b c) s h = Fits.load-Emits strict a b c h s
  perform-TypedHeap strict (store a b c) s h = Fits.store-Emits strict a b c h s
  perform-TypedHeap strict (vload a b c) s h = Fits.vload-Emits strict a b c h s
  perform-TypedHeap strict (vstore a b c) s h = Fits.vstore-Emits strict a b c h s
  perform-TypedHeap strict (vadd a b) s h = Emission.vadd-Emits strict a b s
  perform-TypedHeap strict (vsub a b) s h = Emission.vsub-Emits strict a b s
  perform-TypedHeap strict (vmul a b) s h = Emission.vmul-Emits strict a b s
  perform-TypedHeap strict (vdiv a b) s h = Emission.vdiv-Emits strict a b s
  perform-TypedHeap strict (vfmadd a b c) s h = Emission.vfmadd-Emits strict a b c s
  perform-TypedHeap strict (cmp a b c) s h = Fits.cmp-Emits strict a b c h s
  perform-TypedHeap strict (br a b c) s h = Fits.br-Emits strict a b c h s
  perform-TypedHeap strict (jmp a) s h = Emission.jmp-Emits strict a s
  perform-TypedHeap strict (ret a) s h = Fits.ret-Emits strict a h s
  perform-TypedHeap strict (matmul a b c) s h = Fits.matmul-Emits strict a b c h s
  perform-TypedHeap strict (relu a b) s h = Fits.relu-Emits strict a b h s
  perform-TypedHeap strict (strlen a) s h = EmissionStructured.strlen-Emits strict a s
  perform-TypedHeap strict (strcat a b) s h = EmissionStructured.strcat-Emits strict a b s
  perform-TypedHeap strict (strindex a b) s h = EmissionStructured.strindex-Emits strict a b s
  perform-TypedHeap strict (strslice a b c) s h = EmissionStructured.strslice-Emits strict a b c s
  perform-TypedHeap strict (streq a b) s h = EmissionStructured.streq-Emits strict a b s
  perform-TypedHeap strict (strhash a) s h = EmissionStructured.strhash-Emits strict a s
  perform-TypedHeap strict loop s h = EmissionStructured.loop-Emits strict s
  perform-TypedHeap strict (loop_with_cond a b c) s h =
      EmissionStructured.loop_with_cond-Emits strict a b c s
  perform-TypedHeap strict (break_loop a) s h = EmissionStructured.break_loop-Emits strict a s
  perform-TypedHeap strict (continue_loop a) s h = EmissionStructured.continue_loop-Emits strict a s
  perform-TypedHeap strict (phi a b c) s h = EmissionPhi.phi-Emits strict a b c h s
  perform-TypedHeap strict (listlen a) s h = EmissionStructured.listlen-Emits strict a s
  perform-TypedHeap strict (listindex a b) s h = EmissionStructured.listindex-Emits strict a b s
  perform-TypedHeap strict (listslice a b c) s h = EmissionStructured.listslice-Emits strict a b c s
  perform-TypedHeap strict (listappend a b) s h = EmissionStructured.listappend-Emits strict a b s
  perform-TypedHeap strict (listpop a) s h = EmissionStructured.listpop-Emits strict a s
  perform-TypedHeap strict (listinsert a b c) s h =
      EmissionStructured.listinsert-Emits strict a b c s
  perform-TypedHeap strict (listremove a b) s h = EmissionStructured.listremove-Emits strict a b s

  -- Do all calls of a program pass operands that fit?
  abbrev pub all_fit : List (BuilderCall F) → Bool
  all_fit [] = true
  all_fit (c ∷ cs) = fits c && all_fit cs

  run-TypedHeap :
      (strict : Bool) (cs : List (BuilderCall F)) (s : IrBuilder F)
      → (strict ≡ true → all_fit cs ≡ true)
      → TypedHeap strict s.heap
      → TypedHeap strict (run cs s).heap
  unfolding run
  run-TypedHeap strict [] s h t = t
  run-TypedHeap strict (c ∷ cs) s h t =
      run-TypedHeap strict cs (perform c s) (λ e. and_right (fits c) (all_fit cs) (h e))
        (perform-TypedHeap strict c s (λ e. and_left (fits c) (all_fit cs) (h e)) t)

  -- Whatever methods of the builder a program calls, in whatever order and with whatever operands, from
  -- a new builder on: each instruction that it emits of an opcode with checked operands (vectors,
  -- strings, lists, loops and jumps) is well typed. So is every instruction, if the calls whose
  -- operands the builder does not check get operands that fit: two numbers of one type for arithmetic
  -- and `cmp`, with a name of a condition; a pointer and an integer for a load or store, of a number or
  -- a vector; an integer for `br`; pointers for `matmul` and `relu`; values of its type for `phi`; and
  -- no value of type VOID for `ret`.
  pub run-builder-TypedHeap :
      (strict : Bool) (cs : List (BuilderCall F))
      → (strict ≡ true → all_fit cs ≡ true)
      → TypedHeap strict (run cs State.init).heap
  unfolding State.init
  run-builder-TypedHeap strict cs h = run-TypedHeap strict cs State.init h tt
