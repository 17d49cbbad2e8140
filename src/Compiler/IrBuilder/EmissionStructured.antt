-- ===== src/Compiler/IrBuilder/EmissionStructured.antt =====
-- The types of what the methods of `IRBuilder` (uhcr/compiler/ir_builder.py) on strings, loops and lists
-- emit.
use uhcr.Prelude.{both_true, ℕ, ◌≡◌, refl, sym, ◌∙◌, Bool, true, Option, none, some, ◌==◌, ==→≡}
use uhcr.Compiler.Ir.Types.{Ty, type_eq, i32, i64, string, is_list_type, get_element_type}
use uhcr.Compiler.Ir.Function.{value_type}
use uhcr.Compiler.IrBuilder.State.{BlockRef, Operand, Exec, ◌>>=◌, create_block_in}
use uhcr.Compiler.IrBuilder.Methods.{is_integer, jmp}
use uhcr.Compiler.IrBuilder.Structured.{
  strlen, strcat, to_i64, strindex, strslice, streq, strhash, loop, current_function,
  loop_with_cond, break_loop, continue_loop, listlen, listindex, listslice, listappend, listpop,
  listinsert, listremove,
}
use uhcr.Compiler.IrBuilder.Typing.{well_typed, has_element, integer_type}
use uhcr.Compiler.IrBuilder.Rules.{
  Emits, emit-Emits, val-Emits, require-Emits, element_of-Emits, bind-Emits, pure-Emits,
  create_block_in-Emits,
}
use uhcr.Compiler.IrBuilder.Emission.{same, jmp-Emits}

is_integer-agrees : (t : Ty) → is_integer t ≡ integer_type t
is_integer-agrees i32 = refl
is_integer-agrees _ = refl

integer_of : (t : Ty) → is_integer t ≡ true → integer_type t ≡ true
integer_of t h = sym (is_integer-agrees t) ∙ h

element_case :
    {o : Option Ty} {u : Ty} (t : Ty) → o ≡ some u → (t == u) ≡ true → has_element o t ≡ true
element_case {o} {u} t e h = rw e (same u t (sym (==→≡ t u h)))

element_same : {o : Option Ty} {u : Ty} → o ≡ some u → has_element o u ≡ true
element_same {o} {u} e = rw e (same u u refl)

module _ {F : Type 0} (strict : Bool) where
  pub strlen-Emits : (s : Operand F) → Emits {F = F} strict (strlen s)
  unfolding strlen well_typed
  strlen-Emits s =
      val-Emits strict s _
        (λ vs. require-Emits strict (value_type vs == string) _ (λ h. emit-Emits strict _ _ _ (h)))

  pub strcat-Emits : (a b : Operand F) → Emits {F = F} strict (strcat a b)
  unfolding strcat well_typed
  strcat-Emits a b = val-Emits strict a _ (λ va. val-Emits strict b _ (λ vb.
      require-Emits strict (value_type va == string) _ (λ h.
        require-Emits strict (value_type vb == string) _
          (λ k. emit-Emits strict _ _ _ (both_true _ _ h k)))))

  pub strindex-Emits : (s i : Operand F) → Emits {F = F} strict (strindex s i)
  unfolding strindex well_typed
  strindex-Emits s i = val-Emits strict s _ (λ vs. val-Emits strict i _ (λ vi.
      require-Emits strict (value_type vs == string) _ (λ h.
        require-Emits strict (value_type (to_i64 vi) == i64) _
          (λ k. emit-Emits strict _ _ _ (both_true _ _ h k)))))

  pub strslice-Emits : (s i j : Operand F) → Emits {F = F} strict (strslice s i j)
  unfolding strslice well_typed
  strslice-Emits s i j = val-Emits strict s _ (λ vs. val-Emits strict i _ (λ vi.
      val-Emits strict j _ (λ vj. require-Emits strict (value_type vs == string) _ (λ h.
        require-Emits strict (value_type (to_i64 vi) == i64) _ (λ k.
          require-Emits strict (value_type (to_i64 vj) == i64) _
            (λ l. emit-Emits strict _ _ _ (both_true _ _ h (both_true _ _ k l))))))))

  pub streq-Emits : (a b : Operand F) → Emits {F = F} strict (streq a b)
  unfolding streq well_typed
  streq-Emits a b = val-Emits strict a _ (λ va. val-Emits strict b _ (λ vb.
      require-Emits strict (value_type va == string) _ (λ h.
        require-Emits strict (value_type vb == string) _
          (λ k. emit-Emits strict _ _ _ (both_true _ _ h k)))))

  pub strhash-Emits : (s : Operand F) → Emits {F = F} strict (strhash s)
  unfolding strhash well_typed
  strhash-Emits s =
      val-Emits strict s _
        (λ vs. require-Emits strict (value_type vs == string) _ (λ h. emit-Emits strict _ _ _ (h)))

  pub loop_with_cond-Emits :
      (c : Operand F) (l m : BlockRef) → Emits {F = F} strict (loop_with_cond c l m)
  unfolding loop_with_cond well_typed
  loop_with_cond-Emits c l m = val-Emits strict c _ (λ vc.
      require-Emits strict (is_integer (value_type vc)) _
        (λ h. emit-Emits strict _ _ _ (both_true _ _ (integer_of (value_type vc) h) refl)))

  pub break_loop-Emits : (l : BlockRef) → Emits {F = F} strict (break_loop l)
  unfolding break_loop well_typed
  break_loop-Emits l = emit-Emits strict _ _ _ (refl)

  pub continue_loop-Emits : (l : BlockRef) → Emits {F = F} strict (continue_loop l)
  unfolding continue_loop well_typed
  continue_loop-Emits l = emit-Emits strict _ _ _ (refl)

  pub listlen-Emits : (l : Operand F) → Emits {F = F} strict (listlen l)
  unfolding listlen well_typed
  listlen-Emits l = val-Emits strict l _ (λ vl.
      require-Emits strict (is_list_type (value_type vl)) _ (λ h. emit-Emits strict _ _ _ (h)))

  pub listindex-Emits : (l i : Operand F) → Emits {F = F} strict (listindex l i)
  unfolding listindex well_typed
  listindex-Emits l i = val-Emits strict l _ (λ vl. val-Emits strict i _ (λ vi.
      require-Emits strict (is_list_type (value_type vl)) _ (λ h.
        require-Emits strict (is_integer (value_type vi)) _ (λ k.
          element_of-Emits strict (get_element_type (value_type vl)) _ (λ u. λ e.
            emit-Emits strict _ _ _
              (both_true _ _ (element_same e) (integer_of (value_type vi) k)))))))

  pub listslice-Emits : (l i j : Operand F) → Emits {F = F} strict (listslice l i j)
  unfolding listslice well_typed
  listslice-Emits l i j = val-Emits strict l _ (λ vl. val-Emits strict i _ (λ vi.
      val-Emits strict j _ (λ vj. require-Emits strict (is_list_type (value_type vl)) _ (λ h.
        require-Emits strict (is_integer (value_type vi)) _ (λ k.
          require-Emits strict (is_integer (value_type vj)) _ (λ m. emit-Emits strict _ _ _ (
            both_true _ _ (both_true _ _ h (same (value_type vl) _ refl))
              (both_true _ _ (integer_of (value_type vi) k) (integer_of (value_type vj) m)))))))))

  pub listappend-Emits : (l x : Operand F) → Emits {F = F} strict (listappend l x)
  unfolding listappend well_typed
  listappend-Emits l x = val-Emits strict l _ (λ vl. val-Emits strict x _ (λ vx.
      require-Emits strict (is_list_type (value_type vl)) _ (λ h.
        element_of-Emits strict (get_element_type (value_type vl)) _ (λ u. λ e.
          require-Emits strict (value_type vx == u) _
            (λ k. emit-Emits strict _ _ _ (element_case (value_type vx) e k))))))

  pub listpop-Emits : (l : Operand F) → Emits {F = F} strict (listpop l)
  unfolding listpop well_typed
  listpop-Emits l = val-Emits strict l _ (λ vl.
      require-Emits strict (is_list_type (value_type vl)) _ (λ h.
        element_of-Emits strict (get_element_type (value_type vl)) _
          (λ u. λ e. emit-Emits strict _ _ _ (element_same e))))

  pub listinsert-Emits : (l i x : Operand F) → Emits {F = F} strict (listinsert l i x)
  unfolding listinsert well_typed
  listinsert-Emits l i x = val-Emits strict l _ (λ vl. val-Emits strict i _ (λ vi.
      val-Emits strict x _ (λ vx. require-Emits strict (is_list_type (value_type vl)) _ (λ h.
        require-Emits strict (is_integer (value_type vi)) _ (λ m.
          element_of-Emits strict (get_element_type (value_type vl)) _ (λ u. λ e.
            require-Emits strict (value_type vx == u) _ (λ k. emit-Emits strict _ _ _ (
              both_true _ _ (integer_of (value_type vi) m)
                (element_case (value_type vx) e k)))))))))

  pub listremove-Emits : (l x : Operand F) → Emits {F = F} strict (listremove l x)
  unfolding listremove well_typed
  listremove-Emits l x = val-Emits strict l _ (λ vl. val-Emits strict x _ (λ vx.
      require-Emits strict (is_list_type (value_type vl)) _ (λ h.
        element_of-Emits strict (get_element_type (value_type vl)) _ (λ u. λ e.
          require-Emits strict (value_type vx == u) _
            (λ k. emit-Emits strict _ _ _ (element_case (value_type vx) e k))))))

  current_function-Emits {ℓ} :
      {B : Type ℓ} (o : Option ℕ) (k : ℕ → Exec F B)
      → ((i : ℕ) → Emits strict (k i))
      → Emits strict (current_function o >>= k)
  current_function-Emits none k h b t = t
  current_function-Emits (some i) k h b t = h i b t

  pub loop-Emits : Emits {F = F} strict loop
  unfolding loop
  loop-Emits b t =
      current_function-Emits b.function _
        (λ i.
          bind-Emits strict (create_block_in i "loop_cond") _
            (create_block_in-Emits strict i "loop_cond")
            (λ c.
              bind-Emits strict (create_block_in i "loop_body") _
                (create_block_in-Emits strict i "loop_body")
                (λ d.
                  bind-Emits strict (create_block_in i "loop_exit") _
                    (create_block_in-Emits strict i "loop_exit")
                    (λ e.
                      bind-Emits strict (jmp c) _ (jmp-Emits strict c)
                        (λ _. pure-Emits strict {A = BlockRef × BlockRef} (d, e))))))
        b t
