-- ===== src/Compiler/X86/Patching.antt =====
-- Filling the places of the offsets: `resolve_labels` of uhcr/compiler/x86_64/assembler.py. Code with
-- open places is a sequence of pieces.
use uhcr.Prelude.{
  reassociate, ℕ, suc, ◌+◌, ◌-◌, ◌≡◌, ◌∙◌, refl, sym, ap, subst, List, [], ◌∷◌, ◌++◌, Option, none,
  some, String, sub_ℕ, ℤ, pos, negsuc, ltb, ◌^◌, ◌/◌, string_eq, length, length-append, take, drop,
  Outcome, ok, err, arith,
}
use uhcr.Prelude.Dict.{lookup}
use uhcr.Compiler.X86.Assembler.{
  Assembler, Patch, AsmError, runtime_error, overflow_error, and_then, to_signed_bytes, put_at,
  write_offset, patch_with, apply_patches, clear_patches, resolve_labels, get_bytes, code_of,
  little_endian,
}
use uhcr.Compiler.X86.Writes.{chosen}

-- Bytes, or the place of the offset to a label, `n` bytes into its instruction.
pub data Piece : Type 0 where
  raw : List ℕ → Piece
  hole : ℕ → String → Piece

abbrev pub flatten : List Piece → List ℕ
flatten [] = []
flatten (raw bs ∷ ps) = bs ++ flatten ps
flatten (hole k l ∷ ps) = 0 ∷ 0 ∷ 0 ∷ 0 ∷ flatten ps

-- The patches that ask for the places, in code that starts at a position.
abbrev pub holes : ℕ → List Piece → List Patch
holes n [] = []
holes n (raw bs ∷ ps) = holes (n + length bs) ps
holes n (hole k l ∷ ps) = record { label = l; inst_pos = n - k; patch_pos = n } ∷ holes (n + 4) ps

abbrev pub prepend : List ℕ → Outcome AsmError (List ℕ) → Outcome AsmError (List ℕ)
prepend bs (ok rest) = ok (bs ++ rest)
prepend bs (err e) = err e

abbrev pub joined :
    Outcome AsmError (List ℕ) → Outcome AsmError (List ℕ) → Outcome AsmError (List ℕ)
joined (ok bytes) rest = prepend bytes rest
joined (err e) rest = err e

-- The offset that a place gets: from the end of the place to the label.
abbrev pub in_range : Option (List ℕ) → Outcome AsmError (List ℕ)
in_range none = err overflow_error
in_range (some bytes) = ok bytes

abbrev pub offset_to : ℕ → Option ℕ → Outcome AsmError (List ℕ)
offset_to n none = err runtime_error
offset_to n (some target) = in_range (to_signed_bytes 4 (sub_ℕ target (n + 4)))

abbrev pub filled : List (String × ℕ) → ℕ → List Piece → Outcome AsmError (List ℕ)
filled labels n [] = ok []
filled labels n (raw bs ∷ ps) = prepend bs (filled labels (n + length bs) ps)
filled labels n (hole k l ∷ ps) = joined (offset_to n (lookup l labels)) (filled labels (n + 4) ps)

take_all : (xs ys : List ℕ) → take (length xs) (xs ++ ys) ≡ xs
take_all [] ys = refl
take_all (x ∷ xs) ys = ap (λ l. x ∷ l) (take_all xs ys)

drop_all : (xs ys : List ℕ) → drop (length xs + 4) (xs ++ 0 ∷ 0 ∷ 0 ∷ 0 ∷ ys) ≡ ys
drop_all [] ys = refl
drop_all (x ∷ xs) ys =
    let next : suc (length xs) + 4 ≡ suc (length xs + 4) = omega arith in rw next (drop_all xs ys)

put_at-hole :
    (done rest bytes : List ℕ)
    → put_at (done ++ 0 ∷ 0 ∷ 0 ∷ 0 ∷ rest) (length done) bytes ≡ (done ++ bytes) ++ rest
put_at-hole done rest bytes =
    rw (take_all done (0 ∷ 0 ∷ 0 ∷ 0 ∷ rest), drop_all done rest) (reassociate done bytes rest)

length_four : (z : ℤ) (bytes : List ℕ) → to_signed_bytes 4 z ≡ some bytes → length bytes ≡ 4
length_four (pos m) bytes e =
    ap length (sym (chosen (ltb m (256 ^ 4 / 2)) (little_endian 4 m) bytes e).1)
length_four (negsuc m) bytes e =
    ap length (sym (chosen (ltb m (256 ^ 4 / 2)) (little_endian 4 (256 ^ 4 - suc m)) bytes e).1)

module _ (labels : List (String × ℕ)) (patches : List Patch) where
  abbrev with_code : List ℕ → Assembler
  with_code c = record { code = c; labels = labels; patches = patches }

  -- What `apply_patches` leaves, for what the places are filled with.
  abbrev Patched :
      List ℕ → Outcome AsmError (List ℕ) → Assembler × Outcome AsmError (Unit {0}) → Type 0
  Patched done (ok bytes) out = out ≡ (with_code (done ++ bytes), ok tt)
  Patched done (err e) out = out.1 ≡ err e

  Patched-prepend :
      (done bs : List ℕ) (o : Outcome AsmError (List ℕ))
      (out : Assembler × Outcome AsmError (Unit {0}))
      → Patched (done ++ bs) o out
      → Patched done (prepend bs o) out
  Patched-prepend done bs (ok rest) out h =
      h ∙ ap (λ c. (with_code c, ok tt)) (sym (reassociate done bs rest))
  Patched-prepend done bs (err e) out h = h

  module _ (done : List ℕ) (n k : ℕ) (l : String) (ps : List Piece) (at : length done ≡ n) where
    -- What holds of the pieces that follow, with the place filled.
    abbrev Follows : Type 0
    Follows =
        (bytes : List ℕ)
        → length bytes ≡ 4
        → Patched (done ++ bytes) (filled labels (n + 4) ps)
            (apply_patches (holes (n + 4) ps) (with_code ((done ++ bytes) ++ flatten ps)))

    put_back :
        (bytes : List ℕ)
        → put_at (done ++ 0 ∷ 0 ∷ 0 ∷ 0 ∷ flatten ps) n bytes ≡ (done ++ bytes) ++ flatten ps
    put_back bytes =
        subst
          (λ m. put_at (done ++ 0 ∷ 0 ∷ 0 ∷ 0 ∷ flatten ps) m bytes ≡ (done ++ bytes) ++ flatten ps)
          at (put_at-hole done (flatten ps) bytes)

    Patched-offset :
        Follows
        → (o : Option (List ℕ)) → ((bytes : List ℕ) → o ≡ some bytes → length bytes ≡ 4)
        → Patched done (joined (in_range o) (filled labels (n + 4) ps)) (
            and_then
              (write_offset (with_code (done ++ 0 ∷ 0 ∷ 0 ∷ 0 ∷ flatten ps)) n o)
              (apply_patches (holes (n + 4) ps)))
    Patched-offset next none four = refl
    Patched-offset next (some bytes) four =
        rw (put_back bytes)
          (Patched-prepend done bytes (filled labels (n + 4) ps) _ (next bytes (four bytes refl)))

    Patched-hole :
        Follows
        → (o : Option ℕ)
        → Patched done (joined (offset_to n o) (filled labels (n + 4) ps)) (
            and_then
              (patch_with
                (with_code (done ++ 0 ∷ 0 ∷ 0 ∷ 0 ∷ flatten ps))
                (record { label = l; inst_pos = n - k; patch_pos = n })
                o)
              (apply_patches (holes (n + 4) ps)))
    Patched-hole next none = refl
    Patched-hole next (some target) =
        Patched-offset next (to_signed_bytes 4 (sub_ℕ target (n + 4)))
          (length_four (sub_ℕ target (n + 4)))

  apply_patches-filled :
      (ps : List Piece) (done c : List ℕ) (n : ℕ)
      → length done ≡ n
      → c ≡ done ++ flatten ps
      → Patched done (filled labels n ps) (apply_patches (holes n ps) (with_code c))
  apply_patches-filled [] done c n at e = ap (λ x. (with_code x, ok tt)) e
  apply_patches-filled (raw bs ∷ ps) done c n at e =
      let further : length (done ++ bs) ≡ n + length bs = omega (arith, length-append done bs) in
      Patched-prepend done bs (filled labels (n + length bs) ps) _ (
        apply_patches-filled ps (done ++ bs) c (n + length bs) further
          (e ∙ reassociate done bs (flatten ps)))
  apply_patches-filled (hole k l ∷ ps) done c n at e = rw e (
      Patched-hole done n k l ps at
        (λ bytes. λ four.
          let further : length (done ++ bytes) ≡ n + 4 = omega (arith, length-append done bytes) in
          apply_patches-filled ps (done ++ bytes) ((done ++ bytes) ++ flatten ps) (n + 4) further
            refl)
        (lookup l labels))

ok_code :
    {t : Assembler} {code : List ℕ} (labels : List (String × ℕ)) (patches : List Patch)
    (o : Outcome AsmError (List ℕ)) (out : Assembler × Outcome AsmError (Unit {0}))
    → Patched labels patches [] o out
    → code_of (and_then out clear_patches) ≡ (t, ok code)
    → o ≡ ok code
ok_code labels patches (ok bytes) out h e =
    let back : code_of (and_then out clear_patches)
        ≡ (record { code = bytes; labels = labels; patches = [] }, ok bytes) =
      ap (λ x. code_of (and_then x clear_patches)) h in
    ap (λ x. x.1) (sym back ∙ e)
ok_code labels patches (err x) (s, err y) h e = absurd cc
ok_code labels patches (err x) (s, ok u) h e = absurd cc

-- What `get_bytes` returns, where it returns, for code whose open places are those of its patches.
pub get_bytes-filled :
    (ps : List Piece) (s t : Assembler) (code : List ℕ)
    → s.code ≡ flatten ps
    → s.patches ≡ holes 0 ps
    → get_bytes s ≡ (t, ok code)
    → filled s.labels 0 ps ≡ ok code
unfolding get_bytes resolve_labels
get_bytes-filled ps s t code c p e =
    ok_code s.labels s.patches (filled s.labels 0 ps) (apply_patches s.patches s)
      (subst (λ q. Patched s.labels s.patches [] (filled s.labels 0 ps) (apply_patches q s)) (sym p)
        (apply_patches-filled s.labels s.patches ps [] s.code 0 refl c))
      e

pub get_bytes-ok :
    (ps : List Piece) (s : Assembler) (code : List ℕ)
    → s.code ≡ flatten ps
    → s.patches ≡ holes 0 ps
    → filled s.labels 0 ps ≡ ok code
    → get_bytes s ≡ (record { code = code; labels = s.labels; patches = [] }, ok code)
unfolding get_bytes resolve_labels
get_bytes-ok ps s code c p e =
    let whole = apply_patches-filled s.labels s.patches ps [] s.code 0 refl c in
    ap (λ out. code_of (and_then out clear_patches))
      (subst (λ o. Patched s.labels s.patches [] o (apply_patches s.patches s)) e
        (subst (λ q. Patched s.labels s.patches [] (filled s.labels 0 ps) (apply_patches q s))
          (sym p) whole))
