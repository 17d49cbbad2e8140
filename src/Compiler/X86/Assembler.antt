-- ===== src/Compiler/X86/Assembler.antt =====
-- The state of `X86_64Assembler` (uhcr/compiler/x86_64/assembler.py), its encoding helpers, and the
-- patching of labels. Registers are Python's integers; the program only uses those from 0 to 15.
use uhcr.Prelude.{
  ℕ, zero, suc, ◌+◌, ◌-◌, ◌*◌, ◌/◌, ◌%◌, ◌^◌, Bool, List, [], ◌∷◌, ◌++◌, Option, none, some, String,
  ℤ, pos, negsuc, sub_ℕ, string_eq, length, take, drop, leb, ltb, nat_beq, if◌then◌else◌, Outcome,
  ok, err, ◌||◌, not,
}
use uhcr.Prelude.Dict.{insert, lookup}
use Prim.Native.Nat.{bit_and, bit_or}

pub data AsmError : Type 0 where
  assertion_error : AsmError
  overflow_error : AsmError
  runtime_error : AsmError
  value_error : AsmError

-- A patch: the label, where its instruction starts, and where its offset stands.
pub record Patch : Type 0 where
  pub label : String
  pub inst_pos : ℕ
  pub patch_pos : ℕ

pub record Assembler : Type 0 where
  pub code : List ℕ
  pub labels : List (String × ℕ)
  pub patches : List Patch

-- `X86_64Assembler.__init__`
unfoldable pub init : Assembler
init = record { code = []; labels = []; patches = [] }

-- A method changes the state and returns or raises.
abbrev pub Asm : Type 0
Asm = Assembler → Assembler × Outcome AsmError (Unit {0})

abbrev pub and_then :
    Assembler × Outcome AsmError (Unit {0}) → Asm → Assembler × Outcome AsmError (Unit {0})
and_then (s, ok _) next = next s
and_then (s, err e) next = (s, err e)

infixl 5 ◌>>◌
abbrev pub ◌>>◌ : Asm → Asm → Asm
◌>>◌ m n s = and_then (m s) n

-- Python's `int.to_bytes(n, "little", signed=True)`, which raises OverflowError out of range.
abbrev pub little_endian : ℕ → ℕ → List ℕ
little_endian zero u = []
little_endian (suc n) u = u % 256 ∷ little_endian n (u / 256)

abbrev pub to_signed_bytes : ℕ → ℤ → Option (List ℕ)
to_signed_bytes n (pos m) = if ltb m (256 ^ n / 2) then some (little_endian n m) else none
to_signed_bytes n (negsuc m) =
    if ltb m (256 ^ n / 2) then some (little_endian n (256 ^ n - suc m)) else none

-- `_write` of a byte: `bytearray.append` takes no number above 255.
unfoldable pub write_byte : ℕ → Asm
write_byte b s =
    if ltb b 256 then (record s { code = s.code ++ b ∷ [] }, ok tt) else (s, err value_error)

-- `_write` of bytes.
unfoldable pub write_bytes : List ℕ → Asm
write_bytes bs s = (record s { code = s.code ++ bs }, ok tt)

abbrev pub write_some : Option (List ℕ) → Asm
write_some none s = (s, err overflow_error)
write_some (some bs) s = write_bytes bs s

-- `_encode_modrm`
unfoldable pub encode_modrm : ℕ → ℕ → ℕ → ℕ
encode_modrm mod_ reg rm = bit_or (bit_or (mod_ * 2 ^ 6) (bit_and reg 7 * 2 ^ 3)) (bit_and rm 7)

-- `_encode_sib`
unfoldable pub encode_sib : ℕ → ℕ → ℕ → ℕ
encode_sib scale index base =
    bit_or (bit_or (scale * 2 ^ 6) (bit_and index 7 * 2 ^ 3)) (bit_and base 7)

-- `_rex`
unfoldable pub rex : Bool → ℕ → ℕ → ℕ → Option ℕ
rex w reg rm index =
    let with_w = if w then bit_or 64 8 else 64 in
    let with_reg = if leb 8 reg then bit_or with_w 4 else with_w in
    let with_index = if leb 8 index then bit_or with_reg 2 else with_reg in
    let full = if leb 8 rm then bit_or with_index 1 else with_index in
    if not (nat_beq full 64) || w then some full else none

-- `if rex: self._write(rex)`
abbrev pub write_rex : Option ℕ → Asm
write_rex none s = (s, ok tt)
write_rex (some zero) s = (s, ok tt)
write_rex (some (suc r)) s = write_byte (suc r) s

-- `_vex3` without an index register; its callers give one bit as `w` and `l`, so that no byte is too large.
unfoldable pub vex3 : ℕ → ℕ → ℕ → ℕ → ℕ → ℕ → ℕ → List ℕ
vex3 w reg vvvv l pp m_mmmm rm =
    let r = if leb 8 reg then 0 else 1 in
    let x = if leb 8 0 then 0 else 1 in
    let b = if leb 8 rm then 0 else 1 in
    let b2 = bit_or (bit_or (bit_or (r * 2 ^ 7) (x * 2 ^ 6)) (b * 2 ^ 5)) (bit_and m_mmmm 31) in
    let v_inv = 15 - bit_and vvvv 15 in
    let b3 = bit_or (bit_or (bit_or (w * 2 ^ 7) (v_inv * 2 ^ 3)) (l * 2 ^ 2)) (bit_and pp 3) in
    196 ∷ b2 ∷ b3 ∷ []

-- `label`
abbrev pub place_label : String → Assembler → Option ℕ → Assembler × Outcome AsmError (Unit {0})
place_label name s none = (record s { labels = insert name (length s.code) s.labels }, ok tt)
place_label name s (some _) = (s, err assertion_error)

unfoldable pub label : String → Asm
label name s = place_label name s (lookup name s.labels)

-- `self.code[patch_pos:patch_pos+4] = offset_bytes`
abbrev pub put_at : List ℕ → ℕ → List ℕ → List ℕ
put_at code p bytes = take p code ++ (bytes ++ drop (p + 4) code)

abbrev pub write_offset : Assembler → ℕ → Option (List ℕ) → Assembler × Outcome AsmError (Unit {0})
write_offset s patch_pos none = (s, err overflow_error)
write_offset s patch_pos (some bytes) = (record s { code = put_at s.code patch_pos bytes }, ok tt)

abbrev pub patch_with : Assembler → Patch → Option ℕ → Assembler × Outcome AsmError (Unit {0})
patch_with s p none = (s, err runtime_error)
patch_with s p (some target) =
    write_offset s p.patch_pos (to_signed_bytes 4 (sub_ℕ target (p.patch_pos + 4)))

-- The loop of `resolve_labels`.
abbrev pub apply_patches : List Patch → Asm
apply_patches [] s = (s, ok tt)
apply_patches (p ∷ ps) s = and_then (patch_with s p (lookup p.label s.labels)) (apply_patches ps)

abbrev pub clear_patches : Asm
clear_patches s = (record s { patches = [] }, ok tt)

unfoldable pub resolve_labels : Asm
resolve_labels s = and_then (apply_patches s.patches s) clear_patches

abbrev pub code_of : Assembler × Outcome AsmError (Unit {0}) → Assembler × Outcome AsmError (List ℕ)
code_of (s, ok _) = (s, ok s.code)
code_of (s, err e) = (s, err e)

unfoldable pub get_bytes : Assembler → Assembler × Outcome AsmError (List ℕ)
unfolding resolve_labels
get_bytes s = code_of (resolve_labels s)
