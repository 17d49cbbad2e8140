-- ===== src/Compiler/X86/Writes.antt =====
-- Rules for what a method of the assembler (uhcr/compiler/x86_64/assembler.py) appends to the code.
use uhcr.Prelude.{
  reassociate, append_nil, ℕ, zero, suc, ◌+◌, ◌-◌, ◌*◌, ◌/◌, ◌%◌, ◌^◌, ◌<◌, ◌≡◌, ◌∙◌, refl, sym, ap,
  Bool, true, false, List, [], ◌∷◌, ◌++◌, none, some, ℤ, pos, negsuc, ltb, if◌then◌else◌, ok, arith,
  lt→ltb,
}
use uhcr.Compiler.X86.Assembler.{
  Asm, Assembler, and_then, ◌>>◌, write_byte, write_bytes, write_some, to_signed_bytes,
  little_endian,
}
use uhcr.Compiler.X86.Decoder.{unsigned, signed}

abbrev pub Writes : Asm → List ℕ → Type 0
Writes m bs = (s : Assembler) → m s ≡ (record s { code = s.code ++ bs }, ok tt)

pub >>-Writes :
    {m n : Asm} {bs cs : List ℕ} → Writes m bs → Writes n cs → Writes (m >> n) (bs ++ cs)
>>-Writes {m} {n} {bs} {cs} h k s =
    ap (λ out. and_then out n) (h s)
    ∙ k (record s { code = s.code ++ bs })
    ∙ ap (λ c. (record s { code = c }, ok tt)) (sym (reassociate s.code bs cs))

pub nothing-Writes : Writes (λ s. (s, ok tt)) []
nothing-Writes s = ap (λ c. (record s { code = c }, ok tt)) (append_nil s.code)

pub write_byte-Writes : {b : ℕ} → b < 256 → Writes (write_byte b) (b ∷ [])
unfolding write_byte
write_byte-Writes {b} h s = let small = lt→ltb b 256 h in rw small refl

pub write_bytes-Writes : (bs : List ℕ) → Writes (write_bytes bs) bs
unfolding write_bytes
write_bytes-Writes bs s = refl

-- Little-endian bytes read back.
pub unsigned-little_endian :
    (n u : ℕ) (rest : List ℕ)
    → u < 256 ^ n
    → unsigned n (little_endian n u ++ rest) ≡ some (u, rest)
unsigned-little_endian zero u rest h = ap (λ z. some (z, rest)) (omega arith)
unsigned-little_endian (suc n) u rest h =
    let below : u / 256 < 256 ^ n = omega arith in
    let back : u % 256 + 256 * (u / 256) ≡ u = omega arith in
    rw (unsigned-little_endian n (u / 256) rest below) (ap (λ z. some (z, rest)) back)

-- A number in the range of `n` signed bytes.
abbrev pub InRange : ℕ → ℤ → Type 0
InRange n (pos m) = m < 256 ^ n / 2
InRange n (negsuc m) = m < 256 ^ n / 2

abbrev pub signed_bytes : ℕ → ℤ → List ℕ
signed_bytes n (pos m) = little_endian n m
signed_bytes n (negsuc m) = little_endian n (256 ^ n - suc m)

pub write_signed-Writes :
    (n : ℕ) (z : ℤ) → InRange n z → Writes (write_some (to_signed_bytes n z)) (signed_bytes n z)
unfolding write_bytes
write_signed-Writes n (pos m) h s = let small = lt→ltb m (256 ^ n / 2) h in rw small refl
write_signed-Writes n (negsuc m) h s = let small = lt→ltb m (256 ^ n / 2) h in rw small refl

pub signed-signed_bytes :
    (n : ℕ) (z : ℤ) (rest : List ℕ)
    → InRange n z
    → signed n (signed_bytes n z ++ rest) ≡ some (z, rest)
signed-signed_bytes n (pos m) rest h =
    let small = lt→ltb m (256 ^ n / 2) h in
    let below : m < 256 ^ n = omega arith in rw (unsigned-little_endian n m rest below, small) refl
signed-signed_bytes n (negsuc m) rest h =
    let large : ltb (256 ^ n - suc m) (256 ^ n / 2) ≡ false = ground arith in
    let below : 256 ^ n - suc m < 256 ^ n = omega arith in
    let back : 256 ^ n - 1 - (256 ^ n - suc m) ≡ m = omega arith in
    rw (unsigned-little_endian n (256 ^ n - suc m) rest below, large)
      (ap (λ z. some (negsuc z, rest)) back)

-- A conditional value that is there was chosen.
pub chosen :
    (t : Bool) (xs bytes : List ℕ)
    → (if t then some xs else none) ≡ some bytes
    → (t ≡ true) × (xs ≡ bytes)
chosen true xs bytes e = (refl, cc)
chosen false xs bytes e = absurd cc
