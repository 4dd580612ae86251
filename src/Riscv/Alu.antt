-- ===== src/Riscv/Alu.antt =====
-- `alu` and `muldiv` (crates/fs-riscv/src/lib.rs), and the taint of their results.
pub mod Laws
use fuzzsoft.Base.{
  ℕ, ◌+◌, ◌-◌, ◌*◌, ◌/◌, ◌%◌, ◌^◌, Bool, ◌&&◌, ◌||◌, bit_and, bit_or, bit_xor, nonzero, ltb, leb,
  ◌==◌, if◌then◌else◌,
}
use fuzzsoft.Fault.{u32}
use fuzzsoft.Riscv.{AluOp, MulOp}

-- `(a as i32) < 0`.
abbrev pub negative : ℕ → Bool
negative a = leb (2 ^ 31) a

-- `(a as i32).unsigned_abs()`.
abbrev pub magnitude : ℕ → ℕ
magnitude a = if negative a then 2 ^ 32 - a else a

-- `-n` as a word.
abbrev pub neg_word : ℕ → ℕ
neg_word n = u32 (2 ^ 32 - u32 n)

-- `(a as i32) < (b as i32)`: the order of the words with their sign bits flipped.
abbrev pub slt : ℕ → ℕ → Bool
slt a b = ltb (u32 (a + 2 ^ 31)) (u32 (b + 2 ^ 31))

abbrev pub of_bool : Bool → ℕ
of_bool b = if b then 1 else 0

-- `(a as i32) >> k` for k below 32: the vacated bits are copies of the sign bit.
abbrev pub sra : ℕ → ℕ → ℕ
sra a k = if negative a then 2 ^ 32 - 1 - (2 ^ 32 - 1 - a) / 2 ^ k else a / 2 ^ k

-- A product of magnitudes with its sign, as a 64-bit two's complement.
abbrev pub signed64 : Bool → ℕ → ℕ
signed64 minus p = if minus then (2 ^ 64 - p) % 2 ^ 64 else p

unfoldable pub alu : AluOp → ℕ → ℕ → ℕ
alu AluOp.add a b = u32 (a + b)
alu AluOp.sub a b = u32 (a + 2 ^ 32 - b)
alu AluOp.sll a b = u32 (a * 2 ^ (b % 32))
alu AluOp.slt a b = of_bool (slt a b)
alu AluOp.sltu a b = of_bool (ltb a b)
alu AluOp.xor a b = bit_xor a b
alu AluOp.srl a b = a / 2 ^ (b % 32)
alu AluOp.sra a b = sra a (b % 32)
alu AluOp.or a b = bit_or a b
alu AluOp.and a b = bit_and a b

-- Division of `i32`s rounds to zero: a quotient of magnitudes, and a remainder with the sign of `a`.
unfoldable pub div_signed : ℕ → ℕ → ℕ
div_signed a b =
    let q = magnitude a / magnitude b in
    if negative a
    then (if negative b then u32 q else neg_word q)
    else (if negative b then neg_word q else u32 q)

unfoldable pub rem_signed : ℕ → ℕ → ℕ
rem_signed a b = let r = magnitude a % magnitude b in if negative a then neg_word r else u32 r

unfoldable pub muldiv : MulOp → ℕ → ℕ → ℕ
unfolding div_signed rem_signed
muldiv MulOp.mul a b = u32 (a * b)
muldiv MulOp.mulh a b =
    let p = magnitude a * magnitude b in
    let minus = if negative a then fuzzsoft.Base.not (negative b) else negative b in
    u32 (signed64 minus p / 2 ^ 32)
muldiv MulOp.mulhsu a b = u32 (signed64 (negative a) (magnitude a * b) / 2 ^ 32)
muldiv MulOp.mulhu a b = u32 (a * b / 2 ^ 32)
muldiv MulOp.div a b =
    if b == 0
    then 0xffff_ffff
    else if (a == 0x8000_0000) && (b == 0xffff_ffff)
    then 0x8000_0000
    else div_signed a b
muldiv MulOp.divu a b = if b == 0 then 0xffff_ffff else a / b
muldiv MulOp.rem a b =
    if b == 0 then a else if (a == 0x8000_0000) && (b == 0xffff_ffff) then 0 else rem_signed a b
muldiv MulOp.remu a b = if b == 0 then a else a % b

-- The operation and the operands' values are not used.
unfoldable pub alu_taint : AluOp → ℕ → ℕ → ℕ → ℕ → ℕ
alu_taint op a_val a_taint b_val b_taint = bit_or a_taint b_taint

unfoldable pub muldiv_taint : MulOp → ℕ → ℕ → ℕ → ℕ → ℕ
muldiv_taint op a_val a_taint b_val b_taint =
    if nonzero a_taint || nonzero b_taint then 0xffff_ffff else 0
