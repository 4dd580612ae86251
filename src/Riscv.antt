-- ===== src/Riscv.antt =====
-- The RV32IMAC instruction set: the data types of crates/fs-riscv/src/lib.rs, and the words that
-- they hold. A `u32` is a number below 2 ^ 32, and an `i32` is kept as its two's complement word.
pub mod Alu
pub mod Asm
pub mod Compressed
pub mod Cpu
pub mod Csr
pub mod Decode
use fuzzsoft.Base.{ℕ, ◌+◌, ◌-◌, ◌*◌, ◌/◌, ◌%◌, ◌^◌, Bool, bit_or, ltb, if◌then◌else◌}
use fuzzsoft.Fault.{u32}

pub data AluOp : Type 0 where
  add sub sll slt sltu xor srl sra or and : AluOp

pub data MulOp : Type 0 where
  mul mulh mulhsu mulhu div divu rem remu : MulOp

pub data AmoOp : Type 0 where
  swap add xor and or min max minu maxu : AmoOp

pub data BranchOp : Type 0 where
  eq ne lt ge ltu geu : BranchOp

pub data LoadOp : Type 0 where
  lb lh lw lbu lhu : LoadOp

pub data StoreOp : Type 0 where
  sb sh sw : StoreOp

pub data CsrOp : Type 0 where
  rw_csr rs_csr rc_csr rwi rsi rci : CsrOp

-- `imm` is a word throughout: an `i32` field holds its two's complement.
pub data Inst : Type 0 where
  lui : (rd imm : ℕ) → Inst
  auipc : (rd imm : ℕ) → Inst
  jal : (rd imm : ℕ) → Inst
  jalr : (rd rs1 imm : ℕ) → Inst
  branch : (op : BranchOp) (rs1 rs2 imm : ℕ) → Inst
  load : (op : LoadOp) (rd rs1 imm : ℕ) → Inst
  store : (op : StoreOp) (rs1 rs2 imm : ℕ) → Inst
  op_imm : (op : AluOp) (rd rs1 imm : ℕ) → Inst
  op_reg : (op : AluOp) (rd rs1 rs2 : ℕ) → Inst
  mul_reg : (op : MulOp) (rd rs1 rs2 : ℕ) → Inst
  lr_w : (rd rs1 : ℕ) (aq rl : Bool) → Inst
  sc_w : (rd rs1 rs2 : ℕ) (aq rl : Bool) → Inst
  amo_w : (op : AmoOp) (rd rs1 rs2 : ℕ) (aq rl : Bool) → Inst
  fence ecall ebreak : Inst
  csr_op : (op : CsrOp) (rd src csr : ℕ) → Inst
  mret sret wfi sfence_vma : Inst
  illegal : (raw : ℕ) → Inst

-- `(x >> lo) & (2 ^ width - 1)`.
abbrev pub field : ℕ → ℕ → ℕ → ℕ
field x lo width = x / 2 ^ lo % 2 ^ width

-- `(x >> lo) & 1 != 0`.
abbrev pub flag : ℕ → ℕ → Bool
flag x lo = ltb 0 (field x lo 1)

-- `sext(v, bits)`: `bits` low bits of `v`, sign-extended to a word.
abbrev pub sext : ℕ → ℕ → ℕ
sext v bits =
    if ltb (v % 2 ^ bits) (2 ^ (bits - 1)) then v % 2 ^ bits else v % 2 ^ bits + 2 ^ 32 - 2 ^ bits

-- `(raw as i32) >> k`, for k between 1 and 31.
abbrev pub sra_word : ℕ → ℕ → ℕ
sra_word w k = if ltb w (2 ^ 31) then w / 2 ^ k else w / 2 ^ k + 2 ^ 32 - 2 ^ (32 - k)
