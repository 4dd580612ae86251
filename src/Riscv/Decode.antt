-- ===== src/Riscv/Decode.antt =====
-- `decode`: a 32-bit instruction word to an instruction (crates/fs-riscv/src/lib.rs), one function
-- for each opcode that has several forms.
use fuzzsoft.Base.{ℕ, ◌*◌, ◌^◌, ◌&&◌, Option, none, some, bit_or, ◌==◌, if◌then◌else◌}
use fuzzsoft.Riscv.{
  AluOp, MulOp, AmoOp, BranchOp, LoadOp, StoreOp, CsrOp, Inst, lui, auipc, jal, jalr, branch, load,
  store, op_imm, op_reg, mul_reg, lr_w, sc_w, amo_w, fence, ecall, ebreak, csr_op, mret, sret, wfi,
  sfence_vma, illegal, field, flag, sext, sra_word,
}

abbrev pub opcode_of : ℕ → ℕ
opcode_of raw = field raw 0 7

abbrev pub rd_of : ℕ → ℕ
rd_of raw = field raw 7 5

abbrev pub funct3_of : ℕ → ℕ
funct3_of raw = field raw 12 3

abbrev pub rs1_of : ℕ → ℕ
rs1_of raw = field raw 15 5

abbrev pub rs2_of : ℕ → ℕ
rs2_of raw = field raw 20 5

abbrev pub funct7_of : ℕ → ℕ
funct7_of raw = field raw 25 7

unfoldable pub i_imm : ℕ → ℕ
i_imm raw = sra_word raw 20

unfoldable pub s_imm : ℕ → ℕ
s_imm raw = bit_or (sra_word (field raw 25 7 * 2 ^ 25) 20) (field raw 7 5)

unfoldable pub b_imm : ℕ → ℕ
b_imm raw =
    sext
      (bit_or
        (bit_or (bit_or (field raw 31 1 * 2 ^ 12) (field raw 7 1 * 2 ^ 11))
          (field raw 25 6 * 2 ^ 5))
        (field raw 8 4 * 2 ^ 1))
      13

-- `raw & 0xffff_f000`.
unfoldable pub u_imm : ℕ → ℕ
u_imm raw = field raw 12 20 * 2 ^ 12

unfoldable pub j_imm : ℕ → ℕ
j_imm raw =
    sext
      (bit_or
        (bit_or (bit_or (field raw 31 1 * 2 ^ 20) (field raw 21 10 * 2 ^ 1))
          (field raw 20 1 * 2 ^ 11))
        (field raw 12 8 * 2 ^ 12))
      21

-- An operation, or the illegal instruction where there is none.
abbrev or_illegal : {A : Type 0} → ℕ → (A → Inst) → Option A → Inst
or_illegal raw f none = illegal raw
or_illegal raw f (some op) = f op

unfoldable pub branch_op : ℕ → Option BranchOp
branch_op f3 =
    if f3 == 0
    then some BranchOp.eq
    else if f3 == 1
    then some BranchOp.ne
    else if f3 == 4
    then some BranchOp.lt
    else if f3 == 5
    then some BranchOp.ge
    else if f3 == 6
    then some BranchOp.ltu
    else if f3 == 7
    then some BranchOp.geu
    else none

unfoldable pub load_op : ℕ → Option LoadOp
load_op f3 =
    if f3 == 0
    then some LoadOp.lb
    else if f3 == 1
    then some LoadOp.lh
    else if f3 == 2
    then some LoadOp.lw
    else if f3 == 4
    then some LoadOp.lbu
    else if f3 == 5
    then some LoadOp.lhu
    else none

unfoldable pub store_op : ℕ → Option StoreOp
store_op f3 =
    if f3 == 0
    then some StoreOp.sb
    else if f3 == 1
    then some StoreOp.sh
    else if f3 == 2
    then some StoreOp.sw
    else none

-- Opcode 0x13. A shift amount lies in the rs2 field.
unfoldable pub decode_op_imm : ℕ → Inst
unfolding i_imm
decode_op_imm raw =
    let f3 = funct3_of raw in
    let f7 = funct7_of raw in
    let imm_form = λ (op : AluOp). op_imm op (rd_of raw) (rs1_of raw) (i_imm raw) in
    let shift_form = λ (op : AluOp). op_imm op (rd_of raw) (rs1_of raw) (rs2_of raw) in
    if f3 == 0
    then imm_form AluOp.add
    else if f3 == 2
    then imm_form AluOp.slt
    else if f3 == 3
    then imm_form AluOp.sltu
    else if f3 == 4
    then imm_form AluOp.xor
    else if f3 == 6
    then imm_form AluOp.or
    else if f3 == 7
    then imm_form AluOp.and
    else if (f3 == 1) && (f7 == 0)
    then shift_form AluOp.sll
    else if (f3 == 5) && (f7 == 0)
    then shift_form AluOp.srl
    else if (f3 == 5) && (f7 == 0x20)
    then shift_form AluOp.sra
    else illegal raw

unfoldable pub mul_op : ℕ → Option MulOp
mul_op f3 =
    if f3 == 0
    then some MulOp.mul
    else if f3 == 1
    then some MulOp.mulh
    else if f3 == 2
    then some MulOp.mulhsu
    else if f3 == 3
    then some MulOp.mulhu
    else if f3 == 4
    then some MulOp.div
    else if f3 == 5
    then some MulOp.divu
    else if f3 == 6
    then some MulOp.rem
    else if f3 == 7
    then some MulOp.remu
    else none

unfoldable pub alu_op : ℕ → ℕ → Option AluOp
alu_op f3 f7 =
    if (f3 == 0) && (f7 == 0)
    then some AluOp.add
    else if (f3 == 0) && (f7 == 0x20)
    then some AluOp.sub
    else if (f3 == 1) && (f7 == 0)
    then some AluOp.sll
    else if (f3 == 2) && (f7 == 0)
    then some AluOp.slt
    else if (f3 == 3) && (f7 == 0)
    then some AluOp.sltu
    else if (f3 == 4) && (f7 == 0)
    then some AluOp.xor
    else if (f3 == 5) && (f7 == 0)
    then some AluOp.srl
    else if (f3 == 5) && (f7 == 0x20)
    then some AluOp.sra
    else if (f3 == 6) && (f7 == 0)
    then some AluOp.or
    else if (f3 == 7) && (f7 == 0)
    then some AluOp.and
    else none

unfoldable pub amo_op : ℕ → Option AmoOp
amo_op f5 =
    if f5 == 0x00
    then some AmoOp.add
    else if f5 == 0x01
    then some AmoOp.swap
    else if f5 == 0x04
    then some AmoOp.xor
    else if f5 == 0x08
    then some AmoOp.or
    else if f5 == 0x0c
    then some AmoOp.and
    else if f5 == 0x10
    then some AmoOp.min
    else if f5 == 0x14
    then some AmoOp.max
    else if f5 == 0x18
    then some AmoOp.minu
    else if f5 == 0x1c
    then some AmoOp.maxu
    else none

-- Opcode 0x2f with funct3 2.
unfoldable pub decode_amo : ℕ → Inst
unfolding amo_op
decode_amo raw =
    let f5 = field raw 27 5 in
    let aq = flag raw 26 in
    let rl = flag raw 25 in
    if f5 == 0x02
    then lr_w (rd_of raw) (rs1_of raw) aq rl
    else if f5 == 0x03
    then sc_w (rd_of raw) (rs1_of raw) (rs2_of raw) aq rl
    else or_illegal raw (λ op. amo_w op (rd_of raw) (rs1_of raw) (rs2_of raw) aq rl) (amo_op f5)

-- Opcode 0x73.
unfoldable pub decode_system : ℕ → Inst
decode_system raw =
    let f3 = funct3_of raw in
    let csr_form = λ (op : CsrOp). csr_op op (rd_of raw) (rs1_of raw) (field raw 20 12) in
    if f3 == 0
    then (if raw == 0x0000_0073
        then ecall
        else if raw == 0x0010_0073
        then ebreak
        else if raw == 0x3020_0073
        then mret
        else if raw == 0x1020_0073
        then sret
        else if raw == 0x1050_0073
        then wfi
        else if funct7_of raw == 0x09
        then sfence_vma
        else illegal raw)
    else if f3 == 1
    then csr_form CsrOp.rw_csr
    else if f3 == 2
    then csr_form CsrOp.rs_csr
    else if f3 == 3
    then csr_form CsrOp.rc_csr
    else if f3 == 5
    then csr_form CsrOp.rwi
    else if f3 == 6
    then csr_form CsrOp.rsi
    else if f3 == 7
    then csr_form CsrOp.rci
    else illegal raw

unfoldable pub decode : ℕ → Inst
decode raw =
    let op = opcode_of raw in
    let f3 = funct3_of raw in
    let rd = rd_of raw in
    let rs1 = rs1_of raw in
    let rs2 = rs2_of raw in
    if op == 0x37
    then lui rd (u_imm raw)
    else if op == 0x17
    then auipc rd (u_imm raw)
    else if op == 0x6f
    then jal rd (j_imm raw)
    else if (op == 0x67) && (f3 == 0)
    then jalr rd rs1 (i_imm raw)
    else if op == 0x63
    then or_illegal raw (λ b. branch b rs1 rs2 (b_imm raw)) (branch_op f3)
    else if op == 0x03
    then or_illegal raw (λ l. load l rd rs1 (i_imm raw)) (load_op f3)
    else if op == 0x23
    then or_illegal raw (λ s. store s rs1 rs2 (s_imm raw)) (store_op f3)
    else if op == 0x13
    then decode_op_imm raw
    else if (op == 0x33) && (funct7_of raw == 0x01)
    then or_illegal raw (λ m. mul_reg m rd rs1 rs2) (mul_op f3)
    else if op == 0x33
    then or_illegal raw (λ a. op_reg a rd rs1 rs2) (alu_op f3 (funct7_of raw))
    else if (op == 0x2f) && (f3 == 2)
    then decode_amo raw
    else if op == 0x0f
    then fence
    else if op == 0x73
    then decode_system raw
    else illegal raw
