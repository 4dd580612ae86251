-- ===== src/Riscv/Compressed.antt =====
-- `decode_compressed`: a 16-bit instruction (the C extension) to the full instruction that it
-- stands for (crates/fs-riscv/src/lib.rs), one function for each quadrant.
use fuzzsoft.Base.{ℕ, ◌+◌, ◌*◌, ◌^◌, ◌&&◌, bit_or, ◌==◌, if◌then◌else◌}
use fuzzsoft.Riscv.{
  AluOp, BranchOp, LoadOp, StoreOp, Inst, lui, jal, jalr, branch, load, store, op_imm, op_reg,
  ebreak, illegal, field, sext,
}

unfoldable pub cj_imm : ℕ → ℕ
cj_imm h =
    sext
      (bit_or
        (bit_or
          (bit_or
            (bit_or
              (bit_or
                (bit_or (bit_or (field h 12 1 * 2 ^ 11) (field h 11 1 * 2 ^ 4))
                  (field h 9 2 * 2 ^ 8))
                (field h 8 1 * 2 ^ 10))
              (field h 7 1 * 2 ^ 6))
            (field h 6 1 * 2 ^ 7))
          (field h 3 3 * 2 ^ 1))
        (field h 2 1 * 2 ^ 5))
      12

unfoldable pub cb_imm : ℕ → ℕ
cb_imm h =
    sext
      (bit_or
        (bit_or
          (bit_or (bit_or (field h 12 1 * 2 ^ 8) (field h 10 2 * 2 ^ 3)) (field h 5 2 * 2 ^ 6))
          (field h 3 2 * 2 ^ 1))
        (field h 2 1 * 2 ^ 5))
      9

-- The three-bit registers x8 to x15.
abbrev pub rd_c : ℕ → ℕ
rd_c h = 8 + field h 2 3

abbrev pub rs1_c : ℕ → ℕ
rs1_c h = 8 + field h 7 3

abbrev pub rd_full : ℕ → ℕ
rd_full h = field h 7 5

-- `((h >> 12) & 1) << 5 | ((h >> 2) & 0x1f)`.
abbrev pub imm6 : ℕ → ℕ
imm6 h = bit_or (field h 12 1 * 2 ^ 5) (field h 2 5)

-- The offset of C.LW and C.SW.
unfoldable pub lw_offset : ℕ → ℕ
lw_offset h = bit_or (bit_or (field h 10 3 * 2 ^ 3) (field h 6 1 * 2 ^ 2)) (field h 5 1 * 2 ^ 6)

unfoldable pub addi4spn_imm : ℕ → ℕ
addi4spn_imm h =
    bit_or (bit_or (bit_or (field h 11 2 * 2 ^ 4) (field h 7 4 * 2 ^ 6)) (field h 6 1 * 2 ^ 2))
      (field h 5 1 * 2 ^ 3)

unfoldable pub addi16sp_imm : ℕ → ℕ
addi16sp_imm h =
    sext
      (bit_or
        (bit_or (bit_or (bit_or (field h 12 1 * 2 ^ 9) (field h 6 1 * 2 ^ 4)) (field h 5 1 * 2 ^ 6))
          (field h 3 2 * 2 ^ 7))
        (field h 2 1 * 2 ^ 5))
      10

unfoldable pub lui_imm : ℕ → ℕ
lui_imm h = sext (bit_or (field h 12 1 * 2 ^ 17) (field h 2 5 * 2 ^ 12)) 18

unfoldable pub quadrant0 : ℕ → ℕ → Inst
unfolding addi4spn_imm lw_offset
quadrant0 h f3 =
    if f3 == 0
    then (if addi4spn_imm h == 0 then illegal h else op_imm AluOp.add (rd_c h) 2 (addi4spn_imm h))
    else if f3 == 2
    then load LoadOp.lw (rd_c h) (rs1_c h) (lw_offset h)
    else if f3 == 6
    then store StoreOp.sw (rs1_c h) (rd_c h) (lw_offset h)
    else illegal h

-- C.ADDI16SP and C.LUI.
unfoldable pub addi16sp_or_lui : ℕ → Inst
unfolding addi16sp_imm lui_imm
addi16sp_or_lui h =
    if rd_full h == 2
    then (if addi16sp_imm h == 0 then illegal h else op_imm AluOp.add 2 2 (addi16sp_imm h))
    else if rd_full h == 0
    then illegal h
    else if lui_imm h == 0
    then illegal h
    else lui (rd_full h) (lui_imm h)

-- The ALU group of quadrant 1.
unfoldable pub alu_group : ℕ → Inst
alu_group h =
    let funct2 = field h 10 2 in
    let reg_form = λ (op : AluOp). op_reg op (rs1_c h) (rs1_c h) (rd_c h) in
    if funct2 == 0
    then op_imm AluOp.srl (rs1_c h) (rs1_c h) (imm6 h)
    else if funct2 == 1
    then op_imm AluOp.sra (rs1_c h) (rs1_c h) (imm6 h)
    else if funct2 == 2
    then op_imm AluOp.and (rs1_c h) (rs1_c h) (sext (imm6 h) 6)
    else if (field h 12 1 == 0) && (field h 5 2 == 0)
    then reg_form AluOp.sub
    else if (field h 12 1 == 0) && (field h 5 2 == 1)
    then reg_form AluOp.xor
    else if (field h 12 1 == 0) && (field h 5 2 == 2)
    then reg_form AluOp.or
    else if (field h 12 1 == 0) && (field h 5 2 == 3)
    then reg_form AluOp.and
    else illegal h

unfoldable pub quadrant1 : ℕ → ℕ → Inst
unfolding cj_imm cb_imm
quadrant1 h f3 =
    if f3 == 0
    then op_imm AluOp.add (rd_full h) (rd_full h) (sext (imm6 h) 6)
    else if f3 == 1
    then jal 1 (cj_imm h)
    else if f3 == 2
    then op_imm AluOp.add (rd_full h) 0 (sext (imm6 h) 6)
    else if f3 == 3
    then addi16sp_or_lui h
    else if f3 == 4
    then alu_group h
    else if f3 == 5
    then jal 0 (cj_imm h)
    else if f3 == 6
    then branch BranchOp.eq (rs1_c h) 0 (cb_imm h)
    else if f3 == 7
    then branch BranchOp.ne (rs1_c h) 0 (cb_imm h)
    else illegal h

unfoldable pub lwsp_offset : ℕ → ℕ
lwsp_offset h = bit_or (bit_or (field h 12 1 * 2 ^ 5) (field h 4 3 * 2 ^ 2)) (field h 2 2 * 2 ^ 6)

unfoldable pub swsp_offset : ℕ → ℕ
swsp_offset h = bit_or (field h 9 4 * 2 ^ 2) (field h 7 2 * 2 ^ 6)

-- C.JR, C.MV, C.EBREAK, C.JALR and C.ADD.
unfoldable pub jump_or_move : ℕ → Inst
jump_or_move h =
    let rd = rd_full h in
    let rs2 = field h 2 5 in
    if field h 12 1 == 0
    then (if rd == 0
        then illegal h
        else if rs2 == 0
        then jalr 0 rd 0
        else op_reg AluOp.add rd 0 rs2)
    else if (rd == 0) && (rs2 == 0)
    then ebreak
    else if rs2 == 0
    then jalr 1 rd 0
    else op_reg AluOp.add rd rd rs2

unfoldable pub quadrant2 : ℕ → ℕ → Inst
unfolding lwsp_offset swsp_offset
quadrant2 h f3 =
    if f3 == 0
    then op_imm AluOp.sll (rd_full h) (rd_full h) (imm6 h)
    else if f3 == 2
    then (if rd_full h == 0 then illegal h else load LoadOp.lw (rd_full h) 2 (lwsp_offset h))
    else if f3 == 4
    then jump_or_move h
    else if f3 == 6
    then store StoreOp.sw 2 (field h 2 5) (swsp_offset h)
    else illegal h

unfoldable pub decode_compressed : ℕ → Inst
decode_compressed h =
    let op = field h 0 2 in
    let f3 = field h 13 3 in
    if op == 0
    then quadrant0 h f3
    else if op == 1
    then quadrant1 h f3
    else if op == 2
    then quadrant2 h f3
    else illegal h
