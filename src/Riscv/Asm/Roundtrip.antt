-- ===== src/Riscv/Asm/Roundtrip.antt =====
-- Decoding what the encoders make.
use fuzzsoft.Base.{ℕ, ◌+◌, ◌*◌, ◌%◌, ◌^◌, ◌<◌, ◌≡◌, refl, ◌∙◌, false, some, ◌==◌, arith, bit_or}
use fuzzsoft.Base.Bits.{bit_or_fields}
use fuzzsoft.Riscv.{
  AluOp, MulOp, BranchOp, LoadOp, branch, load, op_reg, mul_reg, field, sext, sra_word,
}
use fuzzsoft.Riscv.Decode.{decode, i_imm, b_imm, branch_op, load_op, alu_op, mul_op}
use fuzzsoft.Riscv.Asm.{i_type, r_type, b_type}

-- The fields of an I-type word, as a sum.
i_type_sum :
    (op funct3 rd rs1 imm : ℕ)
    → op < 128
    → funct3 < 8
    → rd < 32
    → rs1 < 32
    → i_type op funct3 rd rs1 imm
      ≡ imm % 4096 * 2 ^ 20 + rs1 * 2 ^ 15 + funct3 * 2 ^ 12 + rd * 2 ^ 7 + op
unfolding i_type
i_type_sum op funct3 rd rs1 imm ho hf hd hs =
    let imm12 = imm % 4096 in
    ground (
      arith,
      bit_or_fields 20 imm12 (rs1 * 2 ^ 15),
      bit_or_fields 15 (imm12 * 2 ^ 5 + rs1) (funct3 * 2 ^ 12),
      bit_or_fields 12 (imm12 * 2 ^ 8 + rs1 * 2 ^ 3 + funct3) (rd * 2 ^ 7),
      bit_or_fields 7 (imm12 * 2 ^ 13 + rs1 * 2 ^ 8 + funct3 * 2 ^ 5 + rd) op,
    )

-- A load that the assembler encodes, of a known funct3 below 8 and registers below 32, decodes to
-- that load, with the offset sign-extended from 12 bits.
decode-load :
    (f3 rd rs1 imm : ℕ) {op : LoadOp}
    → load_op f3 ≡ some op
    → f3 < 8
    → rd < 32
    → rs1 < 32
    → decode (i_type 0x03 f3 rd rs1 imm) ≡ load op rd rs1 (sext imm 12)
decode-load f3 rd rs1 imm {op} h hf hd hs =
    rw (i_type_sum 0x03 f3 rd rs1 imm (omega arith) hf hd hs) (
      fields (imm % 4096 * 2 ^ 20 + rs1 * 2 ^ 15 + f3 * 2 ^ 12 + rd * 2 ^ 7 + 0x03) (omega arith)
        (omega arith) (omega arith) (omega arith) (ground arith))
  where
    fields :
        (w : ℕ)
        → field w 0 7 ≡ 0x03
        → field w 12 3 ≡ f3
        → field w 7 5 ≡ rd
        → field w 15 5 ≡ rs1
        → sra_word w 20 ≡ sext imm 12
        → decode w ≡ load op rd rs1 (sext imm 12)
    fields w o f d s i = unfold decode i_imm in rw (o, f, d, s, i, h) refl

r_type_sum :
    (op funct3 funct7 rd rs1 rs2 : ℕ)
    → op < 128
    → funct3 < 8
    → funct7 < 128
    → rd < 32
    → rs1 < 32
    → rs2 < 32
    → r_type op funct3 funct7 rd rs1 rs2
      ≡ funct7 * 2 ^ 25 + rs2 * 2 ^ 20 + rs1 * 2 ^ 15 + funct3 * 2 ^ 12 + rd * 2 ^ 7 + op
unfolding r_type
r_type_sum op funct3 funct7 rd rs1 rs2 ho hf h7 hd hs ht = ground (
  arith,
  bit_or_fields 25 funct7 (rs2 * 2 ^ 20),
  bit_or_fields 20 (funct7 * 2 ^ 5 + rs2) (rs1 * 2 ^ 15),
  bit_or_fields 15 (funct7 * 2 ^ 10 + rs2 * 2 ^ 5 + rs1) (funct3 * 2 ^ 12),
  bit_or_fields 12 (funct7 * 2 ^ 13 + rs2 * 2 ^ 8 + rs1 * 2 ^ 3 + funct3) (rd * 2 ^ 7),
  bit_or_fields 7 (funct7 * 2 ^ 18 + rs2 * 2 ^ 13 + rs1 * 2 ^ 8 + funct3 * 2 ^ 5 + rd) op,
)

-- The register forms: every ALU operation, and every one of the M extension.
module _ (f3 f7 rd rs1 rs2 : ℕ) (hf : f3 < 8) (h7 : f7 < 128) (hd : rd < 32) (hs : rs1 < 32)
    (ht : rs2 < 32) where
  abbrev word : ℕ
  word = f7 * 2 ^ 25 + rs2 * 2 ^ 20 + rs1 * 2 ^ 15 + f3 * 2 ^ 12 + rd * 2 ^ 7 + 0x33

  r_fields :
      (field word 0 7 ≡ 0x33)
      × (field word 12 3 ≡ f3)
      × (field word 7 5 ≡ rd)
      × (field word 15 5 ≡ rs1)
      × (field word 20 5 ≡ rs2)
      × (field word 25 7 ≡ f7)
  r_fields = (omega arith, omega arith, omega arith, omega arith, omega arith, omega arith)

  -- A register operation that the assembler encodes, of known funct3 below 8 and funct7 below 128
  -- and registers below 32, decodes to that operation on those registers.
  decode-op_reg :
      {op : AluOp}
      → alu_op f3 f7 ≡ some op
      → decode (r_type 0x33 f3 f7 rd rs1 rs2) ≡ op_reg op rd rs1 rs2
  decode-op_reg {op} h =
      let f = r_fields in
      rw (r_type_sum 0x33 f3 f7 rd rs1 rs2 (omega arith) hf h7 hd hs ht)
        (decoded word (f.0) (f.1) (f.2) (f.3) (f.4) (f.5))
    where
      not_mul : (f7 == 1) ≡ false
      not_mul = unfold alu_op in ground arith

      decoded :
          (w : ℕ)
          → field w 0 7 ≡ 0x33
          → field w 12 3 ≡ f3
          → field w 7 5 ≡ rd
          → field w 15 5 ≡ rs1
          → field w 20 5 ≡ rs2
          → field w 25 7 ≡ f7
          → decode w ≡ op_reg op rd rs1 rs2
      decoded w o f d s t g = unfold decode in rw (o, f, d, s, t, g, not_mul, h) refl

  -- A multiplication or division that the assembler encodes, of a known funct3 below 8, funct7 1
  -- and registers below 32, decodes to that operation on those registers.
  decode-mul_reg :
      {op : MulOp}
      → f7 ≡ 1
      → mul_op f3 ≡ some op
      → decode (r_type 0x33 f3 f7 rd rs1 rs2) ≡ mul_reg op rd rs1 rs2
  decode-mul_reg {op} one h =
      let f = r_fields in
      rw (r_type_sum 0x33 f3 f7 rd rs1 rs2 (omega arith) hf h7 hd hs ht)
        (decoded word (f.0) (f.1) (f.2) (f.3) (f.4) (f.5 ∙ one))
    where
      decoded :
          (w : ℕ)
          → field w 0 7 ≡ 0x33
          → field w 12 3 ≡ f3
          → field w 7 5 ≡ rd
          → field w 15 5 ≡ rs1
          → field w 20 5 ≡ rs2
          → field w 25 7 ≡ 1
          → decode w ≡ mul_reg op rd rs1 rs2
      decoded w o f d s t g = unfold decode in rw (o, f, d, s, t, g, h) refl

b_type_sum :
    (funct3 rs1 rs2 imm : ℕ)
    → funct3 < 8
    → rs1 < 32
    → rs2 < 32
    → b_type 0x63 funct3 rs1 rs2 imm
      ≡ field imm 12 1 * 2 ^ 31
        + field imm 5 6 * 2 ^ 25
        + rs2 * 2 ^ 20
        + rs1 * 2 ^ 15
        + funct3 * 2 ^ 12
        + field imm 1 4 * 2 ^ 8
        + field imm 11 1 * 2 ^ 7
        + 0x63
unfolding b_type
b_type_sum funct3 rs1 rs2 imm hf hs ht =
    decoded (field imm 12 1) (field imm 5 6) (field imm 1 4) (field imm 11 1) (omega arith)
      (omega arith) (omega arith) (omega arith)
  where
    decoded :
        (a b c d : ℕ)
        → a < 2
        → b < 64
        → c < 16
        → d < 2
        → bit_or
            (bit_or
              (bit_or
                (bit_or
                  (bit_or (bit_or (bit_or (a * 2 ^ 31) (b * 2 ^ 25)) (rs2 * 2 ^ 20)) (rs1 * 2 ^ 15))
                  (funct3 * 2 ^ 12))
                (c * 2 ^ 8))
              (d * 2 ^ 7))
            0x63
          ≡ a * 2 ^ 31
            + b * 2 ^ 25
            + rs2 * 2 ^ 20
            + rs1 * 2 ^ 15
            + funct3 * 2 ^ 12
            + c * 2 ^ 8
            + d * 2 ^ 7
            + 0x63
    decoded a b c d ha hb hc hd = ground (
      arith,
      bit_or_fields 31 a (b * 2 ^ 25),
      bit_or_fields 25 (a * 2 ^ 6 + b) (rs2 * 2 ^ 20),
      bit_or_fields 20 (a * 2 ^ 11 + b * 2 ^ 5 + rs2) (rs1 * 2 ^ 15),
      bit_or_fields 15 (a * 2 ^ 16 + b * 2 ^ 10 + rs2 * 2 ^ 5 + rs1) (funct3 * 2 ^ 12),
      bit_or_fields 12 (a * 2 ^ 19 + b * 2 ^ 13 + rs2 * 2 ^ 8 + rs1 * 2 ^ 3 + funct3) (c * 2 ^ 8),
      bit_or_fields 8 (a * 2 ^ 23 + b * 2 ^ 17 + rs2 * 2 ^ 12 + rs1 * 2 ^ 7 + funct3 * 2 ^ 4 + c)
          (d * 2 ^ 7),
      bit_or_fields 7
          (a * 2 ^ 24 + b * 2 ^ 18 + rs2 * 2 ^ 13 + rs1 * 2 ^ 8 + funct3 * 2 ^ 5 + c * 2 + d) 0x63,
    )

b_imm_sum :
    (w a b c d imm : ℕ)
    → a < 2
    → b < 64
    → c < 16
    → d < 2
    → field w 31 1 ≡ a
    → field w 25 6 ≡ b
    → field w 8 4 ≡ c
    → field w 7 1 ≡ d
    → imm % 2 ^ 13 ≡ a * 2 ^ 12 + d * 2 ^ 11 + b * 2 ^ 5 + c * 2
    → b_imm w ≡ sext imm 13
unfolding b_imm
b_imm_sum w a b c d imm ha hb hc hd ea eb ec ed e =
    rw (ea, eb, ec, ed, bit_or_fields 12 a (d * 2 ^ 11) (omega arith)) (rw (lem, e) (ground arith))
  where
    lem :
        bit_or (bit_or (a * 2 ^ 12 + d * 2 ^ 11) (b * 2 ^ 5)) (c * 2 ^ 1)
        ≡ a * 2 ^ 12 + d * 2 ^ 11 + b * 2 ^ 5 + c * 2
    lem = ground (
      arith,
      bit_or_fields 11 (a * 2 + d) (b * 2 ^ 5),
      bit_or_fields 5 (a * 2 ^ 7 + d * 2 ^ 6 + b) (c * 2),
    )

-- A branch that the assembler encodes, of a known funct3, registers below 32 and an even offset,
-- decodes to that branch, with the offset sign-extended from 13 bits.
pub decode-branch :
    (f3 rs1 rs2 imm : ℕ) {op : BranchOp}
    → branch_op f3 ≡ some op
    → f3 < 8
    → rs1 < 32
    → rs2 < 32
    → imm % 2 ≡ 0
    → decode (b_type 0x63 f3 rs1 rs2 imm) ≡ branch op rs1 rs2 (sext imm 13)
decode-branch f3 rs1 rs2 imm {op} h hf hs ht even = rw (b_type_sum f3 rs1 rs2 imm hf hs ht) (
    decoded (field imm 12 1) (field imm 5 6) (field imm 1 4) (field imm 11 1) (omega arith)
      (omega arith) (omega arith) (omega arith) (omega arith))
  where
    fields :
        (w : ℕ)
        → field w 0 7 ≡ 0x63
        → field w 12 3 ≡ f3
        → field w 15 5 ≡ rs1
        → field w 20 5 ≡ rs2
        → b_imm w ≡ sext imm 13
        → decode w ≡ branch op rs1 rs2 (sext imm 13)
    fields w o f s t b = unfold decode in rw (o, f, s, t, b, h) refl

    decoded :
        (a b c d : ℕ)
        → a < 2
        → b < 64
        → c < 16
        → d < 2
        → imm % 2 ^ 13 ≡ a * 2 ^ 12 + d * 2 ^ 11 + b * 2 ^ 5 + c * 2
        → decode (
            a * 2 ^ 31
            + b * 2 ^ 25
            + rs2 * 2 ^ 20
            + rs1 * 2 ^ 15
            + f3 * 2 ^ 12
            + c * 2 ^ 8
            + d * 2 ^ 7
            + 0x63)
          ≡ branch op rs1 rs2 (sext imm 13)
    decoded a b c d ha hb hc hd e =
        let w =
          a * 2 ^ 31
          + b * 2 ^ 25
          + rs2 * 2 ^ 20
          + rs1 * 2 ^ 15
          + f3 * 2 ^ 12
          + c * 2 ^ 8
          + d * 2 ^ 7
          + 0x63 in
        fields w (omega arith) (omega arith) (omega arith) (omega arith) (
          b_imm_sum w a b c d imm ha hb hc hd (omega arith) (omega arith) (omega arith)
            (omega arith) e)
