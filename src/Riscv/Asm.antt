-- ===== src/Riscv/Asm.antt =====
-- The instruction encoders of crates/fs-riscv/src/asm.rs. Immediates are words, as in `Inst`.
pub mod Roundtrip
use fuzzsoft.Base.{ℕ, ◌*◌, ◌^◌, bit_or}
use fuzzsoft.Riscv.{field}

unfoldable pub i_type : ℕ → ℕ → ℕ → ℕ → ℕ → ℕ
i_type op funct3 rd rs1 imm =
    bit_or
      (bit_or (bit_or (bit_or (field imm 0 12 * 2 ^ 20) (rs1 * 2 ^ 15)) (funct3 * 2 ^ 12))
        (rd * 2 ^ 7))
      op

unfoldable pub r_type : ℕ → ℕ → ℕ → ℕ → ℕ → ℕ → ℕ
r_type op funct3 funct7 rd rs1 rs2 =
    bit_or
      (bit_or
        (bit_or (bit_or (bit_or (funct7 * 2 ^ 25) (rs2 * 2 ^ 20)) (rs1 * 2 ^ 15)) (funct3 * 2 ^ 12))
        (rd * 2 ^ 7))
      op

unfoldable pub b_type : ℕ → ℕ → ℕ → ℕ → ℕ → ℕ
b_type op funct3 rs1 rs2 imm =
    bit_or
      (bit_or
        (bit_or
          (bit_or
            (bit_or
              (bit_or (bit_or (field imm 12 1 * 2 ^ 31) (field imm 5 6 * 2 ^ 25)) (rs2 * 2 ^ 20))
              (rs1 * 2 ^ 15))
            (funct3 * 2 ^ 12))
          (field imm 1 4 * 2 ^ 8))
        (field imm 11 1 * 2 ^ 7))
      op

unfoldable pub j_type : ℕ → ℕ → ℕ → ℕ
j_type op rd imm =
    bit_or
      (bit_or
        (bit_or
          (bit_or (bit_or (field imm 20 1 * 2 ^ 31) (field imm 1 10 * 2 ^ 21))
            (field imm 11 1 * 2 ^ 20))
          (field imm 12 8 * 2 ^ 12))
        (rd * 2 ^ 7))
      op

unfoldable pub encode_lui : ℕ → ℕ → ℕ
encode_lui rd imm = bit_or (bit_or (field imm 12 20 * 2 ^ 12) (rd * 2 ^ 7)) 0x37

-- `sw`, the one S-type encoder.
unfoldable pub encode_sw : ℕ → ℕ → ℕ → ℕ
encode_sw rs1 rs2 imm =
    bit_or
      (bit_or
        (bit_or (bit_or (bit_or (field imm 5 7 * 2 ^ 25) (rs2 * 2 ^ 20)) (rs1 * 2 ^ 15))
          (2 * 2 ^ 12))
        (field imm 0 5 * 2 ^ 7))
      0x23

unfoldable pub encode_amo : ℕ → ℕ → ℕ → ℕ → ℕ
encode_amo funct5 rd rs1 rs2 =
    bit_or
      (bit_or
        (bit_or (bit_or (bit_or (funct5 * 2 ^ 27) (rs2 * 2 ^ 20)) (rs1 * 2 ^ 15)) (2 * 2 ^ 12))
        (rd * 2 ^ 7))
      0x2f
