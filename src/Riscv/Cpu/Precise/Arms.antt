-- ===== src/Riscv/Cpu/Precise/Arms.antt =====
-- The arms of `exec_one` are precise: one that traps has changed nothing that a program can see
-- (crates/fs-riscv/src/lib.rs).
use fuzzsoft.Base.{ℕ, zero, suc, ◌+◌, Bool}
use fuzzsoft.Bus.{Bus}
use fuzzsoft.Riscv.{
  AluOp, MulOp, AmoOp, BranchOp, LoadOp, StoreOp, CsrOp, Inst, lui, auipc, jal, jalr, branch, load,
  store, op_imm, op_reg, mul_reg, lr_w, sc_w, amo_w, fence, ecall, ebreak, csr_op, mret, sret, wfi,
  sfence_vma, illegal,
}
use fuzzsoft.Riscv.Cpu.{Trap, illegal_trap}
use fuzzsoft.Riscv.Cpu.Memory.{
  fetch16, load_bytewise, load_impl, store_bytewise, store_impl, load_taint_bytewise, load_taint,
  store_taint_bytewise, store_taint,
}
use fuzzsoft.Riscv.Cpu.Exec.Arms.{
  set_known, check_taint, exec_branch, exec_jalr, exec_op_imm, exec_op, exec_mul, exec_csr,
  exec_load, exec_store, exec_lr, exec_sc, exec_amo, execute,
}
use fuzzsoft.Riscv.Cpu.Precise.{Quiet, Precise, Sure, precise_rules}

module _ {S : Type 0} where
  check_taint-Quiet : (pc a b : ℕ) → Quiet {S = S} (check_taint pc a b)
  unfolding check_taint
  check_taint-Quiet pc a b = search precise_rules depth 20

  set_known-Sure : (rd v : ℕ) → Sure {S = S} (set_known rd v)
  unfolding set_known
  set_known-Sure rd v = search precise_rules depth 20

  exec_branch-Precise :
      (op : BranchOp) (a b imm pc next : ℕ) → Precise {S = S} (exec_branch op a b imm pc next)
  unfolding exec_branch
  exec_branch-Precise op a b imm pc next = search (precise_rules, check_taint-Quiet) depth 20

  exec_jalr-Precise : (rd a imm next : ℕ) → Precise {S = S} (exec_jalr rd a imm next)
  unfolding exec_jalr
  exec_jalr-Precise rd a imm next = search (precise_rules, set_known-Sure) depth 20

  exec_op_imm-Precise :
      (op : AluOp) (rd a imm next : ℕ) → Precise {S = S} (exec_op_imm op rd a imm next)
  unfolding exec_op_imm
  exec_op_imm-Precise op rd a imm next = search precise_rules depth 20

  exec_op-Precise : (op : AluOp) (rd a b next : ℕ) → Precise {S = S} (exec_op op rd a b next)
  unfolding exec_op
  exec_op-Precise op rd a b next = search precise_rules depth 20

  exec_mul-Precise :
      (op : MulOp) (rd a b pc next : ℕ) → Precise {S = S} (exec_mul op rd a b pc next)
  unfolding exec_mul
  exec_mul-Precise op rd a b pc next = search precise_rules depth 20

  exec_csr-Precise :
      (op : CsrOp) (rd src csr : ℕ) (t : Trap) (next : ℕ)
      → Precise {S = S} (exec_csr op rd src csr t next)
  unfolding exec_csr
  exec_csr-Precise op rd src csr t next = search precise_rules depth 20

module _ {S : Type 0} (bus : Bus S) where
  pub fetch16-Quiet : (va : ℕ) → Quiet (fetch16 bus va)
  unfolding fetch16
  fetch16-Quiet va = search precise_rules depth 20

  load_bytewise-Quiet : (va i n acc : ℕ) → Quiet (load_bytewise bus va i n acc)
  unfolding load_bytewise
  load_bytewise-Quiet va i zero acc = search precise_rules
  load_bytewise-Quiet va i (suc n) acc =
      search (precise_rules, load_bytewise-Quiet va (i + 1) n) depth 20

  store_bytewise-Quiet : (va i n val : ℕ) → Quiet (store_bytewise bus va i n val)
  unfolding store_bytewise
  store_bytewise-Quiet va i zero val = search precise_rules
  store_bytewise-Quiet va i (suc n) val =
      search (precise_rules, store_bytewise-Quiet va (i + 1) n) depth 20

  load_taint_bytewise-Quiet : (va i n mask : ℕ) → Quiet (load_taint_bytewise bus va i n mask)
  unfolding load_taint_bytewise
  load_taint_bytewise-Quiet va i zero mask = search precise_rules
  load_taint_bytewise-Quiet va i (suc n) mask =
      search (precise_rules, load_taint_bytewise-Quiet va (i + 1) n) depth 20

  store_taint_bytewise-Quiet : (va i n mask : ℕ) → Quiet (store_taint_bytewise bus va i n mask)
  unfolding store_taint_bytewise
  store_taint_bytewise-Quiet va i zero mask = search precise_rules
  store_taint_bytewise-Quiet va i (suc n) mask =
      search (precise_rules, store_taint_bytewise-Quiet va (i + 1) n) depth 20

  load_impl-Quiet : (va size : ℕ) (signed : Bool) → Quiet (load_impl bus va size signed)
  unfolding load_impl
  load_impl-Quiet va size signed = search (precise_rules, load_bytewise-Quiet) depth 20

  store_impl-Quiet : (va size val : ℕ) → Quiet (store_impl bus va size val)
  unfolding store_impl
  store_impl-Quiet va size val = search (precise_rules, store_bytewise-Quiet) depth 20

  load_taint-Quiet : (va size : ℕ) → Quiet (load_taint bus va size)
  unfolding load_taint
  load_taint-Quiet va size = search (precise_rules, load_taint_bytewise-Quiet) depth 20

  store_taint-Quiet : (va size mask : ℕ) → Quiet (store_taint bus va size mask)
  unfolding store_taint
  store_taint-Quiet va size mask = search (precise_rules, store_taint_bytewise-Quiet) depth 20

  exec_load-Precise : (op : LoadOp) (rd a imm next : ℕ) → Precise (exec_load bus op rd a imm next)
  unfolding exec_load
  exec_load-Precise op rd a imm next =
      search (precise_rules, load_impl-Quiet, load_taint-Quiet) depth 20

  exec_store-Precise : (op : StoreOp) (a b imm next : ℕ) → Precise (exec_store bus op a b imm next)
  unfolding exec_store
  exec_store-Precise op a b imm next =
      search (precise_rules, store_impl-Quiet, store_taint-Quiet) depth 20

  exec_lr-Precise : (rd a next : ℕ) → Precise (exec_lr bus rd a next)
  unfolding exec_lr
  exec_lr-Precise rd a next = search (precise_rules, load_impl-Quiet, load_taint-Quiet) depth 20

  exec_sc-Precise : (rd a b next : ℕ) → Precise (exec_sc bus rd a b next)
  unfolding exec_sc
  exec_sc-Precise rd a b next = search (precise_rules, store_impl-Quiet) depth 20

  exec_amo-Precise : (op : AmoOp) (rd a b next : ℕ) → Precise (exec_amo bus op rd a b next)
  unfolding exec_amo
  exec_amo-Precise op rd a b next = search precise_rules depth 20

module _ {S : Type 0} (bus : Bus S) where
  pub execute-Precise : (inst : Inst) (pc next iword : ℕ) → Precise (execute bus inst pc next iword)
  unfolding execute
  execute-Precise (lui rd imm) pc next iword = search (precise_rules, set_known-Sure) depth 20
  execute-Precise (auipc rd imm) pc next iword = search (precise_rules, set_known-Sure) depth 20
  execute-Precise (jal rd imm) pc next iword = search (precise_rules, set_known-Sure) depth 20
  execute-Precise (jalr rd rs1 imm) pc next iword = exec_jalr-Precise rd rs1 imm next
  execute-Precise (branch op rs1 rs2 imm) pc next iword = exec_branch-Precise op rs1 rs2 imm pc next
  execute-Precise (load op rd rs1 imm) pc next iword = exec_load-Precise bus op rd rs1 imm next
  execute-Precise (store op rs1 rs2 imm) pc next iword = exec_store-Precise bus op rs1 rs2 imm next
  execute-Precise (op_imm op rd rs1 imm) pc next iword = exec_op_imm-Precise op rd rs1 imm next
  execute-Precise (op_reg op rd rs1 rs2) pc next iword = exec_op-Precise op rd rs1 rs2 next
  execute-Precise (mul_reg op rd rs1 rs2) pc next iword = exec_mul-Precise op rd rs1 rs2 pc next
  execute-Precise (lr_w rd rs1 aq rl) pc next iword = exec_lr-Precise bus rd rs1 next
  execute-Precise (sc_w rd rs1 rs2 aq rl) pc next iword = exec_sc-Precise bus rd rs1 rs2 next
  execute-Precise (amo_w op rd rs1 rs2 aq rl) pc next iword =
      exec_amo-Precise bus op rd rs1 rs2 next
  execute-Precise fence pc next iword = search precise_rules
  execute-Precise ecall pc next iword = search precise_rules
  execute-Precise ebreak pc next iword = search precise_rules
  execute-Precise (csr_op op rd src csr) pc next iword =
      exec_csr-Precise op rd src csr (illegal_trap pc iword) next
  execute-Precise mret pc next iword = search precise_rules depth 20
  execute-Precise sret pc next iword = search precise_rules depth 20
  execute-Precise wfi pc next iword = search precise_rules
  execute-Precise sfence_vma pc next iword = search precise_rules depth 20
  execute-Precise (illegal raw) pc next iword = search precise_rules
