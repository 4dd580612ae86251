-- ===== src/Riscv/Cpu/Exec/Arms.antt =====
-- `exec_one`: a helper for each arm of its match that does more than set a register, and the
-- retirement that all arms share (crates/fs-riscv/src/lib.rs). An arm gives the next pc and the
-- exit.
use fuzzsoft.Base.{
  ℕ, ◌+◌, ◌/◌, false, ◌&&◌, ◌||◌, not, none, some, bit_and, nonzero, ◌==◌, if◌then◌else◌,
}
use fuzzsoft.Fault.{write, u32}
use fuzzsoft.Bus.{Bus}
use fuzzsoft.Riscv.{
  AluOp, MulOp, AmoOp, BranchOp, LoadOp, StoreOp, CsrOp, Inst, lui, auipc, jal, jalr, branch, load,
  store, op_imm, op_reg, mul_reg, lr_w, sc_w, amo_w, fence, ecall, ebreak, csr_op, mret, sret, wfi,
  sfence_vma, illegal,
}
use fuzzsoft.Riscv.Alu.{alu, muldiv, alu_taint, muldiv_taint}
use fuzzsoft.Riscv.Csr.{not_u32}
use fuzzsoft.Riscv.Cpu.{
  Exit, go_on, ecall_exit, ebreak_exit, halt, Trap, illegal_trap, kmsan_tainted, rd_reg, rd_taint,
  wr_taint, push_log, empty_tlb,
}
use fuzzsoft.Riscv.Cpu.Monad.{
  Hart, pure, raise, gets, modify, update, on_bus, peek, raise_if, when, ◌>>=◌, ◌>>◌,
}
use fuzzsoft.Riscv.Cpu.Memory.{
  translate, load_impl, store_impl, load_taint, store_taint, extend_load_taint,
}
use fuzzsoft.Riscv.Cpu.Traps.{exec_mret, exec_sret}
use fuzzsoft.Riscv.Cpu.Exec.{
  kmsan_enabled, taint_with, write_reg, taken, log_cmp, load_shape, store_size, is_sw, is_some_of,
  amo_result, logs_compare, is_division, csr_access,
}

-- A register write of a value that is fully known.
unfoldable pub set_known : {S : Type 0} → ℕ → ℕ → Hart S (Unit {0})
set_known rd v = do write_reg rd v; taint_with rd (λ _. 0)

-- The branch's checkpoint of the taint oracle.
unfoldable pub check_taint : {S : Type 0} → ℕ → ℕ → ℕ → Hart S (Unit {0})
check_taint pc rs1 rs2 = do
  on ← gets kmsan_enabled
  taint_a ← gets (λ c. rd_taint c rs1)
  taint_b ← gets (λ c. rd_taint c rs2)
  raise_if (on && (not (taint_a == 0) || not (taint_b == 0)))
      (kmsan_tainted pc rs1 rs2 taint_a taint_b)

unfoldable pub exec_branch : {S : Type 0} → BranchOp → ℕ → ℕ → ℕ → ℕ → ℕ → Hart S (ℕ × Exit)
unfolding check_taint
exec_branch op rs1 rs2 imm pc next = do
  a ← gets (λ c. rd_reg c rs1)
  b ← gets (λ c. rd_reg c rs2)
  modify (log_cmp (a, b))
  check_taint pc rs1 rs2
  pure (if taken op a b then u32 (pc + imm) else next, go_on)

unfoldable pub exec_jalr : {S : Type 0} → ℕ → ℕ → ℕ → ℕ → Hart S (ℕ × Exit)
unfolding set_known
exec_jalr rd rs1 imm next = do
  target ← gets (λ c. bit_and (u32 (rd_reg c rs1 + imm)) (not_u32 1))
  set_known rd next
  pure (target, go_on)

unfoldable pub exec_op_imm : {S : Type 0} → AluOp → ℕ → ℕ → ℕ → ℕ → Hart S (ℕ × Exit)
exec_op_imm op rd rs1 imm next = do
  ra ← gets (λ c. rd_reg c rs1)
  taint_with rd (λ c. alu_taint op ra (rd_taint c rs1) imm 0)
  write_reg rd (alu op ra imm)
  pure (next, go_on)

unfoldable pub exec_op : {S : Type 0} → AluOp → ℕ → ℕ → ℕ → ℕ → Hart S (ℕ × Exit)
exec_op op rd rs1 rs2 next = do
  ra ← gets (λ c. rd_reg c rs1)
  rb ← gets (λ c. rd_reg c rs2)
  modify (λ c. if logs_compare op then log_cmp (ra, rb) c else c)
  taint_with rd (λ c. alu_taint op ra (rd_taint c rs1) rb (rd_taint c rs2))
  write_reg rd (alu op ra rb)
  pure (next, go_on)

-- UBSAN: a division by zero is logged, it does not trap.
unfoldable pub exec_mul : {S : Type 0} → MulOp → ℕ → ℕ → ℕ → ℕ → ℕ → Hart S (ℕ × Exit)
exec_mul op rd rs1 rs2 pc next = do
  a ← gets (λ c. rd_reg c rs1)
  b ← gets (λ c. rd_reg c rs2)
  modify (λ c. if is_division op && b == 0 then record c { ubsan = push_log c.ubsan pc } else c)
  taint_with rd (λ c. muldiv_taint op a (rd_taint c rs1) b (rd_taint c rs2))
  write_reg rd (muldiv op a b)
  pure (next, go_on)

unfoldable pub exec_csr : {S : Type 0} → CsrOp → ℕ → ℕ → ℕ → Trap → ℕ → Hart S (ℕ × Exit)
exec_csr op rd src csr illegal_here next = do
  old ← update (csr_access op src csr illegal_here)
  taint_with rd (λ _. 0)
  write_reg rd old
  pure (next, go_on)

-- `self.pc = next; self.insns_retired += 1; Ok(exit)`.
unfoldable pub retire : {S : Type 0} → ℕ × Exit → Hart S Exit
retire (next, exit) = do
  modify (λ c. record c { pc = next; insns_retired = c.insns_retired + 1 })
  pure exit

module _ {S : Type 0} (bus : Bus S) where
  unfoldable pub exec_load : LoadOp → ℕ → ℕ → ℕ → ℕ → Hart S (ℕ × Exit)
  exec_load op rd rs1 imm next = do
    addr ← gets (λ c. u32 (rd_reg c rs1 + imm))
    let size = (load_shape op).0
    let signed = (load_shape op).1
    v ← load_impl bus addr size signed
    on ← gets kmsan_enabled
    when on (
        load_taint bus addr size >>= λ mask.
        modify (λ c. wr_taint c rd (extend_load_taint mask size signed)))
    write_reg rd v
    pure (next, go_on)

  -- A word store to `tohost` with bit 0 set is an exit request.
  unfoldable pub exec_store : StoreOp → ℕ → ℕ → ℕ → ℕ → Hart S (ℕ × Exit)
  exec_store op rs1 rs2 imm next = do
    addr ← gets (λ c. u32 (rd_reg c rs1 + imm))
    val ← gets (λ c. rd_reg c rs2)
    on ← gets kmsan_enabled
    taint ← gets (λ c. rd_taint c rs2)
    htif ← gets (λ c. is_sw op && is_some_of c.htif_tohost addr)
    let size = if htif then 4 else store_size op
    store_impl bus addr size val
    when on (store_taint bus addr size taint)
    pure (next, (if htif && nonzero (bit_and val 1) then halt (val / 2) else go_on))

  unfoldable pub exec_lr : ℕ → ℕ → ℕ → Hart S (ℕ × Exit)
  exec_lr rd rs1 next = do
    addr ← gets (λ c. rd_reg c rs1)
    v ← load_impl bus addr 4 false
    on ← gets kmsan_enabled
    when on (load_taint bus addr 4 >>= λ mask. modify (λ c. wr_taint c rd mask))
    modify (λ c. record c { reservation = some addr })
    write_reg rd v
    pure (next, go_on)

  unfoldable pub exec_sc : ℕ → ℕ → ℕ → ℕ → Hart S (ℕ × Exit)
  exec_sc rd rs1 rs2 next = do
    addr ← gets (λ c. rd_reg c rs1)
    success ← gets (λ c. is_some_of c.reservation addr)
    v ← gets (λ c. rd_reg c rs2)
    when success (store_impl bus addr 4 v)
    modify (λ c. record c { reservation = none })
    taint_with rd (λ _. 0)
    write_reg rd (if success then 0 else 1)
    pure (next, go_on)

  unfoldable pub exec_amo : AmoOp → ℕ → ℕ → ℕ → ℕ → Hart S (ℕ × Exit)
  exec_amo op rd rs1 rs2 next = do
    addr ← gets (λ c. rd_reg c rs1)
    pa ← translate bus addr write
    old ← on_bus (λ s. bus.load s pa 4)
    src ← gets (λ c. rd_reg c rs2)
    mask ← peek (λ s. bus.read_raw_state s pa 4)
    taint_with rd (λ _. mask)
    on_bus (λ s. bus.store s pa 4 (amo_result op old src))
    modify (λ c. record c { reservation = none })
    write_reg rd old
    pure (next, go_on)

  -- The match of `exec_one`; `next` is the address of the instruction that follows.
  unfoldable pub execute : Inst → ℕ → ℕ → ℕ → Hart S (ℕ × Exit)
  unfolding set_known
  execute (lui rd imm) pc next iword = do set_known rd imm; pure (next, go_on)
  execute (auipc rd imm) pc next iword = do set_known rd (u32 (pc + imm)); pure (next, go_on)
  execute (jal rd imm) pc next iword = do set_known rd next; pure (u32 (pc + imm), go_on)
  execute (jalr rd rs1 imm) pc next iword = exec_jalr rd rs1 imm next
  execute (branch op rs1 rs2 imm) pc next iword = exec_branch op rs1 rs2 imm pc next
  execute (load op rd rs1 imm) pc next iword = exec_load op rd rs1 imm next
  execute (store op rs1 rs2 imm) pc next iword = exec_store op rs1 rs2 imm next
  execute (op_imm op rd rs1 imm) pc next iword = exec_op_imm op rd rs1 imm next
  execute (op_reg op rd rs1 rs2) pc next iword = exec_op op rd rs1 rs2 next
  execute (mul_reg op rd rs1 rs2) pc next iword = exec_mul op rd rs1 rs2 pc next
  execute (lr_w rd rs1 aq rl) pc next iword = exec_lr rd rs1 next
  execute (sc_w rd rs1 rs2 aq rl) pc next iword = exec_sc rd rs1 rs2 next
  execute (amo_w op rd rs1 rs2 aq rl) pc next iword = exec_amo op rd rs1 rs2 next
  execute fence pc next iword = pure (next, go_on)
  execute ecall pc next iword = pure (pc, ecall_exit)
  execute ebreak pc next iword = pure (pc, ebreak_exit)
  execute (csr_op op rd src csr) pc next iword = exec_csr op rd src csr (illegal_trap pc iword) next
  execute mret pc next iword = do
    next_pc ← update (λ c. exec_mret c pc iword)
    pure (next_pc, go_on)
  execute sret pc next iword = do
    next_pc ← update (λ c. exec_sret c pc iword)
    pure (next_pc, go_on)
  execute wfi pc next iword = pure (next, go_on)
  execute sfence_vma pc next iword = do
    modify (λ c. record c { tlb = empty_tlb })
    pure (next, go_on)
  execute (illegal raw) pc next iword = raise (illegal_trap pc raw)

  unfoldable pub exec_one : Inst → ℕ → ℕ → ℕ → Hart S Exit
  unfolding execute retire
  exec_one inst pc ilen iword = execute inst pc (u32 (pc + ilen)) iword >>= retire
