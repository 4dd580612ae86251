-- ===== src/Riscv/Cpu/Agree/Arms.antt =====
-- The arms of `exec_one` over two memories that answer alike (crates/fs-riscv/src/lib.rs).
use fuzzsoft.Base.{ℕ, zero, suc, ◌+◌, ◌<◌, Bool, Result, ok, err, arith, if◌then◌else◌}
use fuzzsoft.Fault.{Access}
use fuzzsoft.Bus.{Bus}
use fuzzsoft.Riscv.{
  AluOp, MulOp, AmoOp, BranchOp, LoadOp, StoreOp, CsrOp, Inst, lui, auipc, jal, jalr, branch, load,
  store, op_imm, op_reg, mul_reg, lr_w, sc_w, amo_w, fence, ecall, ebreak, csr_op, mret, sret, wfi,
  sfence_vma, illegal,
}
use fuzzsoft.Riscv.Cpu.{Cpu, Trap, Exit, illegal_trap}
use fuzzsoft.Riscv.Cpu.Memory.{
  translate, fetch16, load_bytewise, load_impl, store_bytewise, store_impl,
}
use fuzzsoft.Riscv.Cpu.Monad.{on_bus}
use fuzzsoft.Riscv.Cpu.Exec.{store_size}
use fuzzsoft.Riscv.Cpu.Exec.Arms.{
  set_known, check_taint, exec_branch, exec_jalr, exec_op_imm, exec_op, exec_mul, exec_csr,
  exec_load, exec_store, exec_lr, exec_sc, exec_amo, execute, retire, exec_one,
}
use fuzzsoft.Riscv.Cpu.Frames.{Frame, Frame-refl, wr_reg-Frame, wr_taint-Frame, Leaves}
use fuzzsoft.Riscv.Cpu.Frames.Arms.{
  changes_rules, csr_access-Leaves, exec_mret-Leaves, exec_sret-Leaves,
}
use fuzzsoft.Riscv.Cpu.Agree.{
  Untracked, StaysUntracked, Concord, Answers, Sim, Sim-pure, Sim-raise, Sim-gets, Sim-peek,
  Sim-on_bus, Sim-update, Sim-if, Sim-modify, Sim-bind, Sim-kmsan, Sim-translate,
}

pub Frame-Untracked : (c d : Cpu) → Frame c d → Untracked c → Untracked d
Frame-Untracked c d f u = f.untracked u

pub Leaves-StaysUntracked :
    {A : Type 0} (c : Cpu) (r : Result (A × Cpu) Trap) → Leaves c r → Untracked c → StaysUntracked r
Leaves-StaysUntracked c (ok (a, d)) f u = f.untracked u
Leaves-StaysUntracked c (err t) f u = tt

pub retired-Untracked :
    (next : ℕ) (c : Cpu)
    → Untracked c
    → Untracked (record c { pc = next; insns_retired = c.insns_retired + 1 })
retired-Untracked next c u = u

pub ruleset agree_rules = (
  Sim-pure, Sim-raise, Sim-gets, Sim-peek, Sim-on_bus, Sim-update, Sim-if, Sim-modify, Sim-bind,
  Sim-kmsan, Frame-Untracked, Leaves-StaysUntracked, retired-Untracked, changes_rules, Frame-refl,
  wr_reg-Frame, wr_taint-Frame,
)

one_byte : 0 < 1
one_byte = omega arith

four_bytes : 0 < 4
four_bytes = omega arith

-- The size of a store, which is 4 at the HTIF address.
stored_size_some : (op : StoreOp) (htif : Bool) → 0 < (if htif then 4 else store_size op)
stored_size_some StoreOp.sb htif = ground arith
stored_size_some StoreOp.sh htif = ground arith
stored_size_some StoreOp.sw htif = ground arith

module _ {S T : Type 0} {R : S → T → Type 0} where
  check_taint-Sim : (pc a b : ℕ) → Sim R (check_taint pc a b) (check_taint pc a b)
  unfolding check_taint
  check_taint-Sim pc a b = search agree_rules depth 20

  set_known-Sim : (rd v : ℕ) → Sim R (set_known rd v) (set_known rd v)
  unfolding set_known
  set_known-Sim rd v = search agree_rules depth 20

  exec_branch-Sim :
      (op : BranchOp) (a b imm pc next : ℕ)
      → Sim R (exec_branch op a b imm pc next) (exec_branch op a b imm pc next)
  unfolding exec_branch
  exec_branch-Sim op a b imm pc next = search (agree_rules, check_taint-Sim) depth 20

  exec_jalr-Sim : (rd a imm next : ℕ) → Sim R (exec_jalr rd a imm next) (exec_jalr rd a imm next)
  unfolding exec_jalr
  exec_jalr-Sim rd a imm next = search (agree_rules, set_known-Sim) depth 20

  exec_op_imm-Sim :
      (op : AluOp) (rd a imm next : ℕ)
      → Sim R (exec_op_imm op rd a imm next) (exec_op_imm op rd a imm next)
  unfolding exec_op_imm
  exec_op_imm-Sim op rd a imm next = search agree_rules depth 20

  exec_op-Sim :
      (op : AluOp) (rd a b next : ℕ) → Sim R (exec_op op rd a b next) (exec_op op rd a b next)
  unfolding exec_op
  exec_op-Sim op rd a b next = search agree_rules depth 20

  exec_mul-Sim :
      (op : MulOp) (rd a b pc next : ℕ)
      → Sim R (exec_mul op rd a b pc next) (exec_mul op rd a b pc next)
  unfolding exec_mul
  exec_mul-Sim op rd a b pc next = search agree_rules depth 20

  exec_csr-Sim :
      (op : CsrOp) (rd src csr : ℕ) (t : Trap) (next : ℕ)
      → Sim R (exec_csr op rd src csr t next) (exec_csr op rd src csr t next)
  unfolding exec_csr
  exec_csr-Sim op rd src csr t next = search (agree_rules, csr_access-Leaves) depth 20

  retire-Sim : (done : ℕ × Exit) → Sim R (retire done) (retire done)
  unfolding retire
  retire-Sim done = search agree_rules depth 20

module _ {S T : Type 0} {R : S → T → Type 0} (near : Bus S) (far : Bus T)
    (same : Answers R near far) where
  translate-Sim :
      (va : ℕ) (access : Access) → Sim R (translate near va access) (translate far va access)
  translate-Sim va access = Sim-translate near far same access va

  pub fetch16-Sim : (va : ℕ) → Sim R (fetch16 near va) (fetch16 far va)
  unfolding fetch16
  fetch16-Sim va = search (agree_rules, translate-Sim, same.fetches) depth 20

  -- A store of one byte or more.
  stored-Sim :
      (pa size val : ℕ)
      → 0 < size
      → Sim R (on_bus (λ s. near.store s pa size val)) (on_bus (λ t. far.store t pa size val))
  stored-Sim pa size val some_byte =
      Sim-on_bus _ _ (λ s t h. same.stores s t h pa size val some_byte)

  load_bytewise-Sim :
      (va i n acc : ℕ) → Sim R (load_bytewise near va i n acc) (load_bytewise far va i n acc)
  unfolding load_bytewise
  load_bytewise-Sim va i zero acc = search agree_rules
  load_bytewise-Sim va i (suc n) acc =
      search (agree_rules, translate-Sim, same.loads, load_bytewise-Sim va (i + 1) n) depth 20

  store_bytewise-Sim :
      (va i n val : ℕ) → Sim R (store_bytewise near va i n val) (store_bytewise far va i n val)
  unfolding store_bytewise
  store_bytewise-Sim va i zero val = search agree_rules
  store_bytewise-Sim va i (suc n) val =
      search (agree_rules, translate-Sim, stored-Sim, one_byte, store_bytewise-Sim va (i + 1) n)
        depth 20

  load_impl-Sim :
      (va size : ℕ) (signed : Bool)
      → Sim R (load_impl near va size signed) (load_impl far va size signed)
  unfolding load_impl
  load_impl-Sim va size signed =
      search (agree_rules, translate-Sim, same.loads, load_bytewise-Sim) depth 20

  store_impl-Sim :
      (va size val : ℕ)
      → 0 < size
      → Sim R (store_impl near va size val) (store_impl far va size val)
  unfolding store_impl
  store_impl-Sim va size val some_byte =
      search (agree_rules, translate-Sim, stored-Sim, store_bytewise-Sim) depth 20

  exec_load-Sim :
      (op : LoadOp) (rd a imm next : ℕ)
      → Sim R (exec_load near op rd a imm next) (exec_load far op rd a imm next)
  unfolding exec_load
  exec_load-Sim op rd a imm next = search (agree_rules, load_impl-Sim) depth 20

  exec_store-Sim :
      (op : StoreOp) (a b imm next : ℕ)
      → Sim R (exec_store near op a b imm next) (exec_store far op a b imm next)
  unfolding exec_store
  exec_store-Sim op a b imm next =
      search (agree_rules, store_impl-Sim, stored_size_some op) depth 20

  exec_lr-Sim : (rd a next : ℕ) → Sim R (exec_lr near rd a next) (exec_lr far rd a next)
  unfolding exec_lr
  exec_lr-Sim rd a next = search (agree_rules, load_impl-Sim) depth 20

  exec_sc-Sim : (rd a b next : ℕ) → Sim R (exec_sc near rd a b next) (exec_sc far rd a b next)
  unfolding exec_sc
  exec_sc-Sim rd a b next = search (agree_rules, store_impl-Sim, four_bytes) depth 20

  exec_amo-Sim :
      (op : AmoOp) (rd a b next : ℕ)
      → Sim R (exec_amo near op rd a b next) (exec_amo far op rd a b next)
  unfolding exec_amo
  exec_amo-Sim op rd a b next =
      search (agree_rules, translate-Sim, same.loads, stored-Sim, four_bytes, same.raw_states) depth
        20

module _ {S T : Type 0} {R : S → T → Type 0} (near : Bus S) (far : Bus T)
    (same : Answers R near far) where
  execute-Sim :
      (inst : Inst) (pc next iword : ℕ)
      → Sim R (execute near inst pc next iword) (execute far inst pc next iword)
  unfolding execute
  execute-Sim (lui rd imm) pc next iword = search (agree_rules, set_known-Sim) depth 20
  execute-Sim (auipc rd imm) pc next iword = search (agree_rules, set_known-Sim) depth 20
  execute-Sim (jal rd imm) pc next iword = search (agree_rules, set_known-Sim) depth 20
  execute-Sim (jalr rd rs1 imm) pc next iword = exec_jalr-Sim rd rs1 imm next
  execute-Sim (branch op rs1 rs2 imm) pc next iword = exec_branch-Sim op rs1 rs2 imm pc next
  execute-Sim (load op rd rs1 imm) pc next iword = exec_load-Sim near far same op rd rs1 imm next
  execute-Sim (store op rs1 rs2 imm) pc next iword =
      exec_store-Sim near far same op rs1 rs2 imm next
  execute-Sim (op_imm op rd rs1 imm) pc next iword = exec_op_imm-Sim op rd rs1 imm next
  execute-Sim (op_reg op rd rs1 rs2) pc next iword = exec_op-Sim op rd rs1 rs2 next
  execute-Sim (mul_reg op rd rs1 rs2) pc next iword = exec_mul-Sim op rd rs1 rs2 pc next
  execute-Sim (lr_w rd rs1 aq rl) pc next iword = exec_lr-Sim near far same rd rs1 next
  execute-Sim (sc_w rd rs1 rs2 aq rl) pc next iword = exec_sc-Sim near far same rd rs1 rs2 next
  execute-Sim (amo_w op rd rs1 rs2 aq rl) pc next iword =
      exec_amo-Sim near far same op rd rs1 rs2 next
  execute-Sim fence pc next iword = Sim-pure _
  execute-Sim ecall pc next iword = Sim-pure _
  execute-Sim ebreak pc next iword = Sim-pure _
  execute-Sim (csr_op op rd src csr) pc next iword =
      exec_csr-Sim op rd src csr (illegal_trap pc iword) next
  execute-Sim mret pc next iword = search (agree_rules, exec_mret-Leaves) depth 20
  execute-Sim sret pc next iword = search (agree_rules, exec_sret-Leaves) depth 20
  execute-Sim wfi pc next iword = Sim-pure _
  execute-Sim sfence_vma pc next iword = search agree_rules depth 20
  execute-Sim (illegal raw) pc next iword = Sim-raise _

  pub exec_one-Sim :
      (inst : Inst) (pc ilen iword : ℕ)
      → Sim R (exec_one near inst pc ilen iword) (exec_one far inst pc ilen iword)
  unfolding exec_one
  exec_one-Sim inst pc ilen iword = search (agree_rules, execute-Sim, retire-Sim) depth 20
